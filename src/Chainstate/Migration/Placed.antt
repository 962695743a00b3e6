-- ===== src/Chainstate/Migration/Placed.antt =====
-- `PushElementToPlace` puts the element at its place and keeps the others.
use bitcoin_utxo_indexer.Prelude.{
  ℕ, zero, suc, ◌+◌, ◌-◌, ◌<◌, ◌≤◌, false, List, [], ◌∷◌, ◌++◌, Option, none, some, ◌==◌, ◌≡◌, ◌≢◌,
  refl, sym, ap, ◌∙◌, ltb, length, set, get_elem?, replicate, arith, length-replicate,
  length-append, length-set, get_elem?-set_self, get_elem?-set_ne, Bool-cases, inl, inr, ltb→lt,
  ==_iff,
}
use mathlib.Core.Path.{subst}
use bitcoin_utxo_indexer.Utxo.Outcome.{ok}
use bitcoin_utxo_indexer.Utxo.Block.{pos}
use bitcoin_utxo_indexer.Chainstate.Migration.{push_element_to_place}

-- The element stands at its place, every other index has what it had, gaps are nil, and the list is as
-- long as it was, or ends with the element.
pub record Placed {A : Type 0} (list : List (Option A)) (element : Option A) (place : ℕ)
    (result : List (Option A)) : Type 0 where
  pub at_place : get_elem? result place ≡ some element
  pub before : (i : ℕ) → i < length list → i ≢ place → get_elem? result i ≡ get_elem? list i
  pub gap : (i : ℕ) → length list ≤ i → i < place → get_elem? result i ≡ some none
  pub same_size : place < length list → length result ≡ length list
  pub new_size : length list ≤ place → length result ≡ place + 1

module _ {A : Type 0} where
  get_left : (xs ys : List A) (i : ℕ) → i < length xs → get_elem? (xs ++ ys) i ≡ get_elem? xs i
  get_left [] ys i h = absurd (omega arith)
  get_left (x ∷ xs) ys zero h = refl
  get_left (x ∷ xs) ys (suc i) h = get_left xs ys i (omega arith)

  get_right :
      (xs ys : List A) (i : ℕ)
      → length xs ≤ i
      → get_elem? (xs ++ ys) i ≡ get_elem? ys (i - length xs)
  get_right [] ys i h = ap (get_elem? ys) (omega arith)
  get_right (x ∷ xs) ys zero h = absurd (omega arith)
  get_right (x ∷ xs) ys (suc i) h =
      let count : i - length xs ≡ suc i - suc (length xs) = omega arith in
      get_right xs ys i (omega arith) ∙ ap (get_elem? ys) count

  get_replicate : (n i : ℕ) (a : A) → i < n → get_elem? (replicate n a) i ≡ some a
  get_replicate zero i a h = absurd (omega arith)
  get_replicate (suc n) zero a h = refl
  get_replicate (suc n) (suc i) a h = get_replicate n i a (omega arith)

ltb→le : (a b : ℕ) → ltb a b ≡ false → b ≤ a
ltb→le a b h = ground arith

-- Appending after a gap of any size.
appended-Placed :
    {A : Type 0} (list : List (Option A)) (element : Option A) (gap : ℕ)
    → Placed list element (length list + gap) (list ++ (replicate gap none ++ (element ∷ [])))
appended-Placed {A} list element gap =
    let rest : List (Option A) = replicate gap none ++ (element ∷ []) in
    let size = length-replicate {A = Option A} gap none in
    record {
      at_place =
          let here : length list + gap - length list ≡ gap = omega arith in
          let none_left : gap - length (replicate {A = Option A} gap none) ≡ 0 = omega arith in
          get_right list rest (length list + gap) (omega arith)
          ∙ ap (get_elem? rest) here
          ∙ get_right (replicate gap none) (element ∷ []) gap (omega arith)
          ∙ ap (get_elem? (element ∷ [])) none_left;
      before = λ i lt ne. get_left list rest i lt;
      gap = λ i le lt.
          get_right list rest i le
          ∙ get_left (replicate gap none) (element ∷ []) (i - length list) (omega arith)
          ∙ get_replicate gap (i - length list) none (omega arith);
      same_size = λ h. absurd (omega arith);
      new_size = λ h. omega (
        arith,
        size,
        length-append list rest,
        length-append {A = Option A} (replicate gap none) (element ∷ []),
      );
    }

module _ {A : Type 0} (list : List (Option A)) (element : Option A) where
  replaced-Placed :
      (place : ℕ) → place < length list → Placed list element place (set list place element)
  replaced-Placed place h = record {
    at_place = get_elem?-set_self list place element h;
    before = λ i lt ne. get_elem?-set_ne list place i element (λ e. ne (sym e));
    gap = λ i le lt. absurd (omega arith);
    same_size = λ h'. length-set list place element;
    new_size = λ h'. absurd (omega arith);
  }

  behind-Placed :
      (place : ℕ)
      → length list ≤ place
      → Placed list element place (list ++ (replicate (place - length list) none ++ (element ∷ [])))
  behind-Placed place h =
      let count : length list + (place - length list) ≡ place = omega arith in
      subst
        (λ (n : ℕ).
          Placed list element n (list ++ (replicate (place - length list) none ++ (element ∷ []))))
        count (appended-Placed list element (place - length list))

  next-Placed :
      (place : ℕ) → length list ≡ place → Placed list element place (list ++ (element ∷ []))
  next-Placed place e =
      let count : length list + 0 ≡ place = omega (arith, e) in
      subst (λ (n : ℕ). Placed list element n (list ++ (element ∷ []))) count
        (appended-Placed list element 0)

  -- At a place that is not negative `PushElementToPlace` ends without an error. The element then
  -- stands at its place, every other index of the list has what it had, the places between the end of
  -- the list and the element are nil, and nothing stands behind the list and the element.
  pub push_element_to_place-Placed :
      (place : ℕ)
      → (result : List (Option A)) × ((push_element_to_place list element (pos place) ≡ ok result)
          × Placed list element place result)
  unfolding push_element_to_place
  push_element_to_place-Placed place = elim (Bool-cases (ltb place (length list))) [
    | inl inside ↦ (_, (rw inside refl, replaced-Placed place (ltb→lt place (length list) inside)))
    | inr outside ↦ elim (Bool-cases (length list == place)) [
      | inl next ↦
          (_, (rw (outside, next) refl, next-Placed place ((==_iff (length list) place).0 next)))
      | inr far ↦
          (_, (rw (outside, far) refl, behind-Placed place (ltb→le place (length list) outside)))
    ]
  ]
