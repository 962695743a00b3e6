-- ===== src/Versions/Counting.antt =====
-- Lists without repetitions, counted by their members.
use bitcoin_utxo_indexer.Prelude.{
  suc, ◌<◌, ◌≤◌, ◌≡◌, refl, sym, ◌∙◌, arith, true, false, Bool-cases, List, [], ◌∷◌, inl, inr,
  length,
}
use bitcoin_utxo_indexer.Prelude.Str.{Str, str_eq, str_eq_iff, str_eq_refl, contains}

abbrev pub Unrepeated : List Str → Type 0
Unrepeated [] = Unit
Unrepeated (x ∷ xs) = (contains xs x ≡ false) × Unrepeated xs

-- A list without one of its members.
record Without (x : Str) (ys : List Str) : Type 0 where
  rest : List Str
  shorter : length ys ≡ suc (length rest)
  others : (y : Str) → str_eq x y ≡ false → contains ys y ≡ contains rest y

take_out : (x : Str) (ys : List Str) → contains ys x ≡ true → Without x ys
unfolding contains
take_out x [] h = absurd (cc)
take_out x (y ∷ ys) h = elim (Bool-cases (str_eq y x)) [
  | inl same ↦ record {
    rest = ys;
    shorter = refl;
    others = λ z apart.
        let e : y ≡ x = (str_eq_iff y x).0 same in
        let other : str_eq y z ≡ false = rw e apart in rw other refl;
  }
  | inr other ↦
      let w : Without x ys = take_out x ys (rw other at h) in
      record {
        rest = y ∷ w.rest;
        shorter = omega (arith, w.shorter);
        others = λ z apart. rw (w.others z apart) refl;
      }
]

apart_from :
    (x y : Str) (xs : List Str) → contains xs x ≡ false → contains xs y ≡ true → str_eq x y ≡ false
apart_from x y xs new old = elim (Bool-cases (str_eq x y)) [
  | inr apart ↦ apart
  | inl same ↦
      let e : x ≡ y = (str_eq_iff x y).0 same in
      let clash : contains xs y ≡ false = rw (← e) new in
      absurd (let h : true ≡ false = sym old ∙ clash in cc)
]

-- No more members than the list that has them all.
pub length-le :
    (xs ys : List Str)
    → Unrepeated xs
    → ((x : Str) → contains xs x ≡ true → contains ys x ≡ true)
    → length xs ≤ length ys
unfolding contains
length-le [] ys u h = omega arith
length-le (x ∷ xs) ys (new, u) h =
    let w : Without x ys = take_out x ys (h x (rw (str_eq_refl x) refl)) in
    let below : length xs ≤ length w.rest = length-le xs w.rest u (λ y old.
      let apart = apart_from x y xs new old in
      sym (w.others y apart) ∙ h y (rw (apart, old) refl)) in
    omega (arith, w.shorter)

-- Fewer, where one is missing.
pub length-lt :
    (xs ys : List Str) (v : Str)
    → Unrepeated xs
    → contains xs v ≡ false
    → contains ys v ≡ true
    → ((x : Str) → contains xs x ≡ true → contains ys x ≡ true)
    → length xs < length ys
unfolding contains
length-lt xs ys v u gone there h =
    length-le (v ∷ xs) ys (gone, u)
      (λ x old. elim (Bool-cases (str_eq v x)) [
        | inl same ↦ let e : v ≡ x = (str_eq_iff v x).0 same in rw e at there
        | inr other ↦ h x (rw other at old)
      ])
