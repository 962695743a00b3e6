-- ===== src/Prelude/Slices.antt =====
-- Go's slice expressions and `copy` on byte slices. A slice's capacity is its length.
use Prim.Native.Nat.{ℕ, zero, suc, ◌+◌, ◌-◌, ◌<◌, ◌≤◌}
use Prim.Native.Nat.add
use mathlib.Core.Path.{◌≡◌, refl, ap, ◌∙◌, sym}
use mathlib.Core.Option.{Option, none, some}
use mathlib.Core.List.{List, [], ◌∷◌, ◌++◌}
use native.Mathlib.Omega.{arith}
use bitcoin_utxo_indexer.Prelude.Tests.{leb, if◌then◌else◌}
use mathlib.Core.Bool.{true, ◌&&◌}
use bitcoin_utxo_indexer.Prelude.Lists.{
  length, take, drop, get_or, length-append, length-take, take-append-drop, take-length,
  drop-length,
}

-- s[from:to]; `none` is the panic.
unfoldable pub slice : List ℕ → ℕ → ℕ → Option (List ℕ)
slice s from to =
    if leb from to && leb to (length s) then some (take (to - from) (drop from s)) else none

-- copy(s[offset:], src), for an offset inside the slice.
unfoldable pub copy_at : List ℕ → ℕ → List ℕ → List ℕ
copy_at s offset src =
    take offset s ++ (take (length s - offset) src ++ drop (offset + length src) s)

module _ {ℓ} {A : Type ℓ} where
  pub take_all : (xs : List A) (n : ℕ) → length xs ≤ n → take n xs ≡ xs
  take_all [] zero h = refl
  take_all [] (suc n) h = refl
  take_all (x ∷ xs) zero h = absurd (omega arith)
  take_all (x ∷ xs) (suc n) h = ap (λ (t : List A). x ∷ t) (take_all xs n (omega arith))

  take_nil : (n : ℕ) → take {A = A} n [] ≡ []
  take_nil n = take_all [] n (omega arith)

  pub drop_all : (xs : List A) (n : ℕ) → length xs ≤ n → drop n xs ≡ []
  drop_all [] zero h = refl
  drop_all [] (suc n) h = refl
  drop_all (x ∷ xs) zero h = absurd (omega arith)
  drop_all (x ∷ xs) (suc n) h = drop_all xs n (omega arith)

  pub drop-cons :
      (xs : List A) (n : ℕ) (d : A) → n < length xs → drop n xs ≡ get_or xs n d ∷ drop (suc n) xs
  drop-cons [] n d h = elim h [ ]
  drop-cons (x ∷ xs) zero d h = refl
  drop-cons (x ∷ xs) (suc n) d h = drop-cons xs n d (omega arith)

  pub drop-drop : (m n : ℕ) (xs : List A) → drop m (drop n xs) ≡ drop (n + m) xs
  drop-drop m zero xs = ap (λ (k : ℕ). drop k xs) (omega arith)
  drop-drop m (suc n) [] = drop_all [] m (omega arith) ∙ sym (drop_all [] (suc n + m) (omega arith))
  drop-drop m (suc n) (x ∷ xs) =
      let count : suc (n + m) ≡ suc n + m = omega arith in
      drop-drop m n xs ∙ ap (λ (k : ℕ). drop k (x ∷ xs)) count

  pub take-add : (m n : ℕ) (xs : List A) → take (m + n) xs ≡ take m xs ++ take n (drop m xs)
  take-add zero n xs = ap (λ (k : ℕ). take k xs) (add.zero n)
  take-add (suc m) n [] = ap (λ (k : ℕ). take k []) (add.suc m n) ∙ sym (take_nil n)
  take-add (suc m) n (x ∷ xs) =
      ap (λ (k : ℕ). take k (x ∷ xs)) (add.suc m n) ∙ ap (λ (t : List A). x ∷ t) (take-add m n xs)

pub slice_lem :
    (pre mid post : List ℕ) (from to : ℕ)
    → from ≡ length pre
    → to ≡ length pre + length mid
    → slice (pre ++ (mid ++ post)) from to ≡ some mid
unfolding slice
slice_lem pre mid post from to ef et =
    let whole = length-append pre (mid ++ post) in
    let tail = length-append mid post in
    let width : to - from ≡ length mid = omega arith in
    let fits : (leb from to && leb to (length (pre ++ (mid ++ post)))) ≡ true =
      ground (arith, whole, tail) in
    rw (fits, width, ef, drop-length pre (mid ++ post), take-length mid post)

pub copy_at_lem :
    (pre old post src : List ℕ) (offset : ℕ)
    → offset ≡ length pre
    → length src ≡ length old
    → copy_at (pre ++ (old ++ post)) offset src ≡ pre ++ (src ++ post)
unfolding copy_at
copy_at_lem pre old post src offset eo es =
    let whole = length-append pre (old ++ post) in
    let tail = length-append old post in
    rw (
      take_all src (length (pre ++ (old ++ post)) - offset) (omega arith),
      ← drop-drop (length src) offset (pre ++ (old ++ post)),
      eo,
      drop-length pre (old ++ post),
      es,
      drop-length old post,
      take-length pre (old ++ post),
    )

-- Copying into the part behind `pre` that is long enough.
pub copy_at_fit :
    (pre ts src : List ℕ) (offset : ℕ)
    → offset ≡ length pre
    → length src ≤ length ts
    → copy_at (pre ++ ts) offset src ≡ pre ++ (src ++ drop (length src) ts)
copy_at_fit pre ts src offset eo h =
    ap (λ (r : List ℕ). copy_at (pre ++ r) offset src) (sym (take-append-drop (length src) ts))
    ∙ copy_at_lem pre (take (length src) ts) (drop (length src) ts) src offset eo
        (omega (arith, length-take (length src) ts))
