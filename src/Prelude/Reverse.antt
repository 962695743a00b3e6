-- ===== src/Prelude/Reverse.antt =====
-- The in-place reversal loop `for i, j := lo, hi; i < j; i, j = i+1, j-1 { s[i], s[j] = s[j], s[i] }`
-- that compression.go and binaryutils/utils.go both use.
use Prim.Native.Nat.{ℕ, zero, suc, ◌+◌, ◌<◌, ◌≤◌}
use mathlib.Core.Path.{◌≡◌, refl, ap, ◌∙◌}
use mathlib.Core.Logic.{◌⊎◌, inl, inr}
use mathlib.Core.List.{List, [], ◌∷◌, ◌++◌, reverse, append_assoc, reverse-append, reverse-cons}
use native.Mathlib.Omega.{arith}
use bitcoin_utxo_indexer.Prelude.Tests.{ltb, if◌then◌else◌}
use bitcoin_utxo_indexer.Prelude.Lists.{
  length, set, get_or, length-append, set-length, get_or-length,
}

-- s[i], s[j] = s[j], s[i]
unfoldable pub swap_bytes : List ℕ → ℕ → ℕ → List ℕ
swap_bytes s i j = set (set s i (get_or s j 0)) j (get_or s i 0)

unfoldable pub reverse_loop : List ℕ → ℕ → ℕ → List ℕ
reverse_loop s i zero = s
reverse_loop s i (suc j) =
    let rest = reverse_loop (swap_bytes s i (suc j)) (i + 1) j in if ltb i (suc j) then rest else s

-- A list is empty, a single item, or has a first and a last one.
ends_cases :
    (l : List ℕ)
    → (l ≡ [])
      ⊎ ((x : ℕ) × (l ≡ x ∷ []))
      ⊎ ((x : ℕ) × (mid : List ℕ) × (y : ℕ) × (l ≡ x ∷ (mid ++ (y ∷ []))))
ends_cases [] = inl refl
ends_cases (x ∷ l) = elim (ends_cases l) [
  | inl e ↦ inr (inl (x, ap (λ (t : List ℕ). x ∷ t) e))
  | inr (inl (y, e)) ↦ inr (inr (x, [], y, ap (λ (t : List ℕ). x ∷ t) e))
  | inr (inr (x', mid, y, e)) ↦ inr (inr (x, x' ∷ mid, y, ap (λ (t : List ℕ). x ∷ t) e))
]

-- Reading and writing at the place behind `pre ++ (x ∷ mid)`.
get_or_far :
    (a mid b : List ℕ) (x y j : ℕ)
    → j ≡ length a + length mid + 1
    → get_or (a ++ (x ∷ (mid ++ (y ∷ b)))) j 0 ≡ y
get_or_far a mid b x y j e =
    let place : j ≡ length (a ++ (x ∷ mid)) = omega (arith, length-append a (x ∷ mid)) in
    rw (← append_assoc a (x ∷ mid) (y ∷ b), place) (get_or-length (a ++ (x ∷ mid)) y 0 b)

set_far :
    (a mid b : List ℕ) (x y v j : ℕ)
    → j ≡ length a + length mid + 1
    → set (a ++ (x ∷ (mid ++ (y ∷ b)))) j v ≡ a ++ (x ∷ (mid ++ (v ∷ b)))
set_far a mid b x y v j e =
    let place : j ≡ length (a ++ (x ∷ mid)) = omega (arith, length-append a (x ∷ mid)) in
    rw (← append_assoc a (x ∷ mid) (y ∷ b), ← append_assoc a (x ∷ mid) (v ∷ b), place)
      (set-length (a ++ (x ∷ mid)) y v b)

swap_bytes_ends :
    (a mid b : List ℕ) (x y j : ℕ)
    → j ≡ length a + length mid + 1
    → swap_bytes (a ++ (x ∷ (mid ++ (y ∷ b)))) (length a) j ≡ a ++ (y ∷ (mid ++ (x ∷ b)))
unfolding swap_bytes
swap_bytes_ends a mid b x y j e = rw (
  get_or-length a x 0 (mid ++ (y ∷ b)),
  get_or_far a mid b x y j e,
  set-length a x y (mid ++ (y ∷ b)),
  set_far a mid b y y x j e,
)

reverse_ends :
    (x y : ℕ) (mid b : List ℕ) → reverse (x ∷ (mid ++ (y ∷ []))) ++ b ≡ y ∷ (reverse mid ++ (x ∷ b))
reverse_ends x y mid b =
    rw (reverse-append (x ∷ mid) (y ∷ []), reverse-cons x mid)
      (ap (λ (t : List ℕ). y ∷ t) (append_assoc (reverse mid) (x ∷ []) b))

reverse_loop_stop : (s : List ℕ) (i j : ℕ) → j ≤ i → reverse_loop s i j ≡ s
unfolding reverse_loop
reverse_loop_stop s i zero h = refl
reverse_loop_stop s i (suc j) h = ground arith

reverse_loop_step :
    (s : List ℕ) (i j : ℕ)
    → i < suc j
    → reverse_loop s i (suc j) ≡ reverse_loop (swap_bytes s i (suc j)) (i + 1) j
unfolding reverse_loop
reverse_loop_step s i j h = ground arith

-- The next round's statement, regrouped.
reverse_loop_inner :
    (j : ℕ) (a inner b : List ℕ) (x y : ℕ)
    → reverse_loop ((a ++ (y ∷ [])) ++ (inner ++ (x ∷ b))) (length (a ++ (y ∷ []))) j
      ≡ (a ++ (y ∷ [])) ++ (reverse inner ++ (x ∷ b))
    → reverse_loop (a ++ (y ∷ (inner ++ (x ∷ b)))) (length a + 1) j
      ≡ a ++ (y ∷ (reverse inner ++ (x ∷ b)))
reverse_loop_inner j a inner b x y h =
    let next : length (a ++ (y ∷ [])) ≡ length a + 1 = omega (arith, length-append a (y ∷ [])) in
    rw
      (
        append_assoc a (y ∷ []) (inner ++ (x ∷ b)),
        append_assoc a (y ∷ []) (reverse inner ++ (x ∷ b)),
        next,
      )
      at h

length_both :
    (mid inner : List ℕ) (x y : ℕ) → mid ≡ x ∷ (inner ++ (y ∷ [])) → length mid ≡ length inner + 2
length_both mid inner x y e = omega (arith, ap length e, length-append inner (y ∷ []))

-- Between `lo = length a` and `hi = j` the loop reverses the slice; it leaves the rest alone.
pub reverse_loop-reverse :
    (j : ℕ) (a mid b : List ℕ)
    → length a + length mid ≡ suc j
    → reverse_loop (a ++ (mid ++ b)) (length a) j ≡ a ++ (reverse mid ++ b)
reverse_loop-reverse zero a mid b e = elim (ends_cases mid) [
  | inl empty ↦ rw empty (reverse_loop_stop _ _ 0 (omega arith))
  | inr (inl (x, single)) ↦ rw single (reverse_loop_stop _ _ 0 (omega arith))
  | inr (inr (x, inner, y, both)) ↦ absurd (omega (arith, length_both mid inner x y both))
]
reverse_loop-reverse (suc j) a mid b e = elim (ends_cases mid) [
  | inl empty ↦ rw empty (reverse_loop_stop _ _ (suc j) (omega (arith, ap length empty)))
  | inr (inl (x, single)) ↦
      rw single (reverse_loop_stop _ _ (suc j) (omega (arith, ap length single)))
  | inr (inr (x, inner, y, both)) ↦
      rw (both, append_assoc inner (y ∷ []) b, reverse_ends)
        (reverse_loop_step _ _ _ (omega (arith, length_both mid inner x y both))
          ∙ rw
              (swap_bytes_ends a inner b x y (suc j)
                (omega (arith, length_both mid inner x y both)))
              (reverse_loop_inner j a inner b x y (
                reverse_loop-reverse j (a ++ (y ∷ [])) inner (x ∷ b)
                  (omega (arith, e, length_both mid inner x y both, length-append a (y ∷ []))))))
]
