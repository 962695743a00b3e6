-- ===== src/Prelude/Str.antt =====
-- Go strings as lists of bytes, their comparison, and maps keyed by them.
use Prim.Native.Nat.{ℕ}
use Prim.Native.Char.{code}
use Prim.Native.String.{String}
use mathlib.Core.Path.{◌≡◌, refl, sym}
use mathlib.Core.Logic.{◌↔◌}
use mathlib.Core.Bool.{Bool, true, false, ◌&&◌, ◌||◌}
use mathlib.Core.Option.{Option, none, some}
use mathlib.Core.List.{List, [], ◌∷◌, ◌++◌}
use native.Mathlib.Omega.{arith}
use mathlib.Core.Logic.{inl, inr}
use bitcoin_utxo_indexer.Prelude.Among.{Among}
use bitcoin_utxo_indexer.Prelude.Tests.{Bool-cases, ◌==◌, if◌then◌else◌}

abbrev pub Str : Type 0
Str = List ℕ

-- The bytes of an ASCII literal.
abbrev pub codes : String → Str
codes String.[] = []
codes (String.◌∷◌ c s) = code c ∷ codes s

unfoldable pub str_eq : Str → Str → Bool
str_eq [] [] = true
str_eq [] (b ∷ bs) = false
str_eq (a ∷ as') [] = false
str_eq (a ∷ as') (b ∷ bs) = a == b && str_eq as' bs

pub str_eq_iff : (s t : Str) → (str_eq s t ≡ true) ↔ (s ≡ t)
unfolding str_eq
str_eq_iff [] [] = (λ h. refl, λ h. refl)
str_eq_iff [] (b ∷ bs) = (λ h. cc, λ h. cc)
str_eq_iff (a ∷ as') [] = (λ h. cc, λ h. cc)
str_eq_iff (a ∷ as') (b ∷ bs) =
    (λ h. ground (arith, str_eq_iff as' bs), λ h. ground (arith, str_eq_iff as' bs))

pub str_eq_refl : (s : Str) → str_eq s s ≡ true
str_eq_refl s = (str_eq_iff s s).1 refl

pub str_eq-append : (v s t : Str) → str_eq (v ++ s) (v ++ t) ≡ str_eq s t
unfolding str_eq
str_eq-append [] s t = refl
str_eq-append (a ∷ v) s t = ground (arith, str_eq-append v s t)

-- `slices.Contains` on strings, and membership in a Redis set's listing.
unfoldable pub contains : List Str → Str → Bool
contains [] s = false
contains (t ∷ ts) s = str_eq t s || contains ts s

pub contains-Among : (ts : List Str) (s : Str) → contains ts s ≡ true → Among s ts
unfolding contains
contains-Among [] s h = absurd cc
contains-Among (t ∷ ts) s h = elim (Bool-cases (str_eq t s)) [
  | inl e ↦ inl (sym ((str_eq_iff t s).0 e))
  | inr e ↦ inr (contains-Among ts s (rw e at h))
]

pub Among-contains : (ts : List Str) (s : Str) → Among s ts → contains ts s ≡ true
unfolding contains
Among-contains [] s h = absurd h
Among-contains (t ∷ ts) s (inl e) =
    let same : str_eq t s ≡ true = (str_eq_iff t s).1 (sym e) in rw same refl
Among-contains (t ∷ ts) s (inr h) = ground (arith, Among-contains ts s h)

-- map[string]V as its entries, in the order in which a `range` happens to visit them.
abbrev pub GoMap {ℓ} : Type ℓ → Type ℓ
GoMap V = List (Str × V)

module _ {ℓ} {V : Type ℓ} where
  unfoldable pub lookup : GoMap V → Str → Option V
  lookup [] k = none
  lookup ((j, v) ∷ m) k = if str_eq j k then some v else lookup m k

  unfoldable pub insert : GoMap V → Str → V → GoMap V
  insert [] k v = (k, v) ∷ []
  insert ((j, w) ∷ m) k v = if str_eq j k then (j, v) ∷ m else (j, w) ∷ insert m k v

  pub lookup-insert :
      (m : GoMap V) (k j : Str) (v : V)
      → lookup (insert m k v) j ≡ (if str_eq k j then some v else lookup m j)
  unfolding lookup insert
  lookup-insert [] k j v = refl
  lookup-insert ((i, w) ∷ m) k j v =
      ground (arith, str_eq_iff k j, str_eq_iff i k, str_eq_iff i j, lookup-insert m k j v)

  -- No key stands twice, as in every Go map.
  abbrev pub Distinct : GoMap V → Type ℓ
  Distinct [] = Unit
  Distinct ((k, v) ∷ m) = (lookup m k ≡ none) × Distinct m

  pub insert-Distinct : (m : GoMap V) (k : Str) (v : V) → Distinct m → Distinct (insert m k v)
  unfolding insert lookup
  insert-Distinct [] k v d = (refl, tt)
  insert-Distinct ((j, w) ∷ m) k v d =
      ground
        (arith, insert-Distinct m k v d.1, lookup-insert m k j v, str_eq_iff j k, str_eq_iff k j)
