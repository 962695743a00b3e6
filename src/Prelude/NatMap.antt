-- ===== src/Prelude/NatMap.antt =====
-- Maps keyed by numbers, such as xsync's map of integers: at most one entry stands under a key.
use bitcoin_utxo_indexer.Prelude.Tests.{◌==◌, if◌then◌else◌}
use bitcoin_utxo_indexer.Prelude.Lists.{length}
use Prim.Native.Nat.{ℕ, ◌<◌, ◌≤◌}
use mathlib.Core.Path.{◌≡◌, refl}
use mathlib.Core.Option.{Option, none, some}
use mathlib.Core.Logic.{◌⊎◌}
use mathlib.Core.List.{List, [], ◌∷◌}
use native.Mathlib.Omega.{arith}

abbrev pub NatMap {ℓ} : Type ℓ → Type ℓ
NatMap V = List (ℕ × V)

module _ {ℓ} {V : Type ℓ} where
  unfoldable pub load : NatMap V → ℕ → Option V
  load [] k = none
  load ((j, v) ∷ m) k = if j == k then some v else load m k

  unfoldable pub delete : NatMap V → ℕ → NatMap V
  delete [] k = []
  delete ((j, v) ∷ m) k = let rest = delete m k in if j == k then rest else (j, v) ∷ rest

  unfoldable pub store : NatMap V → ℕ → V → NatMap V
  unfolding delete
  store m k v = (k, v) ∷ delete m k

  pub load-delete :
      (m : NatMap V) (k j : ℕ) → load (delete m k) j ≡ (if k == j then none else load m j)
  unfolding load delete
  load-delete [] k j = ground arith
  load-delete ((i, v) ∷ m) k j = ground (arith, load-delete m k j)

  pub load-store :
      (m : NatMap V) (k j : ℕ) (v : V)
      → load (store m k v) j ≡ (if k == j then some v else load m j)
  unfolding load store
  load-store m k j v = ground (arith, load-delete m k j)

  pub length-delete-le : (m : NatMap V) (k : ℕ) → length (delete m k) ≤ length m
  unfolding delete
  length-delete-le [] k = omega arith
  length-delete-le ((j, v) ∷ m) k = ground (arith, length-delete-le m k)

  -- Deleting a key that is there makes the map smaller.
  pub length-delete-lt :
      (m : NatMap V) (k : ℕ) (v : V) → load m k ≡ some v → length (delete m k) < length m
  unfolding load delete
  length-delete-lt [] k v h = absurd cc
  length-delete-lt ((j, w) ∷ m) k v h = ground (arith, length-delete-lt m k v, length-delete-le m k)

  pub load_of_delete :
      (m : NatMap V) (k j : ℕ) (v : V) → load (delete m k) j ≡ some v → load m j ≡ some v
  load_of_delete m k j v h = ground (arith, load-delete m k j)

  -- Deleting another key keeps the entry.
  pub load-delete_ne :
      (m : NatMap V) (k j : ℕ) (v : V) → k < j → load m j ≡ some v → load (delete m k) j ≡ some v
  load-delete_ne m k j v lt h = ground (arith, load-delete m k j)

  pub load-empty : (m : NatMap V) (k : ℕ) → length m ≤ 0 → load m k ≡ none
  unfolding load
  load-empty [] k h = refl
  load-empty (x ∷ m) k h = absurd (omega arith)

  pub load_of_store :
      (m : NatMap V) (k j : ℕ) (v w : V)
      → load (store m k v) j ≡ some w
      → ((k ≡ j) × (v ≡ w)) ⊎ (load m j ≡ some w)
  load_of_store m k j v w h = ground (arith, load-store m k j v)
