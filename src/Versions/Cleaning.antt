-- ===== src/Versions/Cleaning.antt =====
-- deleteOldVersionsData of cmd/utxo-indexer/main.go. Building the store of the oldest version and
-- flushing it is an argument.
pub mod Ends
use bitcoin_utxo_indexer.Prelude.{
  ℕ, zero, suc, Bool, List, [], ◌∷◌, Option, none, some, if◌then◌else◌,
}
use bitcoin_utxo_indexer.Utxo.Block.{ℤ}
use bitcoin_utxo_indexer.Versions.{
  VersionSets, Manager, Answer, given, refused, version_failed, get_versions, delete_version,
}

module _ (sets : VersionSets) (m : Manager) (flush : sets.World → sets.World × Bool) where
  open sets use {World}

  -- Behind the flush of the oldest version `v`.
  pub after_flush :
      ℤ
      → World × Bool
      → (World → Option (World × Answer (Unit {0})))
      → Option (World × Answer (Unit {0}))
  after_flush v (w, flushed) rest =
      let (w', deleted) = delete_version sets m v w in
      let gone : Option (World × Answer (Unit {0})) = elim deleted [
        | given _ ↦ rest w'
        | refused e ↦ some (w', refused e)
      ] in
      if flushed then gone else some (w, refused version_failed)

  -- One round; a set of one version or none ends the loop.
  pub clean_round :
      Answer (List ℤ)
      → World
      → (World → Option (World × Answer (Unit {0})))
      → Option (World × Answer (Unit {0}))
  unfolding after_flush
  clean_round (refused e) w rest = some (w, refused e)
  clean_round (given []) w rest = some (w, given tt)
  clean_round (given (v ∷ [])) w rest = some (w, given tt)
  clean_round (given (v ∷ v' ∷ versions)) w rest = after_flush v (flush w) rest

  -- The loop, with the number of rounds that are left; `none` is a loop that is still going.
  unfoldable pub delete_old_versions : ℕ → World → Option (World × Answer (Unit {0}))
  unfolding clean_round
  delete_old_versions zero w = none
  delete_old_versions (suc rounds) w =
      let (w', versions) = get_versions sets m w in
      clean_round versions w' (λ w''. delete_old_versions rounds w'')
