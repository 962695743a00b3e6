-- ===== src/Utxo/Store/Rollback/Writes.antt =====
-- Lists of writes that may fail on the way.
use bitcoin_utxo_indexer.Prelude.{
  ◌≡◌, refl, ◌∙◌, ap, true, ◌⊎◌, inl, inr, List, [], ◌∷◌, Bool-cases, All,
}
use bitcoin_utxo_indexer.Prelude.Str.{Str}
use bitcoin_utxo_indexer.Utxo.Outcome.{ok, err, failed}
use bitcoin_utxo_indexer.Utxo.Method.{for_each}
use bitcoin_utxo_indexer.Utxo.Backend.{Backend, IsBackend, Command, View, apply, apply_all}
use bitcoin_utxo_indexer.Utxo.Store.{Store, run_write}
use bitcoin_utxo_indexer.Utxo.Store.Rollback.Commands.{run_all}

module _ (b : Backend) (ver : Str) where
  pub run_all-succeeds :
      ((w : b.World) (c : Command) → (b.write w c).1 ≡ true)
      → (cs : List Command) (s : Store b) → (run_all b ver cs s).0 ≡ ok tt
  unfolding for_each run_write
  run_all-succeeds works [] s = refl
  run_all-succeeds works (c ∷ cs) s =
      rw (works s.world c) (run_all-succeeds works cs (record s { world = (b.write s.world c).0 }))

  -- Writes leave the flag alone, and end well or with an error.
  pub run_all-is_consist :
      (cs : List Command) (s : Store b) → (run_all b ver cs s).1.is_consist ≡ s.is_consist
  unfolding for_each run_write
  run_all-is_consist [] s = refl
  run_all-is_consist (c ∷ cs) s = elim (Bool-cases (b.write s.world c).1) [
    | inl done ↦ rw done (run_all-is_consist cs (record s { world = (b.write s.world c).0 }))
    | inr bad ↦ rw bad refl
  ]

  pub run_all-result :
      (cs : List Command) (s : Store b)
      → ((run_all b ver cs s).0 ≡ ok tt) ⊎ ((run_all b ver cs s).0 ≡ err failed)
  unfolding for_each run_write
  run_all-result [] s = inl refl
  run_all-result (c ∷ cs) s = elim (Bool-cases (b.write s.world c).1) [
    | inl done ↦ rw done (run_all-result cs (record s { world = (b.write s.world c).0 }))
    | inr bad ↦ rw bad (inr refl)
  ]

  module _ (laws : IsBackend b) where
    pub run_all-done :
        (cs : List Command) (s : Store b)
        → (run_all b ver cs s).0 ≡ ok tt
        → laws.view (run_all b ver cs s).1.world ≡ apply_all cs (laws.view s.world)
    unfolding for_each run_write apply_all
    run_all-done [] s h = refl
    run_all-done (c ∷ cs) s h = elim (Bool-cases (b.write s.world c).1) [
      | inl done ↦ rw done (
          run_all-done cs (record s { world = (b.write s.world c).0 }) (rw done at h)
          ∙ ap (apply_all cs) (laws.write_done s.world c done))
      | inr bad ↦ (let h' : err failed ≡ ok tt = rw bad at h in cc)
    ]

    -- What every single write keeps, writes that fail half way keep.
    pub run_all-keeps {κ} :
        (P : View → Type κ) (cs : List Command)
        → All (λ c. (v : View) → P v → P (apply c v)) cs
        → (s : Store b) → P (laws.view s.world)
        → P (laws.view (run_all b ver cs s).1.world)
    unfolding for_each run_write
    run_all-keeps P [] h s p = p
    run_all-keeps P (c ∷ cs) (k, h) s p = elim (Bool-cases (b.write s.world c).1) [
      | inl done ↦ rw done (
          run_all-keeps P cs h (record s { world = (b.write s.world c).0 })
            (rw (laws.write_done s.world c done) (k (laws.view s.world) p)))
      | inr bad ↦ rw bad (elim (laws.write_failed s.world c bad) [
        | inl same ↦ rw same p
        | inr made ↦ rw made (k (laws.view s.world) p)
      ])
    ]

    pub run_all-file :
        (cs : List Command) (s : Store b)
        → laws.file (run_all b ver cs s).1.world ≡ laws.file s.world
    unfolding for_each run_write
    run_all-file [] s = refl
    run_all-file (c ∷ cs) s = elim (Bool-cases (b.write s.world c).1) [
      | inl done ↦
          rw done (
            run_all-file cs (record s { world = (b.write s.world c).0 })
            ∙ laws.write-file s.world c)
      | inr bad ↦ rw bad (laws.write-file s.world c)
    ]
