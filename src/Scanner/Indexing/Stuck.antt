-- ===== src/Scanner/Indexing/Stuck.antt =====
-- A store that a commit left inconsistent.
use bitcoin_utxo_indexer.Prelude.{
  ℕ, zero, suc, ◌≡◌, ap, ◌∙◌, Bool, true, false, Bool-cases, List, ◌∷◌, inl, inr,
}
use bitcoin_utxo_indexer.Prelude.Str.{Str}
use bitcoin_utxo_indexer.Utxo.Outcome.{Outcome, err, inconsistence_state}
use bitcoin_utxo_indexer.Utxo.Method.{Method}
use bitcoin_utxo_indexer.Utxo.Backend.{Backend, IsBackend}
use bitcoin_utxo_indexer.Utxo.Block.{BlockEnv, Block}
use bitcoin_utxo_indexer.Utxo.Service.Added.{add_from_block-inconsistent}
use bitcoin_utxo_indexer.Scanner.{
  Scanner, Scan, handled, stopped, crashed, unfinished, scan_block, scan_blocks,
}
use bitcoin_utxo_indexer.Scanner.Indexing.{Indexer, after_adding, index_block, indexing_scanner}

-- The loop is still at its first block, with the store as it was: it tries on, or the context is done.
abbrev pub IsStuck : {b : Backend} → (Indexer b → Bool) → Scan (Indexer b) → Type 0
IsStuck cancelled (handled i) = ⊥
IsStuck cancelled (stopped i) = (i.store.is_consist ≡ false) × (cancelled i ≡ true)
IsStuck cancelled (crashed i) = ⊥
IsStuck cancelled (unfinished i) = i.store.is_consist ≡ false

module _ (b : Backend) (laws : IsBackend b) (ver : Str) (env : BlockEnv) (decimals : ℕ) where
  index_block-inconsistent :
      (block : Block env) (i : Indexer b)
      → i.store.is_consist ≡ false
      → index_block b ver env decimals block i ≡ (err inconsistence_state, i)
  unfolding index_block after_adding
  index_block-inconsistent block i shut =
      rw (add_from_block-inconsistent b laws ver env decimals block i.store shut)

  module _ (iterate : Str → Method (Indexer b) (List (Block env))) (cancelled : Indexer b → Bool)
      (wait : Indexer b → Indexer b) where
    abbrev scanner : Scanner (Indexer b) (Block env)
    scanner = indexing_scanner b ver env decimals iterate cancelled wait

    scan_block-IsStuck :
        ((i : Indexer b) → (wait i).store.is_consist ≡ i.store.is_consist)
        → (tries : ℕ) (block : Block env) (i : Indexer b) → i.store.is_consist ≡ false
        → IsStuck cancelled (scan_block scanner tries block i)
    unfolding scan_block indexing_scanner
    scan_block-IsStuck keeps zero block i shut = shut
    scan_block-IsStuck keeps (suc tries) block i shut = elim (Bool-cases (cancelled i)) [
      | inl over ↦ rw over (shut, over)
      | inr on ↦
          let same = index_block-inconsistent block i shut in
          rw
            (
              on,
              ap (λ (p : Outcome (Unit {0}) × Indexer b). p.0) same,
              ap (λ (p : Outcome (Unit {0}) × Indexer b). p.1) same,
            )
            (scan_block-IsStuck keeps tries block (wait i) (keeps i ∙ shut))
    ]

    after-IsStuck :
        (tries : ℕ) (blocks : List (Block env)) (first : Scan (Indexer b))
        → IsStuck cancelled first
        → IsStuck cancelled (elim first as (λ x. Scan (Indexer b)) [
          | handled i ↦ scan_blocks scanner tries blocks i
          | stopped i ↦ stopped i
          | crashed i ↦ crashed i
          | unfinished i ↦ unfinished i
        ])
    after-IsStuck tries blocks (handled i) h = absurd h
    after-IsStuck tries blocks (stopped i) h = h
    after-IsStuck tries blocks (crashed i) h = absurd h
    after-IsStuck tries blocks (unfinished i) h = h

    -- Once a commit has left the store inconsistent, and where nothing marks it consistent while the
    -- scanner sleeps, no block is handled any more, however often it is tried and whatever the database
    -- answers by then: the loop neither ends by itself nor crashes, but stays at its first block until
    -- the context is done.
    pub scan_blocks-IsStuck :
        ((i : Indexer b) → (wait i).store.is_consist ≡ i.store.is_consist)
        → (tries : ℕ) (block : Block env) (blocks : List (Block env)) (i : Indexer b)
        → i.store.is_consist ≡ false
        → IsStuck cancelled (scan_blocks scanner tries (block ∷ blocks) i)
    unfolding scan_blocks
    scan_blocks-IsStuck keeps tries block blocks i shut =
        after-IsStuck tries blocks (scan_block scanner tries block i)
          (scan_block-IsStuck keeps tries block i shut)
