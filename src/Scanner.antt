-- ===== src/Scanner.antt =====
-- internal/pkg/blockchainscanner: the loop that hands blocks to a handler, and its saved state.
-- The blocks are those that the iterator's channel gives until it is closed. `cancelled` is whether
-- the context is done, `wait` what the world does while the scanner sleeps.
pub mod Progress
pub mod State
pub mod Indexing
mod Tests
use bitcoin_utxo_indexer.Prelude.{
  ℕ, zero, suc, Bool, List, [], ◌∷◌, Option, none, some, if◌then◌else◌,
}
use bitcoin_utxo_indexer.Prelude.Str.{Str}
use bitcoin_utxo_indexer.Utxo.Outcome.{Outcome, ok, err, panic}
use bitcoin_utxo_indexer.Utxo.Method.{Method}

-- Where the loop is left, or how far it is when the tries for a block run out.
pub data Scan (W : Type 0) : Type 0 where
  handled : W → Scan W
  stopped : W → Scan W
  crashed : W → Scan W
  unfinished : W → Scan W

pub record Scanner (W B : Type 0) : Type 0 where
  pub get_last_scanned_block_hash : Method W Str
  pub iterate : Str → Method W (List B)
  pub handle_blocks : B → Method W (Unit {0})
  pub cancelled : W → Bool
  pub wait : W → W

module _ {W B : Type 0} (s : Scanner W B) where
  open s use {get_last_scanned_block_hash, iterate, handle_blocks, cancelled, wait}

  -- The inner loop, with the number of tries that are left for the block.
  pub scan_block : ℕ → B → W → Scan W
  scan_block zero block w = unfinished w
  scan_block (suc tries) block w =
      let (r, w') = handle_blocks block w in
      let attempt : Scan W = elim r [
        | ok _ ↦ handled w'
        | err e ↦ scan_block tries block (wait w')
        | panic ↦ crashed w'
      ] in
      if cancelled w then stopped w else attempt

  pub scan_blocks : ℕ → List B → W → Scan W
  unfolding scan_block
  scan_blocks tries [] w = handled w
  scan_blocks tries (block ∷ blocks) w = elim (scan_block tries block w) [
    | handled w' ↦ scan_blocks tries blocks w'
    | stopped w' ↦ stopped w'
    | crashed w' ↦ crashed w'
    | unfinished w' ↦ unfinished w'
  ]

  -- `Start` returns nil behind the loop and from within it; `none` is a loop that is not left.
  pub left_loop : Scan W → Option (Outcome (Unit {0}) × W)
  left_loop (handled w) = some (ok tt, w)
  left_loop (stopped w) = some (ok tt, w)
  left_loop (crashed w) = some (panic, w)
  left_loop (unfinished w) = none

  pub scan_iterated : ℕ → Outcome (List B) → W → Option (Outcome (Unit {0}) × W)
  unfolding scan_blocks left_loop
  scan_iterated tries (ok blocks) w = left_loop (scan_blocks tries blocks w)
  scan_iterated tries (err e) w = some (err e, w)
  scan_iterated tries panic w = some (panic, w)

  pub start_from : ℕ → Outcome Str → W → Option (Outcome (Unit {0}) × W)
  unfolding scan_iterated
  start_from tries (ok from_block_hash) w =
      let (blocks, w') = iterate from_block_hash w in scan_iterated tries blocks w'
  start_from tries (err e) w = some (err e, w)
  start_from tries panic w = some (panic, w)

  pub start : ℕ → W → Option (Outcome (Unit {0}) × W)
  unfolding start_from
  start tries w = let (hash, w') = get_last_scanned_block_hash w in start_from tries hash w'
