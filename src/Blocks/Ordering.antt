-- ===== src/Blocks/Ordering.antt =====
-- downloadBlocks in bitcoinblocksiterator/iterator.go: `orderingBlocks` and the loop that sends what
-- is next in order.
pub mod InOrder
use bitcoin_utxo_indexer.Prelude.{
  ℕ, zero, suc, ◌+◌, ◌≤◌, ◌<◌, Option, none, some, List, [], ◌∷◌, ◌++◌, length, arith, ◌≡◌, refl,
}
use bitcoin_utxo_indexer.Prelude.NatMap.{NatMap, load, delete, store, length-delete-lt}

module _ (Block : Type 0) (height : Block → ℕ) where
  -- `sent` is what went through the channel `downloadedBlocks`, the oldest first.
  pub record Ordering : Type 0 where
    pub ordering_blocks : NatMap Block
    pub expected_height : ℕ
    pub sent : List Block

  -- One turn of the loop.
  unfoldable pub send_next : Ordering → Block → Ordering
  send_next o next = record {
    ordering_blocks = delete o.ordering_blocks o.expected_height;
    expected_height = height next + 1;
    sent = o.sent ++ (next ∷ []);
  }

  unfoldable pub send_ready : ℕ → Ordering → Ordering
  send_ready zero o = o
  send_ready (suc fuel) o = elim (load o.ordering_blocks o.expected_height) [
    | none ↦ o
    | some next ↦ send_ready fuel (send_next o next)
  ]

  -- A turn takes an entry out of the map, so that the loop ends within its size.
  unfoldable pub add_block : Ordering → Block → Ordering
  unfolding send_ready
  add_block o block =
      let blocks = store o.ordering_blocks (height block) block in
      send_ready (length blocks)
        (record { ordering_blocks = blocks; expected_height = o.expected_height; sent = o.sent })
