-- ===== src/Blocks/Tests.antt =====
-- Runs of the iterator on a chain whose hashes and blocks are heights, and lists of options.
use bitcoin_utxo_indexer.Prelude.{ℕ, ◌-◌, ◌≤◌, [], ◌∷◌, length, ◌≡◌, refl, arith}
use bitcoin_utxo_indexer.Prelude.NatMap.{load, delete, store}
use bitcoin_utxo_indexer.Blocks.Semaphore.{acquire, release}
use bitcoin_utxo_indexer.Blocks.Ordering.{send_next, send_ready, add_block}
use bitcoin_utxo_indexer.Blocks.Iterator.{
  Iterator, Reach, here, next, fetch_header, receive, begin_download, finish_download,
}
use bitcoin_utxo_indexer.Blocks.Iterator.Delivery.{
  Run, started, first_blocks, run-sent, run-bounds, run-sent_all, run-delivers,
}

abbrev same : ℕ → ℕ
same n = n

abbrev It : Type 0
It = Iterator ℕ ℕ same same same

abbrev start : It
start = started ℕ ℕ same same same (λ n. refl) 4 2 7

-- Both blocks are being downloaded.
abbrev two_downloads : It
two_downloads = record start {
  current_block_height = 9;
  semaphore = record { capacity = 2; held = 2 };
  downloading = 8 ∷ 7 ∷ [];
}

-- The later block came first, and waits for the earlier one.
abbrev out_of_order : It
out_of_order = record two_downloads {
  semaphore = record { capacity = 2; held = 1 };
  downloading = 7 ∷ [];
  ordering = record { ordering_blocks = (8, 8) ∷ []; expected_height = 7; sent = [] };
}

abbrev both_sent : It
both_sent = record two_downloads {
  semaphore = record { capacity = 2; held = 0 };
  downloading = [];
  ordering = record { ordering_blocks = []; expected_height = 9; sent = 7 ∷ 8 ∷ [] };
}

to_two_downloads : Reach ℕ ℕ same same same 4 start two_downloads
unfolding acquire
to_two_downloads =
    let fetched =
      next (next here (fetch_header start (omega arith))) (fetch_header _ (omega arith)) in
    let first =
      next (next fetched (receive _ 7 (8 ∷ []) refl refl)) (begin_download _ 7 _ refl refl) in
    next (next first (receive _ 8 [] refl refl)) (begin_download _ 8 _ refl refl)

to_out_of_order : Reach ℕ ℕ same same same 4 start out_of_order
unfolding release add_block send_ready send_next store delete load
to_out_of_order = next to_two_downloads (finish_download two_downloads [] 8 (7 ∷ []) _ refl refl)

to_both_sent : Reach ℕ ℕ same same same 4 start both_sent
unfolding release add_block send_ready send_next store delete load
to_both_sent = next to_out_of_order (finish_download out_of_order [] 7 [] _ refl refl)

run-sent_example :
    (7 ≤ 9) × (both_sent.ordering.sent ≡ first_blocks ℕ ℕ same same same (λ n. refl) 4 2 7 (9 - 7))
run-sent_example = run-sent ℕ ℕ same same same (λ n. refl) 4 2 7 both_sent to_both_sent

run-bounds_example : (length out_of_order.downloading ≤ 2) × (length out_of_order.block_hashes ≤ 4)
run-bounds_example = run-bounds ℕ ℕ same same same (λ n. refl) 4 2 7 out_of_order to_out_of_order

run-sent_all_example :
    both_sent.ordering.sent ≡ first_blocks ℕ ℕ same same same (λ n. refl) 4 2 7 (9 - 7)
run-sent_all_example =
    run-sent_all ℕ ℕ same same same (λ n. refl) 4 2 7 both_sent to_both_sent refl
      (refl, (refl, refl))

run-delivers_example :
    (t : It) × (Run ℕ ℕ same same same (λ n. refl) 4 2 7 out_of_order t
      × (t.ordering.sent ≡ first_blocks ℕ ℕ same same same (λ n. refl) 4 2 7 (9 - 7)))
run-delivers_example =
    run-delivers ℕ ℕ same same same (λ n. refl) 4 2 7 (omega arith) out_of_order to_out_of_order
      refl
