-- ===== src/Blocks/Iterator/Delivery.antt =====
-- What the reader of the channel that `Iterate` returns can rely on.
use bitcoin_utxo_indexer.Prelude.{
  ℕ, zero, suc, ◌+◌, ◌-◌, ◌*◌, ◌≤◌, ◌<◌, false, none, List, [], ◌∷◌, length, ◌≡◌, refl, ◌∙◌, ◌⊎◌,
  inl, inr, arith, Option-cases,
}
use native.Mathlib.Decide.{dec_lt}
use bitcoin_utxo_indexer.Blocks.Semaphore.{acquire_free, release_held}
use bitcoin_utxo_indexer.Blocks.Ordering.InOrder.{chain_part}
use bitcoin_utxo_indexer.Blocks.Iterator.{
  Iterator, iterate, Reach, here, next, receive, begin_download, finish_download,
}
use bitcoin_utxo_indexer.Blocks.Iterator.Moves.{
  HasPermits, waiting, Inv, iterate-Inv, Step-Inv, block_at, outstanding,
}

List-cases : {A : Type 0} (xs : List A) → (xs ≡ []) ⊎ ((x : A) × ((ys : List A) × (xs ≡ x ∷ ys)))
List-cases [] = inl refl
List-cases (x ∷ xs) = inr (x, (xs, refl))

module _ (Hash Block : Type 0) (height : Block → ℕ) (get_block_hash : ℕ → Hash)
    (get_block : Hash → Block) (at_height : (n : ℕ) → height (get_block (get_block_hash n)) ≡ n)
    (buffer_size limit start : ℕ) where
  abbrev It : Type 0
  It = Iterator Hash Block height get_block_hash get_block

  abbrev Invariant : It → Type 0
  Invariant = Inv Hash Block height get_block_hash get_block at_height buffer_size limit start

  abbrev pub Run : It → It → Type 0
  Run = Reach Hash Block height get_block_hash get_block buffer_size

  abbrev pub started : It
  started = iterate Hash Block height get_block_hash get_block limit start

  -- The first `count` blocks of the chain from the first height on.
  abbrev pub first_blocks : ℕ → List Block
  first_blocks =
      chain_part Block height
        (block_at Hash Block height get_block_hash get_block at_height buffer_size limit start)
        at_height start

  Reach-Inv : {s t : It} → Invariant s → Run s t → Invariant t
  Reach-Inv h here = h
  Reach-Inv h (next r step) =
      Step-Inv Hash Block height get_block_hash get_block at_height buffer_size limit start step
        (Reach-Inv h r)

  run-Inv : {s : It} → Run started s → Invariant s
  run-Inv r =
      Reach-Inv
        (iterate-Inv Hash Block height get_block_hash get_block at_height buffer_size limit start) r

  -- In every state that a run of the iterator reaches, what was sent is the chain's blocks from the
  -- first height on, in order, up to the height that is expected next, without a gap or a repetition.
  pub run-sent :
      (s : It)
      → Run started s
      → (start ≤ s.ordering.expected_height)
        × (s.ordering.sent ≡ first_blocks (s.ordering.expected_height - start))
  run-sent s r = let inv = run-Inv r in (inv.ordered.from_start, inv.ordered.in_order)

  -- In every state that a run reaches, no more blocks than the limit are being downloaded, and no more
  -- hashes than the buffer's size wait in the channel.
  pub run-bounds :
      (s : It)
      → Run started s
      → (length s.downloading ≤ limit) × (length s.block_hashes ≤ buffer_size)
  unfolding HasPermits
  run-bounds s r =
      let inv = run-Inv r in
      let (held, (capacity, room)) = inv.permits in (omega arith, inv.buffered)

  abbrev pub IsIdle : It → Type 0
  IsIdle s = (s.downloading ≡ []) × ((s.block_hash ≡ none) × (s.block_hashes ≡ []))

  idle-sent_all :
      (s : It)
      → Invariant s
      → s.cancelled ≡ false
      → IsIdle s
      → s.ordering.expected_height ≡ s.current_block_height
  idle-sent_all s inv c (e, (f, g)) =
      elim (dec_lt s.ordering.expected_height s.current_block_height) [
        | yes lt ↦ elim (inv.complete c s.ordering.expected_height (omega arith) lt) [
          | inl among ↦
              let empty : outstanding Hash Block height get_block_hash get_block at_height
                    buffer_size limit start s
                  ≡ [] =
                rw (e, f, g) refl in
              absurd (rw empty at among)
          | inr there ↦ let nothing = inv.sent_all in absurd cc
        ]
        | no done ↦ omega (arith, inv.ordered.below_next)
      ]

  work : It → ℕ
  work s = length s.downloading + (length (waiting s.block_hash) * 2 + length s.block_hashes * 3)

  -- A step that fetches no header.
  record Progress (s t : It) : Type 0 where
    step : Run s t
    less : work t < work s
    same_chain : t.current_block_height ≡ s.current_block_height
    same_context : t.cancelled ≡ s.cancelled

  progress : 0 < limit → (s : It) → Invariant s → IsIdle s ⊎ ((t : It) × Progress s t)
  unfolding HasPermits work
  progress room s inv =
      let (held, (capacity, fits)) = inv.permits in
      elim (List-cases s.downloading) [
        | inr (hash, (after, e)) ↦
            let count : length s.downloading ≡ suc (length after) = rw e refl in
            let (permits, f) = release_held s.semaphore (omega arith) in
            inr (
              _,
              record {
                step = next here (finish_download s [] hash after permits e f);
                less = omega arith;
                same_chain = refl;
                same_context = refl;
              },
            )
        | inl e ↦
            let free : length s.downloading ≡ 0 = rw e refl in
            elim (Option-cases s.block_hash) [
              | inr (hash, f) ↦
                  let count : length (waiting s.block_hash) ≡ 1 = rw f refl in
                  let (permits, g) = acquire_free s.semaphore (omega arith) in
                  inr (
                    _,
                    record {
                      step = next here (begin_download s hash permits f g);
                      less = omega arith;
                      same_chain = refl;
                      same_context = refl;
                    },
                  )
              | inl f ↦ elim (List-cases s.block_hashes) [
                | inr (hash, (rest, g)) ↦
                    let count : length s.block_hashes ≡ suc (length rest) = rw g refl in
                    let free' : length (waiting s.block_hash) ≡ 0 = rw f refl in
                    inr (
                      _,
                      record {
                        step = next here (receive s hash rest f g);
                        less = omega arith;
                        same_chain = refl;
                        same_context = refl;
                      },
                    )
                | inl g ↦ inl (e, (f, g))
              ]
            ]
      ]

  append_runs : {s t u : It} → Run s t → Run t u → Run s u
  append_runs r here = r
  append_runs r (next r' step) = next (append_runs r r') step

  -- A run that ends with nothing left to download.
  record Drained (s : It) : Type 0 where
    final : It
    run : Run s final
    idle : IsIdle final
    same_chain : final.current_block_height ≡ s.current_block_height
    same_context : final.cancelled ≡ s.cancelled

  drain : 0 < limit → (fuel : ℕ) (s : It) → work s < fuel → Invariant s → Drained s
  drain room zero s enough inv = absurd (omega arith)
  drain room (suc fuel) s enough inv = elim (progress room s inv) [
    | inl idle ↦ record {
      final = s;
      run = here;
      idle = idle;
      same_chain = refl;
      same_context = refl;
    }
    | inr (t, p) ↦
        let d = drain room fuel t (omega (arith, p.less)) (Reach-Inv inv p.step) in
        record {
          final = d.final;
          run = append_runs p.step d.run;
          idle = d.idle;
          same_chain = d.same_chain ∙ p.same_chain;
          same_context = d.same_context ∙ p.same_context;
        }
  ]

  -- When a run has nothing left to download and its context is not cancelled, the blocks of all the
  -- hashes that it fetched were sent, in the chain's order.
  pub run-sent_all :
      (s : It)
      → Run started s
      → s.cancelled ≡ false
      → IsIdle s
      → s.ordering.sent ≡ first_blocks (s.current_block_height - start)
  run-sent_all s r c idle =
      let inv = run-Inv r in let all = idle-sent_all s inv c idle in rw (← all) inv.ordered.in_order

  -- If the limit is not zero, a run can go on from every state it reaches before its context is
  -- cancelled until it has sent the blocks of all the hashes that were fetched, in the chain's order.
  pub run-delivers :
      0 < limit
      → (s : It) → Run started s
      → s.cancelled ≡ false
      → (t : It) × (Run s t × (t.ordering.sent ≡ first_blocks (s.current_block_height - start)))
  run-delivers room s r c =
      let d = drain room (suc (work s)) s (omega arith) (run-Inv r) in
      let all = run-sent_all d.final (append_runs r d.run) (d.same_context ∙ c) d.idle in
      (d.final, (d.run, rw (← d.same_chain) all))
