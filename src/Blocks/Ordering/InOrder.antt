-- ===== src/Blocks/Ordering/InOrder.antt =====
-- The blocks sent are the chain's, one after another, and every one that can be sent is.
use bitcoin_utxo_indexer.Prelude.{
  ℕ, zero, suc, ◌+◌, ◌-◌, ◌≤◌, ◌<◌, none, some, List, [], ◌∷◌, ◌++◌, length, arith, ◌≡◌, refl, sym,
  ◌∙◌, ap, Option-cases, inl, inr, ◌⊎◌, ◌==◌, ==_iff, Bool-cases,
}
use bitcoin_utxo_indexer.Prelude.NatMap.{
  load, store, load-store, length-delete-lt, load_of_delete, load-empty, load-delete_ne,
  load_of_store,
}
use bitcoin_utxo_indexer.Blocks.Ordering.{Ordering, send_next, send_ready, add_block}

module _ (Block : Type 0) (height : Block → ℕ) (block_at : ℕ → Block)
    (at_height : (n : ℕ) → height (block_at n) ≡ n) (start : ℕ) where
  -- The `count` blocks of the chain from `start` on.
  unfoldable pub chain_part : ℕ → List Block
  chain_part zero = []
  chain_part (suc count) = chain_part count ++ (block_at (start + count) ∷ [])

  -- Blocks up to `next` may have been downloaded.
  pub record InOrder (next : ℕ) (o : Ordering Block height) : Type 0 where
    pub kept :
        (n : ℕ) (block : Block)
        → load o.ordering_blocks n ≡ some block
        → (block ≡ block_at n) × (n < next)
    pub from_start : start ≤ o.expected_height
    pub below_next : o.expected_height ≤ next
    pub in_order : o.sent ≡ chain_part (o.expected_height - start)

  pub InOrder-later :
      (next later : ℕ) (o : Ordering Block height) → next ≤ later → InOrder next o → InOrder later o
  InOrder-later next later o le inv = record {
    kept = λ n block h. let (same, below) = inv.kept n block h in (same, omega arith);
    from_start = inv.from_start;
    below_next = omega (arith, inv.below_next);
    in_order = inv.in_order;
  }

  send_next-InOrder :
      (next : ℕ) (o : Ordering Block height) (block : Block)
      → load o.ordering_blocks o.expected_height ≡ some block
      → InOrder next o
      → InOrder next (send_next Block height o block)
  unfolding send_next chain_part
  send_next-InOrder next o block found inv =
      let (same, below) = inv.kept o.expected_height block found in
      let tall : height block ≡ o.expected_height = rw same (at_height o.expected_height) in
      let one : height block + 1 - start ≡ suc (o.expected_height - start) =
        omega (arith, inv.from_start) in
      let here : start + (o.expected_height - start) ≡ o.expected_height =
        omega (arith, inv.from_start) in
      record {
        kept = λ n b h. inv.kept n b (load_of_delete o.ordering_blocks o.expected_height n b h);
        from_start = omega (arith, inv.from_start, tall);
        below_next = omega (arith, tall, below);
        in_order = rw (inv.in_order, one, here) (rw same refl);
      }

  pub send_ready-InOrder :
      (fuel next : ℕ) (o : Ordering Block height)
      → InOrder next o
      → InOrder next (send_ready Block height fuel o)
  unfolding send_ready
  send_ready-InOrder zero next o inv = inv
  send_ready-InOrder (suc fuel) next o inv =
      elim (Option-cases (load o.ordering_blocks o.expected_height)) [
        | inl e ↦ rw (send_ready, e) inv
        | inr (block, e) ↦
            rw (send_ready, e)
              (send_ready-InOrder fuel next (send_next Block height o block)
                (send_next-InOrder next o block e inv))
      ]

  -- With as many turns as the map has entries, nothing that can be sent is left.
  pub send_ready-sends_all :
      (fuel : ℕ) (o : Ordering Block height)
      → length o.ordering_blocks ≤ fuel
      → load
          (send_ready Block height fuel o).ordering_blocks
          (send_ready Block height fuel o).expected_height
        ≡ none
  unfolding send_ready send_next load
  send_ready-sends_all zero o enough = load-empty o.ordering_blocks o.expected_height enough
  send_ready-sends_all (suc fuel) o enough =
      elim (Option-cases (load o.ordering_blocks o.expected_height)) [
        | inl e ↦ rw (send_ready, e) e
        | inr (block, e) ↦
            rw (send_ready, e)
              (send_ready-sends_all fuel (send_next Block height o block)
                (omega (arith, length-delete-lt o.ordering_blocks o.expected_height block e)))
      ]

  send_ready-forward :
      (fuel next : ℕ) (o : Ordering Block height)
      → InOrder next o
      → o.expected_height ≤ (send_ready Block height fuel o).expected_height
  unfolding send_ready send_next
  send_ready-forward zero next o inv = omega arith
  send_ready-forward (suc fuel) next o inv =
      elim (Option-cases (load o.ordering_blocks o.expected_height)) [
        | inl e ↦ rw (send_ready, e) (omega arith)
        | inr (block, e) ↦
            let tall : height block ≡ o.expected_height =
              rw (inv.kept o.expected_height block e).0 (at_height o.expected_height) in
            let ih =
              send_ready-forward fuel next (send_next Block height o block)
                (send_next-InOrder next o block e inv) in
            rw (send_ready, e) (omega arith)
      ]

  -- An entry is sent or stays.
  pub send_ready-keeps :
      (fuel next : ℕ) (o : Ordering Block height) (n : ℕ) (b : Block)
      → InOrder next o
      → load o.ordering_blocks n ≡ some b
      → (send_ready Block height fuel o).expected_height ≤ n
      → load (send_ready Block height fuel o).ordering_blocks n ≡ some b
  unfolding send_ready send_next
  send_ready-keeps zero next o n b inv h le = h
  send_ready-keeps (suc fuel) next o n b inv h le =
      elim (Option-cases (load o.ordering_blocks o.expected_height)) [
        | inl e ↦ rw (send_ready, e) h
        | inr (block, e) ↦
            let le' = rw (send_ready, e) at le in
            let tall : height block ≡ o.expected_height =
              rw (inv.kept o.expected_height block e).0 (at_height o.expected_height) in
            let after = send_next-InOrder next o block e inv in
            let forward = send_ready-forward fuel next (send_next Block height o block) after in
            let passed = load-delete_ne o.ordering_blocks o.expected_height n b (omega arith) h in
            rw (send_ready, e)
              (send_ready-keeps fuel next (send_next Block height o block) n b after passed le')
      ]

  stored : ℕ → Ordering Block height → Ordering Block height
  stored n o = record o {
    ordering_blocks = store o.ordering_blocks (height (block_at n)) (block_at n);
  }

  stored-InOrder :
      (next n : ℕ) (o : Ordering Block height)
      → n < next
      → InOrder next o
      → InOrder next (stored n o)
  unfolding stored
  stored-InOrder next n o lt inv = record {
    kept = λ j b h.
        elim (load_of_store o.ordering_blocks (height (block_at n)) j (block_at n) b h) [
          | inl (same, eq) ↦
              let at : n ≡ j = sym (at_height n) ∙ same in (sym eq ∙ ap block_at at, omega arith)
          | inr old ↦ inv.kept j b old
        ];
    from_start = inv.from_start;
    below_next = inv.below_next;
    in_order = inv.in_order;
  }

  pub add_block-InOrder :
      (next n : ℕ) (o : Ordering Block height)
      → n < next
      → InOrder next o
      → InOrder next (add_block Block height o (block_at n))
  unfolding add_block stored
  add_block-InOrder next n o lt inv =
      send_ready-InOrder (length (stored n o).ordering_blocks) next (stored n o)
        (stored-InOrder next n o lt inv)

  pub add_block-forward :
      (next n : ℕ) (o : Ordering Block height)
      → n < next
      → InOrder next o
      → o.expected_height ≤ (add_block Block height o (block_at n)).expected_height
  unfolding add_block stored
  add_block-forward next n o lt inv =
      send_ready-forward (length (stored n o).ordering_blocks) next (stored n o)
        (stored-InOrder next n o lt inv)

  pub add_block-sends_all :
      (o : Ordering Block height) (block : Block)
      → load
          (add_block Block height o block).ordering_blocks
          (add_block Block height o block).expected_height
        ≡ none
  unfolding add_block
  add_block-sends_all o block =
      send_ready-sends_all (length (store o.ordering_blocks (height block) block))
        (record o { ordering_blocks = store o.ordering_blocks (height block) block }) (omega arith)

  stored-has :
      (n j : ℕ) (o : Ordering Block height)
      → (j ≡ n) ⊎ (load o.ordering_blocks j ≡ some (block_at j))
      → load (stored n o).ordering_blocks j ≡ some (block_at j)
  unfolding stored
  stored-has n j o there =
      let found = load-store o.ordering_blocks (height (block_at n)) j (block_at n) in
      let tall = at_height n in
      elim (Bool-cases (height (block_at n) == j)) [
        | inl e ↦
            let same : n ≡ j = sym tall ∙ (==_iff (height (block_at n)) j).0 e in
            rw (found, e) (ap (λ k. some (block_at k)) same)
        | inr e ↦ elim there [
          | inl same ↦
              let is_true = (==_iff (height (block_at n)) j).1 (tall ∙ sym same) in absurd cc
          | inr h ↦ rw (found, e) h
        ]
      ]

  -- Nothing that was there is lost, and the new block is sent or stays.
  pub add_block-keeps :
      (next n j : ℕ) (o : Ordering Block height)
      → n < next
      → InOrder next o
      → (j ≡ n) ⊎ (load o.ordering_blocks j ≡ some (block_at j))
      → (add_block Block height o (block_at n)).expected_height ≤ j
      → load (add_block Block height o (block_at n)).ordering_blocks j ≡ some (block_at j)
  unfolding add_block stored
  add_block-keeps next n j o lt inv there le =
      send_ready-keeps (length (stored n o).ordering_blocks) next (stored n o) j (block_at j)
        (stored-InOrder next n o lt inv) (stored-has n j o there) le
