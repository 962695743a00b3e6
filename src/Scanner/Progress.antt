-- ===== src/Scanner/Progress.antt =====
-- Which blocks were handled when the loop is left, and that it is left.
use bitcoin_utxo_indexer.Prelude.{
  ℕ, zero, suc, ◌≡◌, refl, ap, ◌∙◌, sym, true, Bool-cases, List, [], ◌∷◌, ◌++◌, append_assoc,
  append-nil, inl, inr, ◌≢◌,
}
use bitcoin_utxo_indexer.Utxo.Outcome.{Outcome, ok, err, panic}
use bitcoin_utxo_indexer.Scanner.{
  Scanner, Scan, handled, stopped, crashed, unfinished, scan_block, scan_blocks,
}

-- What the blocks that a world has handled are: a call without an error adds its block, and neither
-- another end of a call nor the time between two calls adds one.
pub record IsHandler {W B : Type 0} (s : Scanner W B) : Type 0 where
  pub done : W → List B
  pub handle_ok :
      (block : B) (w : W)
      → (s.handle_blocks block w).0 ≡ ok tt
      → done (s.handle_blocks block w).1 ≡ done w ++ (block ∷ [])
  pub handle_failed :
      (block : B) (w : W)
      → (s.handle_blocks block w).0 ≢ ok tt
      → done (s.handle_blocks block w).1 ≡ done w
  pub wait-done : (w : W) → done (s.wait w) ≡ done w

-- The loop was left at `block`, with the blocks in front of it handled.
pub record LeftAt {W B : Type 0} (done : W → List B) (before blocks : List B) (w : W) : Type 0 where
  pub front : List B
  pub block : B
  pub rest : List B
  pub split : blocks ≡ front ++ (block ∷ rest)
  pub so_far : done w ≡ before ++ front

-- What is handled at each end of the loop over `blocks`, from `before` on.
abbrev pub Progress :
    {W B : Type 0} (s : Scanner W B) (done : W → List B) (before blocks : List B) → Scan W → Type 0
Progress s done before blocks (handled w) = done w ≡ before ++ blocks
Progress s done before blocks (stopped w) = LeftAt done before blocks w × (s.cancelled w ≡ true)
Progress s done before blocks (crashed w) = LeftAt done before blocks w
Progress s done before blocks (unfinished w) = LeftAt done before blocks w

-- The same for one block.
abbrev Tried :
    {W B : Type 0} (s : Scanner W B) (done : W → List B) (before : List B) (block : B)
    → Scan W
    → Type 0
Tried s done before block (handled w) = done w ≡ before ++ (block ∷ [])
Tried s done before block (stopped w) = (done w ≡ before) × (s.cancelled w ≡ true)
Tried s done before block (crashed w) = done w ≡ before
Tried s done before block (unfinished w) = done w ≡ before

left_first :
    {W B : Type 0} (done : W → List B) (before : List B) (block : B) (blocks : List B) (w : W)
    → done w ≡ before
    → LeftAt done before (block ∷ blocks) w
left_first done before block blocks w e = record {
  front = [];
  block = block;
  rest = blocks;
  split = refl;
  so_far = e ∙ sym (append-nil before);
}

left_later :
    {W B : Type 0} (done : W → List B) (before : List B) (first : B) (blocks : List B) (w : W)
    → LeftAt done (before ++ (first ∷ [])) blocks w
    → LeftAt done before (first ∷ blocks) w
left_later done before first blocks w l = record {
  front = first ∷ l.front;
  block = l.block;
  rest = l.rest;
  split = ap (λ (r : List _). first ∷ r) l.split;
  so_far = l.so_far ∙ append_assoc before (first ∷ []) l.front;
}

module _ {W B : Type 0} (s : Scanner W B) (laws : IsHandler s) where
  open s use {handle_blocks, cancelled, wait}
  open laws use {done}

  attempt-Tried :
      (block : B) (w : W) (r : Outcome (Unit {0})) (again : Scan W)
      → (handle_blocks block w).0 ≡ r
      → Tried s done (done (wait (handle_blocks block w).1)) block again
      → Tried s done (done w) block (elim r as (λ x. Scan W) [
        | ok x ↦ handled (handle_blocks block w).1
        | err e ↦ again
        | panic ↦ crashed (handle_blocks block w).1
      ])
  attempt-Tried block w (ok tt) again e later = laws.handle_ok block w e
  attempt-Tried block w (err x) again e later =
      rw (laws.wait-done (handle_blocks block w).1, laws.handle_failed block w (λ h. cc)) at later
  attempt-Tried block w panic again e later = laws.handle_failed block w (λ h. cc)

  scan_block-Tried :
      (tries : ℕ) (block : B) (w : W) → Tried s done (done w) block (scan_block s tries block w)
  unfolding scan_block
  scan_block-Tried zero block w = refl
  scan_block-Tried (suc tries) block w = elim (Bool-cases (cancelled w)) [
    | inl over ↦ rw over (refl, over)
    | inr on ↦ rw on (
        attempt-Tried block w (handle_blocks block w).0 _ refl
          (scan_block-Tried tries block (wait (handle_blocks block w).1)))
  ]

  shift-Progress :
      (before : List B) (first : B) (blocks : List B) (r : Scan W)
      → Progress s done (before ++ (first ∷ [])) blocks r
      → Progress s done before (first ∷ blocks) r
  shift-Progress before first blocks (handled w) p = p ∙ append_assoc before (first ∷ []) blocks
  shift-Progress before first blocks (stopped w) (l, over) =
      (left_later done before first blocks w l, over)
  shift-Progress before first blocks (crashed w) l = left_later done before first blocks w l
  shift-Progress before first blocks (unfinished w) l = left_later done before first blocks w l

  -- A loop over the first block and then over the rest.
  after_block-Progress :
      (tries : ℕ) (block : B) (blocks before : List B) (first : Scan W)
      → ((w : W) → Progress s done (done w) blocks (scan_blocks s tries blocks w))
      → Tried s done before block first
      → Progress s done before (block ∷ blocks) (elim first as (λ x. Scan W) [
        | handled w' ↦ scan_blocks s tries blocks w'
        | stopped w' ↦ stopped w'
        | crashed w' ↦ crashed w'
        | unfinished w' ↦ unfinished w'
      ])
  after_block-Progress tries block blocks before (handled w) rest p =
      shift-Progress before block blocks (scan_blocks s tries blocks w) (rw p at (rest w))
  after_block-Progress tries block blocks before (stopped w) rest (p, over) =
      (left_first done before block blocks w p, over)
  after_block-Progress tries block blocks before (crashed w) rest p =
      left_first done before block blocks w p
  after_block-Progress tries block blocks before (unfinished w) rest p =
      left_first done before block blocks w p

  -- Whatever calls fail and however often: the blocks that are handled are the first of those that
  -- the iterator gave, in their order and each once; all of them where the loop ends by itself; and
  -- where it is left before, the context was done, or the handler crashed, or the tries ran out.
  pub scan_blocks-Progress :
      (tries : ℕ) (blocks : List B) (w : W)
      → Progress s done (done w) blocks (scan_blocks s tries blocks w)
  unfolding scan_blocks
  scan_blocks-Progress tries [] w = sym (append-nil (done w))
  scan_blocks-Progress tries (block ∷ blocks) w =
      after_block-Progress tries block blocks (done w) (scan_block s tries block w)
        (λ w'. scan_blocks-Progress tries blocks w') (scan_block-Tried tries block w)
