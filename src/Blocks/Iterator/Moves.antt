-- ===== src/Blocks/Iterator/Moves.antt =====
-- What every step of the iterator keeps.
use bitcoin_utxo_indexer.Prelude.{
  ℕ, suc, ◌+◌, ◌-◌, ◌≤◌, ◌<◌, true, false, Option, none, some, List, [], ◌∷◌, ◌++◌, length, ◌≡◌,
  refl, sym, ap, ◌∙◌, ◌⊎◌, inl, inr, arith, append_assoc, length-append,
}
use native.Mathlib.Decide.{dec_lt}
use bitcoin_utxo_indexer.Prelude.Among.{
  Among, Among-append, join_left, join_right, Among-middle, into_middle, into_taken, Among-taken,
}
use bitcoin_utxo_indexer.Prelude.NatMap.{load}
use bitcoin_utxo_indexer.Blocks.Semaphore.{Semaphore, acquire, release, acquire_lem, release_lem}
use bitcoin_utxo_indexer.Blocks.Ordering.{add_block}
use bitcoin_utxo_indexer.Blocks.Ordering.InOrder.{
  InOrder, InOrder-later, chain_part, add_block-InOrder, add_block-sends_all, add_block-keeps,
  add_block-forward,
}
use bitcoin_utxo_indexer.Blocks.Iterator.{
  Iterator, iterate, Step, fetch_header, receive, begin_download, finish_download, cancel, abandon,
}

-- Permits are held for what is being downloaded.
unfoldable pub HasPermits {ℓ} : {A : Type ℓ} → ℕ → Semaphore → List A → Type 0
HasPermits limit s downloading =
    (s.held ≡ length downloading) × ((s.capacity ≡ limit) × (s.held ≤ s.capacity))

module _ {ℓ} {A : Type ℓ} where
  acquire-HasPermits :
      (limit : ℕ) (s permits : Semaphore) (x : A) (xs : List A)
      → acquire s ≡ some permits
      → HasPermits limit s xs
      → HasPermits limit permits (x ∷ xs)
  unfolding HasPermits
  acquire-HasPermits limit s permits x xs e h =
      let lem = acquire_lem s permits e in (omega arith, (omega arith, omega arith))

  release-HasPermits :
      (limit : ℕ) (s permits : Semaphore) (before : List A) (x : A) (after : List A)
      → release s ≡ some permits
      → HasPermits limit s (before ++ (x ∷ after))
      → HasPermits limit permits (before ++ after)
  unfolding HasPermits
  release-HasPermits limit s permits before x after e h =
      let lem = release_lem s permits e in
      let all = length-append before (x ∷ after) in
      let others = length-append before after in (omega arith, (omega arith, omega arith))

abbrev pub waiting : {A : Type 0} → Option A → List A
waiting none = []
waiting (some a) = a ∷ []

module _ (Hash Block : Type 0) (height : Block → ℕ) (get_block_hash : ℕ → Hash)
    (get_block : Hash → Block) (at_height : (n : ℕ) → height (get_block (get_block_hash n)) ≡ n)
    (buffer_size limit start : ℕ) where
  abbrev pub block_at : ℕ → Block
  block_at n = get_block (get_block_hash n)

  abbrev It : Type 0
  It = Iterator Hash Block height get_block_hash get_block

  -- The hashes that were fetched and whose blocks were not downloaded.
  abbrev pub outstanding : It → List Hash
  outstanding s = s.downloading ++ (waiting s.block_hash ++ s.block_hashes)

  -- A height whose block is still to be sent is being worked on.
  abbrev pub Underway : It → ℕ → Type 0
  Underway s n =
      Among (get_block_hash n) (outstanding s)
      ⊎ (load s.ordering.ordering_blocks n ≡ some (block_at n))

  pub record Inv (s : It) : Type 0 where
    pub ordered : InOrder Block height block_at at_height start s.current_block_height s.ordering
    pub permits : HasPermits limit s.semaphore s.downloading
    pub buffered : length s.block_hashes ≤ buffer_size
    pub fetched :
        (hash : Hash)
        → Among hash (outstanding s)
        → (n : ℕ) × ((hash ≡ get_block_hash n) × (n < s.current_block_height))
    pub sent_all : load s.ordering.ordering_blocks s.ordering.expected_height ≡ none
    pub complete :
        s.cancelled ≡ false
        → (n : ℕ) → s.ordering.expected_height ≤ n
        → n < s.current_block_height
        → Underway s n

  pub iterate-Inv : Inv (iterate Hash Block height get_block_hash get_block limit start)
  unfolding HasPermits load chain_part
  iterate-Inv = record {
    ordered = record {
      kept = λ n block h. absurd cc;
      from_start = omega arith;
      below_next = omega arith;
      in_order = let nothing : start - start ≡ 0 = omega arith in rw nothing refl;
    };
    permits = (refl, (refl, omega arith));
    buffered = omega arith;
    fetched = λ hash h. absurd h;
    sent_all = refl;
    complete = λ c n le lt. absurd (omega arith);
  }

  fetch_header-Inv :
      (s : It)
      → length s.block_hashes < buffer_size
      → Inv s
      → Inv (record s {
        current_block_height = s.current_block_height + 1;
        block_hashes = s.block_hashes ++ (get_block_hash s.current_block_height ∷ []);
      })
  fetch_header-Inv s room inv =
      let new_hash : List Hash = get_block_hash s.current_block_height ∷ [] in
      let shape : s.downloading ++ (waiting s.block_hash ++ (s.block_hashes ++ new_hash))
          ≡ outstanding s ++ new_hash =
        sym (
          append_assoc s.downloading (waiting s.block_hash ++ s.block_hashes) new_hash
          ∙ ap (λ (l : List Hash). s.downloading ++ l)
              (append_assoc (waiting s.block_hash) s.block_hashes new_hash)) in
      record {
        ordered =
            InOrder-later Block height block_at at_height start _ _ s.ordering (omega arith)
              inv.ordered;
        permits = inv.permits;
        buffered = omega (arith, length-append s.block_hashes new_hash);
        fetched = λ hash h. elim (Among-append hash (outstanding s) new_hash (rw shape at h)) [
          | inl l ↦ let (n, (e, lt)) = inv.fetched hash l in (n, (e, omega arith))
          | inr (inl e) ↦ (s.current_block_height, (e, omega arith))
          | inr (inr none_left) ↦ absurd none_left
        ];
        sent_all = inv.sent_all;
        complete = λ c n le lt. elim (dec_lt n s.current_block_height) [
          | yes below ↦ elim (inv.complete c n le below) [
            | inl l ↦ inl (rw shape (join_left _ (outstanding s) new_hash l))
            | inr r ↦ inr r
          ]
          | no above ↦
              let last : n ≡ s.current_block_height = omega arith in
              inl (rw shape (join_right _ (outstanding s) new_hash (inl (ap get_block_hash last))))
        ];
      }

  receive-Inv :
      (s : It) (hash : Hash) (rest : List Hash)
      → s.block_hash ≡ none
      → s.block_hashes ≡ hash ∷ rest
      → Inv s
      → Inv (record s { block_hash = some hash; block_hashes = rest })
  receive-Inv s hash rest e f inv =
      let same : outstanding s ≡ s.downloading ++ (hash ∷ rest) = rw (e, f) refl in
      let count : length s.block_hashes ≡ suc (length rest) = rw f refl in
      record {
        ordered = inv.ordered;
        permits = inv.permits;
        buffered = omega (arith, inv.buffered, count);
        fetched = λ h among. inv.fetched h (rw same among);
        sent_all = inv.sent_all;
        complete = λ c n le lt. elim (inv.complete c n le lt) [
          | inl l ↦ inl (rw same at l)
          | inr r ↦ inr r
        ];
      }

  begin_download-Inv :
      (s : It) (hash : Hash) (permits : Semaphore)
      → s.block_hash ≡ some hash
      → acquire s.semaphore ≡ some permits
      → Inv s
      → Inv
          (record s { block_hash = none; semaphore = permits; downloading = hash ∷ s.downloading })
  begin_download-Inv s hash permits e f inv =
      let same : outstanding s ≡ s.downloading ++ (hash ∷ s.block_hashes) = rw e refl in
      record {
        ordered = inv.ordered;
        permits = acquire-HasPermits limit s.semaphore permits hash s.downloading f inv.permits;
        buffered = inv.buffered;
        fetched = λ h among.
            inv.fetched h (rw same (into_middle h s.downloading hash s.block_hashes among));
        sent_all = inv.sent_all;
        complete = λ c n le lt. elim (inv.complete c n le lt) [
          | inl l ↦
              inl (Among-middle (get_block_hash n) s.downloading hash s.block_hashes (rw same at l))
          | inr r ↦ inr r
        ];
      }

  -- The hashes behind a download.
  abbrev behind : It → List Hash
  behind s = waiting s.block_hash ++ s.block_hashes

  same_height : (n m : ℕ) → get_block_hash n ≡ get_block_hash m → n ≡ m
  same_height n m e = sym (at_height n) ∙ ap (λ h. height (get_block h)) e ∙ at_height m

  module _ (s : It) (before : List Hash) (hash : Hash) (after : List Hash) (permits : Semaphore)
      (e : s.downloading ≡ before ++ (hash ∷ after)) (f : release s.semaphore ≡ some permits)
      (inv : Inv s) where
    opened : outstanding s ≡ (before ++ (hash ∷ after)) ++ behind s
    opened = rw e refl

    still_held : HasPermits limit permits (before ++ after)
    still_held =
        release-HasPermits limit s.semaphore permits before hash after f (rw e at inv.permits)

    taken_of :
        (n : Hash) → (n ≡ hash) ⊎ Among n ((before ++ after) ++ behind s) → Among n (outstanding s)
    taken_of n h = rw opened (into_taken before hash after (behind s) n h)

    abandon-Inv :
        s.cancelled ≡ true → Inv (record s { downloading = before ++ after; semaphore = permits })
    abandon-Inv c = record {
      ordered = inv.ordered;
      permits = still_held;
      buffered = inv.buffered;
      fetched = λ h among. inv.fetched h (taken_of h (inr among));
      sent_all = inv.sent_all;
      complete = λ c'. absurd cc;
    }

    abbrev finished : It
    finished = record s {
      downloading = before ++ after;
      semaphore = permits;
      ordering = add_block Block height s.ordering (get_block hash);
    }

    -- A block that is still to be sent stays in the map, or its hash is another goroutine's.
    finished-Underway :
        (n m : ℕ)
        → hash ≡ get_block_hash n
        → n < s.current_block_height
        → finished.ordering.expected_height ≤ m
        → Underway s m
        → Underway finished m
    finished-Underway n m same below le underway =
        let add : get_block hash ≡ block_at n = ap get_block same in
        let keep : (m ≡ n) ⊎ (load s.ordering.ordering_blocks m ≡ some (block_at m))
            → Underway finished m =
          λ there. inr (
            rw add (
              add_block-keeps Block height block_at at_height start s.current_block_height n m
                s.ordering below inv.ordered there (rw add at le))) in
        elim underway [
          | inl l ↦
              elim (Among-taken before hash after (behind s) (get_block_hash m) (rw opened at l)) [
                | inl eq ↦ keep (inl (same_height m n (eq ∙ same)))
                | inr r ↦ inl r
              ]
          | inr r ↦ keep (inr r)
        ]

    finish_download-Inv : Inv finished
    finish_download-Inv =
        let (n, (same, below)) = inv.fetched hash (taken_of hash (inl refl)) in
        let add : get_block hash ≡ block_at n = ap get_block same in
        let forward =
          add_block-forward Block height block_at at_height start s.current_block_height n
            s.ordering below inv.ordered in
        record {
          ordered = rw add (
              add_block-InOrder Block height block_at at_height start s.current_block_height n
                s.ordering below inv.ordered);
          permits = still_held;
          buffered = inv.buffered;
          fetched = λ h among. inv.fetched h (taken_of h (inr among));
          sent_all =
              add_block-sends_all Block height block_at at_height start s.ordering (get_block hash);
          complete = λ c m le lt.
              let le' : (add_block Block height s.ordering (block_at n)).expected_height ≤ m =
                rw add at le in
              finished-Underway n m same below le (inv.complete c m (omega arith) lt);
        }

  pub Step-Inv :
      {s t : It} → Step Hash Block height get_block_hash get_block buffer_size s t → Inv s → Inv t
  Step-Inv (fetch_header s room) inv = fetch_header-Inv s room inv
  Step-Inv (receive s hash rest e f) inv = receive-Inv s hash rest e f inv
  Step-Inv (begin_download s hash permits e f) inv = begin_download-Inv s hash permits e f inv
  Step-Inv (finish_download s before hash after permits e f) inv =
      finish_download-Inv s before hash after permits e f inv
  Step-Inv (cancel s) inv = record {
    ordered = inv.ordered;
    permits = inv.permits;
    buffered = inv.buffered;
    fetched = inv.fetched;
    sent_all = inv.sent_all;
    complete = λ c. absurd cc;
  }
  Step-Inv (abandon s before hash after permits c e f) inv =
      abandon-Inv s before hash after permits e f inv c
