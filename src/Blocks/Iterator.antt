-- ===== src/Blocks/Iterator.antt =====
-- bitcoinblocksiterator/iterator.go: the goroutine of `downloadBlockHeaders`, the loop of
-- `downloadBlocks` and the goroutines it starts, as steps that take turns.
pub mod Moves
pub mod Delivery
use bitcoin_utxo_indexer.Prelude.{
  ℕ, zero, suc, ◌+◌, ◌≤◌, ◌<◌, Bool, true, false, Option, none, some, List, [], ◌∷◌, ◌++◌, length,
  ◌≡◌,
}
use bitcoin_utxo_indexer.Blocks.Semaphore.{Semaphore, new_semaphore, acquire, release}
use bitcoin_utxo_indexer.Blocks.Ordering.{Ordering, add_block}

-- What the node answers when a request succeeds: `GetBlockHash` at a height, `GetBlock` at a hash.
module _ (Hash Block : Type 0) (height : Block → ℕ) (get_block_hash : ℕ → Hash)
    (get_block : Hash → Block) where
  pub record Iterator : Type 0 where
    -- The variable of `downloadBlockHeaders` and what stands in its channel.
    pub current_block_height : ℕ
    pub block_hashes : List Hash
    -- The loop of `downloadBlocks`: the hash it waits with, and its goroutines, one for each hash.
    pub block_hash : Option Hash
    pub semaphore : Semaphore
    pub downloading : List Hash
    pub ordering : Ordering Block height
    pub cancelled : Bool

  -- `Iterate`, after it has asked for the height of the block to begin with.
  abbrev pub iterate : ℕ → ℕ → Iterator
  iterate limit start = record {
    current_block_height = start;
    block_hashes = [];
    block_hash = none;
    semaphore = new_semaphore limit;
    downloading = [];
    ordering = record { ordering_blocks = []; expected_height = start; sent = [] };
    cancelled = false;
  }

  -- A failed request is repeated: it changes nothing, and is no step. A send to a full channel, a
  -- wait for a permit and a wait for a hash are steps that cannot be taken.
  pub data Step (buffer_size : ℕ) : Iterator → Iterator → Type 0 where
    fetch_header :
        (s : Iterator)
        → length s.block_hashes < buffer_size
        → Step buffer_size s (record s {
          current_block_height = s.current_block_height + 1;
          block_hashes = s.block_hashes ++ (get_block_hash s.current_block_height ∷ []);
        })
    receive :
        (s : Iterator) (hash : Hash) (rest : List Hash)
        → s.block_hash ≡ none
        → s.block_hashes ≡ hash ∷ rest
        → Step buffer_size s (record s { block_hash = some hash; block_hashes = rest })
    begin_download :
        (s : Iterator) (hash : Hash) (permits : Semaphore)
        → s.block_hash ≡ some hash
        → acquire s.semaphore ≡ some permits
        → Step buffer_size s (record s {
          block_hash = none;
          semaphore = permits;
          downloading = hash ∷ s.downloading;
        })
    finish_download :
        (s : Iterator) (before : List Hash) (hash : Hash) (after : List Hash) (permits : Semaphore)
        → s.downloading ≡ before ++ (hash ∷ after)
        → release s.semaphore ≡ some permits
        → Step buffer_size s (record s {
          downloading = before ++ after;
          semaphore = permits;
          ordering = add_block Block height s.ordering (get_block hash);
        })
    cancel : (s : Iterator) → Step buffer_size s (record s { cancelled = true })
    -- A goroutine that sees the cancelled context returns without its block.
    abandon :
        (s : Iterator) (before : List Hash) (hash : Hash) (after : List Hash) (permits : Semaphore)
        → s.cancelled ≡ true
        → s.downloading ≡ before ++ (hash ∷ after)
        → release s.semaphore ≡ some permits
        → Step buffer_size s (record s { downloading = before ++ after; semaphore = permits })

  pub data Reach (buffer_size : ℕ) (s : Iterator) : Iterator → Type 0 where
    here : Reach buffer_size s s
    next : {t u : Iterator} → Reach buffer_size s t → Step buffer_size t u → Reach buffer_size s u
