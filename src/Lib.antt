-- ===== src/Lib.antt =====
-- The indexer of unspent Bitcoin outputs: how a block becomes a checkpoint, how a checkpoint is
-- committed to the database or taken back, and how outputs are compressed for storage.
--
-- A block from the node reaches `AddFromBlock` (internal/pkg/utxo/service/service.go), which asks the
-- spender for a checkpoint (internal/pkg/utxo/utxospending/utxospending.go) and the store to commit
-- it (internal/pkg/utxo/utxostore). The store writes the checkpoint to a file, the block to Redis in
-- one transaction, and removes the file. `New` compares the database with a checkpoint that was left
-- over and takes a block back that is not there as a whole.
--
-- The files:
--   Prelude: lists over the native numbers, Boolean tests, bits as arithmetic, slices and their
--     copies, the loop that reverses a slice, strings as lists of bytes, and Go's maps as lists of
--     entries. A map is visited in the order of its list, which stands for whatever order Go takes.
--   Compression/Vlq, Amount, Script, TxOut: variable length quantities, scripts and outputs of
--     internal/pkg/bitcoincore/bitcoincorecompression/compression.go, amounts of
--     internal/pkg/bitcoincore/utxocompression/compress.go. A uint64 is a natural number whose
--     operations wrap where they can; a panic is `none`.
--   Utxo/Outcome, Method: results with errors and panics, and methods that keep what was written
--     before an error.
--   Utxo/Types, Key, Checkpoint: types.go, key.go and checkpoint.go of utxostore.
--   Utxo/Backend: what the store calls, as a parameter: Redis behind its interfaces, the checkpoint
--     store and the two list functions of the library lo. `IsBackend` says what is asked of it:
--     reads tell what is stored, a MulGet may also list nothing, a write that fails was made or not, a
--     transaction is made whole or not at all. Utxo/Memory is a backend on which this holds.
--   Utxo/Store: utxostore.go and indexbyaddress.go. Effect and Commit are about the commands of a
--     commit, Atomic about its errors, Reads about the reading methods.
--   Utxo/Store/Rollback: the check of a store against its checkpoint and the way back. Commands
--     makes the way back a list of writes, Writes is about such lists, Restores, Check and Recovery
--     are about what is restored.
--   Utxo/Store/Outputs: the methods that find, add and spend outputs one by one. Methods holds them,
--     Unspent, Entries and ByAddress are about the outputs of an address.
--   Utxo/CheckpointFile: internal/pkg/utxo/checkpointstore, with the file system and msgpack as
--     parameters. Fills puts it in the place of a backend's checkpoint store, Broken is about a file
--     that was cut short.
--   Scanner, Scanner/State: internal/pkg/blockchainscanner. Progress is about its loop, with a
--     bound on the tries for one block. Scanner/Indexing: the scanner as the main command runs it
--     (cmd/utxo-indexer/main.go), over the store; Recorded and Stuck are about its handler.
--   Blocks/Options, Semaphore, Ordering, Iterator: internal/pkg/bitcoinblocksiterator and
--     internal/pkg/semaphore. Iterator has the goroutines as a step relation over one state: hashes
--     are fetched, taken up, downloaded in any order, and put in order; Ordering is the loop that
--     sends, Moves what each step keeps, Delivery what the reader of the channel gets. The node
--     answers from a chain that does not change.
--   Chainstate/Coin, Migration: internal/pkg/bitcoincore/utxo and internal/pkg/chainstatemigration.
--     The iterator's outputs are a list. Placed is about PushElementToPlace, Grouped and Total about
--     the entries that the loop makes, Stored has the calls of the store, Batches the whole loop over
--     a store as an argument, with a list beside it of what the store took.
--   Chainstate/Obfuscation, Reader: the key and the values of deobfuscation.go in
--     internal/pkg/bitcoincore/chainstate, the keys of its db.go, and internal/pkg/binaryutils.
--   Chainstate/Decode, Database: how an output is read, of internal/pkg/bitcoincore/utxo and
--     utxocompression, and the entries of LevelDB, of chainstate/iterator.go and db.go. LevelDB's
--     iterator is a list of keys and values without an error.
--   Transactions/Manager: Do of internal/pkg/transactionmanager/txmanager, over the calls of a driver.
--   KeyValue/InMemory: the map of
--     internal/pkg/keyvalueabstraction/providers/inmemorykvstore/inmemory.go. Refines compares it with
--     an abstract map, Listing is about its loop over the keys and the mutex.
--   KeyValue/Redis: keyvalueabstraction/providers/rediskvstore/redis.go, with the client of Redis as a
--     parameter, and the Flush of the store over it. Flushing says what `IsScanned` asks of SCAN.
--   Utxo/Block, Spending, Service: the parts of internal/pkg/universalbitcioin/blockchain that are
--     read, utxospending.go, and AddFromBlock. Address extraction, hex, decimals and public keys are
--     parameters. Service/Checkpoints, Taken and Reading are about the checkpoint of a block, Added
--     and Typed about AddFromBlock as a whole. Spending/Spent looks at one output, Referred
--     and Dereferred at one reference.
--   Versions, Versions/Cleaning: internal/pkg/migrationmanager, and deleteOldVersionsData of
--     cmd/utxo-indexer/main.go. Counting is about lists without repetitions, Ends about the loop,
--     with a set whose order is left open.
--
-- Loops are recursion on lists, or on the accessibility of `<` where a quotient shrinks. Fuel is used
-- for the at most nine rounds of the amount's loop, for the loop that sends blocks, whose rounds are at
-- most the entries of its map, for the tries of a block or of a full batch, which are as many as the
-- environment makes fail, for the rounds of the cleaning, of which each deletes a version, and for the
-- keys of a SCAN. Heights are natural numbers that do not wrap; an output's index may be negative, as
-- in Go. Concurrency of requests is not modelled: the store's semaphore lets one repair run at a time.
--
-- Not modelled: the closing of the iterator's channels, the lookups of single outputs in the chainstate, the transaction drivers, the file of
-- the store in memory, WithTx of the stores, transport, generated code, configuration and wiring.
pub mod Prelude
pub mod KeyValue
pub mod Transactions
pub mod Blocks
pub mod Chainstate
pub mod Compression
pub mod Utxo
pub mod Scanner
pub mod Versions
