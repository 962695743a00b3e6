-- ===== src/Compression/Vlq/RoundTrip.antt =====
-- Reading back what `PutVLQ` wrote.
use bitcoin_utxo_indexer.Prelude.{
  ℕ, zero, suc, ◌+◌, ◌-◌, ◌*◌, ◌/◌, ◌%◌, ◌^◌, ◌<◌, ◌≤◌, ◌≡◌, ◌∙◌, List, [], ◌∷◌, ◌++◌, reverse,
  append_assoc, some, length, drop, drop-length, sym, arith,
}
use mathlib.Core.List.{reverse-cons}
use native.Mathlib.Decide.{dec_lt}
use bitcoin_utxo_indexer.Prelude.Bits.{low_bits, top_bit, bit_or_shift7}
use bitcoin_utxo_indexer.Compression.Vlq.{
  IsU64, deserialize_loop, deserialize_vlq, put_vlq, serialize_size_vlq,
}
use bitcoin_utxo_indexer.Compression.Vlq.Encode.{
  groups, encoding, length-encoding, put_vlq-encoding, serialize_size_vlq-encoding,
}

-- One round of the loop on a byte with the top bit, and on one without.
inner_round :
    (n g size : ℕ) (rest : List ℕ)
    → g < 128
    → n * 128 + g + 1 < 2 ^ 64
    → deserialize_loop ((g + 128) ∷ rest) n size
      ≡ deserialize_loop rest (n * 128 + g + 1) (size + 1)
unfolding deserialize_loop
inner_round n g size rest hg fits =
    ground (arith, low_bits (g + 128), top_bit (g + 128), bit_or_shift7 n g)

pub last_round :
    (n g size : ℕ) (rest : List ℕ)
    → g < 128
    → n * 128 + g < 2 ^ 64
    → deserialize_loop (g ∷ rest) n size ≡ (n * 128 + g, size + 1)
unfolding deserialize_loop
last_round n g size rest hg fits = ground (arith, low_bits g, top_bit g, bit_or_shift7 n g)

groups_small : (k mask n : ℕ) → n ≤ 127 → groups (suc k) mask n ≡ (n % 128 + mask) ∷ []
unfolding groups
groups_small k mask n h = ground arith

groups_large :
    (k mask n : ℕ)
    → 127 < n
    → groups (suc k) mask n ≡ (n % 128 + mask) ∷ groups k 0x80 (n / 128 - 1)
unfolding groups
groups_large k mask n h = ground arith

reverse-cons-append :
    (b : ℕ) (gs rest : List ℕ) → reverse (b ∷ gs) ++ rest ≡ reverse gs ++ (b ∷ rest)
reverse-cons-append b gs rest = rw (reverse-cons b gs) (append_assoc (reverse gs) (b ∷ []) rest)

-- The groups before the last leave the number that they stand for, plus one.
inner_groups :
    (k n size : ℕ) (rest : List ℕ)
    → n ≤ k
    → n + 1 < 2 ^ 64
    → deserialize_loop (reverse (groups k 0x80 n) ++ rest) 0 size
      ≡ deserialize_loop rest (n + 1) (size + length (groups k 0x80 n))
inner_groups zero n size rest h fits =
    unfold groups in inner_round 0 (n % 128) size rest (omega arith) (omega arith) ∙ ground arith
inner_groups (suc k) n size rest h fits = elim (dec_lt 127 n) [
  | yes large ↦
      rw (groups_large k 0x80 n large, reverse-cons-append)
        (inner_groups k (n / 128 - 1) size ((n % 128 + 128) ∷ rest) (omega arith) (omega arith)
          ∙ inner_round (n / 128 - 1 + 1) (n % 128) _ rest (omega arith) (omega arith)
          ∙ ground arith)
  | no small ↦
      rw (groups_small k 0x80 n (omega arith))
        (inner_round 0 (n % 128) size rest (omega arith) (omega arith) ∙ ground arith)
]

encoding-deserialize_loop :
    (n k : ℕ) (rest : List ℕ)
    → n ≤ k
    → IsU64 n
    → deserialize_loop (reverse (groups k 0 n) ++ rest) 0 0 ≡ (n, length (groups k 0 n))
encoding-deserialize_loop n zero rest hk h =
    unfold groups in last_round 0 (n % 128 + 0) 0 rest (omega arith) (omega arith) ∙ ground arith
encoding-deserialize_loop n (suc k) rest hk h = elim (dec_lt 127 n) [
  | yes large ↦
      rw (groups_large k 0 n large, reverse-cons-append)
        (inner_groups k (n / 128 - 1) 0 ((n % 128 + 0) ∷ rest) (omega arith) (omega arith)
          ∙ last_round (n / 128 - 1 + 1) (n % 128 + 0) _ rest (omega arith) (omega arith)
          ∙ ground arith)
  | no small ↦
      rw (groups_small k 0 n (omega arith))
        (last_round 0 (n % 128 + 0) 0 rest (omega arith) (omega arith) ∙ ground arith)
]

-- Reading the encoding of a uint64, whatever follows it, gives the number and the bytes it took.
pub deserialize_vlq-encoding :
    (n : ℕ) (rest : List ℕ)
    → IsU64 n
    → deserialize_vlq (encoding n ++ rest) ≡ (n, length (encoding n))
unfolding deserialize_vlq encoding
deserialize_vlq-encoding n rest h =
    encoding-deserialize_loop n n rest (omega arith) h ∙ ground (arith, length-encoding n)

-- A uint64 put into a slice with room for `serializeSizeVLQ` bytes is read back from that slice,
-- in as many bytes as were announced and written; what stands behind them is not touched.
pub deserialize_vlq-put_vlq :
    (n : ℕ) (target : List ℕ)
    → IsU64 n
    → serialize_size_vlq n ≤ length target
    → (written : List ℕ) × (put_vlq target n ≡ some (written, serialize_size_vlq n))
      × (deserialize_vlq written ≡ (n, serialize_size_vlq n))
      × (drop (serialize_size_vlq n) written ≡ drop (serialize_size_vlq n) target)
deserialize_vlq-put_vlq n target h room =
    let size : length (encoding n) ≡ serialize_size_vlq n = sym (serialize_size_vlq-encoding n) in
    let rest : List ℕ = drop (serialize_size_vlq n) target in
    (
      encoding n ++ rest,
      rw size at ((put_vlq-encoding n target).0 (omega arith)),
      rw size at (deserialize_vlq-encoding n rest h),
      rw size at (drop-length (encoding n) rest),
    )
