-- ===== src/Compression/Vlq.antt =====
-- Variable length quantities (bitcoincorecompression/compression.go, the first section).
-- A uint64 is a number below 2 ^ 64 with its wrap-around written out, a byte slice a list of
-- numbers below 256. A panic (an index out of range) is `none`.
pub mod Encode
pub mod RoundTrip
use mathlib.Core.Logic.{dite}
use mathlib.Core.WellFounded.{Acc}
use native.Mathlib.Decide.{dec_le, dec_lt}
use bitcoin_utxo_indexer.Prelude.{
  ℕ, ◌+◌, ◌-◌, ◌*◌, ◌/◌, ◌%◌, ◌^◌, ◌<◌, ◌≤◌, bit_and, bit_or, List, [], ◌∷◌, Option, none, some,
  length, set, arith, ltb, ◌==◌, not, if◌then◌else◌,
}
use bitcoin_utxo_indexer.Prelude.Order.{lt_wf}
use bitcoin_utxo_indexer.Prelude.Reverse.{reverse_loop, swap_bytes}

abbrev pub IsU64 : ℕ → Type 0
IsU64 n = n < 2 ^ 64

abbrev pub IsByte : ℕ → Type 0
IsByte b = b < 256

-- `n = (n >> 7) - 1` goes down while `n > 0x7f`, where the shift is at least 1.
pub shift_shrinks : (n : ℕ) → 0x7f < n → n / 2 ^ 7 - 1 < n
shift_shrinks n h = omega arith

pub serialize_size_loop : (size n : ℕ) → Acc ◌<◌ n → ℕ
serialize_size_loop size n (Acc.intro _ smaller) =
    dite (dec_lt 0x7f n)
      (λ more. serialize_size_loop (size + 1) (n / 2 ^ 7 - 1) (smaller _ (shift_shrinks n more)))
      (λ _. size)

unfoldable pub serialize_size_vlq : ℕ → ℕ
unfolding serialize_size_loop lt_wf dec_lt
serialize_size_vlq n = serialize_size_loop 1 n (lt_wf.apply n)

-- The high bit is set when another byte follows.
abbrev pub high_bit_mask : ℕ → ℕ
high_bit_mask offset = if offset == 0 then 0x00 else 0x80

-- The first loop of `PutVLQ`: the lowest group first. It answers the slice and the last offset.
pub put_loop : (target : List ℕ) (offset n : ℕ) → Acc ◌<◌ n → Option (List ℕ × ℕ)
put_loop target offset n (Acc.intro _ smaller) =
    let target' = set target offset (bit_or (bit_and n 0x7f % 256) (high_bit_mask offset)) in
    let written : Option (List ℕ × ℕ) =
      dite (dec_lt 0x7f n)
        (λ more. put_loop target' (offset + 1) (n / 2 ^ 7 - 1) (smaller _ (shift_shrinks n more)))
        (λ _. some (target', offset)) in
    if ltb offset (length target) then written else none

-- The second loop reverses the bytes, and the count is the last offset plus one.
pub reversed : Option (List ℕ × ℕ) → Option (List ℕ × ℕ)
unfolding reverse_loop swap_bytes
reversed none = none
reversed (some (target, offset)) = some (reverse_loop target 0 offset, offset + 1)

unfoldable pub put_vlq : List ℕ → ℕ → Option (List ℕ × ℕ)
unfolding put_loop reversed lt_wf dec_lt
put_vlq target n = reversed (put_loop target 0 n (lt_wf.apply n))

-- `for _, val := range serialized`: the number and the count of bytes taken.
unfoldable pub deserialize_loop : List ℕ → ℕ → ℕ → ℕ × ℕ
deserialize_loop [] n size = (n, size)
deserialize_loop (val ∷ rest) n size =
    let n' = bit_or (n * 2 ^ 7 % 2 ^ 64) (bit_and val 0x7f) in
    let more = deserialize_loop rest ((n' + 1) % 2 ^ 64) (size + 1) in
    if not (bit_and val 0x80 == 0x80) then (n', size + 1) else more

unfoldable pub deserialize_vlq : List ℕ → ℕ × ℕ
unfolding deserialize_loop
deserialize_vlq serialized = deserialize_loop serialized 0 0
