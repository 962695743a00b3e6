-- ===== src/Compression/Vlq/Encode.antt =====
-- What `PutVLQ` writes, and how long it is.
use mathlib.Core.WellFounded.{Acc}
use bitcoin_utxo_indexer.Prelude.{
  ℕ, zero, suc, ◌+◌, ◌-◌, ◌/◌, ◌%◌, ◌^◌, ◌<◌, ◌≤◌, ◌≡◌, refl, ap, bit_and, bit_or, List, [], ◌∷◌,
  ◌++◌, reverse, append_assoc, none, some, true, All, length, length-set, set, drop, arith, ltb,
  leb, if◌then◌else◌, length-append, length-reverse, All-reverse, set-length,
}
use bitcoin_utxo_indexer.Prelude.Bits.{bit_and_low7, set_top_bit, bit_or-zero}
use bitcoin_utxo_indexer.Prelude.Reverse.{reverse_loop, reverse_loop-reverse}
use native.Mathlib.Nat.{pow-suc}
use bitcoin_utxo_indexer.Compression.Vlq.{
  IsU64, IsByte, serialize_size_loop, serialize_size_vlq, high_bit_mask, put_loop, reversed,
  put_vlq,
}

-- The groups of seven bits of `n`, lowest first; the lowest carries `mask`, each other the bit
-- 0x80. Each step takes one from the quotient. `k` is at least `n`, or large enough for it.
unfoldable pub groups : ℕ → ℕ → ℕ → List ℕ
groups zero mask n = (n % 128 + mask) ∷ []
groups (suc k) mask n =
    let rest = groups k 0x80 (n / 128 - 1) in (n % 128 + mask) ∷ (if leb n 0x7f then [] else rest)

-- The encoding of `n`, most significant group first.
unfoldable pub encoding : ℕ → List ℕ
unfolding groups
encoding n = reverse (groups n 0 n)

low_group : (n : ℕ) → bit_and n 0x7f % 256 ≡ n % 128
low_group n = omega (arith, bit_and_low7 n)

inner_group : (n : ℕ) → bit_or (bit_and n 0x7f % 256) 0x80 ≡ n % 128 + 128
inner_group n = rw low_group (set_top_bit (n % 128) (omega arith))

group_byte :
    (n offset : ℕ)
    → bit_or (bit_and n 0x7f % 256) (high_bit_mask offset) ≡ n % 128 + high_bit_mask offset
group_byte n offset = ground (arith, low_group n, bit_or-zero (bit_and n 0x7f % 256), inner_group n)

serialize_size_loop-groups :
    (k mask size n : ℕ) (w : Acc ◌<◌ n)
    → n ≤ k
    → serialize_size_loop (size + 1) n w ≡ size + length (groups k mask n)
unfolding serialize_size_loop groups
serialize_size_loop-groups zero mask size n (Acc.intro _ smaller) h = ground arith
serialize_size_loop-groups (suc k) mask size n (Acc.intro _ smaller) h = grind (
  arith,
  λ (w : Acc ◌<◌ (n / 128 - 1)).
      serialize_size_loop-groups k 0x80 (size + 1) (n / 128 - 1) w (omega arith),
)

-- One round writes behind `pre`.
put_round :
    (pre ts : List ℕ) (t n offset : ℕ) (whole : List ℕ)
    → offset ≡ length pre
    → whole ≡ pre ++ (t ∷ ts)
    → (set whole offset (bit_or (bit_and n 0x7f % 256) (high_bit_mask offset))
        ≡ pre ++ ((n % 128 + high_bit_mask offset) ∷ ts))
      × (ltb offset (length whole) ≡ true)
put_round pre ts t n offset whole eo ew = (
  rw (group_byte n offset, ew, eo) (set-length pre t _ ts),
  ground (arith, ap length ew, length-append pre (t ∷ ts)),
)

put_loop-groups :
    (k n mask : ℕ) (w : Acc ◌<◌ n) (pre target whole : List ℕ) (offset : ℕ)
    → mask ≡ high_bit_mask offset
    → offset ≡ length pre
    → whole ≡ pre ++ target
    → n ≤ k
    → length (groups k mask n) ≤ length target
    → put_loop whole offset n w
      ≡ some (
        pre ++ (groups k mask n ++ drop (length (groups k mask n)) target),
        offset + length (groups k mask n) - 1,
      )
unfolding put_loop groups
put_loop-groups zero n mask w pre [] whole offset em eo ew h fits = absurd (omega arith)
put_loop-groups (suc k) n mask w pre [] whole offset em eo ew h fits = absurd (omega arith)
put_loop-groups zero n mask (Acc.intro _ smaller) pre (t ∷ ts) whole offset em eo ew h fits =
    ground (arith, put_round pre ts t n offset whole eo ew)
put_loop-groups (suc k) n mask (Acc.intro _ smaller) pre (t ∷ ts) whole offset em eo ew h fits =
    let b : ℕ = n % 128 + mask in
    let round = put_round pre ts t n offset whole eo ew in
    let next : ℕ = n / 128 - 1 in
    let whole' : List ℕ = set whole offset (bit_or (bit_and n 0x7f % 256) (high_bit_mask offset)) in
    let split : (pre ++ (b ∷ [])) ++ ts ≡ pre ++ (b ∷ ts) = append_assoc pre (b ∷ []) ts in
    grind (
      arith,
      round.0,
      round.1,
      split,
      append_assoc pre (b ∷ []) (groups k 0x80 next ++ drop (length (groups k 0x80 next)) ts),
      λ (w : Acc ◌<◌ next) (short : length (groups k 0x80 next) ≤ length ts).
          put_loop-groups k next 0x80 w (pre ++ (b ∷ [])) ts whole' (offset + 1) (ground arith)
            (omega (arith, length-append pre (b ∷ []))) (ground (arith, round.0, split))
            (omega arith) short,
    )

put_loop-short :
    (k n mask : ℕ) (w : Acc ◌<◌ n) (target : List ℕ) (offset : ℕ)
    → n ≤ k
    → length target < offset + length (groups k mask n)
    → put_loop target offset n w ≡ none
unfolding put_loop groups
put_loop-short zero n mask (Acc.intro _ smaller) target offset h short = ground arith
put_loop-short (suc k) n mask (Acc.intro _ smaller) target offset h short =
    let target' : List ℕ =
      set target offset (bit_or (bit_and n 0x7f % 256) (high_bit_mask offset)) in
    grind (
      arith,
      length-set target offset (bit_or (bit_and n 0x7f % 256) (high_bit_mask offset)),
      λ (w : Acc ◌<◌ (n / 128 - 1))
            (more : length target' < offset + 1 + length (groups k 0x80 (n / 128 - 1))).
          put_loop-short k (n / 128 - 1) 0x80 w target' (offset + 1) (omega arith) more,
    )

groups_pos : (k mask n : ℕ) → 1 ≤ length (groups k mask n)
unfolding groups
groups_pos zero mask n = omega arith
groups_pos (suc k) mask n = omega arith

pub length-encoding : (n : ℕ) → length (encoding n) ≡ length (groups n 0 n)
unfolding encoding
length-encoding n = length-reverse (groups n 0 n)

reversed_groups :
    (n : ℕ) (rest : List ℕ)
    → reverse_loop (groups n 0 n ++ rest) 0 (0 + length (groups n 0 n) - 1) ≡ encoding n ++ rest
unfolding encoding
reversed_groups n rest =
    reverse_loop-reverse (0 + length (groups n 0 n) - 1) [] (groups n 0 n) rest
      (omega (arith, groups_pos n 0 n))

last_plus_one : (n : ℕ) → 0 + length (groups n 0 n) - 1 + 1 ≡ length (groups n 0 n)
last_plus_one n = omega (arith, groups_pos n 0 n)

-- `PutVLQ` writes the encoding of every number at the front of the target, leaves what follows it,
-- and answers its length, where the target has room; without room it panics.
pub put_vlq-encoding :
    (n : ℕ) (target : List ℕ)
    → (length (encoding n) ≤ length target
        → put_vlq target n
          ≡ some (encoding n ++ drop (length (encoding n)) target, length (encoding n)))
      × (length target < length (encoding n) → put_vlq target n ≡ none)
unfolding put_vlq reversed encoding
put_vlq-encoding n target = (
  λ room.
      rw
        (
          put_loop-groups n n 0 _ [] target target 0 refl refl refl (omega arith)
              (omega (arith, length-encoding n)),
          length-encoding n,
        )
        (cc (reversed_groups n (drop (length (groups n 0 n)) target), last_plus_one n)),
  λ short.
      rw (put_loop-short n n 0 _ target 0 (omega arith) (omega (arith, length-encoding n))) refl,
)

-- `serializeSizeVLQ` announces the length of the encoding.
pub serialize_size_vlq-encoding : (n : ℕ) → serialize_size_vlq n ≡ length (encoding n)
unfolding serialize_size_vlq
serialize_size_vlq-encoding n =
    omega (arith, length-encoding n, serialize_size_loop-groups n 0 0 n _ (omega arith))

length-groups-le : (j k mask n : ℕ) → n < 128 ^ suc j → length (groups k mask n) ≤ j + 1
unfolding groups
length-groups-le j zero mask n h = omega arith
length-groups-le zero (suc k) mask n h = ground arith
length-groups-le (suc j) (suc k) mask n h =
    let quotient_fits : n / 128 - 1 < 128 ^ suc j = omega (arith, pow-suc 128 (suc j)) in
    ground (arith, length-groups-le j k 0x80 (n / 128 - 1) quotient_fits)

groups-IsByte : (k mask n : ℕ) → n ≤ k → mask ≤ 128 → All IsByte (groups k mask n)
unfolding groups
groups-IsByte zero mask n h hm = (omega arith, tt)
groups-IsByte (suc k) mask n h hm =
    ground (arith, groups-IsByte k 0x80 (n / 128 - 1) (omega arith) (omega arith))

-- The encoding of a uint64 is 1 to 10 bytes.
pub encoding_shape :
    (n : ℕ)
    → IsU64 n
    → All IsByte (encoding n) × (1 ≤ length (encoding n)) × (length (encoding n) ≤ 10)
unfolding encoding
encoding_shape n h = (
  All-reverse IsByte (groups n 0 n) (groups-IsByte n 0 n (omega arith) (omega arith)),
  omega (arith, length-encoding n, groups_pos n 0 n),
  omega (arith, length-encoding n, length-groups-le 9 n 0 n (omega arith)),
)
