-- ===== src/Compression/Amount.antt =====
-- Compressed amounts (internal/pkg/bitcoincore/utxocompression/compress.go). Amounts are uint64;
-- every step that can wrap has its wrap-around written out.
pub mod RoundTrip
use bitcoin_utxo_indexer.Prelude.{
  ℕ, zero, suc, ◌+◌, ◌-◌, ◌*◌, ◌/◌, ◌%◌, ◌^◌, ltb, ◌==◌, if◌then◌else◌,
}

-- `for amount%10 == 0 && exponent < 9`: the first argument is `9 - exponent`, the rounds left.
pub strip_loop : ℕ → ℕ → ℕ → ℕ × ℕ
strip_loop zero amount exponent = (amount, exponent)
strip_loop (suc left) amount exponent =
    let more = strip_loop left (amount / 10) (exponent + 1) in
    if amount % 10 == 0 then more else (amount, exponent)

-- 1 + 10*(9*n + d-1) + e below the exponent 9, and 10 + 10*(n-1) at it.
pub pack_amount : ℕ × ℕ → ℕ
pack_amount (amount, exponent) =
    if ltb exponent 9
    then (1 + 10 * ((9 * (amount / 10) + amount % 10 + 2 ^ 64 - 1) % 2 ^ 64) + exponent) % 2 ^ 64
    else (10 + 10 * ((amount + 2 ^ 64 - 1) % 2 ^ 64)) % 2 ^ 64

unfoldable pub compress_tx_out_amount : ℕ → ℕ
unfolding strip_loop pack_amount
compress_tx_out_amount amount = if amount == 0 then 0 else pack_amount (strip_loop 9 amount 0)

-- `for ; exponent > 0; exponent-- { n *= 10 }`
pub apply_exponent : ℕ → ℕ → ℕ
apply_exponent zero n = n
apply_exponent (suc exponent) n = apply_exponent exponent (n * 10 % 2 ^ 64)

-- The digits of the amount before its zeros, from `x = amount - 1`.
pub unpack_digits : ℕ → ℕ
unpack_digits x =
    if ltb (x % 10) 9 then (x / 10 / 9 * 10 + (x / 10 % 9 + 1)) % 2 ^ 64 else (x / 10 + 1) % 2 ^ 64

unfoldable pub decompress_tx_out_amount : ℕ → ℕ
unfolding apply_exponent unpack_digits
decompress_tx_out_amount amount =
    if amount == 0 then 0 else apply_exponent ((amount - 1) % 10) (unpack_digits (amount - 1))
