-- ===== src/Compression/Amount/RoundTrip.antt =====
-- Compressing loses nothing as long as no step wraps.
use bitcoin_utxo_indexer.Prelude.{
  ℕ, zero, suc, ◌+◌, ◌-◌, ◌*◌, ◌/◌, ◌%◌, ◌^◌, ◌<◌, ◌≤◌, ◌≡◌, ◌≢◌, refl, ◌∙◌, arith, ◌==◌,
  Bool-cases, ==_iff, lt→ltb, false, inl, inr,
}
use native.Mathlib.Decide.{dec_lt}
use bitcoin_utxo_indexer.Compression.Amount.{
  strip_loop, pack_amount, compress_tx_out_amount, apply_exponent, unpack_digits,
  decompress_tx_out_amount,
}

apply_exponent-suc : (e n : ℕ) → apply_exponent (suc e) n ≡ apply_exponent e n * 10 % 2 ^ 64
unfolding apply_exponent
apply_exponent-suc zero n = refl
apply_exponent-suc (suc e) n = apply_exponent-suc e (n * 10 % 2 ^ 64)

-- What the loop took off: `k` zeros, as many as there are up to the limit.
record Stripped (left amount exponent digits total : ℕ) : Type 0 where
  k : ℕ
  counted : total ≡ exponent + k
  within : k ≤ left
  restored : apply_exponent k digits ≡ amount
  ends : k < left → digits % 10 ≢ 0
  positive : 0 < digits
  small : digits ≤ amount
  smaller : 0 < k → 10 * digits ≤ amount

Stripped-stop :
    (left amount exponent : ℕ)
    → 0 < amount
    → (0 < left → amount % 10 ≢ 0)
    → Stripped left amount exponent amount exponent
unfolding apply_exponent
Stripped-stop left amount exponent p last = record {
  k = 0;
  counted = omega arith;
  within = omega arith;
  restored = refl;
  ends = last;
  positive = p;
  small = omega arith;
  smaller = λ n. absurd (omega arith);
}

Stripped-more :
    {left amount exponent digits total : ℕ}
    → amount < 2 ^ 64
    → amount % 10 ≡ 0
    → Stripped left (amount / 10) (exponent + 1) digits total
    → Stripped (suc left) amount exponent digits total
Stripped-more {digits} h e s = record {
  k = suc s.k;
  counted = omega (arith, s.counted);
  within = omega (arith, s.within);
  restored = apply_exponent-suc s.k digits ∙ rw s.restored (omega arith);
  ends = λ n. s.ends (omega arith);
  positive = s.positive;
  small = omega (arith, s.small);
  smaller = λ n. omega (arith, s.small);
}

strip_loop-Stripped :
    (left amount exponent : ℕ)
    → 0 < amount
    → amount < 2 ^ 64
    → Stripped left amount exponent
        (strip_loop left amount exponent).0
        (strip_loop left amount exponent).1
unfolding strip_loop
strip_loop-Stripped zero amount exponent p h =
    Stripped-stop 0 amount exponent p (λ n. absurd (omega arith))
strip_loop-Stripped (suc left) amount exponent p h = elim (Bool-cases (amount % 10 == 0)) [
  | inl zero_digit ↦ rw zero_digit (
      Stripped-more h ((==_iff _ _).0 zero_digit)
        (strip_loop-Stripped left (amount / 10) (exponent + 1) (ground arith) (omega arith)))
  | inr other ↦ rw other (Stripped-stop _ amount exponent p (λ _. ground arith))
]

-- Packing without a wrap, and unpacking.
pack_below :
    (digits exponent : ℕ)
    → exponent < 9
    → digits % 10 ≢ 0
    → 9 * digits + 10 ≤ 2 ^ 64
    → pack_amount (digits, exponent) ≡ 1 + (10 * (9 * (digits / 10) + (digits % 10 - 1)) + exponent)
unfolding pack_amount
pack_below digits exponent he last h =
    let no_wrap : (9 * (digits / 10) + digits % 10 + 2 ^ 64 - 1) % 2 ^ 64
        ≡ 9 * (digits / 10) + (digits % 10 - 1) =
      omega arith in
    rw (lt→ltb exponent 9 he, no_wrap) (omega arith)

pack_nine :
    (digits : ℕ)
    → 0 < digits
    → 10 * digits < 2 ^ 64
    → pack_amount (digits, 9) ≡ 1 + (10 * (digits - 1) + 9)
unfolding pack_amount
pack_nine digits p h =
    let no_wrap : (digits + 2 ^ 64 - 1) % 2 ^ 64 ≡ digits - 1 = omega arith in
    rw no_wrap (omega arith)

unpack_below :
    (m exponent : ℕ)
    → exponent < 9
    → m / 9 * 10 + (m % 9 + 1) < 2 ^ 64
    → ((10 * m + exponent) % 10 ≡ exponent)
      × (unpack_digits (10 * m + exponent) ≡ m / 9 * 10 + (m % 9 + 1))
unfolding unpack_digits
unpack_below m exponent he h =
    let tail : (10 * m + exponent) % 10 ≡ exponent = omega arith in
    let front : (10 * m + exponent) / 10 ≡ m = omega arith in
    (tail, rw (tail, front, lt→ltb exponent 9 he) (omega arith))

unpack_nine :
    (m : ℕ) → m + 1 < 2 ^ 64 → ((10 * m + 9) % 10 ≡ 9) × (unpack_digits (10 * m + 9) ≡ m + 1)
unfolding unpack_digits
unpack_nine m h =
    let tail : (10 * m + 9) % 10 ≡ 9 = omega arith in
    let front : (10 * m + 9) / 10 ≡ m = omega arith in (tail, rw (tail, front) (omega arith))

decompress-suc :
    (x : ℕ) → decompress_tx_out_amount (1 + x) ≡ apply_exponent (x % 10) (unpack_digits x)
unfolding decompress_tx_out_amount
decompress-suc x =
    let pred : 1 + x - 1 ≡ x = omega arith in
    let nonzero : (1 + x == 0) ≡ false = ground arith in rw (nonzero, pred)

decompress-pack :
    (digits exponent : ℕ)
    → exponent ≤ 9
    → 0 < digits
    → (exponent < 9 → digits % 10 ≢ 0)
    → 9 * digits + 10 ≤ 2 ^ 64
    → (exponent ≡ 9 → 10 * digits < 2 ^ 64)
    → decompress_tx_out_amount (pack_amount (digits, exponent)) ≡ apply_exponent exponent digits
decompress-pack digits exponent he p last h short = elim (dec_lt exponent 9) [
  | yes below ↦
      let m : ℕ = 9 * (digits / 10) + (digits % 10 - 1) in
      let nonzero : digits % 10 ≢ 0 = last below in
      let digits_back : m / 9 * 10 + (m % 9 + 1) ≡ digits = omega arith in
      let (tail, front) = unpack_below m exponent below (omega arith) in
      rw (pack_below digits exponent below nonzero h, decompress-suc, tail, front, digits_back)
  | no nine ↦
      let (tail, front) = unpack_nine (digits - 1) (omega arith) in
      let is_nine : exponent ≡ 9 = omega arith in
      let digits_back : digits - 1 + 1 ≡ digits = omega arith in
      rw (is_nine, pack_nine digits p (short is_nine), decompress-suc, tail, front, digits_back)
]

-- Every amount up to (2 ^ 64 - 10) / 9, which all amounts of satoshis are far below, comes back
-- from its compressed form.
pub decompress-compress :
    (amount : ℕ)
    → 9 * amount + 10 ≤ 2 ^ 64
    → decompress_tx_out_amount (compress_tx_out_amount amount) ≡ amount
unfolding compress_tx_out_amount decompress_tx_out_amount
decompress-compress zero h = refl
decompress-compress (suc n) h =
    let s = strip_loop-Stripped 9 (suc n) 0 (omega arith) (omega arith) in
    let total : (strip_loop 9 (suc n) 0).1 ≡ s.k = omega (arith, s.counted) in
    let nonzero : (suc n == 0) ≡ false = ground arith in
    rw nonzero (
      decompress-pack (strip_loop 9 (suc n) 0).0 (strip_loop 9 (suc n) 0).1
        (omega (arith, s.counted, s.within)) s.positive (λ l. s.ends (omega arith))
        (omega (arith, s.small)) (λ nine. omega (arith, s.smaller (omega arith)))
      ∙ rw total s.restored)

pack_amount-lt : (p : ℕ × ℕ) → pack_amount p < 2 ^ 64
unfolding pack_amount
pack_amount-lt (amount, exponent) = ground arith

pub compress-IsU64 : (amount : ℕ) → compress_tx_out_amount amount < 2 ^ 64
unfolding compress_tx_out_amount
compress-IsU64 amount = ground (arith, pack_amount-lt (strip_loop 9 amount 0))
