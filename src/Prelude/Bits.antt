-- ===== src/Prelude/Bits.antt =====
-- Masks and shifts on machine words as arithmetic, from the binary digits of the operands.
use Prim.Native.Nat.{ℕ, zero, suc, ◌+◌, ◌-◌, ◌*◌, ◌/◌, ◌%◌, ◌<◌, ◌≤◌, max, min, bit_and, bit_or}
use Prim.Native.Nat.{
  bit_xor, differ, bit_xor-bitwise, digits, bitwise, bit_or-bitwise, bit_and-bitwise,
}
use mathlib.Core.Path.{◌≡◌, refl, ◌∙◌, ap}
use native.Mathlib.Omega.{arith}

-- The recursion that the native operations stand for counts down from its first operand. It comes
-- to the same from any larger number.
module _ (rest : ℕ → ℕ) (op : ℕ → ℕ → ℕ) where
  one_more : (fuel x y : ℕ) → x ≤ fuel → digits rest op (suc fuel) x y ≡ digits rest op fuel x y
  one_more (suc fuel) (suc x) y h =
      ap (λ high. high * 2 + op (suc x % 2) (y % 2))
        (one_more fuel (suc x / 2) (y / 2) (omega arith))
  one_more zero (suc x) y h = absurd (omega arith)
  one_more (suc fuel) zero y h = refl
  one_more zero zero y h = refl

  plenty :
      (spare fuel x y : ℕ) → x ≤ fuel → digits rest op (spare + fuel) x y ≡ digits rest op fuel x y
  plenty zero fuel x y h = let none_spare : 0 + fuel ≡ fuel = omega arith in rw none_spare refl
  plenty (suc spare) fuel x y h =
      let one_spare : suc spare + fuel ≡ suc (spare + fuel) = omega arith in
      rw one_spare (one_more (spare + fuel) x y (omega arith) ∙ plenty spare fuel x y h)

  lowest_digit :
      (x y : ℕ)
      → bitwise rest op (suc x) y ≡ bitwise rest op (suc x / 2) (y / 2) * 2 + op (suc x % 2) (y % 2)
  lowest_digit x y =
      let half : ℕ = suc x / 2 in
      let split : x ≡ x - half + half = omega arith in
      let high : digits rest op x half (y / 2) ≡ digits rest op half half (y / 2) =
        ap (λ fuel. digits rest op fuel half (y / 2)) split
        ∙ plenty (x - half) half half (y / 2) (omega arith) in
      ap (λ d. d * 2 + op (suc x % 2) (y % 2)) high

or_digit : (x y : ℕ) → bit_or x y ≡ bit_or (x / 2) (y / 2) * 2 + max (x % 2) (y % 2)
or_digit (suc x) y = simp bit_or-bitwise (lowest_digit (λ w. w) max x y)
or_digit zero y = simp bit_or-bitwise (omega arith)

and_digit : (x y : ℕ) → bit_and x y ≡ bit_and (x / 2) (y / 2) * 2 + min (x % 2) (y % 2)
and_digit (suc x) y = simp bit_and-bitwise (lowest_digit (λ w. zero) min x y)
and_digit zero y = simp bit_and-bitwise (omega arith)

with_nothing : (bound x : ℕ) → x < bound → (bit_and x 0 ≡ 0) × (bit_or x 0 ≡ x)
with_nothing zero x h = absurd (omega arith)
with_nothing (suc bound) zero h = (refl, refl)
with_nothing (suc bound) (suc x) h =
    let (none_high, all_high) = with_nothing bound (suc x / 2) (omega arith) in
    (omega (arith, and_digit (suc x) 0), omega (arith, or_digit (suc x) 0))

bit_and-zero : (x : ℕ) → bit_and x 0 ≡ 0
bit_and-zero x = (with_nothing (suc x) x (omega arith)).0

pub bit_or-zero : (x : ℕ) → bit_or x 0 ≡ x
bit_or-zero x = (with_nothing (suc x) x (omega arith)).1

pub bit_and-one : (x : ℕ) → bit_and x 1 ≡ x % 2
bit_and-one x = omega (arith, bit_and-zero (x / 2), and_digit x 1)

low_nibble : (x : ℕ) → bit_and x 15 ≡ x % 16
low_nibble x = omega (
  arith,
  bit_and-one (x / 2 / 2 / 2),
  and_digit (x / 2 / 2) 3,
  and_digit (x / 2) 7,
  and_digit x 15,
)

-- `n & 0x7f` on a word of any width.
pub bit_and_low7 : (x : ℕ) → bit_and x 0x7f ≡ x % 128
bit_and_low7 x = omega (
  arith,
  low_nibble (x / 2 / 2 / 2),
  and_digit (x / 2 / 2) 31,
  and_digit (x / 2) 63,
  and_digit x 127,
)

-- `val & 0x7f` on a byte.
pub low_bits : (x : ℕ) → x < 256 → bit_and x 0x7f ≡ x % 128
low_bits x h = bit_and_low7 x

and_double : (x m : ℕ) → bit_and x (m * 2) ≡ bit_and (x / 2) m * 2
and_double x m =
    let half : m * 2 / 2 ≡ m = omega arith in
    let even : m * 2 % 2 ≡ 0 = omega arith in rw (and_digit x (m * 2), half, even) (omega arith)

and_octuple : (x m : ℕ) → bit_and x (m * 2 * 2 * 2) ≡ bit_and (x / 2 / 2 / 2) m * 2 * 2 * 2
and_octuple x m = rw (and_double x, and_double (x / 2), and_double (x / 2 / 2)) refl

-- `val & 0x80` on a byte.
pub top_bit : (x : ℕ) → x < 256 → bit_and x 0x80 ≡ x / 128 * 128
top_bit x h =
    let bits : x / 2 / 2 / 2 / 2 / 2 / 2 / 2 ≡ x / 128 = omega arith in
    let top : bit_and x 128
        ≡ bit_and (x / 2 / 2 / 2 / 2 / 2 / 2 / 2) 1 * 2 * 2 * 2 * 2 * 2 * 2 * 2 =
      and_octuple x 16
      ∙ ap (λ d. d * 2 * 2 * 2) (and_octuple (x / 2 / 2 / 2) 2)
      ∙ ap (λ d. d * 2 * 2 * 2 * 2 * 2 * 2) (and_double (x / 2 / 2 / 2 / 2 / 2 / 2) 1) in
    rw (top, bits, bit_and-one (x / 128)) (omega arith)

-- `high << 1` joined with a word whose upper digits are already joined with `high`.
join_double :
    (high low upper : ℕ)
    → low / 2 ≡ upper
    → bit_or high upper ≡ high + upper
    → bit_or (high * 2) low ≡ high * 2 + low
join_double high low upper e joined =
    let back : high * 2 / 2 ≡ high = omega arith in
    let halves : bit_or (high * 2 / 2) (low / 2) ≡ high + upper = rw (back, e) joined in
    omega (arith, or_digit (high * 2) low)

join_4 :
    (high low : ℕ)
    → bit_or high (low / 2 / 2) ≡ high + low / 2 / 2
    → bit_or (high * 2 * 2) low ≡ high * 2 * 2 + low
join_4 high low joined =
    join_double (high * 2) low (low / 2) refl (join_double high (low / 2) (low / 2 / 2) refl joined)

-- `(n << 7) | g` for a group `g` of seven bits: the two share no digit.
pub bit_or_shift7 : (n g : ℕ) → g < 128 → bit_or (n * 128) g ≡ n * 128 + g
bit_or_shift7 n g h =
    let bits : n * 128 ≡ n * 2 * 2 * 2 * 2 * 2 * 2 * 2 = omega arith in
    let empty : g / 2 / 2 / 2 / 2 / 2 / 2 / 2 ≡ 0 = omega arith in
    let start : bit_or n (g / 2 / 2 / 2 / 2 / 2 / 2 / 2) ≡ n + g / 2 / 2 / 2 / 2 / 2 / 2 / 2 =
      rw empty (omega (arith, bit_or-zero n)) in
    rw bits (
      join_4 (n * 2 * 2 * 2 * 2 * 2) g (
        join_4 (n * 2 * 2 * 2) (g / 2 / 2)
          (join_4 (n * 2) (g / 2 / 2 / 2 / 2) (join_double n _ _ refl start))))

or_comm : (bound x y : ℕ) → x < bound → bit_or x y ≡ bit_or y x
or_comm zero x y h = absurd (omega arith)
or_comm (suc bound) zero y h = rw (bit_or-zero y) (simp bit_or-bitwise refl)
or_comm (suc bound) (suc x) y h =
    let high = or_comm bound (suc x / 2) (y / 2) (omega arith) in
    omega (arith, or_digit (suc x) y, or_digit y (suc x), high)

-- `group | 0x80` on a group of seven bits.
pub set_top_bit : (x : ℕ) → x < 128 → bit_or x 0x80 ≡ x + 128
set_top_bit x h = omega (arith, or_comm (suc x) x 0x80 (omega arith), bit_or_shift7 1 x h)

xor_digit : (x y : ℕ) → bit_xor x y ≡ bit_xor (x / 2) (y / 2) * 2 + differ (x % 2) (y % 2)
xor_digit (suc x) y = simp bit_xor-bitwise (lowest_digit (λ w. w) differ x y)
xor_digit zero y = simp bit_xor-bitwise (omega arith)

differ_twice : (a b : ℕ) → a < 2 → b < 2 → (differ (differ a b) b ≡ a) × (differ a b < 2)
differ_twice zero zero ha hb = (refl, omega arith)
differ_twice zero (suc zero) ha hb = (refl, omega arith)
differ_twice (suc zero) zero ha hb = (refl, omega arith)
differ_twice (suc zero) (suc zero) ha hb = (refl, omega arith)
differ_twice (suc (suc a)) b ha hb = absurd (omega arith)
differ_twice zero (suc (suc b)) ha hb = absurd (omega arith)
differ_twice (suc zero) (suc (suc b)) ha hb = absurd (omega arith)

xor_step :
    (x y : ℕ) → bit_xor (bit_xor (x / 2) (y / 2)) (y / 2) ≡ x / 2 → bit_xor (bit_xor x y) y ≡ x
xor_step x y ih =
    let (back, small) = differ_twice (x % 2) (y % 2) (omega arith) (omega arith) in
    let high : bit_xor x y / 2 ≡ bit_xor (x / 2) (y / 2) = omega (arith, xor_digit x y) in
    let low : bit_xor x y % 2 ≡ differ (x % 2) (y % 2) = omega (arith, xor_digit x y) in
    rw (xor_digit (bit_xor x y) y, high, low, ih, back) (omega arith)

xor_back : (bound x y : ℕ) → x + y < bound → bit_xor (bit_xor x y) y ≡ x
xor_back zero x y h = absurd (omega arith)
xor_back (suc bound) zero zero h = refl
xor_back (suc bound) zero (suc y) h =
    xor_step zero (suc y) (xor_back bound (zero / 2) (suc y / 2) (omega arith))
xor_back (suc bound) (suc x) y h =
    xor_step (suc x) y (xor_back bound (suc x / 2) (y / 2) (omega arith))

-- A mask that is laid on twice is gone.
pub bit_xor_twice : (x y : ℕ) → bit_xor (bit_xor x y) y ≡ x
bit_xor_twice x y = xor_back (suc (x + y)) x y (omega arith)
