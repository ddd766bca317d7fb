-- ===== src/Bytes/Bits.antt =====
-- The bit operations `&`, `|` and `&^` of Go, digit by digit.
use horreum.Common.{
  ℕ, zero, suc, ◌+◌, ◌-◌, ◌*◌, ◌/◌, ◌%◌, ◌<◌, ◌≤◌, ◌≡◌, refl, sym, ◌∙◌, ap, ap₂, arith, min,
}
use Prim.Native.Nat.{max, bit_and, bit_or, digits, bit_and-bitwise, bit_or-bitwise}

-- a &^ b
unfoldable pub and_not : ℕ → ℕ → ℕ
and_not a b = a - bit_and a b

-- With enough digits to go, their number does not matter.
digits_enough :
    (z : ℕ → ℕ) (f : ℕ → ℕ → ℕ) (n m a b : ℕ) → a ≤ n → a ≤ m → digits z f n a b ≡ digits z f m a b
digits_enough z f zero zero zero b h k = refl
digits_enough z f zero (suc m) zero b h k = refl
digits_enough z f (suc n) zero zero b h k = refl
digits_enough z f (suc n) (suc m) zero b h k = refl
digits_enough z f zero m (suc a) b h k = absurd (omega (arith, h))
digits_enough z f (suc n) zero (suc a) b h k = absurd (omega (arith, k))
digits_enough z f (suc n) (suc m) (suc a) b h k =
    ap (λ d. d * 2 + f (suc a % 2) (b % 2))
      (digits_enough z f n m (suc a / 2) (b / 2) (omega (arith, h)) (omega (arith, k)))

bitwise-step :
    (z : ℕ → ℕ) (f : ℕ → ℕ → ℕ) (a b : ℕ)
    → ((c : ℕ) → z c ≡ z (c / 2) * 2 + f 0 (c % 2))
    → digits z f a a b ≡ digits z f (a / 2) (a / 2) (b / 2) * 2 + f (a % 2) (b % 2)
bitwise-step z f zero b h = h b
bitwise-step z f (suc a) b h =
    ap (λ d. d * 2 + f (suc a % 2) (b % 2))
      (digits_enough z f a (suc a / 2) (suc a / 2) (b / 2) (omega arith) (omega arith))

pub bit_and-step : (a b : ℕ) → bit_and a b ≡ bit_and (a / 2) (b / 2) * 2 + min (a % 2) (b % 2)
bit_and-step a b =
    bit_and-bitwise a b
    ∙ bitwise-step (λ c. 0) min a b (λ c. omega arith)
    ∙ ap (λ d. d * 2 + min (a % 2) (b % 2)) (sym (bit_and-bitwise (a / 2) (b / 2)))

pub bit_or-step : (a b : ℕ) → bit_or a b ≡ bit_or (a / 2) (b / 2) * 2 + max (a % 2) (b % 2)
bit_or-step a b =
    bit_or-bitwise a b
    ∙ bitwise-step (λ c. c) max a b (λ c. omega arith)
    ∙ ap (λ d. d * 2 + max (a % 2) (b % 2)) (sym (bit_or-bitwise (a / 2) (b / 2)))

and_zero : (n a : ℕ) → digits (λ c. 0) min n a 0 ≡ 0
and_zero zero a = refl
and_zero (suc n) zero = refl
and_zero (suc n) (suc a) = omega (arith, and_zero n (suc a / 2))

or_zero : (n a : ℕ) → a ≤ n → digits (λ c. c) max n a 0 ≡ a
or_zero zero zero h = refl
or_zero zero (suc a) h = absurd (omega (arith, h))
or_zero (suc n) zero h = refl
or_zero (suc n) (suc a) h = omega (arith, or_zero n (suc a / 2) (omega (arith, h)))

bit_and_zero : (a : ℕ) → bit_and a 0 ≡ 0
bit_and_zero a = bit_and-bitwise a 0 ∙ and_zero a a

bit_or_zero : (a : ℕ) → bit_or a 0 ≡ a
bit_or_zero a = bit_or-bitwise a 0 ∙ or_zero a a (omega arith)

-- The two lowest digits.
pub bit_and_low : (a : ℕ) → bit_and a 3 ≡ a % 4
bit_and_low a = omega (arith, bit_and-step a 3, bit_and-step (a / 2) 1, bit_and_zero (a / 2 / 2))

pub and_not_low : (a : ℕ) → and_not a 3 ≡ a / 4 * 4
unfolding and_not
and_not_low a = omega (arith, bit_and_low a)

pub bit_or_low : (a y : ℕ) → y < 4 → bit_or (a * 4) y ≡ a * 4 + y
bit_or_low a y h = omega (arith, h, bit_or-step (a * 4) y, bit_or-step (a * 4 / 2) (y / 2), high)
  where
    high : bit_or (a * 4 / 2 / 2) (y / 2 / 2) ≡ a
    high = ap₂ bit_or (omega arith) (omega (arith, h)) ∙ bit_or_zero a

-- Digits above the two lowest.
pub bit_or_high : (a b : ℕ) → b % 4 ≡ 0 → bit_or a b ≡ bit_or (a / 4) (b / 4) * 4 + a % 4
bit_or_high a b h = omega (arith, h, bit_or-step a b, bit_or-step (a / 2) (b / 2), high)
  where
    high : bit_or (a / 2 / 2) (b / 2 / 2) ≡ bit_or (a / 4) (b / 4)
    high = ap₂ bit_or (omega arith) (omega arith)

bit_and_high : (a b : ℕ) → b % 4 ≡ 0 → bit_and a b ≡ bit_and (a / 4) (b / 4) * 4
bit_and_high a b h = omega (arith, h, bit_and-step a b, bit_and-step (a / 2) (b / 2), high)
  where
    high : bit_and (a / 2 / 2) (b / 2 / 2) ≡ bit_and (a / 4) (b / 4)
    high = ap₂ bit_and (omega arith) (omega arith)

digits_below : (n a b : ℕ) → digits (λ c. 0) min n a b ≤ a
digits_below zero a b = omega arith
digits_below (suc n) zero b = omega arith
digits_below (suc n) (suc a) b = omega (arith, digits_below n (suc a / 2) (b / 2))

pub and_not_high : (a b : ℕ) → b % 4 ≡ 0 → and_not a b ≡ and_not (a / 4) (b / 4) * 4 + a % 4
unfolding and_not
and_not_high a b h = omega (
  arith,
  bit_and_high a b h,
  bit_and-bitwise (a / 4) (b / 4),
  digits_below (a / 4) (a / 4) (b / 4),
)
