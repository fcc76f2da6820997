-- ===== src/Base/Bits.antt =====
-- Single bits of a word, and what the bit operations do to each.
use Prim.Native.Nat.{
  ℕ, zero, suc, ◌-◌, ◌/◌, ◌%◌, ◌^◌, ◌≤◌, ◌<◌, min, max, bit_and, bit_or, bit_xor, differ,
  bit_and-bitwise,
}
use mathlib.Core.Path.{◌≡◌, refl, ap}
use mathlib.Core.Logic.{◌≢◌}
use native.Mathlib.Nat.{pow-suc, one-le-pow}
use native.Mathlib.Omega.{arith}
use rumicos.Base.Digits.{bit_and_digit, bit_or_digit, bit_xor_digit}

-- Bit `i` of `n`, as 0 or 1.
unfoldable pub bit : ℕ → ℕ → ℕ
bit n zero = n % 2
bit n (suc i) = bit (n / 2) i

pub bit-lt : (n i : ℕ) → bit n i < 2
unfolding bit
bit-lt n zero = omega arith
bit-lt n (suc i) = bit-lt (n / 2) i

bit_and-half : (a b : ℕ) → bit_and a b / 2 ≡ bit_and (a / 2) (b / 2)
bit_and-half a b = omega (arith, bit_and_digit a b)

bit_or-half : (a b : ℕ) → bit_or a b / 2 ≡ bit_or (a / 2) (b / 2)
bit_or-half a b = omega (arith, bit_or_digit a b)

differ-lt : (x y : ℕ) → x < 2 → y < 2 → differ x y < 2
differ-lt zero y p q = q
differ-lt (suc zero) zero p q = omega arith
differ-lt (suc zero) (suc zero) p q = omega arith
differ-lt (suc zero) (suc (suc y)) p q = absurd (omega arith)
differ-lt (suc (suc x)) y p q = absurd (omega arith)

bit_xor-half : (a b : ℕ) → bit_xor a b / 2 ≡ bit_xor (a / 2) (b / 2)
bit_xor-half a b =
    omega (arith, bit_xor_digit a b, differ-lt (a % 2) (b % 2) (omega arith) (omega arith))

-- Bit by bit, the operations are the minimum, the maximum and the difference of digits.
pub bit-and : (a b i : ℕ) → bit (bit_and a b) i ≡ min (bit a i) (bit b i)
unfolding bit
bit-and a b zero = omega (arith, bit_and_digit a b)
bit-and a b (suc i) = rw (bit_and-half a b) (bit-and (a / 2) (b / 2) i)

pub bit-or : (a b i : ℕ) → bit (bit_or a b) i ≡ max (bit a i) (bit b i)
unfolding bit
bit-or a b zero = omega (arith, bit_or_digit a b)
bit-or a b (suc i) = rw (bit_or-half a b) (bit-or (a / 2) (b / 2) i)

pub bit-xor : (a b i : ℕ) → bit (bit_xor a b) i ≡ differ (bit a i) (bit b i)
unfolding bit
bit-xor a b zero =
    omega (arith, bit_xor_digit a b, differ-lt (a % 2) (b % 2) (omega arith) (omega arith))
bit-xor a b (suc i) = rw (bit_xor-half a b) (bit-xor (a / 2) (b / 2) i)

pub bit-zero : (i : ℕ) → bit 0 i ≡ 0
unfolding bit
bit-zero zero = refl
bit-zero (suc i) = bit-zero i

-- A number below `2 ^ k` has no bit from `k` on.
pub bit-high : (k n i : ℕ) → n < 2 ^ k → k ≤ i → bit n i ≡ 0
unfolding bit
bit-high zero n i h le = let e : n ≡ 0 = omega (arith, h) in rw e (bit-zero i)
bit-high (suc k) n zero h le = absurd (omega arith)
bit-high (suc k) n (suc i) h le = bit-high k (n / 2) i (omega (arith, pow-suc 2 k)) (omega arith)

-- Words are equal when their bits are.
pub bit_ext : (k a b : ℕ) → a < 2 ^ k → b < 2 ^ k → ((i : ℕ) → i < k → bit a i ≡ bit b i) → a ≡ b
unfolding bit
bit_ext zero a b ha hb h = omega arith
bit_ext (suc k) a b ha hb h = omega (
  arith,
  h 0 (omega arith),
  bit_ext k (a / 2) (b / 2) (omega (arith, pow-suc 2 k)) (omega (arith, pow-suc 2 k))
      (λ i p. h (suc i) (omega arith)),
)

double_half : (k : ℕ) → 2 ^ suc k / 2 ≡ 2 ^ k
double_half k = omega (arith, pow-suc 2 k)

-- The word with one bit set.
pub bit-pow_self : (k : ℕ) → bit (2 ^ k) k ≡ 1
unfolding bit
bit-pow_self zero = refl
bit-pow_self (suc k) = rw (double_half k) (bit-pow_self k)

pub bit-pow_ne : (k i : ℕ) → k ≢ i → bit (2 ^ k) i ≡ 0
unfolding bit
bit-pow_ne zero zero h = absurd (h refl)
bit-pow_ne zero (suc i) h = bit-zero i
bit-pow_ne (suc k) zero h = omega (arith, pow-suc 2 k)
bit-pow_ne (suc k) (suc i) h = rw (double_half k) (bit-pow_ne k i (λ e. h (ap suc e)))

-- A word with all its bits set.
ones_half : (k : ℕ) → (2 ^ suc k - 1) / 2 ≡ 2 ^ k - 1
ones_half k = omega (arith, pow-suc 2 k, one-le-pow k 2 (omega arith))

pub bit-ones : (k i : ℕ) → i < k → bit (2 ^ k - 1) i ≡ 1
unfolding bit
bit-ones zero i h = elim h [ ]
bit-ones (suc k) zero h = omega (arith, pow-suc 2 k, one-le-pow k 2 (omega arith))
bit-ones (suc k) (suc i) h = rw (ones_half k) (bit-ones k i (omega arith))

-- The operations stay within the width of a word.
pub bit_or-lt : (k a b : ℕ) → a < 2 ^ k → b < 2 ^ k → bit_or a b < 2 ^ k
bit_or-lt zero a b ha hb =
    let ea : a ≡ 0 = omega (arith, ha) in let eb : b ≡ 0 = omega (arith, hb) in rw (ea, eb) ha0
  where
    ha0 : bit_or 0 0 < 2 ^ 0
    ha0 = omega arith
bit_or-lt (suc k) a b ha hb = omega (
  arith,
  pow-suc 2 k,
  bit_or_digit a b,
  bit_or-lt k (a / 2) (b / 2) (omega (arith, pow-suc 2 k)) (omega (arith, pow-suc 2 k)),
)

pub bit_and-le : (n a b : ℕ) → a ≤ n → bit_and a b ≤ a
bit_and-le n zero b h = omega (arith, bit_and-bitwise 0 b)
bit_and-le zero (suc a) b h = absurd (omega arith)
bit_and-le (suc n) (suc a) b h =
    omega (arith, bit_and_digit (suc a) b, bit_and-le n (suc a / 2) (b / 2) (omega arith))

pub le-bit_or : (n a b : ℕ) → a ≤ n → a ≤ bit_or a b
le-bit_or n zero b h = omega arith
le-bit_or zero (suc a) b h = absurd (omega arith)
le-bit_or (suc n) (suc a) b h =
    omega (arith, bit_or_digit (suc a) b, le-bit_or n (suc a / 2) (b / 2) (omega arith))
