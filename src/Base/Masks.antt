-- ===== src/Base/Masks.antt =====
-- Masks and shifts as arithmetic: `x & (2^k - 1)`, `x & !(2^k - 1)` and `(x << k) | y`.
use Prim.Native.Nat.{ℕ, zero, suc, ◌+◌, ◌-◌, ◌*◌, ◌/◌, ◌%◌, ◌^◌, ◌<◌, bit_and, bit_or}
use mathlib.Core.Path.{◌≡◌, refl, sym, ap, ◌∙◌}
use native.Mathlib.Nat.{
  pow-suc, pow-succ', one-le-pow, div-div-eq-div-mul, div-add-mod, div-one, mul-one,
}
use native.Mathlib.Omega.{arith}
use rumicos.Base.Digits.{bit_and_digit, bit_or_digit}

double : (m k : ℕ) → m * 2 ^ suc k ≡ m * 2 ^ k * 2
double m k = omega (arith, ap (λ (t : ℕ). m * t) (pow-suc 2 k))

and-zero : (n a : ℕ) → a < n → bit_and a 0 ≡ 0
and-zero zero a h = elim h [ ]
and-zero (suc n) zero h = refl
and-zero (suc n) (suc a) h =
    omega (arith, bit_and_digit (suc a) 0, and-zero n (suc a / 2) (omega arith))

or-zero : (n a : ℕ) → a < n → bit_or a 0 ≡ a
or-zero zero a h = elim h [ ]
or-zero (suc n) zero h = refl
or-zero (suc n) (suc a) h =
    omega (arith, bit_or_digit (suc a) 0, or-zero n (suc a / 2) (omega arith))

pub bit_and-zero : (a : ℕ) → bit_and a 0 ≡ 0
bit_and-zero a = and-zero (suc a) a (omega arith)

pub bit_or-zero : (a : ℕ) → bit_or a 0 ≡ a
bit_or-zero a = or-zero (suc a) a (omega arith)

pub quarter : (a k : ℕ) → a / 2 / 2 ^ k ≡ a / 2 ^ suc k
quarter a k = div-div-eq-div-mul a 2 (2 ^ k) ∙ ap (λ (t : ℕ). a / t) (sym (pow-succ' 2 k))

-- A mask that is a multiple of `2 ^ k` keeps nothing of the low bits.
pub bit_and-high : (k a m : ℕ) → bit_and a (m * 2 ^ k) ≡ bit_and (a / 2 ^ k) m * 2 ^ k
bit_and-high zero a m = rw (mul-one, mul-one, div-one)
bit_and-high (suc k) a m = omega (
  arith,
  bit_and_digit a (m * 2 ^ suc k),
  ap (λ (t : ℕ). bit_and (a / 2) t) half,
  double m k,
  double (bit_and (a / 2 / 2 ^ k) m) k,
  bit_and-high k (a / 2) m,
  ap (λ (t : ℕ). bit_and t m * 2 ^ suc k) (quarter a k),
)
  where
    half : m * 2 ^ suc k / 2 ≡ m * 2 ^ k
    half = omega (arith, double m k)

-- The remainder by a power of two, one digit at a time.
pub mod-double : (k a : ℕ) → a % 2 ^ suc k ≡ a / 2 % 2 ^ k * 2 + a % 2
mod-double k a = omega (
  arith,
  div-add-mod a (2 ^ suc k),
  div-add-mod (a / 2) (2 ^ k),
  ap (λ (t : ℕ). 2 ^ suc k * t) (quarter a k),
  ap (λ (t : ℕ). t * (a / 2 / 2 ^ k)) (pow-succ' 2 k),
)

-- A mask of `k` low ones is the remainder by `2 ^ k`.
pub bit_and-low : (k a : ℕ) → bit_and a (2 ^ k - 1) ≡ a % 2 ^ k
bit_and-low zero a = omega (arith, bit_and-zero a)
bit_and-low (suc k) a = omega (
  arith,
  bit_and_digit a (2 ^ suc k - 1),
  pow-suc 2 k,
  one-le-pow k 2 (omega arith),
  ap (λ (t : ℕ). bit_and (a / 2) t) half,
  bit_and-low k (a / 2),
  mod-double k a,
)
  where
    half : (2 ^ suc k - 1) / 2 ≡ 2 ^ k - 1
    half = omega (arith, pow-suc 2 k)

-- Disjoint fields join by a sum.
pub bit_or-fields : (k q r : ℕ) → r < 2 ^ k → bit_or (q * 2 ^ k) r ≡ q * 2 ^ k + r
bit_or-fields zero q r h =
    let e : r ≡ 0 = omega (arith, h) in rw (e, bit_or-zero (q * 2 ^ 0)) (omega arith)
bit_or-fields (suc k) q r h = omega (
  arith,
  bit_or_digit (q * 2 ^ suc k) r,
  ap (λ (t : ℕ). bit_or t (r / 2)) half,
  double q k,
  bit_or-fields k q (r / 2) (omega (arith, pow-suc 2 k)),
)
  where
    half : q * 2 ^ suc k / 2 ≡ q * 2 ^ k
    half = omega (arith, double q k)
