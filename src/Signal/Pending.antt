-- ===== src/Signal/Pending.antt =====
-- The pending word as a set of signals: what `raise` adds and what `take_any` takes.
use rumicos.Base.{
  ℕ, zero, suc, ◌-◌, ◌/◌, ◌%◌, ◌^◌, ◌<◌, ◌≡◌, ◌≢◌, refl, ◌⊎◌, inl, inr, List, [], ◌∷◌, none, some,
  arith, if◌then◌else◌, ◌==◌, ==_iff, Bool-cases, false, bit_or,
}
use native.Mathlib.Nat.{pow-suc}
use rumicos.Base.Bits.{
  bit, bit-lt, bit-and, bit-or, bit-xor, bit-pow_self, bit-pow_ne, bit-ones, bit_or-lt, bit_and-le,
  le-bit_or,
}
use rumicos.Signal.{raise, take_any, take_lowest, trailing_zeros, all_but, shifted_one}

bit-shifted_one : (s i : ℕ) → s < 64 → bit (shifted_one s) i ≡ (if s == i then 1 else 0)
bit-shifted_one s i h =
    let e : s % 64 ≡ s = omega arith in
    rw e (ground (arith, bit-pow_self s, bit-pow_ne s i, ==_iff s i))

-- `raise` sets the signal's bit and no other.
pub bit-raise : (bits s i : ℕ) → s < 64 → bit (raise bits s) i ≡ (if s == i then 1 else bit bits i)
unfolding raise
bit-raise bits s i h =
    ground (arith, bit-or bits (shifted_one s) i, bit-shifted_one s i h, bit-lt bits i)

bit-all_but : (s i : ℕ) → s < 64 → i < 64 → bit (all_but s) i ≡ (if s == i then 0 else 1)
bit-all_but s i hs hi =
    ground (arith, bit-xor (2 ^ 64 - 1) (shifted_one s) i, bit-ones 64 i hi, bit-shifted_one s i hs)

-- The lowest set bit of `n`.
pub record IsLowest (n s : ℕ) : Type 0 where
  pub pending : bit n s ≡ 1
  pub none_below : (i : ℕ) → i < s → bit n i ≡ 0

IsLowest-double : (n s : ℕ) → n % 2 ≡ 0 → IsLowest (n / 2) s → IsLowest n (suc s)
unfolding bit
IsLowest-double n s even low = record { pending = low.pending; none_below = below }
  where
    below : (i : ℕ) → i < suc s → bit n i ≡ 0
    below zero h = even
    below (suc i) h = low.none_below i (omega arith)

trailing_zeros-IsLowest :
    (w n : ℕ) → n < 2 ^ w → n ≢ 0 → (trailing_zeros w n < w) × IsLowest n (trailing_zeros w n)
unfolding trailing_zeros bit
trailing_zeros-IsLowest zero n h nz = absurd (nz (omega (arith, h)))
trailing_zeros-IsLowest (suc w) n h nz = elim (Bool-cases (n % 2 == 1)) [
  | inl odd ↦
      rw odd (omega arith, record { pending = (==_iff _ _).0 odd; none_below = λ i p. elim p [ ] })
  | inr even ↦
      let half_even : n % 2 ≡ 0 = ground arith in
      let rest =
        trailing_zeros-IsLowest w (n / 2) (omega (arith, pow-suc 2 w, h))
          (λ z. nz (omega (arith, z, half_even))) in
      rw even (omega (arith, rest.0), IsLowest-double n _ half_even rest.1)
]

-- Everything that was pending or has been raised by the time the exchange succeeds.
unfoldable pub all_raised : List ℕ → ℕ → ℕ
all_raised [] cur = cur
all_raised (m ∷ ms) cur = all_raised ms (bit_or cur m)

abbrev pub AreWords : List ℕ → Type 0
AreWords [] = Unit {0}
AreWords (m ∷ ms) = (m < 2 ^ 64) × AreWords ms

pub all_raised-lt :
    (ms : List ℕ) (cur : ℕ) → AreWords ms → cur < 2 ^ 64 → all_raised ms cur < 2 ^ 64
unfolding all_raised
all_raised-lt [] cur words h = h
all_raised-lt (m ∷ ms) cur words h =
    all_raised-lt ms (bit_or cur m) words.1 (bit_or-lt 64 cur m h words.0)

-- `taken` is the lowest signal of `pool`, and `left` is `pool` without it.
pub record Takes (pool : ℕ) (left : ℕ) (signum : ℕ) : Type 0 where
  pub in_range : signum < 64
  pub lowest : IsLowest pool signum
  pub word : left < 2 ^ 64
  pub rest : (i : ℕ) → i < 64 → bit left i ≡ (if signum == i then 0 else bit pool i)

take_lowest-Takes :
    (cur : ℕ)
    → cur < 2 ^ 64
    → cur ≢ 0
    → let (left, taken) = take_lowest cur in (s : ℕ) × (taken ≡ some s) × Takes cur left s
unfolding take_lowest
take_lowest-Takes cur h nz =
    let low = trailing_zeros-IsLowest 64 cur h nz in
    let s = trailing_zeros 64 cur in
    (
      s,
      refl,
      record {
        in_range = low.0;
        lowest = low.1;
        word = omega (arith, bit_and-le cur cur (all_but s) (omega arith));
        rest =
            λ i p. ground (arith, bit-and cur (all_but s) i, bit-all_but s i low.0 p, bit-lt cur i);
      },
    )

-- `take_any` gives nothing exactly when nothing was pending. Otherwise, whatever the other CPUs
-- raise while its exchange fails, it takes the lowest signal pending when the exchange succeeds
-- and leaves every other one pending.
pub take_any-Takes :
    (ms : List ℕ) (cur : ℕ)
    → AreWords ms
    → cur < 2 ^ 64
    → let (left, taken) = take_any ms cur in
      ((cur ≡ 0) × (left ≡ 0) × (taken ≡ none))
      ⊎ ((s : ℕ) × (taken ≡ some s) × Takes (all_raised ms cur) left s)
unfolding take_any all_raised
take_any-Takes [] cur words h = elim (Bool-cases (cur == 0)) [
  | inl z ↦ let z' : cur ≡ 0 = (==_iff cur 0).0 z in rw z (inl (z', z', refl))
  | inr nz ↦ rw nz (inr (take_lowest-Takes cur h (ground arith)))
]
take_any-Takes (m ∷ ms) cur words h = elim (Bool-cases (cur == 0)) [
  | inl z ↦ let z' : cur ≡ 0 = (==_iff cur 0).0 z in rw z (inl (z', z', refl))
  | inr nz ↦ elim (take_any-Takes ms (bit_or cur m) words.1 (bit_or-lt 64 cur m h words.0)) [
    | inl (e, _, _) ↦ absurd (omega (arith, le-bit_or cur cur m (omega arith), e, cur_pos nz))
    | inr found ↦ rw nz (inr found)
  ]
]
  where
    cur_pos : (cur == 0) ≡ false → 0 < cur
    cur_pos e = ground arith
