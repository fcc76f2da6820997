-- ===== src/Ipc/Wrap.antt =====
-- Positions that count on, behind counters that wrap around at 2 ^ 64.
use native.Mathlib.Nat.{
  div-add-mod, mul-le-mul_left, pow-suc, add-mul-mod_self_left, pow-le-pow_right,
}
use rumicos.Base.{
  ℕ, zero, suc, ◌+◌, ◌-◌, ◌*◌, ◌/◌, ◌%◌, ◌^◌, ◌≤◌, ◌<◌, ◌≡◌, ◌≢◌, sym, ap, ◌∙◌, inl, inr, arith,
  leb, ◌==◌, Bool-cases, bit_and,
}
use rumicos.Base.Masks.{bit_and-low}
use rumicos.Ipc.{is_full}

-- Two positions less than `n` apart have different slots.
pub slot-ne : (n j t : ℕ) → j < t → t < j + n → j % n ≢ t % n
slot-ne n j t lt near same = elim (Bool-cases (leb (t / n) (j / n))) [
  | inl le ↦
      let below : n * (t / n) ≤ n * (j / n) = mul-le-mul_left n (ground arith) in
      omega (arith, div-add-mod j n, div-add-mod t n, below, same)
  | inr gt ↦
      let above : n * suc (j / n) ≤ n * (t / n) = mul-le-mul_left n (ground arith) in
      let step : n * suc (j / n) ≡ n * (j / n) + n = grind arith in
      omega (arith, div-add-mod j n, div-add-mod t n, above, step, same)
]

-- The producer's test compares the positions themselves.
pub is_full_lem :
    (n t h : ℕ)
    → h ≤ t
    → t ≤ h + n
    → n < 2 ^ 64
    → is_full n (t % 2 ^ 64) (h % 2 ^ 64) ≡ (t == h + n)
unfolding is_full
is_full_lem n t h le near small = ground arith

pow_sum : (a b : ℕ) → 2 ^ (a + b) ≡ 2 ^ a * 2 ^ b
pow_sum a zero = let e : a + zero ≡ a = omega arith in rw e (omega arith)
pow_sum a (suc b) =
    let e : a + suc b ≡ suc (a + b) = omega arith in
    let regroup : 2 ^ a * 2 ^ b * 2 ≡ 2 ^ a * (2 ^ b * 2) = grind arith in
    rw (e, pow-suc 2 (a + b), pow_sum a b, pow-suc 2 b) regroup

-- The slot of a wrapped counter is the slot of the position.
pub slot_lem : (k t : ℕ) → k ≤ 63 → bit_and (t % 2 ^ 64) (2 ^ k - 1) ≡ t % 2 ^ k
slot_lem k t few =
    let q = t / 2 ^ 64 in
    let e : 64 ≡ k + (64 - k) = omega arith in
    let whole : 2 ^ 64 ≡ 2 ^ k * 2 ^ (64 - k) = ap (λ (i : ℕ). 2 ^ i) e ∙ pow_sum k (64 - k) in
    let regroup : 2 ^ k * 2 ^ (64 - k) * q ≡ 2 ^ k * (2 ^ (64 - k) * q) = grind arith in
    let parts : t ≡ t % 2 ^ 64 + 2 ^ k * (2 ^ (64 - k) * q) =
      omega (arith, div-add-mod t (2 ^ 64), ap (λ (w : ℕ). w * q) whole, regroup) in
    bit_and-low k (t % 2 ^ 64)
    ∙ sym (add-mul-mod_self_left (t % 2 ^ 64) (2 ^ k) (2 ^ (64 - k) * q))
    ∙ ap (λ (i : ℕ). i % 2 ^ k) (sym parts)

pub small-lt : (k : ℕ) → k ≤ 63 → 2 ^ k < 2 ^ 64
small-lt k few = let le : 2 ^ k ≤ 2 ^ 63 = pow-le-pow_right (omega arith) few in omega (arith, le)
