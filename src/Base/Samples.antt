-- ===== src/Base/Samples.antt =====
-- Sequence numbers of 32 bits, and what a sample of one tells some events later.
use Prim.Native.Nat.{ℕ, suc, ◌+◌, ◌%◌, ◌^◌, ◌≤◌, ◌<◌}
use mathlib.Core.Path.{◌≡◌, ◌∙◌}
use mathlib.Core.Logic.{◌≢◌, ◌⊎◌, inl, inr}
use native.Mathlib.Omega.{arith}
use rumicos.Base.Tests.{◌==◌, Bool-cases}
use rumicos.Base.Store.{update}

-- One place changes.
pub update_cases :
    {A : Type 0} (f : ℕ → A) (i : ℕ) (o : A) (j : ℕ)
    → ((i ≡ j) × (update f i o j ≡ o)) ⊎ ((i ≢ j) × (update f i o j ≡ f j))
update_cases f i o j = elim (Bool-cases (i == j)) [
  | inl h ↦ inl (ground arith, ground arith)
  | inr h ↦ inr ((λ e. ground arith), ground arith)
]

-- `n` events after a sample the sequence number has moved `k` times; if it has not, `C` holds.
pub record Since (snap n seq : ℕ) (C : Type 0) : Type 0 where
  pub k : ℕ
  pub few : k ≤ n
  pub moved : seq ≡ (snap + k) % 2 ^ 32
  pub unmoved : k ≡ 0 → C

pub since_kept :
    {snap n seq seq' : ℕ} {C D : Type 0}
    → seq' ≡ seq
    → (C → D)
    → Since snap n seq C
    → Since snap (suc n) seq' D
since_kept e f v = record {
  k = v.k;
  few = omega (arith, v.few);
  moved = e ∙ v.moved;
  unmoved = λ z. f (v.unmoved z);
}

pub since_bumped :
    {snap n seq seq' : ℕ} {C D : Type 0}
    → seq' ≡ (seq + 1) % 2 ^ 32
    → Since snap n seq C
    → Since snap (suc n) seq' D
since_bumped e v = record {
  k = suc v.k;
  few = omega (arith, v.few);
  moved = omega (arith, e, v.moved);
  unmoved = λ z. absurd (omega (arith, z));
}

-- A sample that is found again after fewer than 2 ^ 32 events.
pub since_found : {snap n seq : ℕ} {C : Type 0} → n < 2 ^ 32 → seq ≡ snap → Since snap n seq C → C
since_found few e v = v.unmoved (omega (arith, few, e, v.few, v.moved))

pub or_told : {A B T U : Type 0} → (T → U) → (A → B ⊎ U) → A ⊎ T → B ⊎ U
or_told told f (inl a) = f a
or_told told f (inr t) = inr (told t)
