-- ===== src/Signal/Decide.antt =====
-- What the next signal may do: handlers run as registered, and SIGKILL is never caught.
use rumicos.Base.{
  ℕ, zero, suc, ◌^◌, ◌≤◌, ◌<◌, ◌≡◌, ◌≢◌, refl, ap, ◌∙◌, leb, inl, inr, ◌⊎◌, List, [], ◌∷◌, some,
  arith, ◌==◌, Bool-cases, get_or, bit_or,
}
use rumicos.Base.Bits.{bit, bit-zero, bit-or, bit-lt}
use rumicos.Signal.{
  SigTable, SignalOutcome, nothing, terminate, deliver, SigAction, handler, default, ignore,
  decide_next_signal, decide_signal, decide_action, sigkill, sigterm, nsig,
}
use rumicos.Signal.Pending.{Takes, IsLowest, AreWords, take_any-Takes, all_raised}

-- Why an outcome is allowed for the signal `s`.
pub data Allowed (table : SigTable) (s : ℕ) : SignalOutcome → Type 0 where
  skips : s ≢ sigkill → Allowed table s nothing
  kills : s ≡ sigkill → Allowed table s (terminate s)
  ends : s ≡ sigterm → get_or table s default ≡ default → Allowed table s (terminate s)
  runs :
      (user_fn : ℕ)
      → s ≢ sigkill
      → s < nsig
      → get_or table s default ≡ handler user_fn
      → Allowed table s (deliver user_fn s)

decide_action-Allowed :
    (table : SigTable) (s : ℕ) (a : SigAction)
    → s ≢ sigkill
    → s < nsig
    → get_or table s default ≡ a
    → Allowed table s (decide_action s a)
unfolding decide_action
decide_action-Allowed table s (handler f) ne lt e = runs f ne lt e
decide_action-Allowed table s ignore ne lt e = skips ne
decide_action-Allowed table s default ne lt e = elim (Bool-cases (s == sigterm)) [
  | inl yes_term ↦ rw yes_term (ends (ground arith) e)
  | inr other ↦ rw other (skips ne)
]

decide_signal-Allowed : (table : SigTable) (s : ℕ) → Allowed table s (decide_signal table (some s))
unfolding decide_signal
decide_signal-Allowed table s = elim (Bool-cases (s == sigkill)) [
  | inl kill ↦ rw kill (kills (ground arith))
  | inr other ↦ elim (Bool-cases (leb nsig s)) [
    | inl out ↦ rw (other, out) (skips (ground arith))
    | inr within ↦
        rw (other, within) (decide_action-Allowed table s _ (ground arith) (ground arith) refl)
  ]
]

-- With something pending, the decision is about the lowest pending signal, which alone is
-- consumed: SIGKILL terminates whatever the table says, and a handler runs only for another
-- signal in range for which the table holds it.
pub decide_next_signal-Allowed :
    (schedule : List ℕ) (pending : ℕ) (table : SigTable)
    → AreWords schedule
    → pending < 2 ^ 64
    → pending ≢ 0
    → let (left, outcome) = decide_next_signal schedule pending table in
      (s : ℕ) × Takes (all_raised schedule pending) left s × Allowed table s outcome
unfolding decide_next_signal
decide_next_signal-Allowed schedule pending table words h nz =
    elim (take_any-Takes schedule pending words h) [
      | inl (z, _, _) ↦ absurd (nz z)
      | inr (s, taken, takes) ↦ (s, takes, rw taken (decide_signal-Allowed table s))
    ]

-- The pending word after `k` decisions. The schedule of a decision holds what the other CPUs raise
-- up to its exchange, since the decision before it too: nothing tells a signal raised before the
-- load from one raised while the exchange fails, as long as something is pending.
pub drained : SigTable → (ℕ → List ℕ) → ℕ → ℕ → ℕ
drained table schedule zero pending = pending
drained table schedule (suc k) pending =
    (decide_next_signal (schedule k) (drained table schedule k pending) table).0

-- Nothing below SIGKILL is raised.
abbrev pub NoneBelow : List ℕ → Type 0
NoneBelow [] = Unit {0}
NoneBelow (m ∷ ms) = ((i : ℕ) → i < sigkill → bit m i ≡ 0) × NoneBelow ms

all_raised-below :
    (ms : List ℕ) (cur i : ℕ) → NoneBelow ms → i < sigkill → bit (all_raised ms cur) i ≡ bit cur i
unfolding all_raised
all_raised-below [] cur i none_low h = refl
all_raised-below (m ∷ ms) cur i none_low h =
    omega (arith, all_raised-below ms (bit_or cur m) i none_low.1 h, bit-or cur m i, none_low.0 i h)

all_raised-keeps : (ms : List ℕ) (cur i : ℕ) → bit cur i ≡ 1 → bit (all_raised ms cur) i ≡ 1
unfolding all_raised
all_raised-keeps [] cur i h = h
all_raised-keeps (m ∷ ms) cur i h =
    all_raised-keeps ms (bit_or cur m) i (omega (arith, h, bit-or cur m i, bit-lt m i))

pending-ne-zero : (n s : ℕ) → bit n s ≡ 1 → n ≢ 0
pending-ne-zero n s h e = omega (arith, bit-zero s, ap (λ (t : ℕ). bit t s) e, h)

-- One decision: the lowest signal `s` of what has been raised by then is taken.
decides :
    (ms : List ℕ) (pending : ℕ) (table : SigTable)
    → AreWords ms
    → pending < 2 ^ 64
    → pending ≢ 0
    → (s : ℕ) × Takes (all_raised ms pending) (decide_next_signal ms pending table).0 s
      × ((decide_next_signal ms pending table).1 ≡ decide_signal table (some s))
unfolding decide_next_signal
decides ms pending table words h nz = elim (take_any-Takes ms pending words h) [
  | inl (z, _, _) ↦ absurd (nz z)
  | inr (s, taken, takes) ↦ (s, takes, ap (decide_signal table) taken)
]

lowest-le : (n s i : ℕ) → IsLowest n s → bit n i ≡ 1 → s ≤ i
lowest-le n s i low e = ground (arith, low.none_below i)

taken_none_below : (pending left s i : ℕ) → Takes pending left s → i < suc s → bit left i ≡ 0
taken_none_below pending left s i t h = ground (arith, t.in_range, t.rest i, t.lowest.none_below i)

taken_keeps :
    (pending left s i : ℕ) → Takes pending left s → s ≢ i → i < 64 → bit left i ≡ bit pending i
taken_keeps pending left s i t ne h = ground (arith, t.rest i)

at_sigkill :
    (table : SigTable) (s : ℕ) → s ≡ sigkill → decide_signal table (some s) ≡ terminate sigkill
unfolding decide_signal
at_sigkill table s e = rw e

-- SIGKILL is pending after `k` decisions, and nothing below `k` is.
record Nears (pending j : ℕ) : Type 0 where
  word : pending < 2 ^ 64
  kill : bit pending sigkill ≡ 1
  low : (i : ℕ) → i < j → i < sigkill → bit pending i ≡ 0

-- A decision takes SIGKILL, or the word comes nearer to it.
nearer :
    (ms : List ℕ) (pending j : ℕ) (table : SigTable)
    → AreWords ms
    → NoneBelow ms
    → Nears pending j
    → ((decide_next_signal ms pending table).1 ≡ terminate sigkill)
      ⊎ ((j < sigkill) × Nears (decide_next_signal ms pending table).0 (suc j))
nearer ms pending j table words none_low v =
    let (s, takes, decided) =
      decides ms pending table words v.word (pending-ne-zero pending sigkill v.kill) in
    let pool = all_raised ms pending in
    let kill = all_raised-keeps ms pending sigkill v.kill in
    let below = lowest-le pool s sigkill takes.lowest kill in
    elim (Bool-cases (s == sigkill)) [
      | inl here ↦ inl (decided ∙ at_sigkill table s (ground (arith, here)))
      | inr other ↦
          let lower : s < sigkill = ground (arith, below, other) in
          let above =
            not_below pending pool s j none_low lower takes.lowest v.low
              (all_raised-below ms pending s none_low lower) in
          inr (
            omega (arith, above, lower),
            record {
              word = takes.word;
              kill =
                  taken_keeps pool (decide_next_signal ms pending table).0 s sigkill takes
                    (λ e. omega (arith, e, lower)) (omega arith)
                  ∙ kill;
              low = λ i p q.
                  taken_none_below pool (decide_next_signal ms pending table).0 s i takes
                    (omega (arith, p, above));
            },
          )
    ]
  where
    not_below :
        (n pool s j : ℕ)
        → NoneBelow ms
        → s < sigkill
        → IsLowest pool s
        → ((i : ℕ) → i < j → i < sigkill → bit n i ≡ 0)
        → bit pool s ≡ bit n s
        → j ≤ s
    not_below n pool s j none_low lower lowest low same =
        ground (arith, lowest.pending, low s, same)

-- Either one of the first `k` decisions ends the process, or the word has come near.
sigkill_from :
    (table : SigTable) (schedule : ℕ → List ℕ) (pending k : ℕ)
    → ((i : ℕ) → AreWords (schedule i) × NoneBelow (schedule i))
    → pending < 2 ^ 64
    → bit pending sigkill ≡ 1
    → ((m : ℕ) × (m < k)
        × ((decide_next_signal (schedule m) (drained table schedule m pending) table).1
            ≡ terminate sigkill))
      ⊎ ((k ≤ sigkill) × Nears (drained table schedule k pending) k)
unfolding drained
sigkill_from table schedule pending zero ok h kill =
    inr (omega arith, record { word = h; kill = kill; low = λ i p. elim p [ ] })
sigkill_from table schedule pending (suc k) ok h kill =
    elim (sigkill_from table schedule pending k ok h kill) [
      | inl (m, lt, ends_there) ↦ inl (m, omega (arith, lt), ends_there)
      | inr (_, near) ↦
          elim (nearer (schedule k) (drained table schedule k pending) k table (ok k).0 (ok k).1
            near) [
              | inl ends_here ↦ inl (k, omega arith, ends_here)
              | inr (le, near') ↦ inr (le, near')
            ]
    ]

-- A pending SIGKILL ends the process after at most nine other decisions, whatever handlers the
-- table holds, and whatever else is raised before and between these decisions, as long as no
-- signal with a lower number is.
pub sigkill_terminates :
    (pending : ℕ) (table : SigTable) (schedule : ℕ → List ℕ)
    → pending < 2 ^ 64
    → bit pending sigkill ≡ 1
    → ((i : ℕ) → AreWords (schedule i) × NoneBelow (schedule i))
    → (k : ℕ) × (k ≤ 9)
      × ((decide_next_signal (schedule k) (drained table schedule k pending) table).1
          ≡ terminate sigkill)
sigkill_terminates pending table schedule h kill ok =
    elim (sigkill_from table schedule pending 10 ok h kill) [
      | inl (k, lt, ends_there) ↦ (k, omega (arith, lt), ends_there)
      | inr (far, _) ↦ absurd (omega (arith, far))
    ]
