-- ===== src/Pipe/Wakeup/Places.antt =====
-- Where a caller stands, and what its sample tells some events later.
use rumicos.Base.{ℕ, ◌≡◌, ◌≢◌, ◌⊎◌, inl, inr, refl, ◌∙◌, ap, update_ne, arith, Bool-cases, ◌==◌}
use rumicos.Base.Samples.{update_cases}
use rumicos.Pipe.{Wake}
use rumicos.Pipe.Wakeup.{
  Side, Op, idle, tells, Scene, step_of, Call, starts, called, Event, calls, steps, event,
}

-- A caller has changed the pipe for this side and has not yet bumped its sequence number; the bump
-- and the wakeup are its next steps.
abbrev pub Told : Side → Scene → Type 0
Told side s = (j : ℕ) × (w : Wake) × (s.op j ≡ tells side w)

pub called_cases : (c : Call) (o : Op) → (o ≡ idle) ⊎ (called c o ≡ o)
unfolding called
called_cases c idle = inl refl
called_cases c _ = inr refl

step_of-others : (s : Scene) (i j : ℕ) (o : Op) → j ≢ i → (step_of s j o).op i ≡ s.op i
unfolding step_of
step_of-others s i j idle ne = refl
step_of-others s i j _ ne = update_ne s.op j _ i ne

pub event-steps : (s : Scene) (i : ℕ) → event s (steps i) ≡ step_of s i (s.op i)
unfolding event
event-steps s i = refl

-- Where a caller stands after an event: as before, behind its own step, or at the start of a call.
pub event_cases :
    (s : Scene) (e : Event) (i : ℕ)
    → ((event s e).op i ≡ s.op i) ⊎ (e ≡ steps i) ⊎ ((c : Call) × ((event s e).op i ≡ starts c))
unfolding event called
event_cases s (steps j) i = elim (Bool-cases (j == i)) [
  | inl here ↦ (let same : j ≡ i = ground arith in inr (inl (ap steps same)))
  | inr away ↦ inl (step_of-others s i j (s.op j) (λ e. ground arith))
]
event_cases s (calls j c) i = elim (update_cases s.op j (called c (s.op j)) i) [
  | inr (_, kept) ↦ inl kept
  | inl (here, now) ↦ elim (called_cases c (s.op j)) [
    | inr same ↦ inl (now ∙ same ∙ ap s.op here)
    | inl waits ↦ inr (inr (c, now ∙ ap (called c) waits))
  ]
]
