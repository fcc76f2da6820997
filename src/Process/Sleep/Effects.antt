-- ===== src/Process/Sleep/Effects.antt =====
-- What a step of any process does to what a parent waits for.
use rumicos.Base.{
  ℕ, ◌+◌, ◌%◌, ◌^◌, ◌<◌, ◌≡◌, ◌≢◌, ◌⊎◌, inl, inr, refl, sym, ap, ◌∙◌, arith, Bool-cases, ◌==◌,
  ==-refl, update, update_ne, false,
}
use rumicos.Base.Int.{ℤ}
use rumicos.Base.Samples.{update_cases}
use rumicos.Signal.{raise}
use rumicos.Process.{sigchld, Process, zombie}
use rumicos.Process.Sleep.{
  Op, idle, exit_marks, exit_codes, exit_finds, exit_raises, exit_bumps, exit_wakes, exited,
  wait_enters, wait_counts, wait_samples, wait_looks, wait_decides, wait_sleeps, wait_reaps, Scene,
  moves, tells, step_of, Call, starts, called, Event, calls, steps, event,
}
use rumicos.Process.Sleep.Kept.{
  Due, Same, Same-refl, Same-write, written, IsFamily, Effect, bumps, keeps, Told-next, quiet,
}

-- A step that only moves a process that owes nothing.
moved :
    (s : Scene) (j : ℕ) (o o' : Op) (parent : ℕ)
    → s.op j ≡ o
    → (Due s.system parent j o → Due s.system parent j o')
    → Effect s (moves s j o') parent
moved s j o o' parent here next =
    quiet s s.system j o o' parent here (Same-refl s.system) next refl (λ q. refl)

marks-Effect :
    (s : Scene) (j : ℕ) (code : ℤ) (parent : ℕ)
    → s.op j ≡ exit_marks code
    → Effect s (step_of s j (exit_marks code)) parent
unfolding step_of
marks-Effect s j code parent here =
    let p : Process = record (s.system.procs j) { state = zombie } in
    let k = Same-write s.system j p refl refl refl in
    keeps (written s.system j p (λ r. r.child_exit_seq) refl parent)
      (Told-next s (record s.system { procs = update s.system.procs j p }) j (exit_marks code)
        (exit_codes code) parent here k (λ d. absurd d))
      (λ q mine alive. elim (update_cases s.system.procs j p q) [
        | inl (same, _) ↦ inr (
          j,
          rw (==-refl j) (
              k.parent_pid j
              ∙ ap (λ (i : ℕ). (s.system.procs i).parent_pid) same
              ∙ mine
              ∙ sym (k.pid parent)),
        )
        | inr (_, kept) ↦ inl (ap (λ (r : Process). r.state) kept ∙ alive)
      ])

finds-Effect :
    (s : Scene) (j parent : ℕ)
    → IsFamily s.system parent
    → s.op j ≡ exit_finds
    → Effect s (step_of s j exit_finds) parent
unfolding step_of tells
finds-Effect s j parent v here = moved s j exit_finds _ parent here (λ d.
    let awake : ((s.system.procs j).parent_pid == 0) ≡ false =
      elim (Bool-cases ((s.system.procs j).parent_pid == 0)) [
        | inl z ↦ absurd (v.named (ground (arith, z, d)))
        | inr f ↦ f
      ] in
    rw (awake, d, v.found) refl)

bumps-Effect :
    (s : Scene) (j p parent : ℕ)
    → s.op j ≡ exit_bumps p
    → Effect s (step_of s j (exit_bumps p)) parent
unfolding step_of
bumps-Effect s j p parent here =
    let t : Process = record (s.system.procs p) {
      child_exit_seq = ((s.system.procs p).child_exit_seq + 1) % 2 ^ 32;
    } in
    elim (update_cases s.system.procs p t parent) [
      | inl (same, now) ↦ bumps (
          ap (λ (r : Process). r.child_exit_seq) now
          ∙ ap (λ (i : ℕ). ((s.system.procs i).child_exit_seq + 1) % 2 ^ 32) same)
      | inr (other, kept) ↦
          quiet s (record s.system { procs = update s.system.procs p t }) j (exit_bumps p)
            (exit_wakes p) parent here (Same-write s.system p t refl refl refl)
            (λ d. absurd (other d)) (ap (λ (r : Process). r.child_exit_seq) kept)
            (λ q. written s.system p t (λ r. r.state) refl q)
    ]

step_of-Effect :
    (s : Scene) (j : ℕ) (o : Op) (parent : ℕ)
    → IsFamily s.system parent
    → s.op j ≡ o
    → Effect s (step_of s j o) parent
unfolding step_of
step_of-Effect s j (exit_marks code) parent v here = marks-Effect s j code parent here
step_of-Effect s j (exit_codes code) parent v here =
    let p : Process = record (s.system.procs j) { exit_code = code } in
    let k = Same-write s.system j p refl refl refl in
    quiet s (record s.system { procs = update s.system.procs j p }) j (exit_codes code) exit_finds
      parent here k (λ d. k.parent_pid j ∙ d ∙ sym (k.pid parent))
      (written s.system j p (λ r. r.child_exit_seq) refl parent)
      (λ q. written s.system j p (λ r. r.state) refl q)
step_of-Effect s j exit_finds parent v here = finds-Effect s j parent v here
step_of-Effect s j (exit_raises p) parent v here =
    let t : Process = record (s.system.procs p) {
      pending = raise (s.system.procs p).pending sigchld;
    } in
    quiet s (record s.system { procs = update s.system.procs p t }) j (exit_raises p) (exit_bumps p)
      parent here (Same-write s.system p t refl refl refl) (λ d. d)
      (written s.system p t (λ r. r.child_exit_seq) refl parent)
      (λ q. written s.system p t (λ r. r.state) refl q)
step_of-Effect s j (exit_bumps p) parent v here = bumps-Effect s j p parent here
step_of-Effect s j (exit_wakes p) parent v here = moved s j _ _ parent here (λ d. absurd d)
step_of-Effect s j (wait_enters a b) parent v here = moved s j _ _ parent here (λ d. absurd d)
step_of-Effect s j (wait_counts a b) parent v here = moved s j _ _ parent here (λ d. absurd d)
step_of-Effect s j (wait_samples a b) parent v here = moved s j _ _ parent here (λ d. absurd d)
step_of-Effect s j (wait_looks a b c d) parent v here = moved s j _ _ parent here (λ f. absurd f)
step_of-Effect s j (wait_decides a b c) parent v here = moved s j _ _ parent here (λ d. absurd d)
step_of-Effect s j (wait_sleeps a b) parent v here = moved s j _ _ parent here (λ d. absurd d)
step_of-Effect s j _ parent v here = keeps refl (λ told. told) (λ q mine alive. inl alive)

step_of-Same : (s : Scene) (j : ℕ) (o : Op) → Same s.system (step_of s j o).system
unfolding step_of
step_of-Same s j (exit_marks code) = Same-write s.system j _ refl refl refl
step_of-Same s j (exit_codes code) = Same-write s.system j _ refl refl refl
step_of-Same s j (exit_raises p) = Same-write s.system p _ refl refl refl
step_of-Same s j (exit_bumps p) = Same-write s.system p _ refl refl refl
step_of-Same s j _ = Same-refl s.system

pub event-Same : (s : Scene) (e : Event) → Same s.system (event s e).system
unfolding event
event-Same s (steps j) = step_of-Same s j (s.op j)
event-Same s (calls j c) = Same-refl s.system

called_cases : (c : Call) (o : Op) → (o ≡ idle) ⊎ (called c o ≡ o)
unfolding called
called_cases c idle = inl refl
called_cases c _ = inr refl

pub event-Effect :
    (s : Scene) (e : Event) (parent : ℕ) → IsFamily s.system parent → Effect s (event s e) parent
unfolding event
event-Effect s (steps j) parent v = step_of-Effect s j (s.op j) parent v refl
event-Effect s (calls j c) parent v = elim (called_cases c (s.op j)) [
  | inl waits ↦ moved s j idle _ parent waits (λ d. absurd d)
  | inr same ↦ moved s j (s.op j) _ parent refl (λ d. rw same d)
]

pub IsFamily-event :
    (s : Scene) (e : Event) (parent : ℕ)
    → IsFamily s.system parent
    → IsFamily (event s e).system parent
IsFamily-event s e parent v =
    let k = event-Same s e in
    record {
      named = λ z. v.named (sym (k.pid parent) ∙ z);
      found = rw (k.ptable, k.pid parent) v.found;
      word = by_effect (event-Effect s e parent v);
      children = λ slot c q listed ne names.
          k.parent_pid q
          ∙ v.children slot c q (rw (k.children parent) at listed) ne (rw k.ptable at names)
          ∙ sym (k.pid parent);
    }
  where
    by_effect : {s' : Scene} → Effect s s' parent → (s'.system.procs parent).child_exit_seq < 2 ^ 32
    by_effect (bumps b) = omega (arith, b)
    by_effect (keeps same told alive) = omega (arith, same, v.word)

step_of-others : (s : Scene) (i j : ℕ) (o : Op) → j ≢ i → (step_of s j o).op i ≡ s.op i
unfolding step_of
step_of-others s i j idle ne = refl
step_of-others s i j exited ne = refl
step_of-others s i j (wait_reaps a b) ne = refl
step_of-others s i j _ ne = update_ne s.op j _ i ne

pub event-steps : (s : Scene) (i : ℕ) → event s (steps i) ≡ step_of s i (s.op i)
unfolding event
event-steps s i = refl

-- Where a process stands after an event: as before, behind its own step, or at the start of a call.
pub event_cases :
    (s : Scene) (e : Event) (i : ℕ)
    → ((event s e).op i ≡ s.op i) ⊎ (e ≡ steps i) ⊎ ((c : Call) × ((event s e).op i ≡ starts c))
unfolding event called
event_cases s (steps j) i = elim (Bool-cases (j == i)) [
  | inl here ↦ (let same : j ≡ i = ground arith in inr (inl (ap steps same)))
  | inr away ↦ inl (step_of-others s i j (s.op j) (λ e. ground arith))
]
event_cases s (calls j c) i = elim (update_cases s.op j (called c (s.op j)) i) [
  | inr (_, kept) ↦ inl kept
  | inl (here, now) ↦ elim (called_cases c (s.op j)) [
    | inr same ↦ inl (now ∙ same ∙ ap s.op here)
    | inl waits ↦ inr (inr (c, now ∙ ap (called c) waits))
  ]
]
