-- ===== src/Process/Sleep/Justified.antt =====
-- wait4 between its sample of `child_exit_seq` and its decision to sleep.
use rumicos.Base.{
  ℕ, suc, ◌+◌, ◌^◌, ◌<◌, ◌≡◌, ◌≢◌, ◌⊎◌, inl, inr, refl, sym, subst, arith, Bool-cases, Option-cases,
  ◌==◌, none, some, Option, ==-refl, length, List, [], ◌∷◌,
}
use rumicos.Base.Int.{ℤ}
use rumicos.Base.Samples.{since_found}
use rumicos.Process.{ptable_find, still_waits, zombie_at, code_at, dead_code, group}
use rumicos.Process.Reap.{IsWaited}
use rumicos.Process.Sleep.{
  Op, idle, exit_marks, exit_codes, exit_finds, exit_raises, exit_bumps, exit_wakes, exited,
  wait_enters, wait_counts, wait_samples, wait_looks, wait_decides, wait_sleeps, wait_reaps, Scene,
  tells, step_of, Call, starts, Event, steps, event, run,
}
use rumicos.Process.Sleep.Kept.{Told, IsFamily}
use rumicos.Process.Sleep.Effects.{
  event-Same, event-Effect, IsFamily-event, event_cases, event-steps,
}
use rumicos.Process.Sleep.Looks.{ClearAt, Knows, Knows-Effect, Knows-looks}

Knows-tells : (s : Scene) (i n : ℕ) (o : Option ℕ) → Knows s i n (tells o)
unfolding tells
Knows-tells s i n none = tt
Knows-tells s i n (some parent) = tt

-- The parent's own step keeps it too.
Knows-step_of :
    (s : Scene) (i n : ℕ) (o : Op)
    → IsFamily s.system i
    → s.op i ≡ o
    → Knows s i n o
    → Knows (step_of s i o) i (suc n) ((step_of s i o).op i)
unfolding step_of
Knows-step_of s i n idle f e v = rw e tt
Knows-step_of s i n exited f e v = rw e tt
Knows-step_of s i n (wait_reaps c code) f e v = rw e tt
Knows-step_of s i n (exit_marks code) f e v = rw (==-refl i) tt
Knows-step_of s i n (exit_codes code) f e v = rw (==-refl i) tt
Knows-step_of s i n exit_finds f e v =
    rw (==-refl i) (Knows-tells (step_of s i exit_finds) i (suc n) _)
Knows-step_of s i n (exit_raises p) f e v = rw (==-refl i) tt
Knows-step_of s i n (exit_bumps p) f e v = rw (==-refl i) tt
Knows-step_of s i n (exit_wakes p) f e v = rw (==-refl i) tt
Knows-step_of s i n (wait_enters pid options) f e v = elim (Bool-cases (group pid)) [
  | inl g ↦ rw (==-refl i, g) tt
  | inr g ↦ rw (==-refl i, g) tt
]
Knows-step_of s i n (wait_counts pid options) f e v =
    elim (Bool-cases ((s.system.procs i).child_count == 0)) [
      | inl z ↦ rw (==-refl i, z) tt
      | inr z ↦ rw (==-refl i, z) tt
    ]
Knows-step_of s i n (wait_samples pid options) f e v = rw (==-refl i) (record {
  k = 0;
  few = omega arith;
  moved = omega (arith, f.word);
  unmoved = λ _ slot below. absurd (omega (arith, below));
})
Knows-step_of s i n (wait_looks pid options seen m) f e v =
    rw (==-refl i) (Knows-looks s i n pid options seen m e f v)
Knows-step_of s i n (wait_decides pid options seen) f e v =
    elim (Bool-cases (still_waits s.system i seen)) [
      | inl w ↦ rw (==-refl i, w) tt
      | inr w ↦ rw (==-refl i, w) tt
    ]
Knows-step_of s i n (wait_sleeps pid options) f e v = rw (==-refl i) tt

Knows-starts : (s : Scene) (i n : ℕ) (c : Call) → Knows s i n (starts c)
unfolding starts
Knows-starts s i n (Call.exit code) = tt
Knows-starts s i n (Call.wait4 pid options) = tt

event-Knows :
    (s : Scene) (e : Event) (i n : ℕ)
    → IsFamily s.system i
    → Knows s i n (s.op i)
    → Knows (event s e) i (suc n) ((event s e).op i)
event-Knows s e i n f v = elim (event_cases s e i) [
  | inl same ↦
      rw same (Knows-Effect s (event s e) i n (s.op i) f (event-Same s e) (event-Effect s e i f) v)
  | inr (inl own) ↦
      subst (λ (g : Event). Knows (event s g) i (suc n) ((event s g).op i)) (sym own)
        (rw (event-steps s i) (Knows-step_of s i n (s.op i) f refl v))
  | inr (inr (c, starting)) ↦ rw starting (Knows-starts (event s e) i (suc n) c)
]

run-Knows :
    (es : List Event) (s : Scene) (i n : ℕ)
    → IsFamily s.system i
    → Knows s i n (s.op i)
    → Knows (run s es) i (length es + n) ((run s es).op i)
unfolding run
run-Knows [] s i n f v =
    let same : n ≡ 0 + n = omega arith in subst (λ (m : ℕ). Knows s i m (s.op i)) same v
run-Knows (e ∷ es) s i n f v =
    let same : length es + suc n ≡ suc (length es) + n = omega arith in
    subst (λ (m : ℕ). Knows (run (event s e) es) i m ((run (event s e) es).op i)) same
      (run-Knows es (event s e) i (suc n) (IsFamily-event s e i f) (event-Knows s e i n f v))

-- Who goes to sleep has found its sample.
slept :
    (s : Scene) (i : ℕ) (pid : ℤ) (options seen : ℕ)
    → s.op i ≡ wait_decides pid options seen
    → (event s (steps i)).op i ≡ wait_sleeps pid options
    → (s.system.procs i).child_exit_seq ≡ seen
unfolding event step_of still_waits
slept s i pid options seen here sleeps =
    elim (Bool-cases ((s.system.procs i).child_exit_seq == seen)) [
      | inl t ↦ ground arith
      | inr f ↦ absurd (awake (rw (here, ==-refl i, f) at sleeps))
    ]
  where
    awake : wait_counts pid options ≢ wait_sleeps pid options
    awake e = cc

-- The scan sees no zombie in a slot that is clear.
clear_lem :
    (s : Scene) (i : ℕ) (pid : ℤ) (c : ℕ) (w : IsWaited pid (s.system.procs i).children c)
    → ClearAt s i pid w.slot
    → (zombie_at s.system c ≡ none) ⊎ Told s i
unfolding zombie_at code_at
clear_lem s i pid c w clear = elim (Option-cases (ptable_find s.system.ptable c)) [
  | inl nobody ↦ inl (rw nobody refl)
  | inr (q, names) ↦ elim (clear c q w.listed w.child w.selected names) [
    | inr told ↦ inr told
    | inl lives ↦ inl (rw (names, lives, dead_code) refl)
  ]
]

-- Among processes whose exits and calls of wait4 interleave step by step in any way, let a parent
-- that its children find be about to sample `child_exit_seq`. When fewer than 2 ^ 32 events later
-- its check under the lock of the wait queue puts it to sleep, no child that it waits for is a
-- zombie, unless a process that has died has its bump of the parent's `child_exit_seq`, and the
-- wakeup behind it, ahead.
pub sleep_justified :
    (s : Scene) (i : ℕ) (pid : ℤ) (options : ℕ) (es : List Event) (pid' : ℤ) (options' seen : ℕ)
    → IsFamily s.system i
    → s.op i ≡ wait_samples pid options
    → length es < 2 ^ 32
    → (run s es).op i ≡ wait_decides pid' options' seen
    → (event (run s es) (steps i)).op i ≡ wait_sleeps pid' options'
    → (c : ℕ) → IsWaited pid' ((run s es).system.procs i).children c
    → (zombie_at (run s es).system c ≡ none) ⊎ Told (run s es) i
sleep_justified s i pid options es pid' options' seen f start few here sleeps c w =
    let v = run-Knows es s i 0 f (rw start tt) in
    clear_lem (run s es) i pid' c w (
      since_found (omega (arith, few)) (slept (run s es) i pid' options' seen here sleeps)
        (rw here at v) w.slot)

-- Between the two stores of an exit the process is a zombie with the exit code that it had before.
exit_marks_lem :
    (s : Scene) (q : ℕ) (code : ℤ) (c : ℕ)
    → ptable_find s.system.ptable c ≡ some q
    → zombie_at (step_of s q (exit_marks code)).system c ≡ some (c, (s.system.procs q).exit_code)
unfolding step_of zombie_at code_at dead_code
exit_marks_lem s q code c named = rw (named, ==-refl q) refl
