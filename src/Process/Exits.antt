-- ===== src/Process/Exits.antt =====
-- What the exit of another process changes for a parent.
use rumicos.Base.{
  ℕ, ◌+◌, ◌%◌, ◌^◌, ◌≡◌, ◌≢◌, ◌⊎◌, inl, inr, refl, ap, subst, ◌∙◌, false, Option, none, some, arith,
  if◌then◌else◌, ◌==◌, Bool-cases, ==-refl, update,
}
use rumicos.Base.Int.{ℤ}
use rumicos.Process.{Process, System, zombie, notify, exit, ptable_find}

-- What a process keeps when others exit, and when it exits itself.
pub record Keeps (p p' : Process) : Type 0 where
  pub pid : p'.pid ≡ p.pid
  pub parent_pid : p'.parent_pid ≡ p.parent_pid
  pub children : p'.children ≡ p.children
  pub child_count : p'.child_count ≡ p.child_count

-- One process of a system, as a notification leaves it.
record Told (p p' : Process) : Type 0 where
  keeps : Keeps p p'
  state : p'.state ≡ p.state
  exit_code : p'.exit_code ≡ p.exit_code

notify-Told : (s : System) (o : Option ℕ) (q : ℕ) → Told (s.procs q) ((notify s o).0.procs q)
unfolding notify
notify-Told s none q = record {
  keeps = record { pid = refl; parent_pid = refl; children = refl; child_count = refl };
  state = refl;
  exit_code = refl;
}
notify-Told s (some t) q = elim (Bool-cases (t == q)) [
  | inl h ↦
      let e : t ≡ q = ground arith in
      subst (λ (j : ℕ). Told (s.procs j) ((notify s (some t)).0.procs j)) e
        (rw (==-refl t) (record {
          keeps = record { pid = refl; parent_pid = refl; children = refl; child_count = refl };
          state = refl;
          exit_code = refl;
        }))
  | inr h ↦ rw h (record {
    keeps = record { pid = refl; parent_pid = refl; children = refl; child_count = refl };
    state = refl;
    exit_code = refl;
  })
]

-- The sequence number of a process moves exactly when it is told.
notify_seq :
    (s : System) (o : Option ℕ) (q : ℕ)
    → ((o ≡ some q)
        × (((notify s o).0.procs q).child_exit_seq ≡ ((s.procs q).child_exit_seq + 1) % 2 ^ 32))
      ⊎ ((o ≢ some q) × (((notify s o).0.procs q).child_exit_seq ≡ (s.procs q).child_exit_seq))
unfolding notify
notify_seq s none q = inr ((λ e. cc), refl)
notify_seq s (some t) q = elim (Bool-cases (t == q)) [
  | inl h ↦
      let e : t ≡ q = ground arith in
      inl (
        ap some e,
        subst
            (λ (j : ℕ).
              ((notify s (some t)).0.procs j).child_exit_seq
              ≡ ((s.procs j).child_exit_seq + 1) % 2 ^ 32)
            e (rw (==-refl t) refl),
      )
  | inr h ↦ inr ((λ e. ground arith), rw h refl)
]

notify-ptable : (s : System) (o : Option ℕ) → (notify s o).0.ptable ≡ s.ptable
unfolding notify
notify-ptable s none = refl
notify-ptable s (some t) = refl

-- The system once the process is a zombie, before its parent is told.
abbrev pub died : System → ℕ → ℤ → System
died s self code = record {
  ptable = s.ptable;
  procs = update s.procs self (record (s.procs self) { state = zombie; exit_code = code });
}

-- Whom the exit of a process tells.
abbrev pub told : System → ℕ → Option ℕ
told s self =
    if (s.procs self).parent_pid == 0 then none else ptable_find s.ptable (s.procs self).parent_pid

exit_lem :
    (s : System) (self : ℕ) (code : ℤ) → exit s self code ≡ notify (died s self code) (told s self)
unfolding exit
exit_lem s self code = refl

pub exit-ptable : (s : System) (self : ℕ) (code : ℤ) → (exit s self code).0.ptable ≡ s.ptable
exit-ptable s self code = rw (exit_lem s self code) (notify-ptable (died s self code) (told s self))

died-Keeps :
    (s : System) (self : ℕ) (code : ℤ) (q : ℕ) → Keeps (s.procs q) ((died s self code).procs q)
died-Keeps s self code q = elim (Bool-cases (self == q)) [
  | inl h ↦
      let e : self ≡ q = ground arith in
      subst (λ (j : ℕ). Keeps (s.procs j) ((died s self code).procs j)) e
        (rw (==-refl self)
          (record { pid = refl; parent_pid = refl; children = refl; child_count = refl }))
  | inr h ↦ rw h (record { pid = refl; parent_pid = refl; children = refl; child_count = refl })
]

pub exit-Keeps :
    (s : System) (self : ℕ) (code : ℤ) (q : ℕ) → Keeps (s.procs q) ((exit s self code).0.procs q)
exit-Keeps s self code q =
    let k = died-Keeps s self code q in
    let t = notify-Told (died s self code) (told s self) q in
    rw (exit_lem s self code) (record {
      pid = t.keeps.pid ∙ k.pid;
      parent_pid = t.keeps.parent_pid ∙ k.parent_pid;
      children = t.keeps.children ∙ k.children;
      child_count = t.keeps.child_count ∙ k.child_count;
    })

-- The exit of one process leaves the state of every other.
pub exit_other :
    (s : System) (self : ℕ) (code : ℤ) (q : ℕ)
    → self ≢ q
    → (((exit s self code).0.procs q).state ≡ (s.procs q).state)
      × (((exit s self code).0.procs q).exit_code ≡ (s.procs q).exit_code)
exit_other s self code q ne =
    let away : (self == q) ≡ false = ground arith in
    let t = notify-Told (died s self code) (told s self) q in
    rw (exit_lem s self code) (rw away at t.state, rw away at t.exit_code)

-- It moves the sequence number of the process it tells, and of no other.
pub exit_seq :
    (s : System) (self : ℕ) (code : ℤ) (q : ℕ)
    → self ≢ q
    → ((told s self ≡ some q)
        × (((exit s self code).0.procs q).child_exit_seq
            ≡ ((s.procs q).child_exit_seq + 1) % 2 ^ 32))
      ⊎ ((told s self ≢ some q)
          × (((exit s self code).0.procs q).child_exit_seq ≡ (s.procs q).child_exit_seq))
exit_seq s self code q ne =
    let away : (self == q) ≡ false = ground arith in
    rw (exit_lem s self code) (rw away at (notify_seq (died s self code) (told s self) q))

-- A process that exits is a zombie with its code.
pub exit_self :
    (s : System) (self : ℕ) (code : ℤ)
    → (((exit s self code).0.procs self).state ≡ zombie)
      × (((exit s self code).0.procs self).exit_code ≡ code)
exit_self s self code =
    let t = notify-Told (died s self code) (told s self) self in
    let here = ==-refl self in
    rw (exit_lem s self code) (rw here at t.state, rw here at t.exit_code)
