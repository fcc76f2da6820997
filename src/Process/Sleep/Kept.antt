-- ===== src/Process/Sleep/Kept.antt =====
-- What the steps of exits leave, and who has a bump of the parent ahead.
use rumicos.Base.{
  ℕ, ◌+◌, ◌%◌, ◌^◌, ◌<◌, ◌≡◌, ◌≢◌, ◌⊎◌, inl, inr, refl, sym, ap, ◌∙◌, some, update, get_elem?,
  subst,
}
use rumicos.Base.Samples.{update_cases}
use rumicos.Process.{Process, System, running, ptable_find}
use rumicos.Process.Sleep.{Op, exit_codes, exit_finds, exit_raises, exit_bumps, Scene}

-- A process at this place is a zombie, and has its bump of `parent` ahead.
abbrev pub Due : System → ℕ → ℕ → Op → Type 0
Due s parent q (exit_codes code) = (s.procs q).parent_pid ≡ (s.procs parent).pid
Due s parent q exit_finds = (s.procs q).parent_pid ≡ (s.procs parent).pid
Due s parent q (exit_raises p) = p ≡ parent
Due s parent q (exit_bumps p) = p ≡ parent
Due s parent q _ = ⊥

abbrev pub Told : Scene → ℕ → Type 0
Told s parent = (q : ℕ) × Due s.system parent q (s.op q)

-- What no step of an exit or of wait4 changes.
pub record Same (s s' : System) : Type 0 where
  pub ptable : s'.ptable ≡ s.ptable
  pub pid : (q : ℕ) → (s'.procs q).pid ≡ (s.procs q).pid
  pub parent_pid : (q : ℕ) → (s'.procs q).parent_pid ≡ (s.procs q).parent_pid
  pub children : (q : ℕ) → (s'.procs q).children ≡ (s.procs q).children

pub Same-refl : (s : System) → Same s s
Same-refl s = record {
  ptable = refl;
  pid = λ q. refl;
  parent_pid = λ q. refl;
  children = λ q. refl;
}

-- A field that a write leaves.
pub written :
    {A : Type 0} (s : System) (j : ℕ) (p : Process) (f : Process → A)
    → f p ≡ f (s.procs j)
    → (q : ℕ) → f (update s.procs j p q) ≡ f (s.procs q)
written s j p f e q = elim (update_cases s.procs j p q) [
  | inl (same, now) ↦ ap f now ∙ e ∙ ap (λ (k : ℕ). f (s.procs k)) same
  | inr (_, kept) ↦ ap f kept
]

pub Same-write :
    (s : System) (j : ℕ) (p : Process)
    → p.pid ≡ (s.procs j).pid
    → p.parent_pid ≡ (s.procs j).parent_pid
    → p.children ≡ (s.procs j).children
    → Same s (record s { procs = update s.procs j p })
Same-write s j p pid parent_pid children = record {
  ptable = refl;
  pid = λ q. written s j p (λ r. r.pid) pid q;
  parent_pid = λ q. written s j p (λ r. r.parent_pid) parent_pid q;
  children = λ q. written s j p (λ r. r.children) children q;
}

-- A parent that its children find: those that its list and the table name have it for parent.
pub record IsFamily (s : System) (parent : ℕ) : Type 0 where
  pub named : (s.procs parent).pid ≢ 0
  pub found : ptable_find s.ptable (s.procs parent).pid ≡ some parent
  pub word : (s.procs parent).child_exit_seq < 2 ^ 32
  pub children :
      (slot c q : ℕ)
      → get_elem? (s.procs parent).children slot ≡ some c
      → c ≢ 0
      → ptable_find s.ptable c ≡ some q
      → (s.procs q).parent_pid ≡ (s.procs parent).pid

-- One step for a parent: its sequence number moves, or it stays and its children live on, unless
-- one of those that died has its bump ahead.
pub data Effect (s s' : Scene) (parent : ℕ) : Type 0 where
  bumps :
      (s'.system.procs parent).child_exit_seq
        ≡ ((s.system.procs parent).child_exit_seq + 1) % 2 ^ 32
      → Effect s s' parent
  keeps :
      (s'.system.procs parent).child_exit_seq ≡ (s.system.procs parent).child_exit_seq
      → (Told s parent → Told s' parent)
      → ((q : ℕ)
          → (s.system.procs q).parent_pid ≡ (s.system.procs parent).pid
          → (s.system.procs q).state ≡ running
          → ((s'.system.procs q).state ≡ running) ⊎ Told s' parent)
      → Effect s s' parent

pub Due-Same :
    (s s' : System) (parent q : ℕ) (o : Op) → Same s s' → Due s parent q o → Due s' parent q o
Due-Same s s' parent q (exit_codes code) k d = k.parent_pid q ∙ d ∙ sym (k.pid parent)
Due-Same s s' parent q exit_finds k d = k.parent_pid q ∙ d ∙ sym (k.pid parent)
Due-Same s s' parent q (exit_raises p) k d = d
Due-Same s s' parent q (exit_bumps p) k d = d
Due-Same s s' parent q _ k d = absurd d

module _ (s : Scene) (s' : System) (j : ℕ) (o o' : Op) (parent : ℕ) (here : s.op j ≡ o)
    (k : Same s.system s') (next : Due s.system parent j o → Due s' parent j o') where
  -- Who was due still is.
  pub Told-next : Told s parent → Told (record { system = s'; op = update s.op j o' }) parent
  Told-next (q, d) = elim (update_cases s.op j o' q) [
    | inl (same, now) ↦ (
      q,
      rw now (
          subst (λ (i : ℕ). Due s' parent i o') same
            (next (
              subst (λ (p : Op). Due s.system parent j p) here
                (subst (λ (i : ℕ). Due s.system parent i (s.op i)) (sym same) d)))),
    )
    | inr (_, kept) ↦ (q, rw kept (Due-Same s.system s' parent q (s.op q) k d))
  ]

  pub quiet :
      (s'.procs parent).child_exit_seq ≡ (s.system.procs parent).child_exit_seq
      → ((q : ℕ) → (s'.procs q).state ≡ (s.system.procs q).state)
      → Effect s (record { system = s'; op = update s.op j o' }) parent
  quiet seq state = keeps seq Told-next (λ q mine alive. inl (state q ∙ alive))
