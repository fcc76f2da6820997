-- ===== src/Process/Reap.antt =====
-- What a round of wait4 answers.
use rumicos.Base.{
  ℕ, zero, suc, ◌≡◌, ◌≢◌, ◌⊎◌, refl, sym, subst, inl, inr, false, true, not, ◌&&◌, List, [], ◌∷◌,
  Option, none, some, arith, if◌then◌else◌, ◌==◌, ==-refl, Bool-cases, Option-cases, update,
  get_elem?, bit_and,
}
use rumicos.Base.Int.{ℤ, pos}
use rumicos.Process.{
  System, ProcessState, zombie, running, dead_code, ptable_find, ptable_remove, code_at, zombie_at,
  first_of, scan, find_zombie, selects, group, waited, Round, returns, blocks, sys_wait4, wnohang,
  echild, is_user_ptr, encode_exit_status, reap_zombie, reaped, remove_child,
}
use rumicos.Process.Table.{ptable_remove_lem}

-- A child in the list that wait4 looks for.
pub record IsWaited (pid : ℤ) (cs : List ℕ) (c : ℕ) : Type 0 where
  pub slot : ℕ
  pub listed : get_elem? cs slot ≡ some c
  pub child : c ≢ 0
  pub selected : selects pid c ≡ true

IsWaited-cons :
    (pid : ℤ) (x : ℕ) (cs : List ℕ) (c : ℕ) → IsWaited pid cs c → IsWaited pid (x ∷ cs) c
IsWaited-cons pid x cs c w = record {
  slot = suc w.slot;
  listed = w.listed;
  child = w.child;
  selected = w.selected;
}

-- A child that is no zombie, or its pid with its code.
zombie_at_lem :
    (s : System) (c : ℕ) → (zombie_at s c ≡ none) ⊎ ((code : ℤ) × (zombie_at s c ≡ some (c, code)))
unfolding zombie_at code_at dead_code
zombie_at_lem s c = elim (Option-cases (ptable_find s.ptable c)) [
  | inl e ↦ inl (rw e refl)
  | inr (q, e) ↦ rw e (by_state (s.procs q).state (s.procs q).exit_code)
]
  where
    by_state :
        (st : ProcessState) (code : ℤ)
        → (dead_code c code st ≡ none) ⊎ ((code' : ℤ) × (dead_code c code st ≡ some (c, code')))
    by_state running code = inl refl
    by_state zombie code = inr (code, refl)

-- The scan answers a zombie that is waited for, if there is one.
pub data Scans (s : System) (pid : ℤ) (cs : List ℕ) : Option (ℕ × ℤ) → Type 0 where
  finds :
      (c : ℕ) (code : ℤ)
      → IsWaited pid cs c
      → zombie_at s c ≡ some (c, code)
      → Scans s pid cs (some (c, code))
  misses : ((c : ℕ) → IsWaited pid cs c → zombie_at s c ≡ none) → Scans s pid cs none

IsWaited-split :
    (pid : ℤ) (x : ℕ) (cs : List ℕ) (c : ℕ) → IsWaited pid (x ∷ cs) c → (x ≡ c) ⊎ IsWaited pid cs c
IsWaited-split pid x cs c w = at_slot w.slot w.listed
  where
    at_slot : (i : ℕ) → get_elem? (x ∷ cs) i ≡ some c → (x ≡ c) ⊎ IsWaited pid cs c
    at_slot zero e = inl cc
    at_slot (suc i) e =
        inr (record { slot = i; listed = e; child = w.child; selected = w.selected })

-- A child that the scan passes over leaves its answer.
passes :
    (s : System) (pid : ℤ) (x : ℕ) (cs : List ℕ) (o : Option (ℕ × ℤ))
    → (IsWaited pid (x ∷ cs) x → zombie_at s x ≡ none)
    → Scans s pid cs o
    → Scans s pid (x ∷ cs) o
passes s pid x cs (some z) skip (finds c code w e) = finds c code (IsWaited-cons pid x cs c w) e
passes s pid x cs none skip (misses f) = misses (λ c w. elim (IsWaited-split pid x cs c w) [
  | inl e ↦
      subst (λ (j : ℕ). zombie_at s j ≡ none) e
        (skip (subst (λ (j : ℕ). IsWaited pid (x ∷ cs) j) (sym e) w))
  | inr w' ↦ f c w'
])

pub scan-Scans : (s : System) (pid : ℤ) (cs : List ℕ) → Scans s pid cs (scan s pid cs)
unfolding scan first_of
scan-Scans s pid [] = misses (λ c w. absurd (nothing w.listed))
  where
    nothing : {c : ℕ} → none ≢ some c
    nothing e = cc
scan-Scans s pid (x ∷ cs) =
    let rest = scan-Scans s pid cs in
    elim (Bool-cases (x == 0)) [
      | inl free ↦
          rw free (passes s pid x cs (scan s pid cs) (λ w. absurd (w.child (ground arith))) rest)
      | inr child ↦ elim (Bool-cases (selects pid x)) [
        | inr other ↦
            rw (child, other)
              (passes s pid x cs (scan s pid cs) (λ w. absurd (ground (arith, w.selected))) rest)
        | inl selected ↦ elim (zombie_at_lem s x) [
          | inl alive ↦
              rw (child, selected, alive) (passes s pid x cs (scan s pid cs) (λ w. alive) rest)
          | inr (code, dead) ↦
              rw (child, selected, dead)
                (finds x code
                  (record {
                    slot = 0;
                    listed = refl;
                    child = λ z. ground arith;
                    selected = selected;
                  })
                  dead)
        ]
      ]
    ]

-- How a round of wait4 ends.
pub data Waits (s : System) (parent : ℕ) (pid : ℤ) (status_ptr options : ℕ)
    : System × Round → Type 0 where
  refuses :
      ((group pid ≡ true) ⊎ ((s.procs parent).child_count ≡ 0))
      → Waits s parent pid status_ptr options (s, returns echild none)
  reaps :
      group pid ≡ false
      → (s.procs parent).child_count ≢ 0
      → (s' : System) (c : ℕ) (code : ℤ) → IsWaited pid (s.procs parent).children c
      → zombie_at s c ≡ some (c, code)
      → (s'.procs parent ≡ remove_child (s.procs parent) c)
      → ptable_find s'.ptable c ≡ none
      → ((g : ℕ) → c ≢ g → ptable_find s'.ptable g ≡ ptable_find s.ptable g)
      → Waits s parent pid status_ptr options (
        s',
        returns (pos c) (
            if not (status_ptr == 0) && is_user_ptr status_ptr 4
            then some (encode_exit_status code)
            else none),
      )
  polls :
      group pid ≡ false
      → (s.procs parent).child_count ≢ 0
      → bit_and options wnohang ≢ 0
      → ((c : ℕ) → IsWaited pid (s.procs parent).children c → zombie_at s c ≡ none)
      → Waits s parent pid status_ptr options (s, returns (pos 0) none)
  sleeps :
      group pid ≡ false
      → (s.procs parent).child_count ≢ 0
      → bit_and options wnohang ≡ 0
      → ((c : ℕ) → IsWaited pid (s.procs parent).children c → zombie_at s c ≡ none)
      → Waits s parent pid status_ptr options (s, blocks (s.procs parent).child_exit_seq)

zombie_at_named :
    (s : System) (c : ℕ) (z : ℕ × ℤ)
    → zombie_at s c ≡ some z
    → (q : ℕ) × (ptable_find s.ptable c ≡ some q)
unfolding zombie_at code_at
zombie_at_named s c z e = elim (Option-cases (ptable_find s.ptable c)) [
  | inl nobody ↦ absurd (found (rw nobody at e))
  | inr (q, h) ↦ (q, h)
]
  where
    found : none ≢ some z
    found h = cc

waited-Waits :
    (s : System) (parent : ℕ) (pid : ℤ) (status_ptr options : ℕ) (o : Option (ℕ × ℤ))
    → group pid ≡ false
    → (s.procs parent).child_count ≢ 0
    → Scans s pid (s.procs parent).children o
    → Waits s parent pid status_ptr options (waited s parent status_ptr options o)
unfolding waited reap_zombie reaped
waited-Waits s parent pid status_ptr options none one some_left (misses f) =
    elim (Bool-cases (bit_and options wnohang == 0)) [
      | inl w ↦ rw w (sleeps one some_left (ground arith) f)
      | inr w ↦ rw w (polls one some_left (λ z. ground arith) f)
    ]
waited-Waits s parent pid status_ptr options (some z) one some_left (finds c code w e) =
    let (q, named) = zombie_at_named s c (c, code) e in
    let (gone, others) = ptable_remove_lem s.ptable c in
    rw named (
      reaps one some_left
        (record {
          ptable = ptable_remove s.ptable c;
          procs = update s.procs parent (remove_child (s.procs parent) c);
        })
        c code w e (rw (==-refl parent) refl) gone others)

-- A round of wait4 answers ECHILD exactly for a process group or a parent whose count of children
-- is 0; else it reaps a zombie that it waits for, if there is one, and returns its pid, with the
-- status word for a user pointer, and the pid names nobody afterwards; without such a zombie it
-- returns 0 under WNOHANG and sleeps otherwise.
pub sys_wait4-Waits :
    (s : System) (parent : ℕ) (pid : ℤ) (status_ptr options : ℕ)
    → Waits s parent pid status_ptr options (sys_wait4 s parent pid status_ptr options)
unfolding sys_wait4 find_zombie
sys_wait4-Waits s parent pid status_ptr options = elim (Bool-cases (group pid)) [
  | inl g ↦ rw g (refuses (inl g))
  | inr g ↦ elim (Bool-cases ((s.procs parent).child_count == 0)) [
    | inl z ↦ rw (g, z) (refuses (inr (ground arith)))
    | inr z ↦
        rw (g, z)
          (waited-Waits s parent pid status_ptr options (scan s pid (s.procs parent).children) g
            (λ e. ground arith) (scan-Scans s pid (s.procs parent).children))
  ]
]
