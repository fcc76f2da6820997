-- ===== src/Fd/Balance.antt =====
-- The reference count of a pipe end is the number of descriptors that hold it, whatever is
-- duplicated, replaced, closed or inherited.
use rumicos.Base.{
  ℕ, ◌+◌, ◌*◌, ◌^◌, ◌<◌, ◌≤◌, ◌≡◌, inl, inr, List, [], ◌∷◌, Option, none, some, arith, Option-cases,
  length, get_or, set, if◌then◌else◌, ◌==◌, Bool-cases, ==_iff, Bool, true, false, not, length-set,
  leb,
}
use rumicos.Base.Int.{ℤ, pos, negsuc, ◌==ℤ◌}
use rumicos.Fd.{
  FdEntry, FdTable, Slots, Counts, max_fds, inc_ref, clone_for_fork, release_occupant, release,
  sys_close, close_slot, get, get_vnode_ptr, dup, dup_entry, dup_into, dup2, dup2_entry, inc_all,
}
use rumicos.Fd.Slots.{Scans, full, found, install-Scans}
use rumicos.Fd.Refs.{
  held, holders, holders-le-length, holders-set, held-le-holders, inc_ref_lem, dec_ref_lem,
  inc_all_lem,
}

-- `others p` counts the holders of `p` outside this table.
abbrev pub IsBalanced : (ℕ → Bool) → (ℕ → ℕ) → FdTable → Counts → Type 0
IsBalanced is_pipe others t refs =
    (length t.fds ≡ max_fds) × ((p : ℕ) → is_pipe p ≡ true → refs p ≡ holders p t.fds + others p)

-- No counter comes near its 32 bits.
abbrev pub HasRoom : (ℕ → ℕ) → Type 0
HasRoom others = (p : ℕ) → others p + 3 * max_fds < 2 ^ 32

module _ (is_pipe : ℕ → Bool) (others : ℕ → ℕ) (room : HasRoom others) where
  dup_into-IsBalanced :
      (t : FdTable) (refs : Counts) (e : FdEntry) (r : Option (ℕ × Slots))
      → Scans t.fds e 0 r
      → IsBalanced is_pipe others t refs
      → IsBalanced is_pipe others (dup_into t refs e r).0 (dup_into t refs e r).1
  unfolding dup_into
  dup_into-IsBalanced t refs e r (full no_room taken) b = rw no_room b
  dup_into-IsBalanced t refs e r (found j hit within free below) b = rw hit (
    omega (arith, length-set t.fds j (some e), b.0),
    λ p is. ground (
      arith,
      b.1 p is,
      room p,
      holders-set p t.fds j (some e) within,
      free,
      inc_ref_lem refs e p,
      holders-le-length p t.fds,
      b.0,
    ),
  )

  dup-IsBalanced :
      (t : FdTable) (refs : Counts) (fd : ℤ)
      → IsBalanced is_pipe others t refs
      → IsBalanced is_pipe others (dup t refs fd).0 (dup t refs fd).1
  unfolding dup
  dup-IsBalanced t refs fd b = elim (Option-cases (get t fd)) [
    | inl e ↦ rw (e, dup_entry) b
    | inr (x, e) ↦ rw (e, dup_entry) (dup_into-IsBalanced t refs x _ (install-Scans t.fds 0 x) b)
  ]

  -- Taking an occupant out gives back exactly what it held.
  release_occupant_lem :
      (refs : Counts) (x : Option FdEntry) (p : ℕ)
      → held p x ≤ refs p
      → refs p < 2 ^ 32
      → release_occupant refs x p + held p x ≡ refs p
  unfolding release_occupant
  release_occupant_lem refs none p h lt = omega arith
  release_occupant_lem refs (some e) p h lt = dec_ref_lem refs e p h lt

  replace-IsBalanced :
      (t : FdTable) (refs : Counts) (n : ℕ) (e : FdEntry)
      → n < max_fds
      → IsBalanced is_pipe others t refs
      → IsBalanced is_pipe others
          (record { fds = set t.fds n (some e) })
          (inc_ref (release_occupant refs (get_or t.fds n none)) e.vnode_ptr)
  replace-IsBalanced t refs n e within b = (
    omega (arith, length-set t.fds n (some e), b.0),
    λ p is.
        let x = get_or t.fds n none in
        let trade = holders-set p t.fds n (some e) (omega (arith, b.0)) in
        let bound = holders-le-length p t.fds in
        let freed =
          release_occupant_lem refs x p (omega (arith, b.1 p is, held-le-holders p t.fds n))
            (omega (arith, b.1 p is, bound, b.0, room p)) in
        omega (
          arith,
          b.0,
          b.1 p is,
          room p,
          bound,
          trade,
          freed,
          inc_ref_lem (release_occupant refs x) e p
              (omega (arith, freed, b.1 p is, bound, b.0, room p)),
        ),
  )

  dup2_entry-IsBalanced :
      (t : FdTable) (refs : Counts) (fd : ℤ) (x : Option FdEntry)
      → IsBalanced is_pipe others t refs
      → IsBalanced is_pipe others (dup2_entry t refs fd x).0 (dup2_entry t refs fd x).1
  unfolding dup2_entry
  dup2_entry-IsBalanced t refs fd none b = b
  dup2_entry-IsBalanced t refs (negsuc n) (some e) b = b
  dup2_entry-IsBalanced t refs (pos n) (some e) b = elim (Bool-cases (leb max_fds n)) [
    | inl out ↦ rw out b
    | inr within ↦ rw within (replace-IsBalanced t refs n e (ground arith) b)
  ]

  dup2-IsBalanced :
      (t : FdTable) (refs : Counts) (old_fd new_fd : ℤ)
      → IsBalanced is_pipe others t refs
      → IsBalanced is_pipe others (dup2 t refs old_fd new_fd).0 (dup2 t refs old_fd new_fd).1
  unfolding dup2
  dup2-IsBalanced t refs old_fd new_fd b = elim (Bool-cases (old_fd ==ℤ new_fd)) [
    | inl same ↦ rw same b
    | inr differs ↦ rw differs (dup2_entry-IsBalanced t refs new_fd (get t old_fd) b)
  ]

  -- The slot of an open descriptor is emptied, and a pipe end gives one reference back.
  closed-IsBalanced :
      (t : FdTable) (refs : Counts) (n : ℕ) (e : FdEntry)
      → is_pipe 0 ≡ false
      → get_or t.fds n none ≡ some e
      → n < max_fds
      → IsBalanced is_pipe others t refs
      → IsBalanced is_pipe others
          (record { fds = set t.fds n none })
          (if not (e.vnode_ptr == 0) then release is_pipe refs e.vnode_ptr else refs)
  unfolding release
  closed-IsBalanced t refs n e z at within b = (
    omega (arith, length-set t.fds n none, b.0),
    λ p is.
        let trade = holders-set p t.fds n none (omega (arith, b.0)) in
        let mine : held p (some e) ≤ holders p t.fds = rw at at (held-le-holders p t.fds n) in
        let bound = holders-le-length p t.fds in
        let freed =
          dec_ref_lem refs e p (omega (arith, b.1 p is, mine))
            (omega (arith, b.1 p is, bound, b.0, room p)) in
        ground
          (arith, trade, freed, at, b.1 p is, ==_iff e.vnode_ptr p, ==_iff e.vnode_ptr 0, is, z),
  )

  sys_close-IsBalanced :
      (t : FdTable) (refs : Counts) (fd : ℤ)
      → is_pipe 0 ≡ false
      → IsBalanced is_pipe others t refs
      → IsBalanced is_pipe others (sys_close is_pipe t refs fd).0 (sys_close is_pipe t refs fd).1
  unfolding sys_close
  sys_close-IsBalanced t refs (negsuc n) z b = b
  sys_close-IsBalanced t refs (pos n) z b = elim (Bool-cases (leb max_fds n)) [
    | inl out ↦ rw (out, get_vnode_ptr, get) b
    | inr within ↦ elim (Option-cases (get_or t.fds n none)) [
      | inl e ↦ rw (within, e, close_slot) b
      | inr (x, e) ↦
          rw (within, e, close_slot, get_vnode_ptr, get)
            (closed-IsBalanced t refs n x z e (ground arith) b)
    ]
  ]

  -- A child inherits the table, and the reference count of a pipe end stays the number of
  -- descriptors that hold it, seen from the parent and from the child.
  pub clone_for_fork-IsBalanced :
      (t : FdTable) (refs : Counts)
      → is_pipe 0 ≡ false
      → IsBalanced is_pipe others t refs
      → let (child, refs') = clone_for_fork t refs in
        IsBalanced is_pipe (λ p. others p + holders p child.fds) t refs'
        × IsBalanced is_pipe (λ p. others p + holders p t.fds) child refs'
  unfolding clone_for_fork
  clone_for_fork-IsBalanced t refs z b = ((b.0, counts), (b.0, counts))
    where
      counts :
          (p : ℕ)
          → is_pipe p ≡ true
          → inc_all t.fds refs p ≡ holders p t.fds + (others p + holders p t.fds)
      counts p is = omega (
        arith,
        b.1 p is,
        inc_all_lem t.fds refs p (λ e. ground (arith, is, z, e))
            (omega (arith, b.1 p is, b.0, room p, holders-le-length p t.fds)),
      )

-- What a process does to its descriptors between two forks.
pub data Call : Type 0 where
  dups closes : ℤ → Call
  dup2s : ℤ → ℤ → Call

pub step : (ℕ → Bool) → FdTable × Counts → Call → FdTable × Counts
step is_pipe (t, refs) (dups fd) = ((dup t refs fd).0, (dup t refs fd).1)
step is_pipe (t, refs) (closes fd) =
    ((sys_close is_pipe t refs fd).0, (sys_close is_pipe t refs fd).1)
step is_pipe (t, refs) (dup2s a b) = ((dup2 t refs a b).0, (dup2 t refs a b).1)

pub run : (ℕ → Bool) → FdTable × Counts → List Call → FdTable × Counts
run is_pipe s [] = s
run is_pipe s (c ∷ cs) = run is_pipe (step is_pipe s c) cs

module _ (is_pipe : ℕ → Bool) (others : ℕ → ℕ) (room : HasRoom others) (z : is_pipe 0 ≡ false) where
  step-IsBalanced :
      (s : FdTable × Counts) (c : Call)
      → IsBalanced is_pipe others s.0 s.1
      → IsBalanced is_pipe others (step is_pipe s c).0 (step is_pipe s c).1
  unfolding step
  step-IsBalanced (t, refs) (dups fd) b = dup-IsBalanced is_pipe others room t refs fd b
  step-IsBalanced (t, refs) (closes fd) b = sys_close-IsBalanced is_pipe others room t refs fd z b
  step-IsBalanced (t, refs) (dup2s x y) b = dup2-IsBalanced is_pipe others room t refs x y b

  -- Whatever a process duplicates, replaces and closes, the reference count of a pipe end stays
  -- the number of descriptors that hold it, here and elsewhere.
  pub run-IsBalanced :
      (cs : List Call) (s : FdTable × Counts)
      → IsBalanced is_pipe others s.0 s.1
      → IsBalanced is_pipe others (run is_pipe s cs).0 (run is_pipe s cs).1
  unfolding run
  run-IsBalanced [] s b = b
  run-IsBalanced (c ∷ cs) s b = run-IsBalanced cs (step is_pipe s c) (step-IsBalanced s c b)
