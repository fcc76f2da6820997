-- ===== src/Process/Reports.antt =====
-- An exit that a round of wait4 reports, and a process that it never can.
use rumicos.Base.{
  ℕ, ◌≡◌, ◌≢◌, refl, sym, ◌∙◌, inl, inr, true, false, not, ◌&&◌, List, [], ◌∷◌, Option, none, some,
  arith, if◌then◌else◌, ◌==◌, Bool-cases, bit_and,
}
use rumicos.Base.Int.{ℤ, pos}
use rumicos.Process.{
  System, dead_code, ptable_find, code_at, zombie_at, scan, find_zombie, selects, group, waited,
  returns, blocks, sys_wait4, wnohang, is_user_ptr, encode_exit_status, exit,
}
use rumicos.Process.Exits.{exit-Keeps, exit-ptable, exit_self}
use rumicos.Process.Reap.{IsWaited, Scans, finds, misses, scan-Scans}

found_if :
    (s : System) (pid : ℤ) (cs : List ℕ) (o z : Option (ℕ × ℤ)) (c : ℕ)
    → Scans s pid cs o
    → IsWaited pid cs c
    → zombie_at s c ≡ z
    → z ≢ none
    → (c' : ℕ) × (code' : ℤ) × (o ≡ some (c', code')) × IsWaited pid cs c'
found_if s pid cs (some _) z c (finds c' code' w' e') w e dead = (c', code', refl, w')
found_if s pid cs none z c (misses f) w e dead = absurd (dead (sym e ∙ f c w))

-- The exit of a child that is waited for makes it a zombie with its code.
exit-zombie_at :
    (s : System) (q : ℕ) (code : ℤ) (c : ℕ)
    → ptable_find s.ptable c ≡ some q
    → zombie_at (exit s q code).0 c ≡ some (c, code)
unfolding zombie_at code_at dead_code
exit-zombie_at s q code c named =
    let (state, exit_code) = exit_self s q code in
    rw (exit-ptable s q code, named, state, exit_code) refl

-- After the exit of a child that the table names and wait4 looks for, a round of wait4 that is not
-- for a process group does not sleep, while the count of the children is not 0: it returns a child
-- that is waited for.
pub exit-sys_wait4 :
    (s : System) (parent q : ℕ) (code : ℤ) (pid : ℤ) (status_ptr options c : ℕ)
    → ptable_find s.ptable c ≡ some q
    → IsWaited pid (s.procs parent).children c
    → (s.procs parent).child_count ≢ 0
    → group pid ≡ false
    → (c' : ℕ) × (status : Option ℕ) × ((sys_wait4
          (exit s q code).0
          parent
          pid
          status_ptr
          options).1
        ≡ returns (pos c') status)
      × IsWaited pid (s.procs parent).children c'
unfolding sys_wait4 find_zombie waited
exit-sys_wait4 s parent q code pid status_ptr options c named w counted one =
    let s' = (exit s q code).0 in
    let same = (exit-Keeps s q code parent).children in
    let cs = (s.procs parent).children in
    let (c', code', e, w') =
      found_if s' pid cs (scan s' pid cs) (some (c, code)) c (scan-Scans s' pid cs) w
        (exit-zombie_at s q code c named) (λ h. cc) in
    let kept = (exit-Keeps s q code parent).child_count in
    let some_left : ((s'.procs parent).child_count == 0) ≡ false = ground (arith, kept) in
    (
      c',
      if not (status_ptr == 0) && is_user_ptr status_ptr 4
          then some (encode_exit_status code')
          else none,
      rw (one, some_left, same, e) refl,
      w',
    )

abbrev pub AreStrangers : ℤ → List ℕ → Type 0
AreStrangers pid [] = Unit {0}
AreStrangers pid (c ∷ cs) = (c ≢ 0 → selects pid c ≡ false) × AreStrangers pid cs

scan-strangers : (s : System) (pid : ℤ) (cs : List ℕ) → AreStrangers pid cs → scan s pid cs ≡ none
unfolding scan
scan-strangers s pid [] v = refl
scan-strangers s pid (c ∷ cs) v = elim (Bool-cases (c == 0)) [
  | inl free ↦ rw (free, scan-strangers s pid cs v.1) refl
  | inr child ↦ rw (child, v.0 (λ z. ground arith), scan-strangers s pid cs v.1) refl
]

-- wait4 for a pid that names no child of the caller does not fail: while the count of the children
-- is not 0, and without WNOHANG, it sleeps.
pub stranger_lem :
    (s : System) (parent : ℕ) (pid : ℤ) (status_ptr options : ℕ)
    → AreStrangers pid (s.procs parent).children
    → (s.procs parent).child_count ≢ 0
    → group pid ≡ false
    → bit_and options wnohang ≡ 0
    → sys_wait4 s parent pid status_ptr options ≡ (s, blocks (s.procs parent).child_exit_seq)
unfolding sys_wait4 find_zombie waited
stranger_lem s parent pid status_ptr options strangers counted one hangs =
    let some_left : ((s.procs parent).child_count == 0) ≡ false = ground arith in
    let none_dead = scan-strangers s pid (s.procs parent).children strangers in
    let sleeps_on : (bit_and options wnohang == 0) ≡ true = ground arith in
    rw (one, some_left, none_dead, sleeps_on) refl
