-- ===== src/Process/Kill.antt =====
-- `sys_kill`: a signal for the process that a pid names.
use rumicos.Base.{
  ℕ, ◌<◌, ◌≡◌, ◌≢◌, refl, false, ◌||◌, some, arith, if◌then◌else◌, ◌==◌, leb, ==-refl,
}
use rumicos.Base.Bits.{bit}
use rumicos.Base.Int.{pos}
use rumicos.Signal.{nsig}
use rumicos.Signal.Pending.{bit-raise}
use rumicos.Process.{System, sys_kill, raised, ptable_find}

-- A signal number that is in range reaches the process that the pid names, and no other: its bit
-- is pending there from then on, and every other bit as it was.
pub sys_kill_lem :
    (s : System) (pid signum target : ℕ)
    → 0 < signum
    → signum < nsig
    → ptable_find s.ptable pid ≡ some target
    → ((sys_kill s pid signum).1 ≡ pos 0)
      × ((i : ℕ)
          → bit ((sys_kill s pid signum).0.procs target).pending i
            ≡ (if signum == i then 1 else bit (s.procs target).pending i))
      × ((q : ℕ) → target ≢ q → (sys_kill s pid signum).0.procs q ≡ s.procs q)
unfolding sys_kill raised
sys_kill_lem s pid signum target pos_ lt named =
    let in_range : (signum == 0 || leb nsig signum) ≡ false = ground arith in
    rw (in_range, named)
      (
        refl,
        λ i. rw (==-refl target) (bit-raise (s.procs target).pending signum i (omega arith)),
        λ q ne. (let away : (target == q) ≡ false = ground arith in rw away refl),
      )
