-- ===== src/Process/Sleep.antt =====
-- `Process::exit` of crates/proc/src/process.rs, from the change of state on, and the loop of
-- `sys_wait4` of crates/proc/src/wait.rs as processes run them beside one another: the stores and
-- the bump of an exit, the sample, the look at each child and the decision of wait4 are steps of
-- their own, and those of different processes interleave. The wait queues are not modelled: a
-- sleeper may go on at any step. A round that finds a zombie is followed up to its reap.
pub mod Kept
mod Effects
mod Looks
pub mod Justified
use rumicos.Base.{
  ℕ, zero, suc, ◌+◌, ◌%◌, ◌^◌, Bool, true, false, not, List, [], ◌∷◌, Option, none, some,
  if◌then◌else◌, ◌==◌, update, get_elem?, bit_and,
}
use rumicos.Base.Int.{ℤ}
use rumicos.Signal.{raise}
use rumicos.Process.{
  Process, System, zombie, ptable_find, zombie_at, selects, group, wnohang, sigchld, still_waits,
}

-- Where a process stands.
pub data Op : Type 0 where
  idle : Op
  exit_marks : ℤ → Op
  exit_codes : ℤ → Op
  exit_finds : Op
  exit_raises : ℕ → Op
  exit_bumps : ℕ → Op
  exit_wakes : ℕ → Op
  exited : Op
  wait_enters : ℤ → ℕ → Op
  wait_counts : ℤ → ℕ → Op
  wait_samples : ℤ → ℕ → Op
  wait_looks : ℤ → ℕ → ℕ → ℕ → Op
  wait_decides : ℤ → ℕ → ℕ → Op
  wait_sleeps : ℤ → ℕ → Op
  wait_reaps : ℕ → ℤ → Op

pub record Scene : Type 0 where
  pub system : System
  pub op : ℕ → Op

-- Process `i` writes the process at `q` and goes on at `o`.
abbrev pub writes : Scene → ℕ → ℕ → Process → Op → Scene
writes s i q p o = record {
  system = record s.system { procs = update s.system.procs q p };
  op = update s.op i o;
}

abbrev pub moves : Scene → ℕ → Op → Scene
moves s i o = record { system = s.system; op = update s.op i o }

-- Whom an exit tells.
pub tells : Option ℕ → Op
tells none = exited
tells (some parent) = exit_raises parent

pub seen_dead : ℤ → ℕ → ℕ → ℕ → Option (ℕ × ℤ) → Op
seen_dead pid options seen slot none = wait_looks pid options seen (suc slot)
seen_dead pid options seen slot (some (child, code)) = wait_reaps child code

-- The look of `find_zombie` at one slot; behind the last one the options decide.
unfoldable pub looks : System → ℤ → ℕ → ℕ → ℕ → Option ℕ → Op
unfolding seen_dead
looks s pid options seen slot none =
    if not (bit_and options wnohang == 0) then idle else wait_decides pid options seen
looks s pid options seen slot (some child) =
    if child == 0
    then wait_looks pid options seen (suc slot)
    else if not (selects pid child)
    then wait_looks pid options seen (suc slot)
    else seen_dead pid options seen slot (zombie_at s child)

-- The next step of process `i`, which stands at the last argument.
unfoldable pub step_of : Scene → ℕ → Op → Scene
unfolding tells looks still_waits
step_of s i idle = s
step_of s i (exit_marks code) =
    writes s i i (record (s.system.procs i) { state = zombie }) (exit_codes code)
step_of s i (exit_codes code) =
    writes s i i (record (s.system.procs i) { exit_code = code }) exit_finds
step_of s i exit_finds =
    let p = s.system.procs i in
    moves s i (tells (if p.parent_pid == 0 then none else ptable_find s.system.ptable p.parent_pid))
step_of s i (exit_raises parent) =
    let p = s.system.procs parent in
    writes s i parent (record p { pending = raise p.pending sigchld }) (exit_bumps parent)
step_of s i (exit_bumps parent) =
    let p = s.system.procs parent in
    writes s i parent (record p { child_exit_seq = (p.child_exit_seq + 1) % 2 ^ 32 })
      (exit_wakes parent)
step_of s i (exit_wakes parent) = moves s i exited
step_of s i exited = s
step_of s i (wait_enters pid options) =
    moves s i (if group pid then idle else wait_counts pid options)
step_of s i (wait_counts pid options) =
    moves s i (if (s.system.procs i).child_count == 0 then idle else wait_samples pid options)
step_of s i (wait_samples pid options) =
    moves s i (wait_looks pid options (s.system.procs i).child_exit_seq 0)
step_of s i (wait_looks pid options seen slot) =
    moves s i (looks s.system pid options seen slot (get_elem? (s.system.procs i).children slot))
step_of s i (wait_decides pid options seen) =
    moves s i
      (if still_waits s.system i seen then wait_sleeps pid options else wait_counts pid options)
step_of s i (wait_sleeps pid options) = moves s i (wait_counts pid options)
step_of s i (wait_reaps child code) = s

pub data Call : Type 0 where
  exit : ℤ → Call
  wait4 : ℤ → ℕ → Call

unfoldable pub starts : Call → Op
starts (exit code) = exit_marks code
starts (wait4 pid options) = wait_enters pid options

unfoldable pub called : Call → Op → Op
unfolding starts
called c idle = starts c
called c o = o

-- An idle process makes a call, or a process takes its next step.
pub data Event : Type 0 where
  calls : ℕ → Call → Event
  steps : ℕ → Event

unfoldable pub event : Scene → Event → Scene
unfolding called step_of
event s (calls i c) = moves s i (called c (s.op i))
event s (steps i) = step_of s i (s.op i)

unfoldable pub run : Scene → List Event → Scene
run s [] = s
run s (e ∷ es) = run (event s e) es
