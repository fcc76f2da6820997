-- ===== src/Process.antt =====
-- The life of a child: crates/proc/src/ptable.rs, the children of crates/proc/src/process.rs and
-- crates/proc/src/wait.rs. A `*mut Process` is an address in `procs`; a process holds here the
-- fields that exit and wait4 use.
pub mod Table
pub mod Family
pub mod Exits
pub mod Sleep
pub mod Reap
pub mod Reports
pub mod Kill
mod Examples
use rumicos.Base.{
  ℕ, zero, suc, ◌+◌, ◌-◌, ◌*◌, ◌/◌, ◌%◌, ◌^◌, Bool, true, false, not, ◌&&◌, ◌||◌, List, [], ◌∷◌,
  Option, none, some, if◌then◌else◌, ltb, leb, ◌==◌, replicate, update, bit_and,
}
use rumicos.Base.Int.{ℤ, pos, negsuc}
use rumicos.Signal.{raise, nsig}

abbrev pub ptable_buckets : ℕ
ptable_buckets = 64

abbrev pub ptable_bucket_cap : ℕ
ptable_bucket_cap = 16

abbrev pub max_children : ℕ
max_children = 32

abbrev pub wnohang : ℕ
wnohang = 1

abbrev pub sigchld : ℕ
sigchld = 17

-- -10.
abbrev pub echild : ℤ
echild = negsuc 9

abbrev pub user_min : ℕ
user_min = 4096

abbrev pub user_top : ℕ
user_top = 0x0000_8000_0000_0000

pub record PTableEntry : Type 0 where
  pub pid : ℕ
  pub proc_ptr : ℕ

abbrev pub Bucket : Type 0
Bucket = List (Option PTableEntry)

abbrev pub PTable : Type 0
PTable = ℕ → Bucket

pub ptable_bucket : ℕ → ℕ
ptable_bucket pid = pid * 0x9e37_79b9 % 2 ^ 32 / 2 ^ (32 - 6)

after : Option PTableEntry → Option Bucket → Option Bucket
after slot none = none
after slot (some slots) = some (slot ∷ slots)

-- The first entry of the pid overwritten, if there is one.
pub overwrite : PTableEntry → Bucket → Option Bucket
unfolding after
overwrite new [] = none
overwrite new (none ∷ slots) = after none (overwrite new slots)
overwrite new (some e ∷ slots) =
    let rest = after (some e) (overwrite new slots) in
    if e.pid == new.pid then some (some new ∷ slots) else rest

pub take_free : PTableEntry → Bucket → Bucket
take_free new [] = []
take_free new (none ∷ slots) = some new ∷ slots
take_free new (some e ∷ slots) = some e ∷ take_free new slots

pub written_or_free : PTableEntry → Bucket → Option Bucket → Bucket
written_or_free new slots (some written) = written
written_or_free new slots none = take_free new slots

pub ptable_insert : PTable → ℕ → ℕ → PTable
ptable_insert t pid proc =
    let new : PTableEntry = record { pid = pid; proc_ptr = proc } in
    let slots = t (ptable_bucket pid) in
    update t (ptable_bucket pid) (written_or_free new slots (overwrite new slots))

pub remove_in : ℕ → Bucket → Bucket
remove_in pid [] = []
remove_in pid (none ∷ slots) = none ∷ remove_in pid slots
remove_in pid (some e ∷ slots) =
    let rest = remove_in pid slots in if e.pid == pid then none ∷ rest else some e ∷ rest

pub ptable_remove : PTable → ℕ → PTable
ptable_remove t pid = update t (ptable_bucket pid) (remove_in pid (t (ptable_bucket pid)))

pub find_in : ℕ → Bucket → Option ℕ
find_in pid [] = none
find_in pid (none ∷ slots) = find_in pid slots
find_in pid (some e ∷ slots) =
    let rest = find_in pid slots in if e.pid == pid then some e.proc_ptr else rest

pub ptable_find : PTable → ℕ → Option ℕ
ptable_find t pid = find_in pid (t (ptable_bucket pid))

pub data ProcessState : Type 0 where
  running zombie : ProcessState

pub record Process : Type 0 where
  pub pid : ℕ
  pub state : ProcessState
  pub exit_code : ℤ
  pub parent_pid : ℕ
  pub pending : ℕ
  pub children : List ℕ
  pub child_count : ℕ
  pub child_exit_seq : ℕ

pub record System : Type 0 where
  pub ptable : PTable
  pub procs : ℕ → Process

keep : ℕ → Option (List ℕ) → Option (List ℕ)
keep c none = none
keep c (some cs) = some (c ∷ cs)

-- The first slot that holds `old` written, if there is one.
pub put_for : ℕ → ℕ → List ℕ → Option (List ℕ)
unfolding keep
put_for old new [] = none
put_for old new (c ∷ cs) =
    let rest = keep c (put_for old new cs) in if c == old then some (new ∷ cs) else rest

added : Process → Option (List ℕ) → Process × Bool
added p none = (p, false)
added p (some cs) = (record p { children = cs; child_count = (p.child_count + 1) % 2 ^ 32 }, true)

pub add_child : Process → ℕ → Process × Bool
unfolding added
add_child p child = added p (put_for 0 child p.children)

removed : Process → Option (List ℕ) → Process
removed p none = p
removed p (some cs) = record p {
  children = cs;
  child_count = (p.child_count + 2 ^ 32 - 1) % 2 ^ 32;
}

pub remove_child : Process → ℕ → Process
unfolding removed
remove_child p child = removed p (put_for child 0 p.children)

pub all_taken : List ℕ → Bool
all_taken [] = true
all_taken (c ∷ cs) = not (c == 0) && all_taken cs

pub children_full : Process → Bool
children_full p = all_taken p.children

-- What `exit` tells the parent; the wakeup that follows names it.
notify : System → Option ℕ → System × Option ℕ
notify s none = (s, none)
notify s (some parent) =
    let p = s.procs parent in
    let p' : Process = record p {
      pending = raise p.pending sigchld;
      child_exit_seq = (p.child_exit_seq + 1) % 2 ^ 32;
    } in
    (record s { procs = update s.procs parent p' }, some parent)

-- `Process::exit` from the change of state on, run alone, with the process whose wait queue is woken.
pub exit : System → ℕ → ℤ → System × Option ℕ
unfolding notify
exit s self code =
    let p : Process = record (s.procs self) { state = zombie; exit_code = code } in
    let s' : System = record s { procs = update s.procs self p } in
    notify s' (if p.parent_pid == 0 then none else ptable_find s'.ptable p.parent_pid)

pub is_user_ptr : ℕ → ℕ → Bool
is_user_ptr addr len = ltb (addr + len) (2 ^ 64) && (leb user_min addr && leb (addr + len) user_top)

-- `exit_code as u32`, its low byte moved to bits 15 to 8.
as_u32 : ℤ → ℕ
as_u32 (pos n) = n % 2 ^ 32
as_u32 (negsuc n) = (2 ^ 32 - 1) - n % 2 ^ 32

pub encode_exit_status : ℤ → ℕ
unfolding as_u32
encode_exit_status code = bit_and (as_u32 code) 0xFF * 2 ^ 8 % 2 ^ 32

-- The test on the pid of a child, 0 and -1 for any.
pub selects : ℤ → ℕ → Bool
selects (pos zero) child = true
selects (pos (suc n)) child = child == suc n % 2 ^ 32
selects (negsuc zero) child = true
selects (negsuc (suc n)) child = false

dead_code : ℕ → ℤ → ProcessState → Option (ℕ × ℤ)
dead_code child code running = none
dead_code child code zombie = some (child, code)

code_at : System → ℕ → Option ℕ → Option (ℕ × ℤ)
unfolding dead_code
code_at s child none = none
code_at s child (some ptr) = let p = s.procs ptr in dead_code child p.exit_code p.state

-- The child with its code, if it is a zombie.
pub zombie_at : System → ℕ → Option (ℕ × ℤ)
unfolding code_at
zombie_at s child = code_at s child (ptable_find s.ptable child)

first_of : Option (ℕ × ℤ) → Option (ℕ × ℤ) → Option (ℕ × ℤ)
first_of none rest = rest
first_of (some z) rest = some z

pub scan : System → ℤ → List ℕ → Option (ℕ × ℤ)
unfolding first_of
scan s pid [] = none
scan s pid (c ∷ cs) =
    let rest = scan s pid cs in
    if c == 0 then rest else if not (selects pid c) then rest else first_of (zombie_at s c) rest

pub find_zombie : System → ℕ → ℤ → Option (ℕ × ℤ)
find_zombie s parent pid = scan s pid (s.procs parent).children

reaped : System → ℕ → ℕ → Option ℕ → System
reaped s parent child none = s
reaped s parent child (some ptr) = record {
  ptable = ptable_remove s.ptable child;
  procs = update s.procs parent (remove_child (s.procs parent) child);
}

-- `reap_zombie` on the tables; it then frees the memory of the child.
pub reap_zombie : System → ℕ → ℕ → System
unfolding reaped
reap_zombie s parent child = reaped s parent child (ptable_find s.ptable child)

-- What a round of wait4 returns, with the status word that it writes, or the sequence number under
-- which it goes to sleep.
pub data Round : Type 0 where
  returns : ℤ → Option ℕ → Round
  blocks : ℕ → Round

waited : System → ℕ → ℕ → ℕ → Option (ℕ × ℤ) → System × Round
waited s parent status_ptr options (some (child, code)) =
    let status =
      if not (status_ptr == 0) && is_user_ptr status_ptr 4
      then some (encode_exit_status code)
      else none in
    (reap_zombie s parent child, returns (pos child) status)
waited s parent status_ptr options none =
    if not (bit_and options wnohang == 0)
    then (s, returns (pos 0) none)
    else (s, blocks (s.procs parent).child_exit_seq)

pub group : ℤ → Bool
group (pos n) = false
group (negsuc zero) = false
group (negsuc (suc n)) = true

-- One round of the loop of `sys_wait4`, run alone, `parent` the current process.
pub sys_wait4 : System → ℕ → ℤ → ℕ → ℕ → System × Round
unfolding waited group
sys_wait4 s parent pid status_ptr options =
    if group pid
    then (s, returns echild none)
    else if (s.procs parent).child_count == 0
    then (s, returns echild none)
    else waited s parent status_ptr options (find_zombie s parent pid)

-- The condition that the wait queue checks under its lock before the thread sleeps.
pub still_waits : System → ℕ → ℕ → Bool
still_waits s parent seen = (s.procs parent).child_exit_seq == seen

-- -22 and -3.
abbrev pub einval : ℤ
einval = negsuc 21

abbrev pub esrch : ℤ
esrch = negsuc 2

raised : System → ℕ → Option ℕ → System × ℤ
raised s signum none = (s, esrch)
raised s signum (some target) =
    let p = s.procs target in
    let p' : Process = record p { pending = raise p.pending signum } in
    (record s { procs = update s.procs target p' }, pos 0)

pub sys_kill : System → ℕ → ℕ → System × ℤ
unfolding raised
sys_kill s pid signum =
    if signum == 0 || leb nsig signum
    then (s, einval)
    else raised s signum (ptable_find s.ptable pid)
