-- ===== src/Fd.antt =====
-- crates/proc/src/fd.rs: the descriptor table of a process. A `vnode_ptr` is an address, the
-- reference counts of the vnodes are a store from addresses to 32-bit counters
-- (crates/fs/src/vnode.rs, reached through the hooks of crates/proc/src/syscall.rs once
-- crates/fs has registered them), and an `i32` is an integer.
pub mod Slots
pub mod Refs
pub mod Balance
pub mod Lowest
pub mod Examples
use mathlib.Core.Option
use rumicos.Base.{
  ℕ, ◌+◌, ◌-◌, ◌%◌, ◌^◌, Bool, true, false, ◌||◌, ◌&&◌, not, List, [], ◌∷◌, Option, none, some,
  if◌then◌else◌, leb, ◌==◌, bit_and, get_or, set, replicate, update,
}
use rumicos.Base.Int.{ℤ, pos, negsuc, ◌==ℤ◌}

abbrev pub max_fds : ℕ
max_fds = 64

abbrev pub ebadf : ℤ
ebadf = negsuc 8

abbrev pub emfile : ℤ
emfile = negsuc 23

abbrev pub o_rdonly : ℕ
o_rdonly = 0

abbrev pub o_wronly : ℕ
o_wronly = 1

abbrev pub o_rdwr : ℕ
o_rdwr = 2

pub record FdEntry : Type 0 where
  pub vnode_ptr : ℕ
  pub offset : ℕ
  pub flags : ℕ
  pub reserved : ℕ

unfoldable pub can_read : FdEntry → Bool
can_read e = let mode = bit_and e.flags 3 in mode == o_rdonly || mode == o_rdwr

unfoldable pub can_write : FdEntry → Bool
can_write e = let mode = bit_and e.flags 3 in mode == o_wronly || mode == o_rdwr

-- `[Option<FdEntry>; MAX_FDS]`.
abbrev pub Slots : Type 0
Slots = List (Option FdEntry)

pub record FdTable : Type 0 where
  pub fds : Slots

-- `AtomicU32` reference counts, by the vnode's address.
abbrev pub Counts : Type 0
Counts = ℕ → ℕ

pub inc_ref : Counts → ℕ → Counts
inc_ref refs p = update refs p ((refs p + 1) % 2 ^ 32)

pub dec_ref : Counts → ℕ → Counts
dec_ref refs p = update refs p ((refs p + 2 ^ 32 - 1) % 2 ^ 32)

pub new : FdTable
new = record { fds = replicate max_fds none }

-- The scan of `alloc` and of `dup`: the first empty slot from index `i` on takes the entry.
unfoldable pub install : Slots → ℕ → FdEntry → Option (ℕ × Slots)
install [] i e = none
install (none ∷ s) i e = some (i, some e ∷ s)
install (some x ∷ s) i e = Option.map (λ r. (r.0, some x ∷ r.1)) (install s (i + 1) e)

-- What both return when the scan ends: the table and the descriptor, or EMFILE.
installed : FdTable → Option (ℕ × Slots) → FdTable × ℤ
installed t none = (t, emfile)
installed t (some (i, s)) = (record { fds = s }, pos i)

pub alloc : FdTable → ℕ → ℕ → FdTable × ℤ
unfolding installed install
alloc t vnode_ptr flags =
    installed t
      (install t.fds 0 (record { vnode_ptr = vnode_ptr; offset = 0; flags = flags; reserved = 0 }))

unfoldable pub get : FdTable → ℤ → Option FdEntry
get t (negsuc n) = none
get t (pos n) = if leb max_fds n then none else get_or t.fds n none

close_slot : FdTable → ℕ → Option FdEntry → FdTable × ℤ
close_slot t n none = (t, ebadf)
close_slot t n (some e) = (record { fds = set t.fds n none }, pos 0)

pub close : FdTable → ℤ → FdTable × ℤ
unfolding close_slot
close t (negsuc n) = (t, ebadf)
close t (pos n) = if leb max_fds n then (t, ebadf) else close_slot t n (get_or t.fds n none)

vnode_or_zero : Option FdEntry → ℕ
vnode_or_zero none = 0
vnode_or_zero (some e) = e.vnode_ptr

pub get_vnode_ptr : FdTable → ℤ → ℕ
unfolding get vnode_or_zero
get_vnode_ptr t fd = vnode_or_zero (get t fd)

-- The loop of `clone_for_fork` over the occupied slots.
pub inc_all : Slots → Counts → Counts
inc_all [] refs = refs
inc_all (none ∷ s) refs = inc_all s refs
inc_all (some e ∷ s) refs = inc_all s (if e.vnode_ptr == 0 then refs else inc_ref refs e.vnode_ptr)

pub clone_for_fork : FdTable → Counts → FdTable × Counts
unfolding inc_all
clone_for_fork t refs = (record { fds = t.fds }, inc_all t.fds refs)

dup_into : FdTable → Counts → FdEntry → Option (ℕ × Slots) → FdTable × Counts × ℤ
dup_into t refs e none = (t, refs, emfile)
dup_into t refs e (some (i, s)) = (record { fds = s }, inc_ref refs e.vnode_ptr, pos i)

dup_entry : FdTable → Counts → Option FdEntry → FdTable × Counts × ℤ
unfolding dup_into install
dup_entry t refs none = (t, refs, ebadf)
dup_entry t refs (some e) = dup_into t refs e (install t.fds 0 e)

pub dup : FdTable → Counts → ℤ → FdTable × Counts × ℤ
unfolding dup_entry get
dup t refs old_fd = dup_entry t refs (get t old_fd)

-- The occupant that `dup2` takes out of its target slot loses its reference.
pub release_occupant : Counts → Option FdEntry → Counts
release_occupant refs none = refs
release_occupant refs (some old) = dec_ref refs old.vnode_ptr

dup2_entry : FdTable → Counts → ℤ → Option FdEntry → FdTable × Counts × ℤ
unfolding release_occupant
dup2_entry t refs new_fd none = (t, refs, ebadf)
dup2_entry t refs (negsuc n) (some e) = (t, refs, ebadf)
dup2_entry t refs (pos n) (some e) = if leb max_fds n then (t, refs, ebadf) else (
  record { fds = set t.fds n (some e) },
  inc_ref (release_occupant refs (get_or t.fds n none)) e.vnode_ptr,
  pos n,
)

-- `get(old_fd).is_some()` decides what `dup2(fd, fd)` answers.
same_fd : ℤ → Option FdEntry → ℤ
same_fd fd none = ebadf
same_fd fd (some e) = fd

pub dup2 : FdTable → Counts → ℤ → ℤ → FdTable × Counts × ℤ
unfolding dup2_entry same_fd get
dup2 t refs old_fd new_fd =
    if old_fd ==ℤ new_fd
    then (t, refs, same_fd new_fd (get t old_fd))
    else dup2_entry t refs new_fd (get t old_fd)

-- The `release` operation of a vnode: the ends of pipes give their reference back
-- (crates/fs/src/pipe.rs), every other vnode does nothing.
pub release : (ℕ → Bool) → Counts → ℕ → Counts
release is_pipe refs p = if is_pipe p then dec_ref refs p else refs

-- `sys_close` of crates/fs/src/syscall.rs, for a live current process.
pub sys_close : (ℕ → Bool) → FdTable → Counts → ℤ → FdTable × Counts × ℤ
unfolding close get_vnode_ptr release
sys_close is_pipe t refs fd =
    let vn_ptr = get_vnode_ptr t fd in
    let (t', r) = close t fd in
    (t', if (r ==ℤ pos 0) && not (vn_ptr == 0) then release is_pipe refs vn_ptr else refs, r)
