-- ===== src/Mmap.antt =====
-- crates/proc/src/vma.rs: `sys_mmap` and `sys_munmap`, for a live current process, over its
-- descriptors, its areas and the reference counts of the vnodes. The counts change through the
-- hooks of crates/proc/src/syscall.rs; `AddressSpace::munmap` drops the reference of a file
-- mapping (crates/proc/src/address_space.rs).
pub mod Mappings
pub mod Referenced
pub mod Forked
pub mod Examples
use rumicos.Base.{
  ℕ, ◌+◌, ◌-◌, ◌%◌, ◌^◌, Bool, true, false, ◌||◌, ◌&&◌, not, Option, none, some, if◌then◌else◌, ltb,
  leb, ◌==◌, bit_and, bit_or, get_or,
}
use rumicos.Base.Int.{ℤ, pos, negsuc, ◌==ℤ◌}
use rumicos.Fd.{FdEntry, FdTable, Counts, get, can_write, inc_ref, dec_ref, ebadf}
use rumicos.AddressSpace.{
  AddressSpace, Backing, anonymous, file, Vma, VmaSlots, align_up_page, mmap, munmap, exact_slot,
}

abbrev pub prot_read : ℕ
prot_read = 1

abbrev pub prot_write : ℕ
prot_write = 2

abbrev pub prot_exec : ℕ
prot_exec = 4

abbrev pub map_shared : ℕ
map_shared = 1

abbrev pub map_private : ℕ
map_private = 2

abbrev pub map_anonymous : ℕ
map_anonymous = 32

abbrev pub einval : ℤ
einval = negsuc 21

abbrev pub enomem : ℤ
enomem = negsuc 11

abbrev pub eacces : ℤ
eacces = negsuc 12

pub record Process : Type 0 where
  pub fd_table : FdTable
  pub refs : Counts
  pub space : AddressSpace

-- `PRESENT | USER_ACCESSIBLE`, with WRITABLE and NO_EXECUTE (bit 63) as the protection says.
pub prot_to_page_flags : ℕ → ℕ
prot_to_page_flags prot =
    let flags = bit_or (bit_or 0 1) 4 in
    let flags' = if bit_and prot prot_write == 0 then flags else bit_or flags 2 in
    if bit_and prot prot_exec == 0 then bit_or flags' (2 ^ 63) else flags'

abbrev pub is_set : ℕ → ℕ → Bool
is_set flags bits = not (bit_and flags bits == 0)

is_negative : ℤ → Bool
is_negative (pos n) = false
is_negative (negsuc n) = true

-- `fd as i32`, of an `i64`.
pub as_i32 : ℤ → ℤ
as_i32 (pos n) = let w = n % 2 ^ 32 in if ltb w (2 ^ 31) then pos w else negsuc (2 ^ 32 - 1 - w)
as_i32 (negsuc n) =
    let w = 2 ^ 32 - 1 - n % 2 ^ 32 in if ltb w (2 ^ 31) then pos w else negsuc (2 ^ 32 - 1 - w)

-- The checks of `sys_mmap` on its arguments alone: the error, if one fails.
pub check_args : ℕ → ℕ → ℕ → ℕ → ℤ → ℕ → Option ℤ
unfolding is_negative
check_args addr_hint length prot flags fd offset =
    if not (addr_hint == 0)
    then some einval
    else if length == 0
    then some einval
    else if is_set offset 4095
    then some einval
    else if is_set prot (2 ^ 32 - 1 - (prot_read + prot_write + prot_exec))
    then some einval
    else if bit_and flags (map_shared + map_private) == 0
        || bit_and flags (map_shared + map_private) == map_shared + map_private
    then some einval
    else if is_set flags map_anonymous && not (fd ==ℤ negsuc 0)
    then some einval
    else if not (is_set flags map_anonymous) && is_negative fd
    then some ebadf
    else none

-- `align_up_page`, with 0 turned away.
pub page_length : Option ℕ → Option ℕ
page_length none = none
page_length (some v) = if v == 0 then none else some v

-- The backing of the new area with the counts after it has taken its reference, or the error.
pub data Resolved : Type 0 where
  failed : ℤ → Resolved
  resolved : Counts → Backing → Resolved

resolve_entry : Counts → ℕ → ℕ → ℕ → Option FdEntry → Resolved
resolve_entry refs prot flags offset none = failed ebadf
resolve_entry refs prot flags offset (some e) =
    if is_set flags map_shared && (is_set prot prot_write && not (can_write e))
    then failed eacces
    else if e.vnode_ptr == 0
    then failed ebadf
    else resolved (inc_ref refs e.vnode_ptr) (file e.vnode_ptr offset (is_set flags map_shared))

resolve : Process → ℕ → ℕ → ℤ → ℕ → Resolved
unfolding resolve_entry as_i32
resolve p prot flags fd offset =
    if is_set flags map_anonymous
    then resolved p.refs anonymous
    else resolve_entry p.refs prot flags offset (get p.fd_table (as_i32 fd))

-- A file mapping holds a reference on its vnode.
pub drop_backing : Counts → Backing → Counts
drop_backing refs anonymous = refs
drop_backing refs (file vnode_ptr offset shared) = dec_ref refs vnode_ptr

mapped_to : Process → Counts → Backing → AddressSpace × Option ℕ → Process × ℤ
unfolding drop_backing
mapped_to p refs backing (a, some addr) = (record p { refs = refs; space = a }, pos addr)
mapped_to p refs backing (a, none) =
    (record p { refs = drop_backing refs backing; space = a }, enomem)

map_resolved : Process → ℕ → ℕ → Resolved → Process × ℤ
unfolding mapped_to prot_to_page_flags
map_resolved p len prot (failed e) = (p, e)
map_resolved p len prot (resolved refs backing) =
    mapped_to p refs backing (mmap p.space len (prot_to_page_flags prot) backing)

map_length : Process → ℕ → ℕ → ℤ → ℕ → Option ℕ → Process × ℤ
unfolding map_resolved resolve
map_length p prot flags fd offset none = (p, einval)
map_length p prot flags fd offset (some len) =
    map_resolved p len prot (resolve p prot flags fd offset)

map_checked : Process → ℕ → ℕ → ℕ → ℤ → ℕ → Option ℤ → Process × ℤ
unfolding map_length page_length
map_checked p length prot flags fd offset (some e) = (p, e)
map_checked p length prot flags fd offset none =
    map_length p prot flags fd offset (page_length (align_up_page length))

pub sys_mmap : Process → ℕ → ℕ → ℕ → ℕ → ℤ → ℕ → Process × ℤ
unfolding map_checked check_args
sys_mmap p addr_hint length prot flags fd offset =
    map_checked p length prot flags fd offset (check_args addr_hint length prot flags fd offset)

unfoldable pub drop_area : Counts → Option Vma → Counts
unfolding drop_backing
drop_area refs none = refs
drop_area refs (some v) = drop_backing refs v.backing

unfoldable pub drop_slot : Counts → VmaSlots → Option ℕ → Counts
unfolding drop_area
drop_slot refs s none = refs
drop_slot refs s (some slot) = drop_area refs (get_or s slot none)

-- `AddressSpace::munmap` with its effect on the counts.
pub unmap : Process → ℕ → ℕ → Process × Bool
unfolding drop_slot
unmap p addr len =
    let refs' =
      if leb (2 ^ 64) (addr + len)
      then p.refs
      else drop_slot p.refs p.space.vmas (exact_slot p.space.vmas addr (addr + len)) in
    (record p { refs = refs'; space = (munmap p.space addr len).0 }, (munmap p.space addr len).1)

unmap_length : Process → ℕ → Option ℕ → Process × ℤ
unfolding unmap
unmap_length p addr none = (p, einval)
unmap_length p addr (some len) =
    ((unmap p addr len).0, if (unmap p addr len).1 then pos 0 else einval)

pub sys_munmap : Process → ℕ → ℕ → Process × ℤ
unfolding unmap_length page_length
sys_munmap p addr length =
    if addr == 0 || (length == 0 || is_set addr 4095)
    then (p, einval)
    else unmap_length p addr (page_length (align_up_page length))
