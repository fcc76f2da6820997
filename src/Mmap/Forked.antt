-- ===== src/Mmap/Forked.antt =====
-- A file mapping that a child of `fork` inherits.
use rumicos.Base.{ℕ, ◌+◌, ◌^◌, ◌≤◌, ◌<◌, ◌≡◌, false, Bool, none, some, arith, leb, get_or}
use rumicos.AddressSpace.{file, Vma, exact_slot, fork_cow}
use rumicos.Mmap.{Process, unmap, drop_slot, drop_area, drop_backing}
use rumicos.Mmap.Mappings.{drop_backing_lem}

-- When the parent and the child of `fork` both unmap a file mapping that the child has inherited,
-- the reference count of the file falls by two.
pub fork_unmaps_twice :
    (p : Process) (addr len k vnode_ptr offset : ℕ) (shared : Bool) (x : Vma)
    → addr + len < 2 ^ 64
    → exact_slot p.space.vmas addr (addr + len) ≡ some k
    → get_or p.space.vmas k none ≡ some x
    → x.backing ≡ file vnode_ptr offset shared
    → 2 ≤ p.refs vnode_ptr
    → p.refs vnode_ptr < 2 ^ 32
    → let parent = (unmap p addr len).0 in
      let child = (unmap (record p { refs = parent.refs; space = fork_cow p.space }) addr len).0 in
      child.refs vnode_ptr + 2 ≡ p.refs vnode_ptr
unfolding unmap fork_cow
fork_unmaps_twice p addr len k vnode_ptr offset shared x fits e at b two lt =
    let fits' : leb (2 ^ 64) (addr + len) ≡ false = ground arith in
    let f = file vnode_ptr offset shared in
    let mine = drop_backing_lem p.refs f vnode_ptr (ground arith) lt in
    let theirs =
      drop_backing_lem (drop_backing p.refs f) f vnode_ptr (ground (arith, mine))
        (omega (arith, mine)) in
    rw (fits', e, drop_slot, at, drop_area, b) (ground (arith, mine, theirs))
