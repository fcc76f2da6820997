-- ===== src/AddressSpace.antt =====
-- The table of virtual memory areas of a process: `Vma` and its helpers of crates/proc/src/vma.rs
-- with `find_vma`, `mmap`, `munmap`, `vma_overlaps`, the metadata of `fork_cow` and the count of
-- owners of crates/proc/src/address_space.rs. Addresses are 64-bit words. Page tables, frames and the page
-- cache, which these functions also touch on the target, do not take part.
pub mod Slots
pub mod Lookup
pub mod Gap
pub mod Map
pub mod Unmap
pub mod Examples
use mathlib.Core.Option
use rumicos.Base.{
  ℕ, zero, suc, ◌+◌, ◌-◌, ◌%◌, ◌^◌, Bool, true, false, ◌&&◌, ◌||◌, not, List, [], ◌∷◌, Option, none,
  some, if◌then◌else◌, ltb, leb, ◌==◌, bit_and, get_or, set, replicate,
}

abbrev pub max_vmas : ℕ
max_vmas = 32

abbrev pub mmap_base : ℕ
mmap_base = 0x4000_0000_0000

abbrev pub mmap_region_end : ℕ
mmap_region_end = 0x7000_0000_0000

pub data Backing : Type 0 where
  anonymous : Backing
  file : ℕ → ℕ → Bool → Backing

pub record Vma : Type 0 where
  pub start : ℕ
  pub end : ℕ
  pub flags : ℕ
  pub backing : Backing

abbrev pub contains : Vma → ℕ → Bool
contains v addr = leb v.start addr && ltb addr v.end

pub len : Vma → ℕ
len v = v.end - v.start

pub is_empty : Vma → Bool
is_empty v = v.start == v.end

shared_file : Backing → Bool
shared_file anonymous = false
shared_file (file vnode_ptr file_offset shared) = shared

pub is_cow_eligible : Vma → Bool
unfolding shared_file
is_cow_eligible v = not (shared_file v.backing)

-- `value.checked_add(4095).map(|v| v & !4095)`.
pub align_up_page : ℕ → Option ℕ
align_up_page value =
    if ltb (value + 4095) (2 ^ 64) then some (bit_and (value + 4095) (2 ^ 64 - 4096)) else none

abbrev pub VmaSlots : Type 0
VmaSlots = List (Option Vma)

pub record AddressSpace : Type 0 where
  pub vmas : VmaSlots
  pub mmap_next : ℕ

pub new : AddressSpace
new = record { vmas = replicate max_vmas none; mmap_next = mmap_base }

unfoldable pub find_vma : VmaSlots → ℕ → Option Vma
find_vma [] addr = none
find_vma (none ∷ s) addr = find_vma s addr
find_vma (some v ∷ s) addr = if contains v addr then some v else find_vma s addr

abbrev pub overlaps : Vma → ℕ → ℕ → Bool
overlaps v start end = ltb start v.end && ltb v.start end

unfoldable pub vma_overlaps : VmaSlots → ℕ → ℕ → Bool
vma_overlaps [] start end = false
vma_overlaps (none ∷ s) start end = vma_overlaps s start end
vma_overlaps (some v ∷ s) start end = overlaps v start end || vma_overlaps s start end

-- `vmas.iter().position(Option::is_none)`.
pub free_slot : VmaSlots → Option ℕ
free_slot [] = none
free_slot (none ∷ s) = some 0
free_slot (some v ∷ s) = Option.map suc (free_slot s)

-- The loop of `mmap` from a candidate address: `none` when the next area would end past the
-- region (or past the address space), or when the fuel runs out.
pub find_gap : ℕ → VmaSlots → ℕ → ℕ → Option ℕ
find_gap zero s len start = none
find_gap (suc fuel) s len start =
    let end = start + len in
    let next = find_gap fuel s len end in
    if leb (2 ^ 64) end
    then none
    else if ltb mmap_region_end end
    then none
    else if not (vma_overlaps s start end)
    then some start
    else next

-- One round more than there are pages below the end of the region.
abbrev pub gap_fuel : ℕ
gap_fuel = 0x7_0000_0001

-- The write to the free slot, once an address is found.
place : AddressSpace → ℕ → ℕ → ℕ → Backing → Option ℕ → AddressSpace × Option ℕ
place a slot len flags backing none = (a, none)
place a slot len flags backing (some start) = (
  record a {
    vmas =
        set a.vmas slot
          (some (record { start = start; end = start + len; flags = flags; backing = backing }));
    mmap_next = start + len;
  },
  some start,
)

search_from : AddressSpace → ℕ → ℕ → ℕ → Backing → Option ℕ → AddressSpace × Option ℕ
unfolding place find_gap
search_from a slot len flags backing none = (a, none)
search_from a slot len flags backing (some start) =
    place a slot len flags backing (find_gap gap_fuel a.vmas len start)

in_slot : AddressSpace → ℕ → ℕ → Backing → Option ℕ → AddressSpace × Option ℕ
unfolding search_from
in_slot a len flags backing none = (a, none)
in_slot a len flags backing (some slot) =
    search_from a slot len flags backing (align_up_page a.mmap_next)

pub mmap : AddressSpace → ℕ → ℕ → Backing → AddressSpace × Option ℕ
unfolding in_slot
mmap a len flags backing =
    if len == 0 || not (bit_and len 4095 == 0)
    then (a, none)
    else in_slot a len flags backing (free_slot a.vmas)

-- The slot whose area is exactly `[start, end)`.
unfoldable pub exact_slot : VmaSlots → ℕ → ℕ → Option ℕ
exact_slot [] start end = none
exact_slot (none ∷ s) start end = Option.map suc (exact_slot s start end)
exact_slot (some v ∷ s) start end =
    if (v.start == start) && (v.end == end) then some 0 else Option.map suc (exact_slot s start end)

unfoldable pub clear_slot : AddressSpace → Option ℕ → AddressSpace × Bool
clear_slot a none = (a, false)
clear_slot a (some slot) = (record a { vmas = set a.vmas slot none }, true)

unfoldable pub munmap : AddressSpace → ℕ → ℕ → AddressSpace × Bool
unfolding clear_slot
munmap a addr len =
    if leb (2 ^ 64) (addr + len)
    then (a, false)
    else clear_slot a (exact_slot a.vmas addr (addr + len))

-- The areas that a child of `fork` starts with.
unfoldable pub fork_cow : AddressSpace → AddressSpace
fork_cow a = record { vmas = a.vmas; mmap_next = a.mmap_next }

-- `inc_ref` and `dec_ref` on the `AtomicU32` count of the owners: the latter says whether it was
-- the last.
pub inc_ref : ℕ → ℕ
inc_ref refcount = (refcount + 1) % 2 ^ 32

pub dec_ref : ℕ → ℕ × Bool
dec_ref refcount = ((refcount + 2 ^ 32 - 1) % 2 ^ 32, refcount == 1)
