-- ===== src/Frames/Region.antt =====
-- crates/memory/src/buddy.rs: how the memory map becomes free blocks. A node is `none` until its
-- first region. Node 0 is the only one that is passed.
pub mod Tiles
pub mod Excluded
pub mod Start
use rumicos.Base.{
  ℕ, zero, suc, ◌+◌, ◌-◌, ◌*◌, ◌/◌, ◌%◌, ◌^◌, min, max, Bool, true, false, not, ◌&&◌, List, [], ◌∷◌,
  Option, none, some, if◌then◌else◌, ltb, leb, ◌==◌, bit_and, replicate,
}
use rumicos.Base.Panics.{◌>>=◌}
use rumicos.Frames.{Heap, Buddy, push_at, max_order, page_size}

abbrev pub Range : Type 0
Range = ℕ × ℕ

pub record ExclusionSet : Type 0 where
  pub bump_consumed : Range
  pub kernel_phys_range : Range
  pub extra_reserved : List Range

pub record LimineMemmapEntry : Type 0 where
  pub base : ℕ
  pub length : ℕ
  pub mem_type : ℕ

-- `BuddyNode::new`, over the memory as it is.
unfoldable pub new_node : Heap → Buddy
new_node heap = record { heap = heap; free_lists = replicate 11 0; base = 0; size = 0; free = 0 }

-- The search for the order of the next block, from `order` down.
unfoldable pub order_at : ℕ → ℕ → ℕ → ℕ
order_at zero paddr remaining = 0
order_at (suc o) paddr remaining =
    let lower = order_at o paddr remaining in
    let size = 2 ^ (suc o + 12) in
    if leb size remaining && (paddr % size == 0) then suc o else lower

-- The loop of `add_region`, on at most `n` blocks.
unfoldable pub tile : ℕ → ℕ → ℕ → Buddy → Option Buddy
tile zero paddr end b = some b
tile (suc n) paddr end b = if not (ltb paddr end) then some b else do
  let order = order_at max_order paddr (end - paddr)
  b' ← push_at b order paddr
  tile n (paddr + 2 ^ (order + 12)) end b'

unfoldable pub node_or_new : Heap → Option Buddy → Buddy
node_or_new heap none = new_node heap
node_or_new heap (some b) = b

-- `heap` is the memory where the node is not there yet.
unfoldable pub add_region : Heap → ℕ → ℕ → Option Buddy → Option (Option Buddy)
unfolding node_or_new
add_region heap base frames slot = do
  let b = node_or_new heap slot
  let node : Buddy = record b {
    base = if b.size == 0 then base else min base b.base;
    size = (b.size + frames) % 2 ^ 64;
    free = (b.free + frames) % 2 ^ 64;
  }
  b' ← tile frames base (base + frames * page_size) node
  some (some b')

unfoldable pub exclusion_overlap : ℕ → ℕ → Range → Option Range
exclusion_overlap start end (first, last) =
    let reserved_start = max first start in
    let reserved_end = min last end in
    if ltb reserved_start reserved_end then some (reserved_start, reserved_end) else none

unfoldable pub or_overlap : Option Range → Option Range → Option Range
or_overlap none later = later
or_overlap (some r) later = some r

unfoldable pub extra_overlap : ℕ → ℕ → List Range → Option Range
extra_overlap start end [] = none
extra_overlap start end (r ∷ rs) =
    or_overlap (exclusion_overlap start end r) (extra_overlap start end rs)

unfoldable pub first_exclusion_overlap : ℕ → ℕ → ExclusionSet → Option Range
first_exclusion_overlap start end ex = or_overlap (exclusion_overlap start end ex.bump_consumed) (
    or_overlap (exclusion_overlap start end ex.kernel_phys_range)
      (extra_overlap start end ex.extra_reserved))

-- The frames of a range that no exclusion meets.
unfoldable pub add_aligned : Heap → ℕ → ℕ → Option Buddy → Option (Option Buddy)
add_aligned heap start end slot =
    let aligned_base = bit_and (start + 4095) (2 ^ 64 - 4096) in
    let aligned_end = bit_and end (2 ^ 64 - 4096) in
    if leb aligned_end aligned_base
    then some slot
    else add_region heap aligned_base ((aligned_end - aligned_base) / page_size) slot

-- What is left of a range before and after an overlap.
unfoldable pub carve :
    (ℕ → ℕ → Option Buddy → Option (Option Buddy))
    → Heap
    → ℕ
    → ℕ
    → Option Buddy
    → Option Range
    → Option (Option Buddy)
carve again heap start end slot none = add_aligned heap start end slot
carve again heap start end slot (some (reserved_start, reserved_end)) = do
  slot' ← if ltb start reserved_start then again start reserved_start slot else some slot
  if ltb reserved_end end then again reserved_end end slot' else some slot'

-- The recursion is at most `n` deep.
unfoldable pub add_region_excluding :
    ℕ → Heap → ExclusionSet → ℕ → ℕ → Option Buddy → Option (Option Buddy)
add_region_excluding zero heap ex start end slot = some slot
add_region_excluding (suc n) heap ex start end slot =
    if leb end start
    then some slot
    else carve (add_region_excluding n heap ex) heap start end slot
        (first_exclusion_overlap start end ex)

-- `NumaBuddy::init`: only usable memory, type 0, is added.
unfoldable pub init :
    Heap → ExclusionSet → List LimineMemmapEntry → Option Buddy → Option (Option Buddy)
init heap ex [] slot = some slot
init heap ex (e ∷ es) slot = do
  slot' ←
      if not (e.mem_type == 0)
      then some slot
      else if e.length == 0
      then some slot
      else add_region_excluding (e.length + 1) heap ex e.base (e.base + e.length) slot
  init heap ex es slot'
