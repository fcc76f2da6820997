-- ===== src/Frames.antt =====
-- crates/memory/src/buddy.rs: the allocator of physical frames. A free frame holds its own list
-- node, so the lists live in the memory they hand out: `Heap` is that memory, by the physical
-- address of a frame (the direct map adds one constant to it). The allocator is used under its
-- lock (crates/memory/src/lib.rs), so each exchange succeeds in its first round. Only node 0 is
-- ever used. `none` is a panic.
pub mod Blocks
pub mod Chains
pub mod Lists
pub mod Alloc
pub mod Ledger
pub mod Region
pub mod Low
mod Examples
use rumicos.Base.{
  ℕ, zero, suc, ◌+◌, ◌-◌, ◌*◌, ◌/◌, ◌%◌, ◌^◌, min, max, Bool, true, false, ◌&&◌, List, [], ◌∷◌,
  Option, none, some, if◌then◌else◌, ltb, leb, ◌==◌, bit_and, bit_or, get_or, set, replicate,
  update,
}
use rumicos.Base.Panics.{◌>>=◌, ◌>>◌, assert}

abbrev pub max_order : ℕ
max_order = 10

abbrev pub page_size : ℕ
page_size = 4096

abbrev pub low_4g_limit : ℕ
low_4g_limit = 0x1_0000_0000

abbrev pub max_low_frame_tries : ℕ
max_low_frame_tries = 256

-- `MAX_PLAUSIBLE_PHYS`, 1 << 44.
abbrev pub max_plausible_phys : ℕ
max_plausible_phys = 2 ^ 44

pub record FreeFrame : Type 0 where
  pub next_phys : ℕ
  pub generation : ℕ

abbrev pub Heap : Type 0
Heap = ℕ → FreeFrame

unfoldable pub pack : ℕ → ℕ → ℕ
pack frame_num tag = bit_or (frame_num * 2 ^ 16 % 2 ^ 64) (bit_and tag 0xFFFF)

unfoldable pub unpack : ℕ → ℕ × ℕ
unpack packed = (packed / 2 ^ 16, bit_and packed 0xFFFF)

-- The first assertion of `push`, and the second of `pop`.
abbrev pub plausible : ℕ → Bool
plausible phys = ltb phys max_plausible_phys && (bit_and phys 0xFFF == 0)

-- `FreeList::push` on the memory and the head of a list.
pub push : Heap → ℕ → ℕ → Option (Heap × ℕ)
unfolding pack unpack
push heap head frame = do
  assert (plausible frame)
  let (head_frame, tag) = unpack head
  let node : FreeFrame = record { next_phys = head_frame * 2 ^ 12 % 2 ^ 64; generation = tag }
  some (update heap frame node, pack (frame / 2 ^ 12) ((tag + 1) % 2 ^ 64))

-- `FreeList::pop`: the frame, if the list has one, and the new head.
pub pop : Heap → ℕ → Option (Option ℕ × ℕ)
unfolding pack unpack
pop heap head =
    let (head_frame, tag) = unpack head in
    let frame = head_frame * 2 ^ 12 % 2 ^ 64 in
    let next_phys = (heap frame).next_phys in
    if head_frame == 0 then some (none, head) else do
      assert (ltb frame max_plausible_phys)
      assert (plausible next_phys)
      some (some frame, pack (next_phys / 2 ^ 12) ((tag + 1) % 2 ^ 64))

-- A `BuddyNode` with the memory that holds its lists.
pub record Buddy : Type 0 where
  pub heap : Heap
  pub free_lists : List ℕ
  pub base : ℕ
  pub size : ℕ
  pub free : ℕ

pub push_at : Buddy → ℕ → ℕ → Option Buddy
push_at b order frame = do
  (heap, head) ← push b.heap (get_or b.free_lists order 0) frame
  some (record b { heap = heap; free_lists = set b.free_lists order head })

pub pop_at : Buddy → ℕ → Option (Buddy × Option ℕ)
pop_at b order = do
  (frame, head) ← pop b.heap (get_or b.free_lists order 0)
  some (record b { free_lists = set b.free_lists order head }, frame)

-- The loop that splits a block down: `n` orders above `order` are left.
pub split_down : ℕ → ℕ → Buddy → ℕ → Option Buddy
split_down zero order b frame = some b
split_down (suc n) order b frame = do
  b' ← push_at b (order + n) (frame + 2 ^ (order + n + 12))
  split_down n order b' frame

-- The block found at `order + split`, or the search of the larger orders.
pub split_found : ℕ → ℕ → Option (Buddy × Option ℕ) → Buddy × Option ℕ → Option (Buddy × Option ℕ)
split_found order split further (b, none) = further
split_found order split further (b, some frame) = do
  b' ← split_down split order b frame
  some (record b' { free = (b'.free + 2 ^ 64 - 2 ^ order) % 2 ^ 64 }, some frame)

-- The search over `n` source orders from `order + split` on.
pub alloc_from : ℕ → ℕ → ℕ → Buddy → Option (Buddy × Option ℕ)
alloc_from zero order split b = some (b, none)
alloc_from (suc n) order split b = do
  found ← pop_at b (order + split)
  split_found order split (alloc_from n order (split + 1) b) found

pub alloc_order : Buddy → ℕ → Option (Buddy × Option ℕ)
alloc_order b order =
    if ltb max_order order then some (b, none) else alloc_from (max_order + 1 - order) order 0 b

-- `buddy_in_list` is the constant `false` of the source, so the loop ends in its first round: no
-- two blocks are ever merged.
pub free_order : Buddy → ℕ → ℕ → Option Buddy
free_order b frame order =
    if ltb max_order order
    then some b
    else do b' ← push_at b order frame; some (record b' { free = (b'.free + 2 ^ order) % 2 ^ 64 })
