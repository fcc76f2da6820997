-- ===== src/Frames/Examples.antt =====
-- The theorems on frames at small memory maps.
use rumicos.Base.{◌≡◌, refl, List, [], ◌∷◌, Option, none, some, arith, replicate}
use rumicos.Frames.{Heap, Buddy, pack, unpack, push, push_at, alloc_order}
use rumicos.Frames.Alloc.{Allocates, alloc_order-Allocates}
use rumicos.Frames.Ledger.{Owned, allocs, frees, run, IsLedger}
use rumicos.Frames.Region.{
  ExclusionSet, LimineMemmapEntry, new_node, node_or_new, order_at, tile, add_region,
  exclusion_overlap, or_overlap, extra_overlap, first_exclusion_overlap, add_aligned, carve,
  add_region_excluding, init,
}
use rumicos.Frames.Region.Tiles.{Adds, add_region-Adds, new_node-IsBuddy}
use rumicos.Frames.Region.Excluded.{usable, Frees, add_region_excluding-Frees}
use rumicos.Frames.Region.Start.{offered, init-Frees, boot_lem}
use rumicos.Frames.Low.{alloc_frame_below_4g}
use rumicos.Frames.Low.Search.{FindsLow, alloc_frame_below_4g-FindsLow}

-- Memory with nothing in it.
abbrev blank : Heap
blank = λ a. record { next_phys = 0; generation = 0 }

abbrev exclusions : ExclusionSet
exclusions = record {
  bump_consumed = (0x1000, 0x3000);
  kernel_phys_range = (0x6000, 0x7800);
  extra_reserved = (0xA000, 0xB000) ∷ [];
}

abbrev memmap : List LimineMemmapEntry
memmap =
    record { base = 0x1000; length = 0xF800; mem_type = 0 }
    ∷ record { base = 0x20000; length = 0x1000; mem_type = 5 }
    ∷ []

abbrev node_of : Option (Option Buddy) → Buddy
node_of none = record { heap = blank; free_lists = []; base = 0; size = 0; free = 0 }
node_of (some none) = record { heap = blank; free_lists = []; base = 0; size = 0; free = 0 }
node_of (some (some b)) = b

abbrev booted : Buddy
booted = node_of (init blank exclusions memmap none)

-- The free frames of the example: 0x3000 to 0x5fff, 0x8000, 0x9000 and 0xb000 to 0xffff.
booted_free : booted.free ≡ 10
unfolding init add_region_excluding carve add_aligned first_exclusion_overlap extra_overlap
    or_overlap exclusion_overlap add_region tile order_at node_or_new new_node push_at push pack
    unpack
booted_free = refl

booted_made : init blank exclusions memmap none ≡ some (some booted)
unfolding init add_region_excluding carve add_aligned first_exclusion_overlap extra_overlap
    or_overlap exclusion_overlap add_region tile order_at node_or_new new_node push_at push pack
    unpack
booted_made = refl

boot_lem_example :
    (s : Buddy × Owned) × (run (booted, []) (allocs 0 ∷ allocs 2 ∷ frees 1 ∷ allocs 9 ∷ [])
      ≡ some s)
    × IsLedger (offered exclusions memmap) s
boot_lem_example =
    boot_lem blank exclusions memmap booted (allocs 0 ∷ allocs 2 ∷ frees 1 ∷ allocs 9 ∷ [])
      (λ e. (omega arith, omega arith), (λ e. (omega arith, omega arith), tt)) (λ x. ground arith)
      booted_made

init-Frees_example :
    Frees blank (replicate 11 []) (offered exclusions memmap) (init blank exclusions memmap none)
unfolding node_or_new
init-Frees_example =
    init-Frees blank exclusions memmap none (replicate 11 [])
      (λ e. (omega arith, omega arith), (λ e. (omega arith, omega arith), tt))
      (new_node-IsBuddy blank) (λ x. ground arith)

add_region_excluding-Frees_example :
    Frees blank
      (replicate 11 [])
      (usable exclusions 0x1000 0x10800)
      (add_region_excluding 0x10000 blank exclusions 0x1000 0x10800 none)
unfolding node_or_new
add_region_excluding-Frees_example =
    add_region_excluding-Frees 0x10000 blank exclusions none (replicate 11 []) 0x1000 0x10800
      (new_node-IsBuddy blank) (omega arith) (omega arith) (omega arith) (λ x. ground arith)

-- Seventeen frames from 0x3000 on.
abbrev region : Adds (replicate 11 []) 0x3000 17 (add_region blank 0x3000 17 none)
unfolding node_or_new
region =
    add_region-Adds blank none (replicate 11 []) 0x3000 17 (new_node-IsBuddy blank) (omega arith)
      refl (omega arith) (λ x. ground arith)

alloc_order-Allocates_example : Allocates region.node region.levels' 2 (alloc_order region.node 2)
alloc_order-Allocates_example =
    alloc_order-Allocates region.node region.levels' 2 region.buddy (omega arith)

alloc_frame_below_4g-FindsLow_example :
    FindsLow region.levels' (alloc_frame_below_4g (some region.node))
alloc_frame_below_4g-FindsLow_example =
    alloc_frame_below_4g-FindsLow region.node region.levels' region.buddy
