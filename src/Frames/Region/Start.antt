-- ===== src/Frames/Region/Start.antt =====
-- `init` over a memory map, and the allocations and frees that follow it.
use rumicos.Base.{
  ℕ, ◌+◌, ◌≤◌, ◌<◌, ◌^◌, ◌≡◌, refl, true, not, inl, inr, List, [], ◌∷◌, Option, none, some, arith,
  if◌then◌else◌, ◌==◌, Bool-cases, replicate,
}
use rumicos.Frames.{Heap, Buddy}
use rumicos.Frames.Blocks.{covered}
use rumicos.Frames.Alloc.{IsBuddy}
use rumicos.Frames.Ledger.{Owned, Call, run, IsLedger, run-IsLedger}
use rumicos.Frames.Region.{ExclusionSet, LimineMemmapEntry, node_or_new, add_region_excluding, init}
use rumicos.Frames.Region.Tiles.{new_node-IsBuddy}
use rumicos.Frames.Region.Excluded.{usable, Frees, unchanged, add_region_excluding-Frees}

-- The usable entries start above address 0 and end below 2 ^ 44.
abbrev pub IsMemmap : List LimineMemmapEntry → Type 0
IsMemmap [] = Unit {0}
IsMemmap (e ∷ es) = (e.mem_type ≡ 0 → (0 < e.base) × (e.base + e.length ≤ 2 ^ 44)) × IsMemmap es

abbrev pub offer : ExclusionSet → LimineMemmapEntry → ℕ → ℕ
offer ex e x = if e.mem_type == 0 then usable ex e.base (e.base + e.length) x else 0

-- In how many usable entries the frame of `x` lies whole and clear of the exclusions.
abbrev pub offered : ExclusionSet → List LimineMemmapEntry → ℕ → ℕ
offered ex [] x = 0
offered ex (e ∷ es) x = offer ex e x + offered ex es x

entry-Frees :
    (heap : Heap) (ex : ExclusionSet) (e : LimineMemmapEntry) (slot : Option Buddy)
    (levels : List (List ℕ))
    → IsBuddy (node_or_new heap slot) levels
    → (e.mem_type ≡ 0 → (0 < e.base) × (e.base + e.length ≤ 2 ^ 44))
    → ((x : ℕ) → covered x levels + offer ex e x ≤ 1)
    → Frees heap levels (offer ex e) (
        if not (e.mem_type == 0)
        then some slot
        else if e.length == 0
        then some slot
        else add_region_excluding (e.length + 1) heap ex e.base (e.base + e.length) slot)
entry-Frees heap ex e slot levels v bounds once = elim (Bool-cases (e.mem_type == 0)) [
  | inr other ↦ rw other (unchanged heap slot levels (offer ex e) v (λ x. rw other refl))
  | inl use_ ↦ elim (Bool-cases (e.length == 0)) [
    | inl empty ↦ rw (use_, empty) (unchanged heap slot levels (offer ex e) v (λ x. ground arith))
    | inr more ↦
        let (pos, top) = bounds (ground arith) in
        let same = λ (x : ℕ). usable_offer x use_ in
        let r =
          add_region_excluding-Frees (e.length + 1) heap ex slot levels e.base (e.base + e.length) v
            pos top (omega arith) (λ x. omega (arith, once x, same x)) in
        rw (use_, more)
          (record {
            slot = r.slot;
            levels' = r.levels';
            returned = r.returned;
            buddy = r.buddy;
            cover = λ x. omega (arith, r.cover x, same x);
          })
  ]
]
  where
    usable_offer :
        (x : ℕ) → (e.mem_type == 0) ≡ true → offer ex e x ≡ usable ex e.base (e.base + e.length) x
    usable_offer x h = rw h refl

-- `init` makes free exactly the whole frames of the usable entries that meet no exclusion, each
-- once, when these entries lie above address 0 and below 2 ^ 44 and no frame of theirs is free
-- already or in two of them; it never panics.
pub init-Frees :
    (heap : Heap) (ex : ExclusionSet) (es : List LimineMemmapEntry) (slot : Option Buddy)
    (levels : List (List ℕ))
    → IsMemmap es
    → IsBuddy (node_or_new heap slot) levels
    → ((x : ℕ) → covered x levels + offered ex es x ≤ 1)
    → Frees heap levels (offered ex es) (init heap ex es slot)
unfolding init
init-Frees heap ex [] slot levels m v once = unchanged heap slot levels (λ x. 0) v (λ x. refl)
init-Frees heap ex (e ∷ es) slot levels m v once =
    let r = entry-Frees heap ex e slot levels v m.0 (λ x. omega (arith, once x)) in
    let r' =
      init-Frees heap ex es r.slot r.levels' m.1 r.buddy (λ x. omega (arith, once x, r.cover x)) in
    record {
      slot = r'.slot;
      levels' = r'.levels';
      returned = rw r.returned r'.returned;
      buddy = r'.buddy;
      cover = λ x. omega (arith, r.cover x, r'.cover x);
    }

-- From the memory map on, whose usable entries lie above address 0 and below 2 ^ 44 and share no
-- frame: over the node that `init` makes of it, no sequence of allocations and frees of what is
-- owned panics, and the blocks that are free and those that are owned are then, without overlap,
-- exactly the whole frames of usable entries that meet no exclusion.
pub boot_lem :
    (heap : Heap) (ex : ExclusionSet) (es : List LimineMemmapEntry) (b : Buddy) (cs : List Call)
    → IsMemmap es
    → ((x : ℕ) → offered ex es x ≤ 1)
    → init heap ex es none ≡ some (some b)
    → (s : Buddy × Owned) × (run (b, []) cs ≡ some s) × IsLedger (offered ex es) s
unfolding node_or_new
boot_lem heap ex es b cs m once made =
    let r =
      init-Frees heap ex es none (replicate 11 []) m (new_node-IsBuddy heap)
        (λ x. omega (arith, once x)) in
    let e : r.slot ≡ some b = cc in
    run-IsLedger (offered ex es) once cs (b, [])
      (record {
        levels = r.levels';
        buddy = rw e at r.buddy;
        blocks = tt;
        total = λ x. omega (arith, r.cover x);
      })
