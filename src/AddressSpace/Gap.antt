-- ===== src/AddressSpace/Gap.antt =====
-- The search of `mmap` for an address.
use rumicos.Base.{
  ℕ, zero, suc, ◌+◌, ◌-◌, ◌*◌, ◌/◌, ◌%◌, ◌^◌, ◌≤◌, ◌<◌, ◌≡◌, true, false, none, some, arith,
}
use rumicos.Base.Masks.{bit_and-high, bit_and-low}
use rumicos.AddressSpace.{
  VmaSlots, vma_overlaps, find_gap, gap_fuel, mmap_region_end, align_up_page,
}

-- Rounding up to a page, as long as the word does not overflow.
pub align_up_page_lem :
    (v : ℕ) → v + 4095 < 2 ^ 64 → align_up_page v ≡ some ((v + 4095) / 4096 * 4096)
unfolding align_up_page
align_up_page_lem v h =
    let e = bit_and-high 12 (v + 4095) (2 ^ 52 - 1) in
    let e' = bit_and-low 52 ((v + 4095) / 4096) in ground (arith, e, e')

-- An address that the search returns is free for the whole length and keeps the alignment.
pub record IsGap (s : VmaSlots) (len start g : ℕ) : Type 0 where
  pub free : vma_overlaps s g (g + len) ≡ false
  pub from : start ≤ g
  pub in_region : g + len ≤ mmap_region_end
  pub aligned : g % 4096 ≡ 0

pub find_gap-IsGap :
    (fuel : ℕ) (s : VmaSlots) (len start g : ℕ)
    → len % 4096 ≡ 0
    → start % 4096 ≡ 0
    → find_gap fuel s len start ≡ some g
    → IsGap s len start g
unfolding find_gap
find_gap-IsGap zero s len start g la sa h = cc
find_gap-IsGap (suc fuel) s len start g la sa h =
    ground (arith, find_gap-IsGap fuel s len (start + len) g)

-- The addresses that the search tries.
pub candidate : ℕ → ℕ → ℕ → ℕ
candidate start len zero = start
candidate start len (suc j) = candidate (start + len) len j

candidate-le : (j start len : ℕ) → start ≤ candidate start len j
unfolding candidate
candidate-le zero start len = omega arith
candidate-le (suc j) start len = omega (arith, candidate-le j (start + len) len)

-- With a round for each page up to the end of the region, the search fails only if every
-- candidate that fits the region is taken.
pub find_gap-none :
    (fuel : ℕ) (s : VmaSlots) (len start j : ℕ)
    → 4096 ≤ len
    → mmap_region_end < start + fuel * 4096
    → find_gap fuel s len start ≡ none
    → candidate start len j + len ≤ mmap_region_end
    → vma_overlaps s (candidate start len j) (candidate start len j + len) ≡ true
unfolding find_gap candidate
find_gap-none zero s len start j big enough h fits =
    absurd (omega (arith, candidate-le j start len))
find_gap-none (suc fuel) s len start zero big enough h fits = ground arith
find_gap-none (suc fuel) s len start (suc j) big enough h fits =
    find_gap-none fuel s len (start + len) j big (omega arith)
      (ground (arith, candidate-le j (start + len) len)) fits

pub gap_fuel-enough : (start : ℕ) → mmap_region_end < start + gap_fuel * 4096
gap_fuel-enough start = omega arith
