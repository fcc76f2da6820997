-- ===== src/Paging/Examples.antt =====
-- The theorems on page tables at one small tree.
use rumicos.Base.{ℕ, ◌+◌, ◌^◌, ◌<◌, ◌≡◌, refl, List, [], ◌∷◌, Option, none, some, arith}
use rumicos.Paging.{
  phys_new, frame_bits, new_page, frame, flags_of, is_present, is_huge_page, with_present,
  with_writable, pml4_index, pdpt_index, pd_index, pt_index, page_offset, is_user_space,
  is_kernel_space,
}
use rumicos.Paging.Fields.{IsFlags, new_page_round_trip}
use rumicos.Paging.Indices.{assembled, indices_lem}
use rumicos.Paging.Walk.{Tables, set, zero_table, populated, enter, map_page, translate}
use rumicos.Paging.Walk.Mapped.{translate-map_page}

-- Present, writable, for the user and not executable.
abbrev data_flags : IsFlags (2 ^ 63 + 7)
data_flags = record { low = 7; top = 1; small = omega arith; one = omega arith; whole = refl }

new_page_round_trip_example :
    (frame (new_page 0x1234_5000 (2 ^ 63 + 7)) ≡ 0x1234_5000)
    × (flags_of (new_page 0x1234_5000 (2 ^ 63 + 7)) ≡ 2 ^ 63 + 7)
new_page_round_trip_example =
    new_page_round_trip 0x1234_5000 (2 ^ 63 + 7) refl (omega arith) data_flags

abbrev high : ℕ
high = 0xFFFF_FFFF_8001_2345

indices_lem_example :
    (high
      ≡ assembled
          (is_kernel_space high)
          (pml4_index high)
          (pdpt_index high)
          (pd_index high)
          (pt_index high)
          (page_offset high))
    × (pml4_index high < 512)
    × (pdpt_index high < 512)
    × (pd_index high < 512)
    × (pt_index high < 512)
    × (page_offset high < 4096)
unfolding is_user_space is_kernel_space
indices_lem_example = indices_lem high (omega arith) refl

abbrev empty : Tables
empty = λ table index. 0

abbrev or_else : Option (Tables × List ℕ × ℕ) → Tables × List ℕ × ℕ
or_else none = (empty, [], 0)
or_else (some entered) = entered

abbrev fresh : List ℕ
fresh = 0x2000 ∷ 0x3000 ∷ 0x4000 ∷ 0x6000 ∷ []

abbrev first : Tables × List ℕ × ℕ
first = or_else (enter empty fresh 0x1000 (pml4_index 0x40_1234))

abbrev second : Tables × List ℕ × ℕ
second = or_else (enter first.0 first.1 first.2 (pdpt_index 0x40_1234))

abbrev third : Tables × List ℕ × ℕ
third = or_else (enter second.0 second.1 second.2 (pd_index 0x40_1234))

translate-map_page_example :
    (tables : Tables) × (map_page empty fresh 0x1000 0x40_1234 0x5000 (2 ^ 63 + 7)
      ≡ some (tables, third.1))
    × (translate tables 0x1000 0x40_1FF8 ≡ some (0x5000 + page_offset 0x40_1FF8))
unfolding enter populated set zero_table is_present is_huge_page new_page frame phys_new frame_bits
    with_writable with_present pml4_index pdpt_index pd_index pt_index
translate-map_page_example =
    translate-map_page empty fresh 0x1000 0x40_1234 0x5000 (2 ^ 63 + 7) 0x40_1FF8 first second third
      (refl, omega arith, (refl, omega arith, (refl, omega arith, (refl, omega arith, tt)))) refl
      refl refl
      (
        (λ e. ground arith),
        (λ e. ground arith),
        (λ e. ground arith),
        (λ e. ground arith),
        (λ e. ground arith),
        (λ e. ground arith),
      )
      refl refl refl (omega arith) data_flags refl (refl, refl, refl, refl)
