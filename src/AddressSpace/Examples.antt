-- ===== src/AddressSpace/Examples.antt =====
-- A space with one file mapping of two pages, right at the cursor.
use rumicos.Base.{
  ℕ, ◌+◌, ◌<◌, ◌≤◌, ◌≡◌, ◌⊎◌, refl, true, [], ◌∷◌, none, some, arith, replicate, get_or,
}
use rumicos.AddressSpace.{
  AddressSpace, Vma, anonymous, file, max_vmas, mmap_base, mmap_region_end, mmap, munmap, find_vma,
  vma_overlaps, new, free_slot, align_up_page, find_gap,
}
use rumicos.AddressSpace.Slots.{IsArea}
use rumicos.AddressSpace.Gap.{candidate}
use rumicos.AddressSpace.Map.{IsSpace, Placed, mmap-Placed, mmap_fails}
use rumicos.AddressSpace.Unmap.{munmap-mmap, mmaps, munmaps, forks, run, run-new-IsSpace}

abbrev two_pages : Vma
two_pages = record {
  start = mmap_base;
  end = mmap_base + 8192;
  flags = 1;
  backing = file 0x9000 0 true;
}

abbrev one_area : AddressSpace
one_area = record { vmas = some two_pages ∷ replicate 31 none; mmap_next = mmap_base }

two_pages-IsArea : IsArea two_pages
two_pages-IsArea = record {
  start_aligned = refl;
  end_aligned = refl;
  inhabited = omega arith;
  in_region = omega arith;
}

one_area-IsSpace : IsSpace one_area
unfolding vma_overlaps
one_area-IsSpace = record {
  size = refl;
  apart = (two_pages-IsArea, refl, tt);
  cursor_aligned = refl;
  cursor_in_region = omega arith;
}

-- The search skips the two pages that are taken.
skips_taken : (mmap one_area 4096 3 anonymous).1 ≡ some (mmap_base + 8192)
unfolding mmap free_slot align_up_page find_gap vma_overlaps
skips_taken = refl

mmap-Placed_example :
    Placed one_area 4096 3 anonymous (mmap_base + 8192) (mmap one_area 4096 3 anonymous).0
mmap-Placed_example =
    mmap-Placed one_area 4096 3 anonymous (mmap_base + 8192) one_area-IsSpace skips_taken

abbrev half_page : ℕ
half_page = 2048

no_half_page : (mmap one_area half_page 3 anonymous).1 ≡ none
unfolding mmap
no_half_page = refl

mmap_fails_example :
    ((mmap one_area half_page 3 anonymous).0 ≡ one_area)
    × (((half_page ≡ 0) ⊎ (0 < half_page))
        ⊎ ((k : ℕ) → k < max_vmas → (u : Vma) × (get_or one_area.vmas k none ≡ some u))
        ⊎ ((j : ℕ)
            → candidate mmap_base half_page j + half_page ≤ mmap_region_end
            → vma_overlaps one_area.vmas
                (candidate mmap_base half_page j)
                (candidate mmap_base half_page j + half_page)
              ≡ true))
mmap_fails_example = mmap_fails one_area half_page 3 anonymous one_area-IsSpace no_half_page

munmap-mmap_example :
    let (a, done) = munmap (mmap one_area 4096 3 anonymous).0 (mmap_base + 8192) 4096 in
    (done ≡ true) × ((x : ℕ) → find_vma a.vmas x ≡ find_vma one_area.vmas x)
munmap-mmap_example =
    munmap-mmap one_area 4096 3 anonymous (mmap_base + 8192) one_area-IsSpace skips_taken

run-new-IsSpace_example :
    IsSpace (run new (mmaps 4096 3 anonymous ∷ forks ∷ munmaps mmap_base 4096 ∷ []))
run-new-IsSpace_example =
    run-new-IsSpace (mmaps 4096 3 anonymous ∷ forks ∷ munmaps mmap_base 4096 ∷ [])
