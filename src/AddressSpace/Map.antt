-- ===== src/AddressSpace/Map.antt =====
-- `mmap`: the space it keeps, where it places an area, and when it fails.
use rumicos.Base.{
  ℕ, ◌+◌, ◌%◌, ◌≤◌, ◌<◌, ◌≡◌, refl, ap, subst, ◌∙◌, ◌⊎◌, inl, inr, true, not, ◌||◌, Option, none,
  some, arith, if◌then◌else◌, ◌==◌, Bool-cases, Option-cases, bit_and, get_or, set, get_or-set_self,
  length, length-set,
}
use rumicos.Base.Masks.{bit_and-low}
use rumicos.AddressSpace.{
  AddressSpace, Backing, Vma, contains, vma_overlaps, find_vma, find_gap, gap_fuel, free_slot,
  mmap_region_end, max_vmas, align_up_page, mmap, in_slot, search_from, place,
}
use rumicos.AddressSpace.Slots.{IsArea, Apart, Apart-set, free_slot_lem, free_slot-none}
use rumicos.AddressSpace.Lookup.{find_vma-set}
use rumicos.AddressSpace.Gap.{
  IsGap, find_gap-IsGap, find_gap-none, candidate, gap_fuel-enough, align_up_page_lem,
}

-- A full-size table of areas that keep apart, and an aligned cursor within the region.
pub record IsSpace (a : AddressSpace) : Type 0 where
  pub size : length a.vmas ≡ max_vmas
  pub apart : Apart a.vmas
  pub cursor_aligned : a.mmap_next % 4096 ≡ 0
  pub cursor_in_region : a.mmap_next ≤ mmap_region_end

abbrev pub area : ℕ → ℕ → ℕ → Backing → Vma
area start len flags backing = record {
  start = start;
  end = start + len;
  flags = flags;
  backing = backing;
}

-- The ways in which `mmap` ends.
pub data Maps (a : AddressSpace) (len flags : ℕ) (backing : Backing) (r : AddressSpace × Option ℕ)
    : Type 0 where
  bad_length : r ≡ (a, none) → (len ≡ 0) ⊎ (0 < len % 4096) → Maps a len flags backing r
  full : r ≡ (a, none) → free_slot a.vmas ≡ none → Maps a len flags backing r
  no_gap :
      r ≡ (a, none)
      → 4096 ≤ len
      → find_gap gap_fuel a.vmas len a.mmap_next ≡ none
      → Maps a len flags backing r
  maps :
      (slot g : ℕ)
      → free_slot a.vmas ≡ some slot
      → len % 4096 ≡ 0
      → 4096 ≤ len
      → IsGap a.vmas len a.mmap_next g
      → r ≡ (
        record { vmas = set a.vmas slot (some (area g len flags backing)); mmap_next = g + len },
        some g,
      )
      → Maps a len flags backing r

pub mmap-Maps :
    (a : AddressSpace) (len flags : ℕ) (backing : Backing)
    → IsSpace a
    → Maps a len flags backing (mmap a len flags backing)
unfolding mmap
mmap-Maps a len flags backing v = elim (Bool-cases (len == 0 || not (bit_and len 4095 == 0))) [
  | inl bad ↦ rw bad (bad_length refl (ground (arith, bit_and-low 12 len)))
  | inr good ↦ elim (Option-cases (free_slot a.vmas)) [
    | inl e ↦ rw (good, e, in_slot) (full refl e)
    | inr (slot, e) ↦
        let whole : len % 4096 ≡ 0 = ground (arith, bit_and-low 12 len) in
        let big : 4096 ≤ len = ground (arith, bit_and-low 12 len) in
        let start : align_up_page a.mmap_next ≡ some a.mmap_next =
          align_up_page_lem a.mmap_next (omega (arith, v.cursor_in_region))
          ∙ ap some (omega (arith, v.cursor_aligned)) in
        elim (Option-cases (find_gap gap_fuel a.vmas len a.mmap_next)) [
          | inl none_left ↦
              rw (good, e, in_slot, start, search_from, none_left, place)
                (no_gap refl big none_left)
          | inr (g, found) ↦
              rw (good, e, in_slot, start, search_from, found, place)
                (maps slot g e whole big
                  (find_gap-IsGap gap_fuel a.vmas len a.mmap_next g whole v.cursor_aligned found)
                  refl)
        ]
  ]
]

-- What a mapping at `g` does to the space.
pub record Placed (a : AddressSpace) (len flags : ℕ) (backing : Backing) (g : ℕ) (a' : AddressSpace)
    : Type 0 where
  pub space : IsSpace a'
  pub gap : IsGap a.vmas len a.mmap_next g
  pub cursor : a'.mmap_next ≡ g + len
  pub stored : (k : ℕ) × (get_or a'.vmas k none ≡ some (area g len flags backing))
  pub found :
      (addr : ℕ)
      → find_vma a'.vmas addr ≡ (
          if contains (area g len flags backing) addr
          then some (area g len flags backing)
          else find_vma a.vmas addr)

placed :
    (a : AddressSpace) (len flags : ℕ) (backing : Backing) (slot g : ℕ)
    → IsSpace a
    → free_slot a.vmas ≡ some slot
    → len % 4096 ≡ 0
    → 4096 ≤ len
    → IsGap a.vmas len a.mmap_next g
    → Placed a len flags backing g
        (record { vmas = set a.vmas slot (some (area g len flags backing)); mmap_next = g + len })
placed a len flags backing slot g v at whole big gap = record {
  space = record {
    size = length-set a.vmas slot (some new_area) ∙ v.size;
    apart = Apart-set a.vmas slot new_area v.apart is_area empty.1 gap.free;
    cursor_aligned = omega (arith, whole, gap.aligned);
    cursor_in_region = gap.in_region;
  };
  gap = gap;
  cursor = refl;
  stored = (slot, get_or-set_self a.vmas slot (some new_area) none empty.0);
  found = λ addr. find_vma-set a.vmas slot new_area addr empty.0 empty.1 gap.free;
}
  where
    new_area : Vma
    new_area = area g len flags backing

    empty : (slot < length a.vmas) × (get_or a.vmas slot none ≡ none)
    empty = free_slot_lem a.vmas slot at

    is_area : IsArea new_area
    is_area = record {
      start_aligned = gap.aligned;
      end_aligned = omega (arith, whole, gap.aligned);
      inhabited = omega (arith, big);
      in_region = gap.in_region;
    }

result-some :
    {r : AddressSpace × Option ℕ} {a' : AddressSpace} {g g' : ℕ}
    → r ≡ (a', some g')
    → r.1 ≡ some g
    → g' ≡ g
result-some e h = ground arith

-- A mapping takes a page-aligned range at or above the cursor and inside the region, which no
-- area met before; inside it the new area is found, and everywhere else what was found before.
-- The cursor moves to its end, and the space stays well formed.
pub mmap-Placed :
    (a : AddressSpace) (len flags : ℕ) (backing : Backing) (g : ℕ)
    → IsSpace a
    → (mmap a len flags backing).1 ≡ some g
    → Placed a len flags backing g (mmap a len flags backing).0
mmap-Placed a len flags backing g v h =
    go (mmap a len flags backing) (mmap-Maps a len flags backing v) h
  where
    go :
        (r : AddressSpace × Option ℕ)
        → Maps a len flags backing r
        → r.1 ≡ some g
        → Placed a len flags backing g r.0
    go r (bad_length e _) h = absurd (ground (arith, e, h))
    go r (full e _) h = absurd (ground (arith, e, h))
    go r (no_gap e _ _) h = absurd (ground (arith, e, h))
    go r (maps slot g' at whole big gap e) h =
        let same = result-some e h in
        rw e (
          subst
            (λ x. Placed a len flags backing x (record {
              vmas = set a.vmas slot (some (area g' len flags backing));
              mmap_next = g' + len;
            }))
            same (placed a len flags backing slot g' v at whole big gap))

-- A failed mapping changes nothing, and has a reason: a length that is no positive number of
-- pages, no free slot, or an area in the way at every address that the search may try.
pub mmap_fails :
    (a : AddressSpace) (len flags : ℕ) (backing : Backing)
    → IsSpace a
    → (mmap a len flags backing).1 ≡ none
    → ((mmap a len flags backing).0 ≡ a)
      × (((len ≡ 0) ⊎ (0 < len % 4096))
          ⊎ ((k : ℕ) → k < max_vmas → (u : Vma) × (get_or a.vmas k none ≡ some u))
          ⊎ ((j : ℕ)
              → candidate a.mmap_next len j + len ≤ mmap_region_end
              → vma_overlaps a.vmas
                  (candidate a.mmap_next len j)
                  (candidate a.mmap_next len j + len)
                ≡ true))
mmap_fails a len flags backing v h =
    go (mmap a len flags backing) (mmap-Maps a len flags backing v) h
  where
    go :
        (r : AddressSpace × Option ℕ)
        → Maps a len flags backing r
        → r.1 ≡ none
        → (r.0 ≡ a)
          × (((len ≡ 0) ⊎ (0 < len % 4096))
              ⊎ ((k : ℕ) → k < max_vmas → (u : Vma) × (get_or a.vmas k none ≡ some u))
              ⊎ ((j : ℕ)
                  → candidate a.mmap_next len j + len ≤ mmap_region_end
                  → vma_overlaps a.vmas
                      (candidate a.mmap_next len j)
                      (candidate a.mmap_next len j + len)
                    ≡ true))
    go r (bad_length e why) h = (ap (λ (x : AddressSpace × Option ℕ). x.0) e, inl why)
    go r (full e none_free) h = (
      ap (λ (x : AddressSpace × Option ℕ). x.0) e,
      inr (inl (λ k lt. free_slot-none a.vmas k none_free (omega (arith, v.size, lt)))),
    )
    go r (no_gap e big none_left) h = (
      ap (λ (x : AddressSpace × Option ℕ). x.0) e,
      inr (
          inr (λ j fits.
            find_gap-none gap_fuel a.vmas len a.mmap_next j big (gap_fuel-enough a.mmap_next)
              none_left fits)),
    )
    go r (maps slot g' at whole big gap e) h = absurd (ground (arith, e, h))
