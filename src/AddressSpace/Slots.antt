-- ===== src/AddressSpace/Slots.antt =====
-- Areas that keep apart, and what a write to one slot does to them.
use rumicos.Base.{
  ℕ, zero, suc, ◌%◌, ◌≤◌, ◌<◌, ◌≡◌, refl, false, [], ◌∷◌, none, some, arith, length, get_or, set,
}
use rumicos.AddressSpace.{
  Vma, VmaSlots, overlaps, vma_overlaps, free_slot, exact_slot, mmap_region_end,
}

-- A page-aligned area inside the region of `mmap`, of at least one page.
pub record IsArea (v : Vma) : Type 0 where
  pub start_aligned : v.start % 4096 ≡ 0
  pub end_aligned : v.end % 4096 ≡ 0
  pub inhabited : v.start < v.end
  pub in_region : v.end ≤ mmap_region_end

-- Every slot holds an area that meets no later one.
abbrev pub Apart : VmaSlots → Type 0
Apart [] = Unit {0}
Apart (none ∷ s) = Apart s
Apart (some v ∷ s) = IsArea v × (vma_overlaps s v.start v.end ≡ false) × Apart s

overlaps-set :
    (s : VmaSlots) (k : ℕ) (v : Vma) (a b : ℕ)
    → vma_overlaps s a b ≡ false
    → overlaps v a b ≡ false
    → vma_overlaps (set s k (some v)) a b ≡ false
unfolding vma_overlaps
overlaps-set [] k v a b h o = refl
overlaps-set (none ∷ s) zero v a b h o = ground arith
overlaps-set (none ∷ s) (suc k) v a b h o = overlaps-set s k v a b h o
overlaps-set (some x ∷ s) zero v a b h o = ground arith
overlaps-set (some x ∷ s) (suc k) v a b h o = ground (arith, overlaps-set s k v a b)

overlaps-clear :
    (s : VmaSlots) (k a b : ℕ)
    → vma_overlaps s a b ≡ false
    → vma_overlaps (set s k none) a b ≡ false
unfolding vma_overlaps
overlaps-clear [] k a b h = refl
overlaps-clear (none ∷ s) zero a b h = h
overlaps-clear (none ∷ s) (suc k) a b h = overlaps-clear s k a b h
overlaps-clear (some x ∷ s) zero a b h = ground arith
overlaps-clear (some x ∷ s) (suc k) a b h = ground (arith, overlaps-clear s k a b)

pub Apart-set :
    (s : VmaSlots) (k : ℕ) (v : Vma)
    → Apart s
    → IsArea v
    → get_or s k none ≡ none
    → vma_overlaps s v.start v.end ≡ false
    → Apart (set s k (some v))
unfolding vma_overlaps
Apart-set [] k v d g free h = tt
Apart-set (none ∷ s) zero v d g free h = (g, h, d)
Apart-set (none ∷ s) (suc k) v d g free h = Apart-set s k v d g free h
Apart-set (some x ∷ s) zero v d g free h = cc
Apart-set (some x ∷ s) (suc k) v d g free h = (
  d.0,
  overlaps-set s k v x.start x.end d.1 (ground arith),
  Apart-set s k v d.2 g free (ground arith),
)

pub Apart-clear : (s : VmaSlots) (k : ℕ) → Apart s → Apart (set s k none)
Apart-clear [] k d = tt
Apart-clear (none ∷ s) zero d = d
Apart-clear (none ∷ s) (suc k) d = Apart-clear s k d
Apart-clear (some x ∷ s) zero d = d.2
Apart-clear (some x ∷ s) (suc k) d =
    (d.0, overlaps-clear s k x.start x.end d.1, Apart-clear s k d.2)

-- `free_slot` finds a slot that is there and empty, if there is one.
pub free_slot_lem :
    (s : VmaSlots) (k : ℕ) → free_slot s ≡ some k → (k < length s) × (get_or s k none ≡ none)
unfolding free_slot
free_slot_lem [] k h = cc
free_slot_lem (none ∷ s) k h = ground arith
free_slot_lem (some x ∷ s) zero h = ground arith
free_slot_lem (some x ∷ s) (suc k) h = ground (arith, free_slot_lem s k)

-- It finds none only in a full table.
pub free_slot-none :
    (s : VmaSlots) (k : ℕ)
    → free_slot s ≡ none
    → k < length s
    → (v : Vma) × (get_or s k none ≡ some v)
unfolding free_slot
free_slot-none [] k h lt = elim lt [ ]
free_slot-none (none ∷ s) k h lt = absurd (ground arith)
free_slot-none (some x ∷ s) zero h lt = (x, refl)
free_slot-none (some x ∷ s) (suc k) h lt = free_slot-none s k (ground arith) (omega arith)

-- `exact_slot` finds a slot with exactly the area `[a, b)`.
pub exact_slot_lem :
    (s : VmaSlots) (a b k : ℕ)
    → exact_slot s a b ≡ some k
    → (v : Vma) × (get_or s k none ≡ some v) × (v.start ≡ a) × (v.end ≡ b) × (k < length s)
unfolding exact_slot
exact_slot_lem [] a b k h = cc
exact_slot_lem (none ∷ s) a b zero h = ground arith
exact_slot_lem (none ∷ s) a b (suc k) h =
    let (v, at, st, en, lt) = exact_slot_lem s a b k (ground arith) in (v, at, st, en, omega arith)
exact_slot_lem (some x ∷ s) a b zero h = (x, refl, ground arith, ground arith, omega arith)
exact_slot_lem (some x ∷ s) a b (suc k) h =
    let (v, at, st, en, lt) = exact_slot_lem s a b k (ground arith) in (v, at, st, en, omega arith)

-- It finds none only if no slot has that area.
pub exact_slot-none :
    (s : VmaSlots) (a b k : ℕ) (v : Vma)
    → exact_slot s a b ≡ none
    → get_or s k none ≡ some v
    → (v.start ≡ a)
    → (v.end ≡ b)
    → ⊥
unfolding exact_slot
exact_slot-none [] a b k v h at st en = cc
exact_slot-none (none ∷ s) a b zero v h at st en = cc
exact_slot-none (none ∷ s) a b (suc k) v h at st en =
    exact_slot-none s a b k v (ground arith) at st en
exact_slot-none (some x ∷ s) a b zero v h at st en = ground arith
exact_slot-none (some x ∷ s) a b (suc k) v h at st en =
    exact_slot-none s a b k v (ground arith) at st en
