-- ===== src/AddressSpace/Lookup.antt =====
-- `find_vma` after a slot is filled or cleared.
use rumicos.Base.{
  ℕ, zero, suc, ◌≤◌, ◌<◌, ◌≡◌, refl, true, false, [], ◌∷◌, none, some, arith, length, get_or, set,
  if◌then◌else◌,
}
use rumicos.AddressSpace.{Vma, VmaSlots, contains, vma_overlaps, find_vma}
use rumicos.AddressSpace.Slots.{Apart}

-- Nothing is found inside a range that no area meets.
pub find_vma-none :
    (s : VmaSlots) (a b addr : ℕ)
    → vma_overlaps s a b ≡ false
    → a ≤ addr
    → addr < b
    → find_vma s addr ≡ none
unfolding find_vma vma_overlaps
find_vma-none [] a b addr h la lb = refl
find_vma-none (none ∷ s) a b addr h la lb = find_vma-none s a b addr h la lb
find_vma-none (some x ∷ s) a b addr h la lb = ground (arith, find_vma-none s a b addr)

-- A new area that meets no other is found inside itself, and nothing changes elsewhere.
pub find_vma-set :
    (s : VmaSlots) (k : ℕ) (v : Vma) (addr : ℕ)
    → k < length s
    → get_or s k none ≡ none
    → vma_overlaps s v.start v.end ≡ false
    → find_vma (set s k (some v)) addr ≡ (if contains v addr then some v else find_vma s addr)
unfolding find_vma vma_overlaps
find_vma-set [] k v addr lt free h = elim lt [ ]
find_vma-set (none ∷ s) zero v addr lt free h = refl
find_vma-set (none ∷ s) (suc k) v addr lt free h = find_vma-set s k v addr (omega arith) free h
find_vma-set (some x ∷ s) zero v addr lt free h = cc
find_vma-set (some x ∷ s) (suc k) v addr lt free h =
    ground (arith, find_vma-set s k v addr, find_vma-none s v.start v.end addr)

-- The area of a slot is what is found inside it.
pub find_vma-get :
    (s : VmaSlots) (k : ℕ) (v : Vma) (addr : ℕ)
    → Apart s
    → get_or s k none ≡ some v
    → contains v addr ≡ true
    → find_vma s addr ≡ some v
unfolding find_vma vma_overlaps
find_vma-get [] k v addr d at c = cc
find_vma-get (none ∷ s) zero v addr d at c = cc
find_vma-get (none ∷ s) (suc k) v addr d at c = find_vma-get s k v addr d at c
find_vma-get (some x ∷ s) zero v addr d at c = ground arith
find_vma-get (some x ∷ s) (suc k) v addr d at c =
    ground (arith, find_vma-get s k v addr, find_vma-none s x.start x.end addr)

-- Clearing a slot takes its area away, and nothing else.
pub find_vma-clear :
    (s : VmaSlots) (k : ℕ) (v : Vma) (addr : ℕ)
    → Apart s
    → get_or s k none ≡ some v
    → find_vma (set s k none) addr ≡ (if contains v addr then none else find_vma s addr)
unfolding find_vma vma_overlaps
find_vma-clear [] k v addr d at = cc
find_vma-clear (none ∷ s) zero v addr d at = cc
find_vma-clear (none ∷ s) (suc k) v addr d at = find_vma-clear s k v addr d at
find_vma-clear (some x ∷ s) zero v addr d at = ground (arith, find_vma-none s x.start x.end addr)
find_vma-clear (some x ∷ s) (suc k) v addr d at =
    ground (
      arith,
      find_vma-clear s k v addr,
      find_vma-get s k v addr,
      find_vma-none s x.start x.end addr,
    )
