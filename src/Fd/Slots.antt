-- ===== src/Fd/Slots.antt =====
-- What the scan for a free slot finds, and how `alloc` and the lookups use it.
use mathlib.Core.Option
use rumicos.Base.{
  ℕ, zero, suc, ◌+◌, ◌<◌, ◌≡◌, refl, [], ◌∷◌, Option, none, some, arith, length, get_or, set,
}
use rumicos.Fd.{FdEntry, Slots, install}

abbrev pub IsOccupied : Slots → ℕ → Type 0
IsOccupied s k = (x : FdEntry) × (get_or s k none ≡ some x)

-- The scan of `s` for `e`: it fails on a full table, and otherwise fills the lowest free slot.
pub data Scans (s : Slots) (e : FdEntry) (first : ℕ) (r : Option (ℕ × Slots)) : Type 0 where
  full : r ≡ none → ((k : ℕ) → k < length s → IsOccupied s k) → Scans s e first r
  found :
      (j : ℕ)
      → r ≡ some (first + j, set s j (some e))
      → j < length s
      → get_or s j none ≡ none
      → ((k : ℕ) → k < j → IsOccupied s k)
      → Scans s e first r

Scans-cons :
    (x : FdEntry) (s : Slots) (e : FdEntry) (i : ℕ) {r : Option (ℕ × Slots)}
    → Scans s e (i + 1) r
    → Scans (some x ∷ s) e i (Option.map (λ (p : ℕ × Slots). (p.0, some x ∷ p.1)) r)
Scans-cons x s e i (full no_room taken) = full (ground arith) λ k h. at k h
  where
    at : (k : ℕ) → k < length (some x ∷ s) → IsOccupied (some x ∷ s) k
    at zero h = (x, refl)
    at (suc k) h = taken k (omega arith)
Scans-cons x s e i (found j hit within free below) =
    found (suc j) (ground arith) (omega arith) free λ k h. at k h
  where
    at : (k : ℕ) → k < suc j → IsOccupied (some x ∷ s) k
    at zero h = (x, refl)
    at (suc k) h = below k (omega arith)

pub install-Scans : (s : Slots) (i : ℕ) (e : FdEntry) → Scans s e i (install s i e)
unfolding install
install-Scans [] i e = full refl (λ k h. elim h [ ])
install-Scans (none ∷ s) i e = found 0 (ground arith) (omega arith) refl (λ k h. elim h [ ])
install-Scans (some x ∷ s) i e = Scans-cons x s e i (install-Scans s (i + 1) e)
