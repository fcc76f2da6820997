-- ===== src/Mmap/Mappings.antt =====
-- How many areas of a process map a vnode, and the reference that `munmap` drops.
use rumicos.Base.{
  ℕ, zero, suc, ◌+◌, ◌^◌, ◌≤◌, ◌<◌, ◌≡◌, [], ◌∷◌, Option, none, some, arith, if◌then◌else◌, ◌==◌,
  length, get_or, set,
}
use rumicos.Fd.{FdEntry, Counts}
use rumicos.Fd.Refs.{dec_ref_lem}
use rumicos.AddressSpace.{Backing, anonymous, file, Vma, VmaSlots}
use rumicos.Mmap.{drop_backing}

-- 1 if the backing is a file mapping of the vnode at `v`.
abbrev pub refers : ℕ → Backing → ℕ
refers v anonymous = 0
refers v (file vnode_ptr offset shared) = if vnode_ptr == v then 1 else 0

abbrev pub in_slot : ℕ → Option Vma → ℕ
in_slot v none = 0
in_slot v (some x) = refers v x.backing

abbrev pub mappings : ℕ → VmaSlots → ℕ
mappings v [] = 0
mappings v (x ∷ s) = in_slot v x + mappings v s

pub refers-le : (v : ℕ) (b : Backing) → refers v b ≤ 1
refers-le v anonymous = omega arith
refers-le v (file p o s) = ground arith

in_slot-le : (v : ℕ) (x : Option Vma) → in_slot v x ≤ 1
in_slot-le v none = omega arith
in_slot-le v (some x) = refers-le v x.backing

pub mappings-le-length : (v : ℕ) (s : VmaSlots) → mappings v s ≤ length s
mappings-le-length v [] = omega arith
mappings-le-length v (x ∷ s) = omega (arith, in_slot-le v x, mappings-le-length v s)

pub mappings-set :
    (v : ℕ) (s : VmaSlots) (k : ℕ) (x : Option Vma)
    → k < length s
    → mappings v (set s k x) + in_slot v (get_or s k none) ≡ mappings v s + in_slot v x
mappings-set v [] k x h = elim h [ ]
mappings-set v (y ∷ s) zero x h = omega arith
mappings-set v (y ∷ s) (suc k) x h = omega (arith, mappings-set v s k x (omega arith))

abbrev entry_of : ℕ → FdEntry
entry_of v = record { vnode_ptr = v; offset = 0; flags = 0; reserved = 0 }

pub drop_backing_lem :
    (refs : Counts) (b : Backing) (v : ℕ)
    → refers v b ≤ refs v
    → refs v < 2 ^ 32
    → drop_backing refs b v + refers v b ≡ refs v
unfolding drop_backing
drop_backing_lem refs anonymous v h lt = omega arith
drop_backing_lem refs (file p o s) v h lt = dec_ref_lem refs (entry_of p) v h lt
