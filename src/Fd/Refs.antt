-- ===== src/Fd/Refs.antt =====
-- How many descriptors hold a vnode, against its reference count.
use rumicos.Base.{
  ℕ, zero, suc, ◌+◌, ◌^◌, ◌<◌, ◌≤◌, ◌≡◌, ◌≢◌, inl, inr, [], ◌∷◌, Option, none, some, arith, length,
  get_or, set, if◌then◌else◌, ◌==◌, Bool-cases, ==_iff,
}
use rumicos.Fd.{FdEntry, Slots, Counts, inc_ref, dec_ref, inc_all}

-- 1 if this slot holds the vnode at `p`.
abbrev pub held : ℕ → Option FdEntry → ℕ
held p none = 0
held p (some e) = if e.vnode_ptr == p then 1 else 0

abbrev pub holders : ℕ → Slots → ℕ
holders p [] = 0
holders p (x ∷ s) = held p x + holders p s

pub held-le : (p : ℕ) (x : Option FdEntry) → held p x ≤ 1
held-le p none = omega arith
held-le p (some e) = ground arith

pub holders-le-length : (p : ℕ) (s : Slots) → holders p s ≤ length s
holders-le-length p [] = omega arith
holders-le-length p (x ∷ s) = omega (arith, held-le p x, holders-le-length p s)

-- A write trades the old holder for the new one.
pub holders-set :
    (p : ℕ) (s : Slots) (k : ℕ) (v : Option FdEntry)
    → k < length s
    → holders p (set s k v) + held p (get_or s k none) ≡ holders p s + held p v
holders-set p [] k v h = elim h [ ]
holders-set p (x ∷ s) zero v h = omega arith
holders-set p (x ∷ s) (suc k) v h = omega (arith, holders-set p s k v (omega arith))

pub held-le-holders : (p : ℕ) (s : Slots) (k : ℕ) → held p (get_or s k none) ≤ holders p s
held-le-holders p [] k = omega arith
held-le-holders p (x ∷ s) zero = omega arith
held-le-holders p (x ∷ s) (suc k) = omega (arith, held-le-holders p s k)

pub inc_ref_lem :
    (refs : Counts) (e : FdEntry) (p : ℕ)
    → refs p + 1 < 2 ^ 32
    → inc_ref refs e.vnode_ptr p ≡ refs p + held p (some e)
unfolding inc_ref
inc_ref_lem refs e p h = ground (arith, ==_iff e.vnode_ptr p)

pub dec_ref_lem :
    (refs : Counts) (e : FdEntry) (p : ℕ)
    → held p (some e) ≤ refs p
    → refs p < 2 ^ 32
    → dec_ref refs e.vnode_ptr p + held p (some e) ≡ refs p
unfolding dec_ref
dec_ref_lem refs e p h lt = ground (arith, ==_iff e.vnode_ptr p)

-- The counts after the loop of `clone_for_fork`.
pub inc_all_lem :
    (s : Slots) (refs : Counts) (p : ℕ)
    → p ≢ 0
    → refs p + holders p s + 1 < 2 ^ 32
    → inc_all s refs p ≡ refs p + holders p s
unfolding inc_all
inc_all_lem [] refs p h room = omega arith
inc_all_lem (none ∷ s) refs p h room = omega (arith, inc_all_lem s refs p h (omega arith))
inc_all_lem (some e ∷ s) refs p h room = elim (Bool-cases (e.vnode_ptr == 0)) [
  | inl z ↦ rw z (ground (arith, inc_all_lem s refs p h))
  | inr nz ↦
      rw nz (ground (arith, inc_ref_lem refs e p, inc_all_lem s (inc_ref refs e.vnode_ptr) p h))
]
