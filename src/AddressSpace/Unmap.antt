-- ===== src/AddressSpace/Unmap.antt =====
-- `munmap`, and what any sequence of calls keeps.
use rumicos.Base.{
  ℕ, zero, suc, ◌+◌, ◌^◌, ◌<◌, ◌≡◌, refl, ◌∙◌, ◌⊎◌, inl, inr, true, false, ◌&&◌, List, [], ◌∷◌,
  none, some, arith, if◌then◌else◌, ltb, leb, Bool-cases, Option-cases, get_or, set, length-set,
  replicate,
}
use rumicos.AddressSpace.{
  AddressSpace, Backing, Vma, find_vma, exact_slot, max_vmas, mmap, munmap, clear_slot, fork_cow,
  new,
}
use rumicos.AddressSpace.Slots.{Apart, Apart-clear, exact_slot_lem, exact_slot-none}
use rumicos.AddressSpace.Lookup.{find_vma-clear, find_vma-none}
use rumicos.AddressSpace.Map.{IsSpace, area, mmap-Placed, mmap_fails}

-- What `munmap` does to the space when it succeeds.
pub record Unmapped (a : AddressSpace) (addr len : ℕ) (a' : AddressSpace) : Type 0 where
  pub space : IsSpace a'
  pub cursor : a'.mmap_next ≡ a.mmap_next
  pub found :
      (x : ℕ)
      → find_vma a'.vmas x ≡ (if leb addr x && ltb x (addr + len) then none else find_vma a.vmas x)

-- Whether some slot holds exactly the range.
abbrev pub HasArea : AddressSpace → ℕ → ℕ → Type 0
HasArea a addr len =
    (k : ℕ) × (v : Vma) × (get_or a.vmas k none ≡ some v) × (v.start ≡ addr) × (v.end ≡ addr + len)

cleared :
    (a : AddressSpace) (addr len k : ℕ) (v : Vma)
    → IsSpace a
    → get_or a.vmas k none ≡ some v
    → v.start ≡ addr
    → v.end ≡ addr + len
    → Unmapped a addr len (record a { vmas = set a.vmas k none })
cleared a addr len k v s at st en = record {
  space = record {
    size = length-set a.vmas k none ∙ s.size;
    apart = Apart-clear a.vmas k s.apart;
    cursor_aligned = s.cursor_aligned;
    cursor_in_region = s.cursor_in_region;
  };
  cursor = refl;
  found = λ x. find_vma-clear a.vmas k v x s.apart at ∙ rw (st, en);
}

-- `munmap` of a range that ends in the address space succeeds exactly when some area is that
-- very range, which it then removes with nothing else; otherwise it changes nothing.
pub munmap_lem :
    (a : AddressSpace) (addr len : ℕ)
    → IsSpace a
    → addr + len < 2 ^ 64
    → let (a', done) = munmap a addr len in
      ((done ≡ true) × HasArea a addr len × Unmapped a addr len a')
      ⊎ ((done ≡ false) × (¬ HasArea a addr len) × (a' ≡ a))
unfolding munmap
munmap_lem a addr len s fits =
    let in_space : leb (2 ^ 64) (addr + len) ≡ false = ground arith in
    elim (Option-cases (exact_slot a.vmas addr (addr + len))) [
      | inl e ↦
          rw (in_space, e, clear_slot)
            (inr
              (refl, (λ h. exact_slot-none a.vmas addr (addr + len) h.0 h.1 e h.2 h.3 h.4), refl))
      | inr (k, e) ↦
          let (v, at, st, en, lt) = exact_slot_lem a.vmas addr (addr + len) k e in
          rw (in_space, e, clear_slot)
            (inl (refl, (k, v, at, st, en), cleared a addr len k v s at st en))
    ]

-- Mapping and unmapping again leaves every lookup as it was.
pub munmap-mmap :
    (a : AddressSpace) (len flags : ℕ) (backing : Backing) (g : ℕ)
    → IsSpace a
    → (mmap a len flags backing).1 ≡ some g
    → let (a', done) = munmap (mmap a len flags backing).0 g len in
      (done ≡ true) × ((x : ℕ) → find_vma a'.vmas x ≡ find_vma a.vmas x)
munmap-mmap a len flags backing g s h =
    let p = mmap-Placed a len flags backing g s h in
    let in_space : g + len < 2 ^ 64 = omega (arith, p.gap.in_region) in
    elim (munmap_lem (mmap a len flags backing).0 g len p.space in_space) [
      | inl (done, _, u) ↦ (
        done,
        λ x. ground (arith, u.found x, p.found x, find_vma-none a.vmas g (g + len) x p.gap.free),
      )
      | inr (_, missing, _) ↦
          absurd (missing (p.stored.0, area g len flags backing, p.stored.1, refl, refl))
    ]

pub data Call : Type 0 where
  mmaps : ℕ → ℕ → Backing → Call
  munmaps : ℕ → ℕ → Call
  forks : Call

-- The space of the process, or after `forks` that of its child.
unfoldable pub step : AddressSpace → Call → AddressSpace
step a (mmaps len flags backing) = (mmap a len flags backing).0
step a (munmaps addr len) = (munmap a addr len).0
step a forks = fork_cow a

pub run : AddressSpace → List Call → AddressSpace
run a [] = a
run a (c ∷ cs) = run (step a c) cs

new-Apart : (n : ℕ) → Apart (replicate n none)
new-Apart zero = tt
new-Apart (suc n) = new-Apart n

new-IsSpace : IsSpace new
unfolding new
new-IsSpace = record {
  size = refl;
  apart = new-Apart max_vmas;
  cursor_aligned = refl;
  cursor_in_region = omega arith;
}

pub munmap-IsSpace : (a : AddressSpace) (addr len : ℕ) → IsSpace a → IsSpace (munmap a addr len).0
unfolding munmap
munmap-IsSpace a addr len s = elim (Bool-cases (leb (2 ^ 64) (addr + len))) [
  | inl past ↦ rw past s
  | inr fits ↦ elim (munmap_lem a addr len s (ground arith)) [
    | inl (_, _, u) ↦ u.space
    | inr (_, _, same) ↦ rw same s
  ]
]

pub step-IsSpace : (a : AddressSpace) (c : Call) → IsSpace a → IsSpace (step a c)
unfolding step fork_cow
step-IsSpace a (mmaps len flags backing) s = elim (Option-cases (mmap a len flags backing).1) [
  | inl e ↦ rw (mmap_fails a len flags backing s e).0 s
  | inr (g, e) ↦ (mmap-Placed a len flags backing g s e).space
]
step-IsSpace a (munmaps addr len) s = munmap-IsSpace a addr len s
step-IsSpace a forks s = s

pub run-IsSpace : (cs : List Call) (a : AddressSpace) → IsSpace a → IsSpace (run a cs)
unfolding run
run-IsSpace [] a s = s
run-IsSpace (c ∷ cs) a s = run-IsSpace cs (step a c) (step-IsSpace a c s)

-- Whatever a fresh space is asked to map, to unmap and to hand to a child, it keeps its 32 slots,
-- and its areas stay page-aligned, not empty, inside the region of `mmap` and apart.
pub run-new-IsSpace : (cs : List Call) → IsSpace (run new cs)
run-new-IsSpace cs = run-IsSpace cs new new-IsSpace
