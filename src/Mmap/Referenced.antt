-- ===== src/Mmap/Referenced.antt =====
-- Each file mapping of a process holds one reference on its vnode.
use rumicos.Base.{
  ℕ, ◌+◌, ◌*◌, ◌^◌, not, ◌&&◌, ◌||◌, bit_and, subst, ◌<◌, ◌≡◌, ap, inl, inr, Bool, true, false,
  List, [], ◌∷◌, Option, none, some, arith, if◌then◌else◌, leb, ◌==◌, Bool-cases, Option-cases,
  get_or,
}
use rumicos.Base.Int.{ℤ}
use rumicos.Fd.{FdEntry, Counts, get, inc_ref, can_write, ebadf}
use rumicos.Fd.Refs.{inc_ref_lem}
use rumicos.AddressSpace.{
  AddressSpace, Backing, anonymous, file, Vma, VmaSlots, max_vmas, mmap, munmap, exact_slot,
  clear_slot,
}
use rumicos.AddressSpace.Slots.{free_slot_lem, exact_slot_lem}
use rumicos.AddressSpace.Map.{IsSpace, Maps, mmap-Maps, bad_length, full, no_gap, maps, area}
use rumicos.AddressSpace.Unmap.{step, step-IsSpace, munmap-IsSpace}
use rumicos.Mmap.{
  Process, sys_mmap, sys_munmap, map_checked, map_length, map_resolved, mapped_to, resolve,
  resolve_entry, Resolved, failed, resolved, drop_backing, drop_area, drop_slot, unmap,
  unmap_length, check_args, prot_to_page_flags, is_set, map_shared, map_anonymous, prot_write,
  eacces, as_i32,
}
use rumicos.Mmap.Mappings.{
  refers, in_slot, mappings, mappings-le-length, mappings-set, drop_backing_lem, refers-le,
}

-- What `sys_mmap` resolves its descriptor to has taken one reference.
Taken : Counts → Resolved → Type 0
Taken refs (failed e) = Unit {0}
Taken refs (resolved refs' b) = (v : ℕ) → refs v + 1 < 2 ^ 32 → refs' v ≡ refs v + refers v b

if-Taken :
    (refs : Counts) (c : Bool) (a b : Resolved)
    → Taken refs a
    → Taken refs b
    → Taken refs (if c then a else b)
if-Taken refs true a b h k = h
if-Taken refs false a b h k = k

resolve_entry-Taken :
    (refs : Counts) (prot flags offset : ℕ) (x : Option FdEntry)
    → Taken refs (resolve_entry refs prot flags offset x)
unfolding resolve_entry Taken
resolve_entry-Taken refs prot flags offset none = tt
resolve_entry-Taken refs prot flags offset (some e) =
    let b = file e.vnode_ptr offset (is_set flags map_shared) in
    let held_once : Taken refs (resolved (inc_ref refs e.vnode_ptr) b) =
      λ v h. inc_ref_lem refs e v h in
    if-Taken refs (is_set flags map_shared && (is_set prot prot_write && not (can_write e)))
      (failed eacces)
      (if e.vnode_ptr == 0 then failed ebadf else resolved (inc_ref refs e.vnode_ptr) b) tt
      (if-Taken refs (e.vnode_ptr == 0) (failed ebadf) (resolved (inc_ref refs e.vnode_ptr) b) tt
        held_once)

resolve-Taken :
    (p : Process) (prot flags : ℕ) (fd : ℤ) (offset : ℕ)
    → Taken p.refs (resolve p prot flags fd offset)
unfolding resolve Taken
resolve-Taken p prot flags fd offset =
    let none_held : Taken p.refs (resolved p.refs anonymous) = λ v h. omega arith in
    let x = get p.fd_table (as_i32 fd) in
    if-Taken p.refs (is_set flags map_anonymous) (resolved p.refs anonymous)
      (resolve_entry p.refs prot flags offset x) none_held
      (resolve_entry-Taken p.refs prot flags offset x)

-- The areas keep apart, and the count of a vnode is the number of mappings that hold it, with
-- `others v` references from elsewhere.
pub record IsReferenced (others : ℕ → ℕ) (p : Process) : Type 0 where
  pub space : IsSpace p.space
  pub counted : (v : ℕ) → p.refs v ≡ mappings v p.space.vmas + others v

-- No counter comes near its 32 bits.
abbrev pub HasRoom : (ℕ → ℕ) → Type 0
HasRoom others = (v : ℕ) → others v + 3 * max_vmas < 2 ^ 32

module _ (others : ℕ → ℕ) (room : HasRoom others) where
  counts-lt : (p : Process) (v : ℕ) → IsReferenced others p → p.refs v + 1 < 2 ^ 32
  counts-lt p v h =
      omega (arith, h.counted v, room v, mappings-le-length v p.space.vmas, h.space.size)

  mapped_to-IsReferenced :
      (p : Process) (refs : Counts) (len flags : ℕ) (b : Backing)
      → IsReferenced others p
      → Taken p.refs (resolved refs b)
      → (r : AddressSpace × Option ℕ) → Maps p.space len flags b r
      → IsSpace r.0
      → IsReferenced others (mapped_to p refs b r).0
  unfolding mapped_to Taken
  mapped_to-IsReferenced p refs len flags b h t r m s = go r m s
    where
      failed_again : (v : ℕ) → drop_backing refs b v ≡ mappings v p.space.vmas + others v
      failed_again v =
          let lt = counts-lt p v h in
          let took = t v lt in
          omega (
            arith,
            h.counted v,
            took,
            lt,
            drop_backing_lem refs b v (omega (arith, took))
                (omega (arith, took, lt, refers-le v b)),
          )

      go :
          (r : AddressSpace × Option ℕ)
          → Maps p.space len flags b r
          → IsSpace r.0
          → IsReferenced others (mapped_to p refs b r).0
      go r (bad_length e _) s = rw e (record { space = h.space; counted = failed_again })
      go r (full e _) s = rw e (record { space = h.space; counted = failed_again })
      go r (no_gap e _ _) s = rw e (record { space = h.space; counted = failed_again })
      go r (maps slot g at whole big gap e) s =
          let empty = free_slot_lem p.space.vmas slot at in
          let s' = subst (λ (x : AddressSpace × Option ℕ). IsSpace x.0) e s in
          rw e (record {
            space = s';
            counted = λ v. omega (
              arith,
              h.counted v,
              t v (counts-lt p v h),
              mappings-set v p.space.vmas slot (some (area g len flags b)) empty.0,
              ap (in_slot v) empty.1,
            );
          })

  map_length-IsReferenced :
      (p : Process) (prot flags : ℕ) (fd : ℤ) (offset : ℕ) (len : Option ℕ)
      → IsReferenced others p
      → IsReferenced others (map_length p prot flags fd offset len).0
  unfolding map_length step
  map_length-IsReferenced p prot flags fd offset none h = h
  map_length-IsReferenced p prot flags fd offset (some len) h =
      go (resolve p prot flags fd offset) (resolve-Taken p prot flags fd offset)
    where
      go : (r : Resolved) → Taken p.refs r → IsReferenced others (map_resolved p len prot r).0
      go (failed e) t = h
      go (resolved refs b) t =
          mapped_to-IsReferenced p refs len (prot_to_page_flags prot) b h t
            (mmap p.space len (prot_to_page_flags prot) b)
            (mmap-Maps p.space len (prot_to_page_flags prot) b h.space)
            (step-IsSpace p.space
              (rumicos.AddressSpace.Unmap.Call.mmaps len (prot_to_page_flags prot) b) h.space)

  map_checked-IsReferenced :
      (p : Process) (bytes prot flags : ℕ) (fd : ℤ) (offset : ℕ) (e : Option ℤ)
      → IsReferenced others p
      → IsReferenced others (map_checked p bytes prot flags fd offset e).0
  unfolding map_checked
  map_checked-IsReferenced p bytes prot flags fd offset none h =
      map_length-IsReferenced p prot flags fd offset _ h
  map_checked-IsReferenced p bytes prot flags fd offset (some e) h = h

  -- The slot that `munmap` clears gives back the reference that it holds.
  unmap-counted :
      (p : Process) (addr len v : ℕ)
      → IsReferenced others p
      → (unmap p addr len).0.refs v ≡ mappings v (unmap p addr len).0.space.vmas + others v
  unfolding unmap munmap
  unmap-counted p addr len v h = elim (Bool-cases (leb (2 ^ 64) (addr + len))) [
    | inl past ↦ rw past (h.counted v)
    | inr fits ↦ elim (Option-cases (exact_slot p.space.vmas addr (addr + len))) [
      | inl e ↦ rw (fits, e, clear_slot, drop_slot) (h.counted v)
      | inr (k, e) ↦
          let (x, at, st, en, within) = exact_slot_lem p.space.vmas addr (addr + len) k e in
          let traded = mappings-set v p.space.vmas k none within in
          let freed : in_slot v (get_or p.space.vmas k none) ≡ refers v x.backing =
            ap (in_slot v) at in
          rw (fits, e, clear_slot, drop_slot, at, drop_area)
            (omega (
              arith,
              traded,
              freed,
              h.counted v,
              drop_backing_lem p.refs x.backing v (omega (arith, traded, freed, h.counted v))
                  (omega (arith, counts-lt p v h)),
            ))
    ]
  ]

  unmap-IsReferenced :
      (p : Process) (addr len : ℕ)
      → IsReferenced others p
      → IsReferenced others (unmap p addr len).0
  unfolding unmap
  unmap-IsReferenced p addr len h = record {
    space = munmap-IsSpace p.space addr len h.space;
    counted = λ v. unmap-counted p addr len v h;
  }

  unmap_length-IsReferenced :
      (p : Process) (addr : ℕ) (len : Option ℕ)
      → IsReferenced others p
      → IsReferenced others (unmap_length p addr len).0
  unfolding unmap_length
  unmap_length-IsReferenced p addr none h = h
  unmap_length-IsReferenced p addr (some len) h = unmap-IsReferenced p addr len h

  sys_munmap-IsReferenced :
      (p : Process) (addr bytes : ℕ)
      → IsReferenced others p
      → IsReferenced others (sys_munmap p addr bytes).0
  unfolding sys_munmap
  sys_munmap-IsReferenced p addr bytes h =
      elim (Bool-cases (addr == 0 || (bytes == 0 || not (bit_and addr 4095 == 0)))) [
        | inl bad ↦ rw bad h
        | inr good ↦ rw good (unmap_length-IsReferenced p addr _ h)
      ]

pub data Call : Type 0 where
  mmaps : ℕ → ℕ → ℕ → ℕ → ℤ → ℕ → Call
  munmaps : ℕ → ℕ → Call

-- The process after the calls.
pub run : Process → List Call → Process
run p [] = p
run p (mmaps addr_hint bytes prot flags fd offset ∷ cs) =
    run (sys_mmap p addr_hint bytes prot flags fd offset).0 cs
run p (munmaps addr bytes ∷ cs) = run (sys_munmap p addr bytes).0 cs

-- Whatever a process maps and unmaps, with any arguments, its areas keep apart and the reference
-- count of a vnode stays the number of its mappings and of the references from elsewhere.
pub run-IsReferenced :
    (others : ℕ → ℕ) (cs : List Call) (p : Process)
    → HasRoom others
    → IsReferenced others p
    → IsReferenced others (run p cs)
unfolding run sys_mmap
run-IsReferenced others [] p room h = h
run-IsReferenced others (mmaps addr_hint bytes prot flags fd offset ∷ cs) p room h =
    run-IsReferenced others cs _ room (
      map_checked-IsReferenced others room p bytes prot flags fd offset
        (check_args addr_hint bytes prot flags fd offset) h)
run-IsReferenced others (munmaps addr bytes ∷ cs) p room h =
    run-IsReferenced others cs (sys_munmap p addr bytes).0 room
      (sys_munmap-IsReferenced others room p addr bytes h)
