-- ===== src/Paging/Walk/Mapped.antt =====
-- What is mapped is found again.
use rumicos.Base.{
  ℕ, ◌+◌, ◌*◌, ◌/◌, ◌%◌, ◌^◌, ◌<◌, ◌≡◌, ◌≢◌, refl, ap, subst, ◌∙◌, inl, inr, true, false, List, [],
  ◌∷◌, none, some, arith, ◌==◌, ==-refl, Bool-cases, bit_and,
}
use rumicos.Base.Masks.{bit_and-low}
use rumicos.Paging.{
  phys_new, new_page, frame, is_present, is_huge_page, with_present, with_writable, pml4_index,
  pdpt_index, pd_index, pt_index, page_offset, present,
}
use rumicos.Paging.Fields.{IsFlags, new_page_lem, new_page_round_trip}
use rumicos.Paging.Walk.{Tables, set, zero_table, populated, enter, walk_to_pd, map_page, translate}

-- Frames that a table can be put in.
abbrev pub AreFrames : List ℕ → Type 0
AreFrames [] = Unit {0}
AreFrames (f ∷ fs) = (f % 2 ^ 12 ≡ 0) × (f < 2 ^ 48) × AreFrames fs

present_lem :
    (phys flags : ℕ)
    → phys % 2 ^ 12 ≡ 0
    → phys < 2 ^ 48
    → (f : IsFlags flags) → f.low % 2 ≡ 1
    → is_present (new_page phys flags) ≡ true
unfolding is_present
present_lem phys flags page lt f odd =
    let q = phys / 2 ^ 12 in
    let e : phys ≡ q * 2 ^ 12 = omega (arith, page) in
    let word : new_page phys flags ≡ f.top * 2 ^ 63 + q * 2 ^ 12 + f.low =
      ap (λ (p : ℕ). new_page p flags) e ∙ new_page_lem q flags (omega (arith, lt)) f in
    let digit = bit_and-low 1 (f.top * 2 ^ 63 + q * 2 ^ 12 + f.low) in
    let one : bit_and (f.top * 2 ^ 63 + q * 2 ^ 12 + f.low) present ≡ 1 =
      omega (arith, digit, odd) in
    rw (word, one) refl

table_flags : IsFlags (with_writable (with_present 0))
unfolding with_writable with_present
table_flags = record { low = 3; top = 0; small = omega arith; one = omega arith; whole = refl }

-- The entry that is entered leads to the next table; no third table changes.
record Enters (tables : Tables) (table index : ℕ) (tables' : Tables) (fresh : List ℕ) (next : ℕ)
    : Type 0 where
  here : is_present (tables' table index) ≡ true
  leads : frame (tables' table index) ≡ next
  frames : AreFrames fresh
  others : (u j : ℕ) → u ≢ table → u ≢ next → tables' u j ≡ tables u j

set-here : (tables : Tables) (t i e : ℕ) → set tables t i e t i ≡ e
unfolding set
set-here tables t i e = rw (==-refl t, ==-refl i) refl

set-there : (tables : Tables) (t i e u j : ℕ) → u ≢ t → set tables t i e u j ≡ tables u j
unfolding set
set-there tables t i e u j ne = let away : (t == u) ≡ false = ground arith in rw away refl

-- What `enter` returns, whichever way.
entered :
    (tables : Tables) (table index : ℕ) (a b : Tables × List ℕ × ℕ)
    → Enters tables table index a.0 a.1 a.2
    → some a ≡ some b
    → Enters tables table index b.0 b.1 b.2
entered tables table index a b v e =
    let same : a ≡ b = cc in
    subst (λ (p : Tables × List ℕ × ℕ). Enters tables table index p.0 p.1 p.2) same v

phys_new_lem : (f : ℕ) → f < 2 ^ 52 → phys_new f ≡ f
unfolding phys_new
phys_new_lem f lt = let e = bit_and-low 52 f in omega (arith, e)

populated-Enters :
    (tables : Tables) (fresh : List ℕ) (table index : ℕ) (b : Tables × List ℕ × ℕ)
    → AreFrames fresh
    → populated tables table index fresh ≡ some b
    → Enters tables table index b.0 b.1 b.2
unfolding populated zero_table table_flags
populated-Enters tables [] table index b v e = absurd (nothing e)
  where
    nothing : none ≢ some b
    nothing h = cc
populated-Enters tables (f ∷ fresh) table index b (page, lt, v) e =
    let entry = new_page (phys_new f) (with_writable (with_present 0)) in
    let f_is : phys_new f ≡ f = phys_new_lem f (omega (arith, lt)) in
    let trip = new_page_round_trip f (with_writable (with_present 0)) page lt table_flags in
    let at_f : frame entry ≡ f = rw f_is trip.0 in
    let zeroed = zero_table tables (phys_new f) in
    let entry_at = set-here zeroed table index entry in
    entered tables table index (set zeroed table index entry, fresh, frame entry) b
      (record {
        here =
            rw (entry_at, f_is)
              (present_lem f (with_writable (with_present 0)) page lt table_flags refl);
        leads = ap frame entry_at;
        frames = v;
        others = λ u j ne ne'.
            let away : (phys_new f == u) ≡ false = ground (arith, f_is, at_f) in
            set-there zeroed table index entry u j ne ∙ zeroed_other u j away;
      })
      e
  where
    zeroed_other :
        (u j : ℕ) → (phys_new f == u) ≡ false → zero_table tables (phys_new f) u j ≡ tables u j
    zeroed_other u j away = rw away refl

enter-Enters :
    (tables : Tables) (fresh : List ℕ) (table index : ℕ) (b : Tables × List ℕ × ℕ)
    → AreFrames fresh
    → enter tables fresh table index ≡ some b
    → Enters tables table index b.0 b.1 b.2
unfolding enter
enter-Enters tables fresh table index b v e = elim (Bool-cases (is_present (tables table index))) [
  | inl here ↦
      entered tables table index (tables, fresh, frame (tables table index)) b
        (record { here = here; leads = refl; frames = v; others = λ u j ne ne'. refl })
        (rw here at e)
  | inr away ↦ populated-Enters tables fresh table index b v (rw away at e)
]

page_offset-lt : (virt : ℕ) → page_offset virt < 2 ^ 12
unfolding page_offset
page_offset-lt virt = let e = bit_and-low 12 virt in omega (arith, e)

-- A page that is mapped is found again: for an aligned frame below 2 ^ 48 and flags with the
-- present bit, where new tables get aligned frames below 2 ^ 48 and the walk goes through four
-- different tables and meets no huge page, `map_page` succeeds, and each address with the same
-- four indices translates to its offset in the frame.
pub translate-map_page :
    (tables : Tables) (fresh : List ℕ) (pml4 virt phys flags v : ℕ) (a b c : Tables × List ℕ × ℕ)
    → AreFrames fresh
    → enter tables fresh pml4 (pml4_index virt) ≡ some a
    → enter a.0 a.1 a.2 (pdpt_index virt) ≡ some b
    → enter b.0 b.1 b.2 (pd_index virt) ≡ some c
    → (pml4 ≢ a.2) × (pml4 ≢ b.2) × (pml4 ≢ c.2) × (a.2 ≢ b.2) × (a.2 ≢ c.2) × (b.2 ≢ c.2)
    → is_huge_page (b.0 a.2 (pdpt_index virt)) ≡ false
    → is_huge_page (c.0 b.2 (pd_index virt)) ≡ false
    → phys % 2 ^ 12 ≡ 0
    → phys < 2 ^ 48
    → (f : IsFlags flags) → f.low % 2 ≡ 1
    → (pml4_index v ≡ pml4_index virt)
      × (pdpt_index v ≡ pdpt_index virt)
      × (pd_index v ≡ pd_index virt)
      × (pt_index v ≡ pt_index virt)
    → (tables' : Tables) × (map_page tables fresh pml4 virt phys flags ≡ some (tables', c.1))
      × (translate tables' pml4 v ≡ some (phys + page_offset v))
unfolding map_page walk_to_pd translate
translate-map_page tables fresh pml4 virt phys flags v a b c free ea eb ec (ab, ac, ad, bc, bd, cd)
      huge3 huge2 page lt f odd (same4, same3, same2, same1) =
    let x = enter-Enters tables fresh pml4 (pml4_index virt) a free ea in
    let y = enter-Enters a.0 a.1 a.2 (pdpt_index virt) b x.frames eb in
    let z = enter-Enters b.0 b.1 b.2 (pd_index virt) c y.frames ec in
    let entry = new_page phys flags in
    let final = set c.0 c.2 (pt_index virt) entry in
    let at4 : final pml4 (pml4_index virt) ≡ a.0 pml4 (pml4_index virt) =
      set-there c.0 c.2 (pt_index virt) entry pml4 (pml4_index virt) ad
      ∙ z.others pml4 (pml4_index virt) ac ad
      ∙ y.others pml4 (pml4_index virt) ab ac in
    let at3 : final a.2 (pdpt_index virt) ≡ b.0 a.2 (pdpt_index virt) =
      set-there c.0 c.2 (pt_index virt) entry a.2 (pdpt_index virt) bd
      ∙ z.others a.2 (pdpt_index virt) bc bd in
    let at2 : final b.2 (pd_index virt) ≡ c.0 b.2 (pd_index virt) =
      set-there c.0 c.2 (pt_index virt) entry b.2 (pd_index virt) cd in
    let at1 : final c.2 (pt_index virt) ≡ entry = set-here c.0 c.2 (pt_index virt) entry in
    let found : frame entry ≡ phys = (new_page_round_trip phys flags page lt f).0 in
    let offset : page_offset v < 2 ^ 12 = page_offset-lt v in
    (
      final,
      rw (ea, eb, ec) refl,
      rw
          (
            same4,
            same3,
            same2,
            same1,
            at4,
            x.here,
            x.leads,
            at3,
            y.here,
            huge3,
            y.leads,
            at2,
            z.here,
            huge2,
            z.leads,
            at1,
            present_lem phys flags page lt f odd,
            found,
            phys_new_lem (phys + page_offset v) (omega (arith, lt, offset)),
          )
          refl,
    )
