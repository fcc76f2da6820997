-- ===== src/Process/Family.antt =====
-- The list of the children and its count.
use rumicos.Base.{
  ℕ, suc, ◌≤◌, ◌≡◌, ◌≢◌, refl, ap, ◌∙◌, ◌⊎◌, inl, inr, true, false, not, List, [], ◌∷◌, none, some,
  arith, if◌then◌else◌, ◌==◌, Bool-cases, length,
}
use rumicos.Process.{
  Process, keep, put_for, added, add_child, removed, remove_child, all_taken, children_full,
  max_children,
}

-- The slots that hold a child.
abbrev pub occupied : List ℕ → ℕ
occupied [] = 0
occupied (c ∷ cs) = if c == 0 then occupied cs else suc (occupied cs)

pub record IsCounted (p : Process) : Type 0 where
  pub slots : length p.children ≡ max_children
  pub count : p.child_count ≡ occupied p.children

occupied-le : (cs : List ℕ) → occupied cs ≤ length cs
occupied-le [] = omega arith
occupied-le (c ∷ cs) = ground (arith, occupied-le cs)

-- A child put in the first free slot, or no free slot.
put_for-free :
    (child : ℕ) (cs : List ℕ)
    → child ≢ 0
    → ((put_for 0 child cs ≡ none) × (all_taken cs ≡ true))
      ⊎ ((cs' : List ℕ) × (put_for 0 child cs ≡ some cs')
          × (all_taken cs ≡ false)
          × (length cs' ≡ length cs)
          × (occupied cs' ≡ suc (occupied cs)))
unfolding put_for keep all_taken
put_for-free child [] ne = inl (refl, refl)
put_for-free child (c ∷ cs) ne = elim (Bool-cases (c == 0)) [
  | inl free ↦
      let busy : (child == 0) ≡ false = ground arith in
      inr (child ∷ cs, rw free refl, rw free refl, refl, rw (free, busy) refl)
  | inr used ↦ elim (put_for-free child cs ne) [
    | inl (e, full) ↦ inl (rw (used, e) refl, rw (used, full) refl)
    | inr (cs', e, room, len, more) ↦
        inr (c ∷ cs', rw (used, e) refl, rw (used, room) refl, ap suc len, rw used (ap suc more))
  ]
]

-- A child taken out of its slot, or no slot that holds it.
put_for-child :
    (child : ℕ) (cs : List ℕ)
    → child ≢ 0
    → (put_for child 0 cs ≡ none)
      ⊎ ((cs' : List ℕ) × (put_for child 0 cs ≡ some cs')
          × (length cs' ≡ length cs)
          × (suc (occupied cs') ≡ occupied cs))
unfolding put_for keep
put_for-child child [] ne = inl refl
put_for-child child (c ∷ cs) ne = elim (Bool-cases (c == child)) [
  | inl here ↦
      let busy : (c == 0) ≡ false = ground arith in inr (0 ∷ cs, rw here refl, refl, rw busy refl)
  | inr other ↦ elim (put_for-child child cs ne) [
    | inl e ↦ inl (rw (other, e) refl)
    | inr (cs', e, len, less) ↦ inr (c ∷ cs', rw (other, e) refl, ap suc len, ground (arith, less))
  ]
]

-- `add_child` succeeds exactly when `children_full` answers no, and keeps the count of the children.
pub add_child-IsCounted :
    (p : Process) (child : ℕ)
    → IsCounted p
    → child ≢ 0
    → IsCounted (add_child p child).0 × ((add_child p child).1 ≡ not (children_full p))
unfolding add_child added children_full
add_child-IsCounted p child v ne = elim (put_for-free child p.children ne) [
  | inl (e, full) ↦ rw (e, full) (v, refl)
  | inr (cs', e, room, len, more) ↦
      rw (e, room)
        (
          record {
            slots = len ∙ v.slots;
            count = omega (arith, v.count, more, v.slots, occupied-le p.children);
          },
          refl,
        )
]

-- `remove_child` keeps the count too.
pub remove_child-IsCounted :
    (p : Process) (child : ℕ) → IsCounted p → child ≢ 0 → IsCounted (remove_child p child)
unfolding remove_child removed
remove_child-IsCounted p child v ne = elim (put_for-child child p.children ne) [
  | inl e ↦ rw e v
  | inr (cs', e, len, less) ↦ rw e (record {
    slots = len ∙ v.slots;
    count = omega (arith, v.count, less, v.slots, occupied-le p.children);
  })
]
