-- ===== src/Process/Sleep/Looks.antt =====
-- What the looks of wait4 at its children tell, while other processes take steps.
use rumicos.Base.{
  ℕ, zero, suc, ◌<◌, ◌≡◌, ◌≢◌, ◌⊎◌, inl, inr, refl, sym, ap, subst, arith, Bool-cases, Option-cases,
  ◌==◌, none, some, Option, get_elem?, List, [], ◌∷◌, true, false, bit_and,
}
use rumicos.Base.Int.{ℤ}
use rumicos.Base.Samples.{Since, since_kept, since_bumped, or_told}
use rumicos.Process.{
  System, ProcessState, running, zombie, ptable_find, zombie_at, code_at, dead_code, selects,
  wnohang,
}
use rumicos.Process.Sleep.{Op, wait_looks, wait_decides, Scene, moves, looks, seen_dead}
use rumicos.Process.Sleep.Kept.{Told, Told-next, Same, Same-refl, IsFamily, Effect, bumps, keeps}

-- The child in this slot, if wait4 looks for it, is alive, or has its bump ahead.
abbrev pub ClearAt : Scene → ℕ → ℤ → ℕ → Type 0
ClearAt s parent pid slot =
    (c q : ℕ)
    → get_elem? (s.system.procs parent).children slot ≡ some c
    → c ≢ 0
    → selects pid c ≡ true
    → ptable_find s.system.ptable c ≡ some q
    → ((s.system.procs q).state ≡ running) ⊎ Told s parent

-- What holds at the place of a parent `n` events after its sample.
abbrev pub Knows : Scene → ℕ → ℕ → Op → Type 0
Knows s parent n (wait_looks pid options seen m) =
    Since seen n (s.system.procs parent).child_exit_seq
      ((slot : ℕ) → slot < m → ClearAt s parent pid slot)
Knows s parent n (wait_decides pid options seen) =
    Since seen n (s.system.procs parent).child_exit_seq ((slot : ℕ) → ClearAt s parent pid slot)
Knows s parent n _ = Unit {0}

ClearAt-kept :
    (s s' : Scene) (parent slot : ℕ) (pid : ℤ)
    → IsFamily s.system parent
    → Same s.system s'.system
    → (Told s parent → Told s' parent)
    → ((q : ℕ)
        → (s.system.procs q).parent_pid ≡ (s.system.procs parent).pid
        → (s.system.procs q).state ≡ running
        → ((s'.system.procs q).state ≡ running) ⊎ Told s' parent)
    → ClearAt s parent pid slot
    → ClearAt s' parent pid slot
ClearAt-kept s s' parent slot pid v k told alive clear c q listed ne selected names =
    let listed' = rw (k.children parent) at listed in
    let names' = rw k.ptable at names in
    or_told told (λ lives. alive q (v.children slot c q listed' ne names') lives)
      (clear c q listed' ne selected names')

-- A step of somebody keeps it.
pub Knows-Effect :
    (s s' : Scene) (parent n : ℕ) (o : Op)
    → IsFamily s.system parent
    → Same s.system s'.system
    → Effect s s' parent
    → Knows s parent n o
    → Knows s' parent (suc n) o
Knows-Effect s s' parent n (wait_looks pid options seen m) f k (bumps b) v = since_bumped b v
Knows-Effect s s' parent n (wait_looks pid options seen m) f k (keeps seq told alive) v =
    since_kept seq
      (λ clear slot below. ClearAt-kept s s' parent slot pid f k told alive (clear slot below)) v
Knows-Effect s s' parent n (wait_decides pid options seen) f k (bumps b) v = since_bumped b v
Knows-Effect s s' parent n (wait_decides pid options seen) f k (keeps seq told alive) v =
    since_kept seq (λ clear slot. ClearAt-kept s s' parent slot pid f k told alive (clear slot)) v
Knows-Effect s s' parent n _ f k e v = tt

-- A slot beyond the last is not listed.
get_elem?_beyond :
    (xs : List ℕ) (m slot c : ℕ) → get_elem? xs m ≡ none → get_elem? xs slot ≡ some c → slot < m
get_elem?_beyond [] m slot c e f = cc
get_elem?_beyond (x ∷ xs) zero slot c e f = cc
get_elem?_beyond (x ∷ xs) (suc m) zero c e f = omega arith
get_elem?_beyond (x ∷ xs) (suc m) (suc slot) c e f = omega (arith, get_elem?_beyond xs m slot c e f)

some_same : {xs : Option ℕ} {a b : ℕ} → xs ≡ some a → xs ≡ some b → a ≡ b
some_same e f = cc

-- The state of whom the table names, as the scan sees it.
state_seen :
    (s : System) (c q : ℕ)
    → ptable_find s.ptable c ≡ some q
    → ((zombie_at s c ≡ none) × ((s.procs q).state ≡ running))
      ⊎ ((zombie_at s c ≢ none) × ((s.procs q).state ≡ zombie))
unfolding zombie_at code_at dead_code
state_seen s c q names = rw names (by_state (s.procs q).state refl)
  where
    by_state :
        (st : ProcessState)
        → (s.procs q).state ≡ st
        → ((dead_code c (s.procs q).exit_code st ≡ none) × (st ≡ running))
          ⊎ ((dead_code c (s.procs q).exit_code st ≢ none) × (st ≡ zombie))
    by_state running e = inl (refl, refl)
    by_state zombie e = inr ((λ h. cc), refl)

alive_running :
    (s : System) (child c q : ℕ)
    → child ≡ c
    → zombie_at s child ≡ none
    → ptable_find s.ptable c ≡ some q
    → (s.procs q).state ≡ running
alive_running s child c q same alive names = elim (state_seen s c q names) [
  | inl (_, runs) ↦ runs
  | inr (dead, _) ↦ absurd (dead (subst (λ (k : ℕ). zombie_at s k ≡ none) same alive))
]

unselected : (pid : ℤ) (child c : ℕ) → child ≡ c → selects pid child ≡ false → selects pid c ≢ true
unselected pid child c same no_child yes_c =
    absurd (ground (arith, sym (ap (selects pid) same), no_child, yes_c))

module _ (s : Scene) (i n : ℕ) (pid : ℤ) (options seen m : ℕ)
    (here : s.op i ≡ wait_looks pid options seen m) (f : IsFamily s.system i)
    (v : Knows s i n (wait_looks pid options seen m)) where
  on_move : (o : Op) (slot : ℕ) → ClearAt s i pid slot → ClearAt (moves s i o) i pid slot
  on_move o slot clear =
      ClearAt-kept s (moves s i o) i slot pid f (Same-refl s.system)
        (Told-next s s.system i (wait_looks pid options seen m) o i here (Same-refl s.system)
          (λ d. absurd d))
        (λ q mine alive. inl alive) clear

  -- The look goes on to the next slot.
  passes :
      ClearAt s i pid m
      → Knows
          (moves s i (wait_looks pid options seen (suc m)))
          i
          (suc n)
          (wait_looks pid options seen (suc m))
  passes clear =
      since_kept refl
        (λ before slot below.
          on_move (wait_looks pid options seen (suc m)) slot (elim (Bool-cases (slot == m)) [
            | inl at_ ↦
                (let same : m ≡ slot = ground arith in
                  subst (λ (k : ℕ). ClearAt s i pid k) same clear)
            | inr other ↦ before slot (ground (arith, below, other))
          ]))
        v

  ends :
      get_elem? (s.system.procs i).children m ≡ none
      → Knows (moves s i (wait_decides pid options seen)) i (suc n) (wait_decides pid options seen)
  ends none_left =
      since_kept refl
        (λ before slot. on_move (wait_decides pid options seen) slot (λ c q listed.
          before slot (get_elem?_beyond (s.system.procs i).children m slot c none_left listed) c q
            listed))
        v

  pub Knows-looks :
      Knows
        (moves s i (looks s.system pid options seen m (get_elem? (s.system.procs i).children m)))
        i
        (suc n)
        (looks s.system pid options seen m (get_elem? (s.system.procs i).children m))
  unfolding looks seen_dead
  Knows-looks = elim (Option-cases (get_elem? (s.system.procs i).children m)) [
    | inl none_left ↦ elim (Bool-cases (bit_and options wnohang == 0)) [
      | inl blocks ↦ rw (none_left, blocks) (ends none_left)
      | inr polls ↦ rw (none_left, polls) tt
    ]
    | inr (child, listed) ↦ elim (Bool-cases (child == 0)) [
      | inl free ↦
          rw (listed, free) (passes (λ c q e ne. absurd (ne (ground (arith, free, listed, e)))))
      | inr taken ↦ elim (Bool-cases (selects pid child)) [
        | inr other ↦
            rw (listed, taken, other)
              (passes (λ c q e ne selected.
                absurd (unselected pid child c (some_same listed e) other selected)))
        | inl selected ↦ elim (Option-cases (zombie_at s.system child)) [
          | inl alive ↦
              rw (listed, taken, selected, alive)
                (passes (λ c q e ne sel names.
                  inl (alive_running s.system child c q (some_same listed e) alive names)))
          | inr ((c, code), dead) ↦ rw (listed, taken, selected, dead) tt
        ]
      ]
    ]
  ]
