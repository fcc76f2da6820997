-- ===== src/Frames/Ledger.antt =====
-- Any sequence of allocations and frees: the blocks that are owned and the blocks that are free.
use rumicos.Base.{
  ℕ, zero, suc, ◌+◌, ◌≤◌, ◌≡◌, refl, inl, inr, List, [], ◌∷◌, Option, none, some, arith, get_elem?,
  ltb, Bool-cases, Option-cases,
}
use rumicos.Base.Panics.{◌>>=◌}
use rumicos.Frames.{Buddy, alloc_order, free_order, max_order}
use rumicos.Frames.Blocks.{IsBlock, covers, covered}
use rumicos.Frames.Lists.{put, covered-put, levels_are}
use rumicos.Frames.Alloc.{
  IsBuddy, exhausted, allocates, alloc_order-Allocates, alloc_order_large, free_order_lem,
}

-- An order with the address of a block.
abbrev pub Owned : Type 0
Owned = List (ℕ × ℕ)

-- Someone asks for a block, or gives back the `k`-th block that is owned.
pub data Call : Type 0 where
  allocs frees : ℕ → Call

abbrev pub without : Owned → ℕ → Owned
without [] k = []
without (x ∷ xs) zero = xs
without (x ∷ xs) (suc k) = x ∷ without xs k

took : ℕ → Option ℕ → Owned → Owned
took o none owned = owned
took o (some a) owned = (o, a) ∷ owned

give_back : Buddy → Owned → ℕ → Option (ℕ × ℕ) → Option (Buddy × Owned)
give_back b owned k none = some (b, owned)
give_back b owned k (some (o, a)) = do b' ← free_order b a o; some (b', without owned k)

pub step : Buddy × Owned → Call → Option (Buddy × Owned)
unfolding took give_back
step (b, owned) (allocs o) = do (b', r) ← alloc_order b o; some (b', took o r owned)
step (b, owned) (frees k) = give_back b owned k (get_elem? owned k)

pub run : Buddy × Owned → List Call → Option (Buddy × Owned)
run s [] = some s
run s (c ∷ cs) = do s' ← step s c; run s' cs

-- How many owned blocks hold the address `x`.
abbrev pub held : ℕ → Owned → ℕ
held x [] = 0
held x ((o, a) ∷ owned) = covers x o a + held x owned

abbrev pub AreBlocks : Owned → Type 0
AreBlocks [] = Unit {0}
AreBlocks ((o, a) ∷ owned) = (o ≤ max_order) × IsBlock o a × AreBlocks owned

-- The free lists are well formed, the owned blocks are whole, and each address is in `limit`
-- blocks, free and owned together.
pub record IsLedger (limit : ℕ → ℕ) (s : Buddy × Owned) : Type 0 where
  pub levels : List (List ℕ)
  pub buddy : IsBuddy s.0 levels
  pub blocks : AreBlocks s.1
  pub total : (x : ℕ) → covered x levels + held x s.1 ≡ limit x

at_without :
    (owned : Owned) (k o a : ℕ)
    → get_elem? owned k ≡ some (o, a)
    → AreBlocks owned
    → (o ≤ max_order)
      × IsBlock o a
      × AreBlocks (without owned k)
      × ((x : ℕ) → held x (without owned k) + covers x o a ≡ held x owned)
at_without [] k o a e v = cc
at_without ((p, c) ∷ owned) zero o a e v =
    let at_o : p ≡ o = ground arith in
    let at_a : c ≡ a = ground arith in
    (omega (arith, v.0, at_o), rw (← at_o, ← at_a) v.1, v.2, λ x. rw (← at_o, ← at_a) (omega arith))
at_without ((p, c) ∷ owned) (suc k) o a e v =
    let rest = at_without owned k o a e v.2 in
    (rest.0, rest.1, (v.0, v.1, rest.2), λ x. omega (arith, rest.3 x))

module _ (limit : ℕ → ℕ) (once : (x : ℕ) → limit x ≤ 1) where
  allocs-IsLedger :
      (b : Buddy) (owned : Owned) (o : ℕ)
      → IsLedger limit (b, owned)
      → (s' : Buddy × Owned) × (step (b, owned) (allocs o) ≡ some s') × IsLedger limit s'
  unfolding step
  allocs-IsLedger b owned o v = elim (Bool-cases (ltb max_order o)) [
    | inl large ↦ ((b, owned), rw (alloc_order_large b o large) refl, v)
    | inr small ↦ elim (alloc_order-Allocates b v.levels o v.buddy (ground arith)) [
      | exhausted e _ ↦ ((b, owned), rw e refl, v)
      | allocates b' levels' a e buddy' block cover ↦ (
        (b', (o, a) ∷ owned),
        rw e refl,
        record {
          levels = levels';
          buddy = buddy';
          blocks = (ground arith, block, v.blocks);
          total = λ x. omega (arith, cover x, v.total x);
        },
      )
    ]
  ]

  frees-IsLedger :
      (b : Buddy) (owned : Owned) (k : ℕ)
      → IsLedger limit (b, owned)
      → (s' : Buddy × Owned) × (step (b, owned) (frees k) ≡ some s') × IsLedger limit s'
  unfolding step
  frees-IsLedger b owned k v = elim (Option-cases (get_elem? owned k)) [
    | inl e ↦ ((b, owned), rw (e, give_back) refl, v)
    | inr ((o, a), e) ↦
        let (few, block, blocks, back) = at_without owned k o a e v.blocks in
        let (b', freed, buddy', _, _) =
          free_order_lem b v.levels o a v.buddy few block
            (λ x. omega (arith, v.total x, once x, back x)) in
        (
          (b', without owned k),
          rw (e, give_back, freed) refl,
          record {
            levels = put v.levels o a;
            buddy = buddy';
            blocks = blocks;
            total = λ x. omega (
              arith,
              v.total x,
              back x,
              covered-put x v.levels o a (omega (arith, levels_are v.buddy.stock, few)),
            );
          },
        )
  ]

  -- From lists in which no address is in two blocks, free or owned, no sequence of allocations and
  -- frees of what is owned panics, and each address stays in as many blocks as at first: no
  -- memory is handed out twice, and none is lost.
  pub run-IsLedger :
      (cs : List Call) (s : Buddy × Owned)
      → IsLedger limit s
      → (s' : Buddy × Owned) × (run s cs ≡ some s') × IsLedger limit s'
  unfolding run
  run-IsLedger [] s v = (s, refl, v)
  run-IsLedger (allocs o ∷ cs) (b, owned) v =
      let (s1, e1, v1) = allocs-IsLedger b owned o v in
      let (s2, e2, v2) = run-IsLedger cs s1 v1 in (s2, rw e1 e2, v2)
  run-IsLedger (frees k ∷ cs) (b, owned) v =
      let (s1, e1, v1) = frees-IsLedger b owned k v in
      let (s2, e2, v2) = run-IsLedger cs s1 v1 in (s2, rw e1 e2, v2)
