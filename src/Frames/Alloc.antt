-- ===== src/Frames/Alloc.antt =====
-- `alloc_order` and `free_order`: what they hand out and take back.
use native.Mathlib.Nat.{pow-suc}
use rumicos.Base.{
  ℕ, zero, suc, ◌+◌, ◌-◌, ◌%◌, ◌^◌, ◌≤◌, ◌<◌, ◌≡◌, refl, ap, subst, ◌∙◌, inl, inr, true, false,
  List, [], ◌∷◌, Option, none, some, arith, length, get_or, set, ltb, ◌==◌, Bool-cases,
}
use rumicos.Frames.{Buddy, split_down, split_found, alloc_from, alloc_order, free_order, max_order}
use rumicos.Frames.Blocks.{
  bytes, bytes_pages, IsBlock, lower_half, upper_half, covers, covers_split, covered, pages,
}
use rumicos.Frames.Lists.{
  IsStock, Kept, put, levels_are, covered-put, pages-put, covered-taken, pages-taken, push_at_lem,
  pop_at_lem,
}

-- A block of order `big` has become a block of order `o` and free blocks.
pub record Splits (b : Buddy) (levels : List (List ℕ)) (o big a : ℕ) (b' : Buddy) : Type 0 where
  pub levels' : List (List ℕ)
  pub stock : IsStock b' levels'
  pub block : IsBlock o a
  pub cover : (x : ℕ) → covered x levels' + covers x o a ≡ covered x levels + covers x big a
  pub count : pages levels' + 2 ^ o ≡ pages levels + 2 ^ big
  pub kept : Kept b b'

split_down_lem :
    (n o : ℕ) (b : Buddy) (levels : List (List ℕ)) (a : ℕ)
    → IsStock b levels
    → o + n ≤ max_order
    → IsBlock (o + n) a
    → ((x : ℕ) → covered x levels + covers x (o + n) a ≤ 1)
    → (b' : Buddy) × (split_down n o b a ≡ some b') × Splits b levels o (o + n) a b'
unfolding split_down
split_down_lem zero o b levels a s few block apart =
    let e : o + zero ≡ o = omega arith in
    (
      b,
      refl,
      record {
        levels' = levels;
        stock = s;
        block = rw e at block;
        cover = λ x. rw e refl;
        count = rw e refl;
        kept = record { free = refl; base = refl; size = refl };
      },
    )
split_down_lem (suc n) o b levels a s few block apart =
    let e : o + suc n ≡ suc (o + n) = omega arith in
    let whole : IsBlock (suc (o + n)) a = rw e at block in
    let upper = a + bytes (o + n) in
    let halves = λ (x : ℕ). covers_split x (o + n) a in
    let big = λ (x : ℕ). ap (λ (j : ℕ). covers x j a) e in
    let (b1, pushed, s1, kept1) =
      push_at_lem b levels (o + n) upper s (omega arith) (upper_half (o + n) a whole)
        (λ x. omega (arith, apart x, halves x, big x)) in
    let more = λ (x : ℕ). covered-put x levels (o + n) upper (omega (arith, levels_are s)) in
    let (b2, split, r) =
      split_down_lem n o b1 (put levels (o + n) upper) a s1 (omega arith)
        (lower_half (o + n) a whole) (λ x. omega (arith, apart x, more x, halves x, big x)) in
    (
      b2,
      rw pushed split,
      record {
        levels' = r.levels';
        stock = r.stock;
        block = r.block;
        cover = λ x. omega (arith, r.cover x, more x, halves x, big x);
        count = omega (
          arith,
          r.count,
          pages-put levels (o + n) upper (omega (arith, levels_are s)),
          pow-suc 2 (o + n),
          ap (λ (j : ℕ). 2 ^ j) e,
        );
        kept = record {
          free = r.kept.free ∙ kept1.free;
          base = r.kept.base ∙ kept1.base;
          size = r.kept.size ∙ kept1.size;
        };
      },
    )

-- The lists with the count of their pages, modulo 2 ^ 64.
pub record IsBuddy (b : Buddy) (levels : List (List ℕ)) : Type 0 where
  pub stock : IsStock b levels
  pub counted : b.free ≡ pages levels % 2 ^ 64

-- How an allocation of order `o` ends.
pub data Allocates (b : Buddy) (levels : List (List ℕ)) (o : ℕ) (out : Option (Buddy × Option ℕ))
    : Type 0 where
  exhausted :
      out ≡ some (b, none)
      → ((i : ℕ) → o ≤ i → i ≤ max_order → get_or levels i [] ≡ [])
      → Allocates b levels o out
  allocates :
      (b' : Buddy) (levels' : List (List ℕ)) (a : ℕ)
      → out ≡ some (b', some a)
      → IsBuddy b' levels'
      → IsBlock o a
      → ((x : ℕ) → covered x levels' + covers x o a ≡ covered x levels)
      → Allocates b levels o out

pow-le : (o : ℕ) (a : ℕ) → IsBlock o a → 2 ^ o ≤ 2 ^ 32
pow-le o a v = omega (arith, v.in_range, bytes_pages o)

split_found-Allocates :
    (b : Buddy) (levels : List (List ℕ)) (o split : ℕ) (b1 : Buddy) (f : ℕ) (rest : List ℕ)
    (further : Option (Buddy × Option ℕ))
    → IsBuddy b levels
    → o + split ≤ max_order
    → get_or levels (o + split) [] ≡ f ∷ rest
    → IsBlock (o + split) f
    → IsStock b1 (set levels (o + split) rest)
    → Kept b b1
    → Allocates b levels o (split_found o split further (b1, some f))
unfolding split_found
split_found-Allocates b levels o split b1 f rest further v few first block s1 kept1 =
    let inside : o + split < length levels = omega (arith, levels_are v.stock) in
    let taken = λ (x : ℕ). covered-taken x levels (o + split) f rest inside first in
    let (b2, done, r) =
      split_down_lem split o b1 (set levels (o + split) rest) f s1 few block
        (λ x. omega (arith, taken x, v.stock.once x)) in
    allocates (record b2 { free = (b2.free + 2 ^ 64 - 2 ^ o) % 2 ^ 64 }) r.levels' f (rw done refl)
      (record {
        stock = record { heads = r.stock.heads; lists = r.stock.lists; once = r.stock.once };
        counted = omega (
          arith,
          v.counted,
          kept1.free,
          r.kept.free,
          r.count,
          pages-taken levels (o + split) f rest inside first,
          pow-le o f r.block,
        );
      })
      r.block (λ x. omega (arith, r.cover x, taken x))

alloc_from-Allocates :
    (n o split : ℕ) (b : Buddy) (levels : List (List ℕ))
    → IsBuddy b levels
    → o + split + n ≡ 11
    → ((i : ℕ) → o ≤ i → i < o + split → get_or levels i [] ≡ [])
    → Allocates b levels o (alloc_from n o split b)
unfolding alloc_from split_found
alloc_from-Allocates zero o split b levels v e below =
    exhausted refl (λ i lo hi. below i lo (omega arith))
alloc_from-Allocates (suc n) o split b levels v e below =
    elim (pop_at_lem b levels (o + split) v.stock (omega arith)) [
      | inl (popped, empty) ↦
          rw (popped, split_found)
            (alloc_from-Allocates n o (split + 1) b levels v (omega arith) (λ i lo hi.
              elim (Bool-cases (i == o + split)) [
                | inl here ↦
                    let same : o + split ≡ i = ground arith in
                    subst (λ (j : ℕ). get_or levels j [] ≡ []) same empty
                | inr other ↦ below i lo (ground arith)
              ]))
      | inr (b1, f, rest, popped, first, block, s1, kept1) ↦ rw popped (
          split_found-Allocates b levels o split b1 f rest (alloc_from n o (split + 1) b) v
            (omega arith) first block s1 kept1)
    ]

-- `alloc_order` hands out a whole aligned block of its order that was free, and takes its pages
-- off the count; what else was free stays free. It fails only when no list of the order or of a
-- larger one has a block, and then changes nothing.
pub alloc_order-Allocates :
    (b : Buddy) (levels : List (List ℕ)) (o : ℕ)
    → IsBuddy b levels
    → o ≤ max_order
    → Allocates b levels o (alloc_order b o)
unfolding alloc_order
alloc_order-Allocates b levels o v few =
    let in_orders : ltb max_order o ≡ false = ground arith in
    rw in_orders (
      alloc_from-Allocates (max_order + 1 - o) o 0 b levels v (omega arith)
        (λ i lo hi. absurd (omega arith)))

-- There is no order above 10.
pub alloc_order_large :
    (b : Buddy) (o : ℕ) → ltb max_order o ≡ true → alloc_order b o ≡ some (b, none)
unfolding alloc_order
alloc_order_large b o large = rw large refl

-- `free_order` of a block that is not free makes it free, with its pages counted.
pub free_order_lem :
    (b : Buddy) (levels : List (List ℕ)) (o a : ℕ)
    → IsBuddy b levels
    → o ≤ max_order
    → IsBlock o a
    → ((x : ℕ) → covered x levels + covers x o a ≤ 1)
    → (b' : Buddy) × (free_order b a o ≡ some b')
      × IsBuddy b' (put levels o a)
      × (b'.base ≡ b.base)
      × (b'.size ≡ b.size)
unfolding free_order
free_order_lem b levels o a v few block apart =
    let in_orders : ltb max_order o ≡ false = ground arith in
    let (b1, pushed, s1, kept) = push_at_lem b levels o a v.stock few block apart in
    (
      record b1 { free = (b1.free + 2 ^ o) % 2 ^ 64 },
      rw (in_orders, pushed) refl,
      record {
        stock = record { heads = s1.heads; lists = s1.lists; once = s1.once };
        counted =
            omega (
              arith,
              v.counted,
              kept.free,
              pages-put levels o a (omega (arith, levels_are v.stock)),
            );
      },
      kept.base,
      kept.size,
    )
