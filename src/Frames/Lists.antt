-- ===== src/Frames/Lists.antt =====
-- The eleven free lists of a node in one memory: `push_at` and `pop_at`.
use rumicos.Base.{
  ℕ, zero, suc, ◌+◌, ◌*◌, ◌^◌, ◌≤◌, ◌<◌, ◌≡◌, refl, ap, subst, ◌∙◌, ◌⊎◌, inl, inr, List, [], ◌∷◌,
  none, some, arith, length, get_or, set, length-set, update,
}
use rumicos.Frames.{Heap, FreeFrame, Buddy, push_at, pop_at, max_order}
use rumicos.Frames.Blocks.{
  IsBlock, covers, covered_in, covered_from, covered, covered-set, covers_self, pages, pages-set,
}
use rumicos.Frames.Chains.{IsFreeList, IsFreeList-write, pushed_node, push_lem, pop_lem}

-- The heads from order `o` on, and the lists that they stand for.
abbrev pub AreLists : ℕ → Heap → List ℕ → List (List ℕ) → Type 0
AreLists o heap [] [] = Unit {0}
AreLists o heap [] (l ∷ ls) = ⊥
AreLists o heap (h ∷ hs) [] = ⊥
AreLists o heap (h ∷ hs) (l ∷ ls) = IsFreeList o heap h l × AreLists (suc o) heap hs ls

-- The lists of a node hold whole blocks, and no address is in two of them.
pub record IsStock (b : Buddy) (levels : List (List ℕ)) : Type 0 where
  pub heads : length b.free_lists ≡ 11
  pub lists : AreLists 0 b.heap b.free_lists levels
  pub once : (x : ℕ) → covered x levels ≤ 1

AreLists-length :
    (o : ℕ) (heap : Heap) (hs : List ℕ) (ls : List (List ℕ))
    → AreLists o heap hs ls
    → length ls ≡ length hs
AreLists-length o heap [] [] v = refl
AreLists-length o heap [] (l ∷ ls) v = elim v [ ]
AreLists-length o heap (h ∷ hs) [] v = elim v [ ]
AreLists-length o heap (h ∷ hs) (l ∷ ls) v = ap suc (AreLists-length (suc o) heap hs ls v.1)

pub levels_are : {b : Buddy} {levels : List (List ℕ)} → IsStock b levels → length levels ≡ 11
levels_are {b} {levels} s = AreLists-length 0 b.heap b.free_lists levels s.lists ∙ s.heads

AreLists-get :
    (o : ℕ) (heap : Heap) (hs : List ℕ) (ls : List (List ℕ)) (i : ℕ)
    → i < length hs
    → AreLists o heap hs ls
    → IsFreeList (o + i) heap (get_or hs i 0) (get_or ls i [])
AreLists-get o heap [] ls i h v = elim h [ ]
AreLists-get o heap (x ∷ hs) [] i h v = elim v [ ]
AreLists-get o heap (x ∷ hs) (l ∷ ls) zero h v = let e : o + zero ≡ o = omega arith in rw e v.0
AreLists-get o heap (x ∷ hs) (l ∷ ls) (suc i) h v =
    let e : o + suc i ≡ suc o + i = omega arith in
    rw e (AreLists-get (suc o) heap hs ls i (omega arith) v.1)

AreLists-set :
    (o : ℕ) (heap : Heap) (hs : List ℕ) (ls : List (List ℕ)) (i head : ℕ) (l : List ℕ)
    → AreLists o heap hs ls
    → IsFreeList (o + i) heap head l
    → AreLists o heap (set hs i head) (set ls i l)
AreLists-set o heap [] [] i head l v w = tt
AreLists-set o heap [] (k ∷ ls) i head l v w = elim v [ ]
AreLists-set o heap (x ∷ hs) [] i head l v w = elim v [ ]
AreLists-set o heap (x ∷ hs) (k ∷ ls) zero head l v w =
    let e : o + zero ≡ o = omega arith in ((rw e at w), v.1)
AreLists-set o heap (x ∷ hs) (k ∷ ls) (suc i) head l v w =
    let e : o + suc i ≡ suc o + i = omega arith in
    (v.0, AreLists-set (suc o) heap hs ls i head l v.1 (rw e at w))

AreLists-write :
    (o : ℕ) (heap : Heap) (hs : List ℕ) (ls : List (List ℕ)) (f : ℕ) (node : FreeFrame)
    → covered_from f o ls ≡ 0
    → AreLists o heap hs ls
    → AreLists o (update heap f node) hs ls
AreLists-write o heap [] [] f node away v = tt
AreLists-write o heap [] (l ∷ ls) f node away v = elim v [ ]
AreLists-write o heap (h ∷ hs) [] f node away v = elim v [ ]
AreLists-write o heap (h ∷ hs) (l ∷ ls) f node away v = (
  IsFreeList-write o heap h l f node (omega (arith, away)) v.0,
  AreLists-write (suc o) heap hs ls f node (omega (arith, away)) v.1,
)

pub covered_in-le :
    (x o : ℕ) (ls : List (List ℕ)) (i : ℕ)
    → covered_in x (o + i) (get_or ls i []) ≤ covered_from x o ls
covered_in-le x o [] i = omega arith
covered_in-le x o (l ∷ ls) zero = let e : o + zero ≡ o = omega arith in rw e (omega arith)
covered_in-le x o (l ∷ ls) (suc i) =
    let e : o + suc i ≡ suc o + i = omega arith in
    rw e (omega (arith, covered_in-le x (suc o) ls i))

-- The lists with a block put first at its order.
abbrev pub put : List (List ℕ) → ℕ → ℕ → List (List ℕ)
put levels o f = set levels o (f ∷ get_or levels o [])

pub covered-put :
    (x : ℕ) (levels : List (List ℕ)) (o f : ℕ)
    → o < length levels
    → covered x (put levels o f) ≡ covered x levels + covers x o f
covered-put x levels o f h = omega (arith, covered-set x levels o (f ∷ get_or levels o []) h)

pub pages-put :
    (levels : List (List ℕ)) (o f : ℕ)
    → o < length levels
    → pages (put levels o f) ≡ pages levels + 2 ^ o
pages-put levels o f h =
    omega (arith, pages-set levels o (f ∷ get_or levels o []) h, next (length (get_or levels o [])))
  where
    next : (n : ℕ) → suc n * 2 ^ o ≡ n * 2 ^ o + 2 ^ o
    next n = grind arith

pub covered-taken :
    (x : ℕ) (levels : List (List ℕ)) (o f : ℕ) (rest : List ℕ)
    → o < length levels
    → get_or levels o [] ≡ f ∷ rest
    → covered x (set levels o rest) + covers x o f ≡ covered x levels
covered-taken x levels o f rest h e =
    omega (arith, covered-set x levels o rest h, ap (covered_in x o) e)

pub pages-taken :
    (levels : List (List ℕ)) (o f : ℕ) (rest : List ℕ)
    → o < length levels
    → get_or levels o [] ≡ f ∷ rest
    → pages (set levels o rest) + 2 ^ o ≡ pages levels
pages-taken levels o f rest h e =
    omega (
      arith,
      pages-set levels o rest h,
      ap (λ (l : List ℕ). length l * 2 ^ o) e,
      next (length rest),
    )
  where
    next : (n : ℕ) → suc n * 2 ^ o ≡ n * 2 ^ o + 2 ^ o
    next n = grind arith

-- What the lists leave alone.
pub record Kept (b b' : Buddy) : Type 0 where
  pub free : b'.free ≡ b.free
  pub base : b'.base ≡ b.base
  pub size : b'.size ≡ b.size

covered_at-le :
    (x : ℕ) (levels : List (List ℕ)) (o : ℕ)
    → covered_in x o (get_or levels o []) ≤ covered x levels
covered_at-le x levels o =
    subst (λ (j : ℕ). covered_in x j (get_or levels o []) ≤ covered x levels) (omega arith)
      (covered_in-le x 0 levels o)

list_at :
    (b : Buddy) (levels : List (List ℕ)) (o : ℕ)
    → IsStock b levels
    → o ≤ max_order
    → IsFreeList o b.heap (get_or b.free_lists o 0) (get_or levels o [])
list_at b levels o s few =
    subst (λ (j : ℕ). IsFreeList j b.heap (get_or b.free_lists o 0) (get_or levels o []))
      (omega arith) (AreLists-get 0 b.heap b.free_lists levels o (omega (arith, s.heads)) s.lists)

lists_set :
    (heap : Heap) (hs : List ℕ) (ls : List (List ℕ)) (o head : ℕ) (l : List ℕ)
    → AreLists 0 heap hs ls
    → IsFreeList o heap head l
    → AreLists 0 heap (set hs o head) (set ls o l)
lists_set heap hs ls o head l v w =
    AreLists-set 0 heap hs ls o head l v
      (subst (λ (j : ℕ). IsFreeList j heap head l) (omega arith) w)

set-get_or : (xs : List ℕ) (i d : ℕ) → set xs i (get_or xs i d) ≡ xs
set-get_or [] i d = refl
set-get_or (x ∷ xs) zero d = refl
set-get_or (x ∷ xs) (suc i) d = ap (λ (ys : List ℕ). x ∷ ys) (set-get_or xs i d)

-- A block outside every list is put first at its order.
pub push_at_lem :
    (b : Buddy) (levels : List (List ℕ)) (o f : ℕ)
    → IsStock b levels
    → o ≤ max_order
    → IsBlock o f
    → ((x : ℕ) → covered x levels + covers x o f ≤ 1)
    → (b' : Buddy) × (push_at b o f ≡ some b') × IsStock b' (put levels o f) × Kept b b'
unfolding push_at
push_at_lem b levels o f s few block apart =
    let away : covered f levels ≡ 0 = omega (arith, apart f, covers_self o f) in
    let mine : covered_in f o (get_or levels o []) ≡ 0 =
      omega (arith, covered_at-le f levels o, away) in
    let (head, pushed, l) =
      push_lem o b.heap (get_or b.free_lists o 0) (get_or levels o []) f (list_at b levels o s few)
        block mine in
    let heap = update b.heap f (pushed_node (get_or b.free_lists o 0)) in
    (
      record b { heap = heap; free_lists = set b.free_lists o head },
      rw pushed refl,
      record {
        heads = length-set b.free_lists o head ∙ s.heads;
        lists =
            lists_set heap b.free_lists levels o head (f ∷ get_or levels o [])
              (AreLists-write 0 b.heap b.free_lists levels f (pushed_node (get_or b.free_lists o 0))
                away s.lists)
              l;
        once = λ x. omega (arith, apart x, covered-put x levels o f (omega (arith, levels_are s)));
      },
      record { free = refl; base = refl; size = refl },
    )

-- The first block of an order is taken off; none is taken exactly from an empty order.
pub pop_at_lem :
    (b : Buddy) (levels : List (List ℕ)) (o : ℕ)
    → IsStock b levels
    → o ≤ max_order
    → ((pop_at b o ≡ some (b, none)) × (get_or levels o [] ≡ []))
      ⊎ ((b' : Buddy) × (f : ℕ) × (rest : List ℕ) × (pop_at b o ≡ some (b', some f))
          × (get_or levels o [] ≡ f ∷ rest)
          × IsBlock o f
          × IsStock b' (set levels o rest)
          × Kept b b')
unfolding pop_at
pop_at_lem b levels o s few =
    elim (pop_lem o b.heap (get_or b.free_lists o 0) (get_or levels o [])
      (list_at b levels o s few)) [
        | inl (popped, empty) ↦ inl (rw (popped, set-get_or b.free_lists o 0) refl, empty)
        | inr (f, rest, head, popped, first, block, l) ↦ inr (
          record b { free_lists = set b.free_lists o head },
          f,
          rest,
          rw popped refl,
          first,
          block,
          record {
            heads = length-set b.free_lists o head ∙ s.heads;
            lists = lists_set b.heap b.free_lists levels o head rest s.lists l;
            once = λ x. omega (
              arith,
              s.once x,
              covered-set x levels o rest (omega (arith, levels_are s)),
              ap (covered_in x o) first,
            );
          },
          record { free = refl; base = refl; size = refl },
        )
      ]
