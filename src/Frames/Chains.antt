-- ===== src/Frames/Chains.antt =====
-- One free list: the list of the blocks that its nodes link, and what `push` and `pop` do to it.
use rumicos.Base.{
  ℕ, ◌+◌, ◌*◌, ◌/◌, ◌%◌, ◌^◌, ◌<◌, ◌≡◌, refl, sym, true, ◌⊎◌, inl, inr, false, List, [], ◌∷◌, none,
  some, arith, ltb, ◌==◌, bit_and, update, update_self, update_ne,
}
use rumicos.Base.Masks.{bit_and-low, bit_or-fields}
use rumicos.Frames.{Heap, FreeFrame, max_plausible_phys, pack, unpack, plausible, push, pop}
use rumicos.Frames.Blocks.{IsBlock, IsBlock-page, le-bytes, covered_in, uncovered-ne}

-- The list that starts at the node `a`, 0 for its end.
abbrev pub Chain : ℕ → Heap → ℕ → List ℕ → Type 0
Chain o heap a [] = a ≡ 0
Chain o heap a (f ∷ fs) = (a ≡ f) × IsBlock o f × Chain o heap (heap f).next_phys fs

-- The first node of a head.
abbrev pub first_frame : ℕ → ℕ
first_frame head = head / 2 ^ 16 * 2 ^ 12 % 2 ^ 64

pub record IsFreeList (o : ℕ) (heap : Heap) (head : ℕ) (fs : List ℕ) : Type 0 where
  pub chain : Chain o heap (first_frame head) fs
  pub word : head < 2 ^ 48

pub new-IsFreeList : (o : ℕ) (heap : Heap) → IsFreeList o heap 0 []
new-IsFreeList o heap = record { chain = refl; word = omega arith }

-- A packed word holds its frame, in 48 bits.
pack_lem : (f tag : ℕ) → f < 2 ^ 32 → (pack f tag / 2 ^ 16 ≡ f) × (pack f tag < 2 ^ 48)
unfolding pack
pack_lem f tag h =
    let low : bit_and tag 0xFFFF ≡ tag % 2 ^ 16 = bit_and-low 16 tag in
    let high : f * 2 ^ 16 % 2 ^ 64 ≡ f * 2 ^ 16 = omega arith in
    let joined = bit_or-fields 16 f (tag % 2 ^ 16) (omega arith) in
    rw (low, high, joined) (omega arith, omega arith)

plausible_lem : (a : ℕ) → a % 4096 ≡ 0 → a < 2 ^ 44 → plausible a ≡ true
plausible_lem a page lt = ground (arith, bit_and-low 12 a)

Chain-page :
    (o : ℕ) (heap : Heap) (a : ℕ) (fs : List ℕ) → Chain o heap a fs → (a % 4096 ≡ 0) × (a < 2 ^ 44)
Chain-page o heap a [] c = (omega arith, omega arith)
Chain-page o heap a (f ∷ fs) (e, b, c) =
    (omega (arith, IsBlock-page o f b, e), omega (arith, b.in_range, le-bytes o, e))

-- A node written at a frame of no listed block leaves the list alone.
pub Chain-write :
    (o : ℕ) (heap : Heap) (a : ℕ) (fs : List ℕ) (f : ℕ) (node : FreeFrame)
    → covered_in f o fs ≡ 0
    → Chain o heap a fs
    → Chain o (update heap f node) a fs
Chain-write o heap a [] f node away c = c
Chain-write o heap a (g ∷ fs) f node away (e, b, c) =
    let same : update heap f node g ≡ heap g =
      update_ne heap f node g (λ e'. uncovered-ne f o g (omega (arith, away)) (sym e')) in
    (e, b, rw same (Chain-write o heap (heap g).next_phys fs f node (omega (arith, away)) c))

pub IsFreeList-write :
    (o : ℕ) (heap : Heap) (head : ℕ) (fs : List ℕ) (f : ℕ) (node : FreeFrame)
    → covered_in f o fs ≡ 0
    → IsFreeList o heap head fs
    → IsFreeList o (update heap f node) head fs
IsFreeList-write o heap head fs f node away l = record {
  chain = Chain-write o heap (first_frame head) fs f node away l.chain;
  word = l.word;
}

-- What a pushed frame holds.
pub pushed_node : ℕ → FreeFrame
unfolding unpack
pushed_node head = record { next_phys = first_frame head; generation = (unpack head).1 }

-- `push` puts a block first that the list does not hold.
pub push_lem :
    (o : ℕ) (heap : Heap) (head : ℕ) (fs : List ℕ) (f : ℕ)
    → IsFreeList o heap head fs
    → IsBlock o f
    → covered_in f o fs ≡ 0
    → (head' : ℕ) × (push heap head f ≡ some (update heap f (pushed_node head), head'))
      × IsFreeList o (update heap f (pushed_node head)) head' (f ∷ fs)
unfolding push pushed_node
push_lem o heap head fs f l b away =
    let page = IsBlock-page o f b in
    let lt : f < 2 ^ 44 = omega (arith, b.in_range, le-bytes o) in
    let ok = plausible_lem f page lt in
    let tag = ((unpack head).1 + 1) % 2 ^ 64 in
    let packed = pack_lem (f / 2 ^ 12) tag (omega (arith, lt)) in
    let node = pushed_node head in
    (
      pack (f / 2 ^ 12) tag,
      rw ok,
      record {
        chain = (
          omega (arith, packed.0, page, lt),
          b,
          rw (update_self heap f node)
              (Chain-write o heap (first_frame head) fs f node away l.chain),
        );
        word = packed.1;
      },
    )

-- `pop` takes the first block, and answers none exactly for an empty list.
pub pop_lem :
    (o : ℕ) (heap : Heap) (head : ℕ) (fs : List ℕ)
    → IsFreeList o heap head fs
    → ((pop heap head ≡ some (none, head)) × (fs ≡ []))
      ⊎ ((f : ℕ) × (rest : List ℕ) × (head' : ℕ) × (pop heap head ≡ some (some f, head'))
          × (fs ≡ f ∷ rest)
          × IsBlock o f
          × IsFreeList o heap head' rest)
unfolding pop unpack
pop_lem o heap head [] l =
    let none_left : (head / 2 ^ 16 == 0) ≡ true = ground (arith, l.chain, l.word) in
    inl (rw none_left, refl)
pop_lem o heap head (f ∷ rest) l =
    let (e, b, c) = l.chain in
    let next = (heap f).next_phys in
    let (page, lt) = Chain-page o heap next rest c in
    let some_left : (head / 2 ^ 16 == 0) ≡ false = ground (arith, e, b.positive) in
    let in_memory : ltb f max_plausible_phys ≡ true = ground (arith, b.in_range, le-bytes o) in
    let tag = ((unpack head).1 + 1) % 2 ^ 64 in
    let packed = pack_lem (next / 2 ^ 12) tag (omega (arith, lt)) in
    let same : first_frame (pack (next / 2 ^ 12) tag) ≡ next = omega (arith, packed.0, page, lt) in
    inr (
      f,
      rest,
      pack (next / 2 ^ 12) tag,
      rw (some_left, e, in_memory, plausible_lem next page lt) refl,
      refl,
      b,
      record { chain = rw same c; word = packed.1 },
    )
