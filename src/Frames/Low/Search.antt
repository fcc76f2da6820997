-- ===== src/Frames/Low/Search.antt =====
-- `alloc_frame_below_4g`: what it takes and what it gives back.
use rumicos.Base.{
  ℕ, zero, suc, ◌+◌, ◌≤◌, ◌<◌, ◌≡◌, refl, inl, inr, List, [], ◌∷◌, Option, none, some, arith, ltb,
  Bool-cases,
}
use rumicos.Frames.{Buddy, low_4g_limit, max_low_frame_tries}
use rumicos.Frames.Blocks.{IsBlock, covers, covered, covered_in}
use rumicos.Frames.Lists.{put, levels_are, covered-put}
use rumicos.Frames.Alloc.{IsBuddy, exhausted, allocates, alloc_order-Allocates, free_order_lem}
use rumicos.Frames.Low.{
  alloc_frame, free_frame, low_or_next, try_low, free_rejected, alloc_frame_below_4g,
}

abbrev pub AreFrames : List ℕ → Type 0
AreFrames [] = Unit {0}
AreFrames (f ∷ fs) = IsBlock 0 f × AreFrames fs

-- 1 if the frame that is returned holds `x`.
abbrev pub taken : ℕ → Option ℕ → ℕ
taken x none = 0
taken x (some f) = covers x 0 f

abbrev pub IsLow : Option ℕ → Type 0
IsLow none = Unit {0}
IsLow (some f) = (f < low_4g_limit) × IsBlock 0 f

record Tried (levels : List (List ℕ)) (out : Option (Option Buddy × List ℕ × Option ℕ))
    : Type 0 where
  node : Buddy
  rejected : List ℕ
  result : Option ℕ
  levels' : List (List ℕ)
  returned : out ≡ some (some node, rejected, result)
  buddy : IsBuddy node levels'
  frames : AreFrames rejected
  low : IsLow result
  cover : (x : ℕ) → covered x levels' + covered_in x 0 rejected + taken x result ≡ covered x levels

try_low-Tried :
    (n : ℕ) (b : Buddy) (levels : List (List ℕ))
    → IsBuddy b levels
    → Tried levels (try_low n (some b))
unfolding try_low alloc_frame low_or_next
try_low-Tried zero b levels v = record {
  node = b;
  rejected = [];
  result = none;
  levels' = levels;
  returned = refl;
  buddy = v;
  frames = tt;
  low = tt;
  cover = λ x. omega arith;
}
try_low-Tried (suc n) b levels v = elim (alloc_order-Allocates b levels 0 v (omega arith)) [
  | exhausted e _ ↦ rw e (record {
    node = b;
    rejected = [];
    result = none;
    levels' = levels;
    returned = refl;
    buddy = v;
    frames = tt;
    low = tt;
    cover = λ x. omega arith;
  })
  | allocates b1 levels1 f e v1 block cover1 ↦ elim (Bool-cases (ltb f low_4g_limit)) [
    | inl low ↦
        rw (e, low)
          (record {
            node = b1;
            rejected = [];
            result = some f;
            levels' = levels1;
            returned = refl;
            buddy = v1;
            frames = tt;
            low = (ground arith, block);
            cover = λ x. omega (arith, cover1 x);
          })
    | inr high ↦
        let r = try_low-Tried n b1 levels1 v1 in
        rw (e, high, r.returned)
          (record {
            node = r.node;
            rejected = f ∷ r.rejected;
            result = r.result;
            levels' = r.levels';
            returned = refl;
            buddy = r.buddy;
            frames = (block, r.frames);
            low = r.low;
            cover = λ x. omega (arith, cover1 x, r.cover x);
          })
  ]
]

free_rejected_lem :
    (fs : List ℕ) (b : Buddy) (levels : List (List ℕ))
    → IsBuddy b levels
    → AreFrames fs
    → ((x : ℕ) → covered x levels + covered_in x 0 fs ≤ 1)
    → (b' : Buddy) × (levels' : List (List ℕ)) × (free_rejected (some b) fs ≡ some (some b'))
      × IsBuddy b' levels'
      × ((x : ℕ) → covered x levels' ≡ covered x levels + covered_in x 0 fs)
unfolding free_rejected free_frame
free_rejected_lem [] b levels v frames once = (b, levels, refl, v, λ x. omega arith)
free_rejected_lem (f ∷ fs) b levels v frames once =
    let (b1, freed, v1, _, _) =
      free_order_lem b levels 0 f v (omega arith) frames.0 (λ x. omega (arith, once x)) in
    let more = λ (x : ℕ). covered-put x levels 0 f (omega (arith, levels_are v.stock)) in
    let (b2, levels2, rest, v2, cover) =
      free_rejected_lem fs b1 (put levels 0 f) v1 frames.1 (λ x. omega (arith, once x, more x)) in
    (b2, levels2, rw freed rest, v2, λ x. omega (arith, cover x, more x))

-- What a search below 4 GiB leaves.
pub record FindsLow (levels : List (List ℕ)) (out : Option (Option Buddy × Option ℕ)) : Type 0 where
  pub node : Buddy
  pub levels' : List (List ℕ)
  pub result : Option ℕ
  pub returned : out ≡ some (some node, result)
  pub buddy : IsBuddy node levels'
  pub low : IsLow result
  pub cover : (x : ℕ) → covered x levels' + taken x result ≡ covered x levels

-- `alloc_frame_below_4g` on a well-formed node never panics; a frame that it returns was free and
-- lies below 4 GiB, and every frame that it took and rejected is free again, with its page
-- counted.
pub alloc_frame_below_4g-FindsLow :
    (b : Buddy) (levels : List (List ℕ))
    → IsBuddy b levels
    → FindsLow levels (alloc_frame_below_4g (some b))
unfolding alloc_frame_below_4g
alloc_frame_below_4g-FindsLow b levels v =
    let r = try_low-Tried max_low_frame_tries b levels v in
    let (b', levels', freed, v', cover) =
      free_rejected_lem r.rejected r.node r.levels' r.buddy r.frames
        (λ x. omega (arith, r.cover x, v.stock.once x)) in
    record {
      node = b';
      levels' = levels';
      result = r.result;
      returned = rw (r.returned, freed) refl;
      buddy = v';
      low = r.low;
      cover = λ x. omega (arith, cover x, r.cover x);
    }
