-- ===== src/Frames/Region/Excluded.antt =====
-- `add_region_excluding`: which frames of a range become free.
use rumicos.Base.{
  ℕ, zero, suc, ◌+◌, ◌-◌, ◌*◌, ◌/◌, ◌^◌, ◌≤◌, ◌<◌, ◌≡◌, refl, subst, ◌⊎◌, inl, inr, Bool, true, not,
  List, [], ◌∷◌, Option, none, some, arith, if◌then◌else◌, ltb, leb, ◌&&◌, Bool-cases, min, max,
  bit_and,
}
use rumicos.Base.Masks.{bit_and-high, bit_and-low}
use rumicos.Frames.{Heap, Buddy}
use rumicos.Frames.Blocks.{covered}
use rumicos.Frames.Alloc.{IsBuddy}
use rumicos.Frames.Region.{
  Range, ExclusionSet, exclusion_overlap, or_overlap, extra_overlap, first_exclusion_overlap,
  node_or_new, add_aligned, carve, add_region_excluding,
}
use rumicos.Frames.Region.Tiles.{within, add_region-Adds}

-- The frame of an address.
abbrev pub frame_of : ℕ → ℕ
frame_of x = x / 4096 * 4096

-- No byte of the frame at `p` is reserved.
abbrev pub clear_of : ℕ → Range → Bool
clear_of p (first, last) = not (ltb (max first p) (min last (p + 4096)))

abbrev pub clear_of_all : ℕ → List Range → Bool
clear_of_all p [] = true
clear_of_all p (r ∷ rs) = clear_of p r && clear_of_all p rs

abbrev pub is_clear : ℕ → ExclusionSet → Bool
is_clear p ex =
    clear_of p ex.bump_consumed
    && (clear_of p ex.kernel_phys_range && clear_of_all p ex.extra_reserved)

-- 1 if the frame of `x` lies within `[start, end)` and meets no exclusion.
abbrev pub usable : ExclusionSet → ℕ → ℕ → ℕ → ℕ
usable ex start end x =
    let p = frame_of x in if leb start p && (leb (p + 4096) end && is_clear p ex) then 1 else 0

-- What an overlap says of a frame of the range that is clear.
data Overlaps (start end : ℕ) (clear : ℕ → Bool) : Option Range → Type 0 where
  misses : ((p : ℕ) → start ≤ p → p + 4096 ≤ end → clear p ≡ true) → Overlaps start end clear none
  meets :
      (first last : ℕ)
      → start ≤ first
      → first < last
      → last ≤ end
      → ((p : ℕ) → clear p ≡ true → (p + 4096 ≤ first) ⊎ (last ≤ p))
      → Overlaps start end clear (some (first, last))

exclusion_overlap-Overlaps :
    (start end : ℕ) (r : Range)
    → Overlaps start end (λ p. clear_of p r) (exclusion_overlap start end r)
unfolding exclusion_overlap
exclusion_overlap-Overlaps start end (first, last) =
    elim (Bool-cases (ltb (max first start) (min last end))) [
      | inl t ↦ rw t (
          meets (max first start) (min last end) (omega arith) (ground arith) (omega arith) (λ p c.
            elim (Bool-cases (leb (min last end) p)) [
              | inl after ↦ inr (ground arith)
              | inr before ↦ inl (ground (arith, c))
            ]))
      | inr f ↦ rw f (misses (λ p lo hi. ground (arith, f)))
    ]

or_overlap-Overlaps :
    (start end : ℕ) (c d : ℕ → Bool) (o o' : Option Range)
    → Overlaps start end c o
    → Overlaps start end d o'
    → Overlaps start end (λ p. c p && d p) (or_overlap o o')
unfolding or_overlap
or_overlap-Overlaps start end c d none none (misses f) (misses g) =
    misses (λ p lo hi. rw (f p lo hi, g p lo hi) refl)
or_overlap-Overlaps start end c d none (some r) (misses f) (meets a b x y z g) =
    meets a b x y z (λ p e. g p (ground (arith, e)))
or_overlap-Overlaps start end c d (some r) o' (meets a b x y z g) w =
    meets a b x y z (λ p e. g p (ground (arith, e)))

extra_overlap-Overlaps :
    (start end : ℕ) (rs : List Range)
    → Overlaps start end (λ p. clear_of_all p rs) (extra_overlap start end rs)
unfolding extra_overlap
extra_overlap-Overlaps start end [] = misses (λ p lo hi. refl)
extra_overlap-Overlaps start end (r ∷ rs) =
    or_overlap-Overlaps start end (λ p. clear_of p r) (λ p. clear_of_all p rs)
      (exclusion_overlap start end r) (extra_overlap start end rs)
      (exclusion_overlap-Overlaps start end r) (extra_overlap-Overlaps start end rs)

first_exclusion_overlap-Overlaps :
    (start end : ℕ) (ex : ExclusionSet)
    → Overlaps start end (λ p. is_clear p ex) (first_exclusion_overlap start end ex)
unfolding first_exclusion_overlap
first_exclusion_overlap-Overlaps start end ex =
    or_overlap-Overlaps start end (λ p. clear_of p ex.bump_consumed)
      (λ p. clear_of p ex.kernel_phys_range && clear_of_all p ex.extra_reserved)
      (exclusion_overlap start end ex.bump_consumed)
      (or_overlap (exclusion_overlap start end ex.kernel_phys_range)
        (extra_overlap start end ex.extra_reserved))
      (exclusion_overlap-Overlaps start end ex.bump_consumed)
      (or_overlap-Overlaps start end (λ p. clear_of p ex.kernel_phys_range)
        (λ p. clear_of_all p ex.extra_reserved) (exclusion_overlap start end ex.kernel_phys_range)
        (extra_overlap start end ex.extra_reserved)
        (exclusion_overlap-Overlaps start end ex.kernel_phys_range)
        (extra_overlap-Overlaps start end ex.extra_reserved))

-- The frames of a range without exclusions, and the two parts of a range around one.
usable_apart :
    (ex : ExclusionSet) (start end x : ℕ)
    → ((p : ℕ) → start ≤ p → p + 4096 ≤ end → is_clear p ex ≡ true)
    → usable ex start end x ≡ within x ((start + 4095) / 4096 * 4096) (end / 4096 * 4096)
usable_apart ex start end x clear = elim (Bool-cases (leb start (frame_of x))) [
  | inl lo ↦ elim (Bool-cases (leb (frame_of x + 4096) end)) [
    | inl hi ↦ rw (lo, hi, clear (frame_of x) (ground arith) (ground arith)) (ground arith)
    | inr hi ↦ rw (lo, hi) (ground arith)
  ]
  | inr lo ↦ rw lo (ground arith)
]

usable_split :
    (ex : ExclusionSet) (start end first last x : ℕ)
    → start ≤ first
    → first < last
    → last ≤ end
    → ((p : ℕ) → is_clear p ex ≡ true → (p + 4096 ≤ first) ⊎ (last ≤ p))
    → usable ex start end x ≡ usable ex start first x + usable ex last end x
usable_split ex start end first last x a b c away = elim (Bool-cases (is_clear (frame_of x) ex)) [
  | inl t ↦ elim (away (frame_of x) t) [
    | inl before ↦ rw t (ground arith)
    | inr after ↦ rw t (ground arith)
  ]
  | inr f ↦ rw f (ground arith)
]

align_down_lem : (v : ℕ) → v < 2 ^ 64 → bit_and v (2 ^ 64 - 4096) ≡ v / 4096 * 4096
align_down_lem v h =
    let e = bit_and-high 12 v (2 ^ 52 - 1) in
    let e' = bit_and-low 52 (v / 4096) in omega (arith, e, e')

-- The node once `more` is free too.
pub record Frees (heap : Heap) (levels : List (List ℕ)) (more : ℕ → ℕ) (out : Option (Option Buddy))
    : Type 0 where
  pub slot : Option Buddy
  pub levels' : List (List ℕ)
  pub returned : out ≡ some slot
  pub buddy : IsBuddy (node_or_new heap slot) levels'
  pub cover : (x : ℕ) → covered x levels' ≡ covered x levels + more x

pub unchanged :
    (heap : Heap) (slot : Option Buddy) (levels : List (List ℕ)) (more : ℕ → ℕ)
    → IsBuddy (node_or_new heap slot) levels
    → ((x : ℕ) → more x ≡ 0)
    → Frees heap levels more (some slot)
unchanged heap slot levels more v none_more = record {
  slot = slot;
  levels' = levels;
  returned = refl;
  buddy = v;
  cover = λ x. omega (arith, none_more x);
}

add_aligned-Frees :
    (heap : Heap) (slot : Option Buddy) (levels : List (List ℕ)) (start end : ℕ)
    → IsBuddy (node_or_new heap slot) levels
    → 0 < start
    → end ≤ 2 ^ 44
    → start < end
    → ((x : ℕ) → covered x levels + within x ((start + 4095) / 4096 * 4096) (end / 4096 * 4096) ≤ 1)
    → Frees heap levels
        (λ x. within x ((start + 4095) / 4096 * 4096) (end / 4096 * 4096))
        (add_aligned heap start end slot)
unfolding add_aligned node_or_new
add_aligned-Frees heap slot levels start end v pos top lt apart =
    let first = (start + 4095) / 4096 * 4096 in
    let last = end / 4096 * 4096 in
    rw (align_down_lem (start + 4095) (omega arith), align_down_lem end (omega arith))
      (elim (Bool-cases (leb last first)) [
        | inl empty ↦
            rw empty (unchanged heap slot levels (λ x. within x first last) v (λ x. ground arith))
        | inr more ↦
            let same : first + (last - first) / 4096 * 4096 ≡ last = ground arith in
            let r =
              add_region-Adds heap slot levels first ((last - first) / 4096) v (omega arith)
                (omega arith) (omega arith) (λ x. rw same (apart x)) in
            rw more (record {
              slot = some r.node;
              levels' = r.levels';
              returned = r.returned;
              buddy = r.buddy;
              cover = λ x.
                  subst (λ (t : ℕ). covered x r.levels' ≡ covered x levels + within x first t) same
                    (r.cover x);
            })
      ])

-- One part of a range, if it is not empty.
part-Frees :
    (heap : Heap) (slot : Option Buddy) (levels : List (List ℕ)) (more : ℕ → ℕ) (a b : ℕ)
    (out : Option (Option Buddy))
    → IsBuddy (node_or_new heap slot) levels
    → (a < b → Frees heap levels more out)
    → (b ≤ a → (x : ℕ) → more x ≡ 0)
    → Frees heap levels more (if ltb a b then out else some slot)
part-Frees heap slot levels more a b out v whole empty = elim (Bool-cases (ltb a b)) [
  | inl t ↦ rw t (whole (ground arith))
  | inr f ↦ rw f (unchanged heap slot levels more v (empty (ground arith)))
]

carve-Frees :
    (n : ℕ) (heap : Heap) (ex : ExclusionSet) (again : ℕ → ℕ → Option Buddy → Option (Option Buddy))
    → ((slot : Option Buddy) (levels : List (List ℕ)) (start end : ℕ)
        → IsBuddy (node_or_new heap slot) levels
        → 0 < start
        → end ≤ 2 ^ 44
        → end < start + n
        → ((x : ℕ) → covered x levels + usable ex start end x ≤ 1)
        → Frees heap levels (usable ex start end) (again start end slot))
    → (slot : Option Buddy) (levels : List (List ℕ)) (start end : ℕ) (o : Option Range)
    → Overlaps start end (λ p. is_clear p ex) o
    → IsBuddy (node_or_new heap slot) levels
    → 0 < start
    → end ≤ 2 ^ 44
    → start < end
    → end < start + suc n
    → ((x : ℕ) → covered x levels + usable ex start end x ≤ 1)
    → Frees heap levels (usable ex start end) (carve again heap start end slot o)
unfolding carve
carve-Frees n heap ex again whole slot levels start end none (misses clear) v pos top lt fuel once =
    let same = λ (x : ℕ). usable_apart ex start end x clear in
    let r =
      add_aligned-Frees heap slot levels start end v pos top lt
        (λ x. omega (arith, once x, same x)) in
    record {
      slot = r.slot;
      levels' = r.levels';
      returned = r.returned;
      buddy = r.buddy;
      cover = λ x. omega (arith, r.cover x, same x);
    }
carve-Frees n heap ex again whole slot levels start end (some r0) (meets first last a b c away) v
      pos top lt fuel once =
    let split = λ (x : ℕ). usable_split ex start end first last x a b c away in
    let r =
      part-Frees heap slot levels (usable ex start first) start first (again start first slot) v
        (λ h.
          whole slot levels start first v pos (omega (arith, b, c, top)) (omega (arith, fuel, b, c))
            (λ x. omega (arith, once x, split x)))
        (λ h x. ground arith) in
    let r' =
      part-Frees heap r.slot r.levels' (usable ex last end) last end (again last end r.slot) r.buddy
        (λ h.
          whole r.slot r.levels' last end r.buddy (omega (arith, a, b)) top
            (omega (arith, fuel, a, b)) (λ x. omega (arith, once x, split x, r.cover x)))
        (λ h x. ground arith) in
    record {
      slot = r'.slot;
      levels' = r'.levels';
      returned = rw r.returned r'.returned;
      buddy = r'.buddy;
      cover = λ x. omega (arith, r.cover x, r'.cover x, split x);
    }

-- Within any range above address 0 and below 2 ^ 44 whose usable frames are not free yet,
-- `add_region_excluding` makes free exactly the whole frames that meet no exclusion; it never
-- panics, and its recursion is no deeper than the range has bytes.
pub add_region_excluding-Frees :
    (n : ℕ) (heap : Heap) (ex : ExclusionSet) (slot : Option Buddy) (levels : List (List ℕ))
    (start end : ℕ)
    → IsBuddy (node_or_new heap slot) levels
    → 0 < start
    → end ≤ 2 ^ 44
    → end < start + n
    → ((x : ℕ) → covered x levels + usable ex start end x ≤ 1)
    → Frees heap levels (usable ex start end) (add_region_excluding n heap ex start end slot)
unfolding add_region_excluding
add_region_excluding-Frees zero heap ex slot levels start end v pos top fuel once =
    unchanged heap slot levels (usable ex start end) v (λ x. ground arith)
add_region_excluding-Frees (suc n) heap ex slot levels start end v pos top fuel once =
    elim (Bool-cases (leb end start)) [
      | inl empty ↦
          rw empty (unchanged heap slot levels (usable ex start end) v (λ x. ground arith))
      | inr more ↦ rw more (
          carve-Frees n heap ex (add_region_excluding n heap ex)
            (λ slot' levels' a b. add_region_excluding-Frees n heap ex slot' levels' a b) slot
            levels start end (first_exclusion_overlap start end ex)
            (first_exclusion_overlap-Overlaps start end ex) v pos top (ground arith) fuel once)
    ]
