-- ===== src/Frames/Blocks.antt =====
-- Blocks of frames, and how often they cover an address.
use native.Mathlib.Nat.{pow-suc, one-le-pow}
use rumicos.Base.{
  ℕ, zero, suc, ◌+◌, ◌*◌, ◌%◌, ◌^◌, ◌≤◌, ◌<◌, ◌≡◌, ◌≢◌, refl, ap, subst, ◌∙◌, List, [], ◌∷◌, arith,
  if◌then◌else◌, ltb, leb, ◌&&◌, length, get_or, set,
}

-- The bytes of a block, `1 << (order + 12)`.
abbrev pub bytes : ℕ → ℕ
bytes order = 2 ^ (order + 12)

pub bytes-suc : (order : ℕ) → bytes (suc order) ≡ bytes order + bytes order
bytes-suc order =
    let e : suc order + 12 ≡ suc (order + 12) = omega arith in
    ap (λ (n : ℕ). 2 ^ n) e ∙ pow-suc 2 (order + 12) ∙ omega arith

pub bytes_pages : (order : ℕ) → bytes order ≡ 2 ^ order * 4096
bytes_pages zero = refl
bytes_pages (suc order) =
    omega (arith, bytes-suc order, bytes_pages order, ap (λ (t : ℕ). t * 4096) (pow-suc 2 order))

pub le-bytes : (order : ℕ) → 4096 ≤ bytes order
le-bytes order = omega (arith, bytes_pages order, one-le-pow order 2 (omega arith))

-- A whole block, at a multiple of its size, above address 0 and below 2 ^ 44.
pub record IsBlock (order a : ℕ) : Type 0 where
  pub positive : 0 < a
  pub in_range : a + bytes order ≤ 2 ^ 44
  pub aligned : (q : ℕ) × (a ≡ q * bytes order)

pub IsBlock-page : (order a : ℕ) → IsBlock order a → a % 4096 ≡ 0
IsBlock-page order a v =
    let (q, e) = v.aligned in omega (arith, e, ap (λ (t : ℕ). q * t) (bytes_pages order), regroup q)
  where
    regroup : (q : ℕ) → q * (2 ^ order * 4096) ≡ q * 2 ^ order * 4096
    regroup q = grind arith

-- The two halves of a block.
pub lower_half : (order a : ℕ) → IsBlock (suc order) a → IsBlock order a
lower_half order a v =
    let (q, e) = v.aligned in
    record {
      positive = v.positive;
      in_range = omega (arith, v.in_range, bytes-suc order);
      aligned = (2 * q, e ∙ ap (λ (t : ℕ). q * t) (bytes-suc order) ∙ grind arith);
    }

pub upper_half : (order a : ℕ) → IsBlock (suc order) a → IsBlock order (a + bytes order)
upper_half order a v =
    let (q, e) = v.aligned in
    record {
      positive = omega (arith, v.positive);
      in_range = omega (arith, v.in_range, bytes-suc order);
      aligned = (
        2 * q + 1,
        ap (λ (t : ℕ). t + bytes order) (e ∙ ap (λ (t : ℕ). q * t) (bytes-suc order)) ∙ grind arith,
      );
    }

-- 1 if the block at `a` holds the address `x`.
abbrev pub covers : ℕ → ℕ → ℕ → ℕ
covers x order a = if leb a x && ltb x (a + bytes order) then 1 else 0

pub covers_split :
    (x order a : ℕ) → covers x (suc order) a ≡ covers x order a + covers x order (a + bytes order)
covers_split x order a = ground (arith, bytes-suc order)

pub covers_self : (order a : ℕ) → covers a order a ≡ 1
covers_self order a = ground (arith, le-bytes order)

abbrev pub covered_in : ℕ → ℕ → List ℕ → ℕ
covered_in x order [] = 0
covered_in x order (a ∷ as_) = covers x order a + covered_in x order as_

-- The levels from `order` on.
abbrev pub covered_from : ℕ → ℕ → List (List ℕ) → ℕ
covered_from x order [] = 0
covered_from x order (l ∷ ls) = covered_in x order l + covered_from x (suc order) ls

-- How many free blocks hold the address `x`.
abbrev pub covered : ℕ → List (List ℕ) → ℕ
covered x levels = covered_from x 0 levels

covered_from-set :
    (x o : ℕ) (ls : List (List ℕ)) (i : ℕ) (l : List ℕ)
    → i < length ls
    → covered_from x o (set ls i l) + covered_in x (o + i) (get_or ls i [])
      ≡ covered_from x o ls + covered_in x (o + i) l
covered_from-set x o [] i l h = elim h [ ]
covered_from-set x o (k ∷ ls) zero l h = let e : o + zero ≡ o = omega arith in rw e (omega arith)
covered_from-set x o (k ∷ ls) (suc i) l h =
    let e : o + suc i ≡ suc o + i = omega arith in
    rw e (omega (arith, covered_from-set x (suc o) ls i l (omega arith)))

-- Trading one level for another changes the cover by what the two hold.
pub covered-set :
    (x : ℕ) (ls : List (List ℕ)) (i : ℕ) (l : List ℕ)
    → i < length ls
    → covered x (set ls i l) + covered_in x i (get_or ls i []) ≡ covered x ls + covered_in x i l
covered-set x ls i l h =
    subst
      (λ (j : ℕ).
        covered x (set ls i l) + covered_in x j (get_or ls i []) ≡ covered x ls + covered_in x j l)
      (omega arith) (covered_from-set x 0 ls i l h)

-- The pages that a level holds.
abbrev pub pages_from : ℕ → List (List ℕ) → ℕ
pages_from o [] = 0
pages_from o (l ∷ ls) = length l * 2 ^ o + pages_from (suc o) ls

abbrev pub pages : List (List ℕ) → ℕ
pages levels = pages_from 0 levels

pages_from-set :
    (o : ℕ) (ls : List (List ℕ)) (i : ℕ) (l : List ℕ)
    → i < length ls
    → pages_from o (set ls i l) + length (get_or ls i []) * 2 ^ (o + i)
      ≡ pages_from o ls + length l * 2 ^ (o + i)
pages_from-set o [] i l h = elim h [ ]
pages_from-set o (k ∷ ls) zero l h = let e : o + zero ≡ o = omega arith in rw e (omega arith)
pages_from-set o (k ∷ ls) (suc i) l h =
    let e : o + suc i ≡ suc o + i = omega arith in
    rw e (omega (arith, pages_from-set (suc o) ls i l (omega arith)))

pub pages-set :
    (ls : List (List ℕ)) (i : ℕ) (l : List ℕ)
    → i < length ls
    → pages (set ls i l) + length (get_or ls i []) * 2 ^ i ≡ pages ls + length l * 2 ^ i
pages-set ls i l h =
    subst
      (λ (j : ℕ).
        pages (set ls i l) + length (get_or ls i []) * 2 ^ j ≡ pages ls + length l * 2 ^ j)
      (omega arith) (pages_from-set 0 ls i l h)

-- A block that starts at an address that no block holds is in no list.
pub uncovered-ne : (x o a : ℕ) → covers x o a ≡ 0 → a ≢ x
uncovered-ne x o a h = λ e. ground (arith, e, covers_self o a)
