-- ===== src/Paging/Fields.antt =====
-- An entry keeps the frame and the flags that it is made of.
use native.Mathlib.Nat.{pow-suc}
use rumicos.Base.{
  ℕ, zero, suc, ◌+◌, ◌*◌, ◌/◌, ◌%◌, ◌^◌, ◌<◌, ◌≡◌, ap, ap₂, ◌∙◌, arith, bit_and, bit_or,
}
use rumicos.Base.Digits.{bit_or_digit}
use rumicos.Base.Masks.{bit_and-high, bit_and-low, bit_or-fields, bit_or-zero}
use rumicos.Paging.{phys_new, frame_bits, new_page, frame, flags_of, with_flags, no_execute}

-- A bitwise or, the low digits apart from the rest.
bit_or-split :
    (k a b c d : ℕ)
    → c < 2 ^ k
    → d < 2 ^ k
    → bit_or (a * 2 ^ k + c) (b * 2 ^ k + d) ≡ bit_or a b * 2 ^ k + bit_or c d
bit_or-split zero a b c d hc hd =
    let c0 : c ≡ 0 = omega arith in
    let d0 : d ≡ 0 = omega arith in
    let a0 : a * 2 ^ 0 + 0 ≡ a = omega arith in
    let b0 : b * 2 ^ 0 + 0 ≡ b = omega arith in
    let none_left : bit_or 0 0 ≡ 0 = bit_or-zero 0 in rw (c0, d0, a0, b0, none_left) (omega arith)
bit_or-split (suc k) a b c d hc hd = omega (
  arith,
  bit_or_digit (a * 2 ^ suc k + c) (b * 2 ^ suc k + d),
  bit_or_digit c d,
  ap₂ (λ (s t : ℕ). bit_or s t) (half a c) (half b d),
  double a,
  double b,
  double (bit_or a b),
  bit_or-split k a b (c / 2) (d / 2) (omega (arith, pow-suc 2 k)) (omega (arith, pow-suc 2 k)),
)
  where
    double : (m : ℕ) → m * 2 ^ suc k ≡ m * 2 ^ k * 2
    double m = omega (arith, ap (λ (t : ℕ). m * t) (pow-suc 2 k))

    half : (m r : ℕ) → (m * 2 ^ suc k + r) / 2 ≡ m * 2 ^ k + r / 2
    half m r = omega (arith, double m)

-- The same for words that are known in two parts.
bit_or_parts :
    (k a b c d x y : ℕ)
    → x ≡ a * 2 ^ k + c
    → y ≡ b * 2 ^ k + d
    → c < 2 ^ k
    → d < 2 ^ k
    → bit_or x y ≡ bit_or a b * 2 ^ k + bit_or c d
bit_or_parts k a b c d x y ex ey hc hd =
    ap₂ (λ (s t : ℕ). bit_or s t) ex ey ∙ bit_or-split k a b c d hc hd

bit_or_zero-left : (a : ℕ) → a < 2 ^ 64 → bit_or 0 a ≡ a
bit_or_zero-left a h = bit_or-fields 64 0 a h ∙ omega arith

-- The flags of a page: the low twelve bits and the top one.
pub record IsFlags (flags : ℕ) : Type 0 where
  pub low : ℕ
  pub top : ℕ
  pub small : low < 2 ^ 12
  pub one : top < 2
  pub whole : flags ≡ top * 2 ^ 63 + low

-- The low digits and the top one of a word.
joined : (low top : ℕ) → low < 2 ^ 63 → top < 2 → bit_or low (top * 2 ^ 63) ≡ top * 2 ^ 63 + low
joined low top small one =
    let split =
      bit_or_parts 63 0 top low 0 low (top * 2 ^ 63) (omega arith) (omega arith) small
        (omega arith) in
    omega (arith, split, bit_or_zero-left top (omega arith), bit_or-zero low)

pub new_page_lem :
    (q flags : ℕ)
    → q < 2 ^ 36
    → (f : IsFlags flags) → new_page (q * 2 ^ 12) flags ≡ f.top * 2 ^ 63 + q * 2 ^ 12 + f.low
unfolding new_page frame_bits
new_page_lem q flags few f =
    let bits = bit_and-low 36 (q * 2 ^ 12 / 2 ^ 12) in
    let pfn : bit_and (q * 2 ^ 12 / 2 ^ 12) 0xF_FFFF_FFFF ≡ q = omega (arith, bits, few) in
    let word : q * 2 ^ 12 % 2 ^ 64 ≡ q * 2 ^ 12 + 0 = omega (arith, few) in
    let parts : flags ≡ f.top * 2 ^ 51 * 2 ^ 12 + f.low = omega (arith, f.whole) in
    let upper =
      bit_or_parts 51 0 f.top q 0 q (f.top * 2 ^ 51) (omega arith) (omega arith)
        (omega (arith, few)) (omega arith) in
    rw (pfn, word, parts)
      (omega (
        arith,
        bit_or-split 12 q (f.top * 2 ^ 51) 0 f.low (omega arith) f.small,
        upper,
        bit_or_zero-left f.top (omega (arith, f.one)),
        bit_or_zero-left f.low (omega (arith, f.small)),
        bit_or-zero q,
      ))

-- An entry made of an aligned address below 2 ^ 48 and of flags, in the low twelve bits and the
-- top one, gives back both.
pub new_page_round_trip :
    (phys flags : ℕ)
    → phys % 2 ^ 12 ≡ 0
    → phys < 2 ^ 48
    → IsFlags flags
    → (frame (new_page phys flags) ≡ phys) × (flags_of (new_page phys flags) ≡ flags)
unfolding frame flags_of phys_new
new_page_round_trip phys flags page lt f =
    let q = phys / 2 ^ 12 in
    let e : phys ≡ q * 2 ^ 12 = omega (arith, page) in
    let word : new_page phys flags ≡ f.top * 2 ^ 63 + q * 2 ^ 12 + f.low =
      ap (λ (p : ℕ). new_page p flags) e ∙ new_page_lem q flags (omega (arith, lt)) f in
    let w = f.top * 2 ^ 63 + q * 2 ^ 12 + f.low in
    let pfn = bit_and-low 36 (w / 2 ^ 12) in
    let low = bit_and-low 12 w in
    let kept = bit_and-low 52 (q * 2 ^ 12) in
    let top = bit_and-high 63 w 1 in
    let digit = bit_and-low 1 (w / 2 ^ 63) in
    let mid : bit_and (w / 2 ^ 12) 0xF_FFFF_FFFF * 2 ^ 12 % 2 ^ 64 ≡ q * 2 ^ 12 =
      omega (arith, pfn, lt, f.small) in
    let low_is : bit_and w 0xFFF ≡ f.low = omega (arith, low, f.small) in
    let top_is : bit_and w no_execute ≡ f.top * 2 ^ 63 =
      omega (arith, top, digit, f.small, f.one, lt) in
    rw word (
      rw mid (omega (arith, kept, lt, page)),
      rw (low_is, top_is)
          (omega (arith, joined f.low f.top (omega (arith, f.small)) f.one, f.whole)),
    )

frame_lem : (e : ℕ) → frame e ≡ e / 2 ^ 12 % 2 ^ 36 * 2 ^ 12
unfolding frame phys_new
frame_lem e =
    let q = e / 2 ^ 12 % 2 ^ 36 in
    let pfn = bit_and-low 36 (e / 2 ^ 12) in
    let kept = bit_and-low 52 (q * 2 ^ 12) in
    let mid : bit_and (e / 2 ^ 12) 0xF_FFFF_FFFF * 2 ^ 12 % 2 ^ 64 ≡ q * 2 ^ 12 =
      omega (arith, pfn) in
    rw mid (omega (arith, kept))

-- New flags for any entry keep its frame, and are read back.
pub with_flags_lem :
    (e flags : ℕ)
    → IsFlags flags
    → (frame (with_flags e flags) ≡ frame e) × (flags_of (with_flags e flags) ≡ flags)
unfolding with_flags
with_flags_lem e flags f =
    new_page_round_trip (frame e) flags (omega (arith, frame_lem e)) (omega (arith, frame_lem e)) f
