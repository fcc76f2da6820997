-- ===== src/Shell/Progress.antt =====
-- What a token is, and that each takes at least one byte off the line.
use rumicos.Base.{
  ℕ, suc, ◌≤◌, ◌<◌, ◌≡◌, refl, inl, inr, Bool, true, false, ◌||◌, [], ◌∷◌, Option, none, some,
  arith, if◌then◌else◌, ◌==◌, Bool-cases, length,
}
use rumicos.Shell.{
  Bytes, Tok, word, pipe, great, great_great, less, is_space, is_op, skip_spaces, split_word,
  great_token, first_token, next_token,
}

-- Only bytes that are no space and no operator.
abbrev pub ArePlain : Bytes → Type 0
ArePlain [] = Unit {0}
ArePlain (b ∷ bs) = ((is_space b || is_op b) ≡ false) × ArePlain bs

pub record IsWord (w : Bytes) : Type 0 where
  pub inhabited : 0 < length w
  pub plain : ArePlain w

abbrev pub IsTok : Tok → Type 0
IsTok (word w) = IsWord w
IsTok pipe = Unit {0}
IsTok great = Unit {0}
IsTok great_great = Unit {0}
IsTok less = Unit {0}

-- A token of a line of `n` bytes, and the rest of the line.
abbrev pub Follows : ℕ → Option (Tok × Bytes) → Type 0
Follows n none = Unit {0}
Follows n (some (t, rest)) = IsTok t × (length rest < n)

if-Follows :
    (n : ℕ) (c : Bool) (a b : Option (Tok × Bytes))
    → (c ≡ true → Follows n a)
    → (c ≡ false → Follows n b)
    → Follows n (if c then a else b)
if-Follows n true a b h k = h refl
if-Follows n false a b h k = k refl

skip_spaces-le : (bs : Bytes) → length (skip_spaces bs) ≤ length bs
unfolding skip_spaces
skip_spaces-le [] = omega arith
skip_spaces-le (b ∷ bs) = elim (Bool-cases (is_space b)) [
  | inl yes_space ↦ rw yes_space (omega (arith, skip_spaces-le bs))
  | inr other ↦ rw other (omega arith)
]

abbrev StartsPlain : Bytes → Type 0
StartsPlain [] = Unit {0}
StartsPlain (b ∷ bs) = is_space b ≡ false

skip_spaces-StartsPlain : (bs : Bytes) → StartsPlain (skip_spaces bs)
unfolding skip_spaces
skip_spaces-StartsPlain [] = tt
skip_spaces-StartsPlain (b ∷ bs) = elim (Bool-cases (is_space b)) [
  | inl yes_space ↦ rw yes_space (skip_spaces-StartsPlain bs)
  | inr other ↦ rw other other
]

split_word_lem : (bs : Bytes) → ArePlain (split_word bs).0 × (length (split_word bs).1 ≤ length bs)
unfolding split_word
split_word_lem [] = (tt, omega arith)
split_word_lem (b ∷ bs) = elim (Bool-cases (is_space b || is_op b)) [
  | inl ends ↦ rw ends (tt, omega arith)
  | inr other ↦ rw other ((other, (split_word_lem bs).0), omega (arith, (split_word_lem bs).1))
]

-- At a byte that is no space and no operator stands a word.
word_here :
    (b : ℕ) (bs : Bytes)
    → (is_space b || is_op b) ≡ false
    → Follows (suc (length bs)) (some (word (split_word (b ∷ bs)).0, (split_word (b ∷ bs)).1))
unfolding split_word
word_here b bs h =
    let rest = split_word_lem bs in
    rw h (record { inhabited = omega arith; plain = (h, rest.0) }, omega (arith, rest.1))

great_token-Follows : (bs : Bytes) → Follows (suc (length bs)) (some (great_token bs))
unfolding great_token
great_token-Follows [] = (tt, omega arith)
great_token-Follows (b ∷ bs) = elim (Bool-cases (b == 62)) [
  | inl twice ↦ rw twice (tt, omega arith)
  | inr once ↦ rw once (tt, omega arith)
]

first_token-Follows : (bs : Bytes) → StartsPlain bs → Follows (length bs) (first_token bs)
unfolding first_token
first_token-Follows [] h = tt
first_token-Follows (b ∷ bs) h =
    if-Follows (suc (length bs)) (b == 124) _ _ (λ e. (tt, omega arith))
      (λ no_pipe.
        if-Follows (suc (length bs)) (b == 60) _ _ (λ e. (tt, omega arith))
          (λ no_less.
            if-Follows (suc (length bs)) (b == 62) _ _ (λ e. great_token-Follows bs)
              (λ no_great. word_here b bs (ground (arith, h, no_pipe, no_less, no_great)))))

pub next_token-Follows : (bs : Bytes) → Follows (length bs) (next_token bs)
unfolding next_token
next_token-Follows bs =
    widen (length (skip_spaces bs)) (length bs) (first_token (skip_spaces bs)) (skip_spaces-le bs)
      (first_token-Follows (skip_spaces bs) (skip_spaces-StartsPlain bs))
  where
    widen : (n m : ℕ) (t : Option (Tok × Bytes)) → n ≤ m → Follows n t → Follows m t
    widen n m none h f = tt
    widen n m (some (t, rest)) h f = (f.0, omega (arith, f.1, h))
