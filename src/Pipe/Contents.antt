-- ===== src/Pipe/Contents.antt =====
-- The ring as a queue of bytes: `contents` is what has been written and not yet read.
use rumicos.Base.{
  ℕ, zero, suc, ◌+◌, ◌%◌, ◌≤◌, ◌<◌, ◌≡◌, ◌≢◌, refl, ap, ap₂, ◌∙◌, List, [], ◌∷◌, ◌++◌, arith,
  length, get_or, set, length-set, get_or-set_self, get_or-set_ne, take,
}
use native.Mathlib.Nat.{zero-add, add-zero}
use rumicos.Pipe.{PipeRing, pipe_buf_size, copy_out, copy_in}

-- Positions in range, the cursors `len` apart, and a whole frame of bytes.
pub record IsRing (r : PipeRing) (buf : List ℕ) : Type 0 where
  pub frame : length buf ≡ pipe_buf_size
  pub reads_at : r.read_pos < pipe_buf_size
  pub writes_at : r.write_pos ≡ (r.read_pos + r.len) % pipe_buf_size
  pub fits : r.len ≤ pipe_buf_size

unfoldable pub contents : PipeRing → List ℕ → List ℕ
contents r buf = copy_out buf r.read_pos r.len 0

pub length-copy_out : (buf : List ℕ) (p n i : ℕ) → length (copy_out buf p n i) ≡ n
unfolding copy_out
length-copy_out buf p zero i = refl
length-copy_out buf p (suc n) i = ap suc (length-copy_out buf p n (i + 1))

pub copy_out-append :
    (buf : List ℕ) (p a b i : ℕ)
    → copy_out buf p (a + b) i ≡ copy_out buf p a i ++ copy_out buf p b (i + a)
unfolding copy_out
copy_out-append buf p zero b i = rw (zero-add, add-zero)
copy_out-append buf p (suc a) b i =
    let e : suc a + b ≡ suc (a + b) = omega arith in
    let e' : i + 1 + a ≡ i + suc a = omega arith in
    rw (e, copy_out, ← e')
      (ap (λ t. get_or buf ((p + i) % pipe_buf_size) 0 ∷ t) (copy_out-append buf p a b (i + 1)))

-- Where the copy starts may be counted in the cursor or in the index.
pub copy_out-shift :
    (buf : List ℕ) (p a n i : ℕ)
    → copy_out buf ((p + a) % pipe_buf_size) n i ≡ copy_out buf p n (a + i)
unfolding copy_out
copy_out-shift buf p a zero i = refl
copy_out-shift buf p a (suc n) i =
    let cell : ((p + a) % pipe_buf_size + i) % pipe_buf_size ≡ (p + (a + i)) % pipe_buf_size =
      omega arith in
    let next : a + (i + 1) ≡ a + i + 1 = omega arith in
    ap₂ ◌∷◌ (ap (λ t. get_or buf t 0) cell) (rw (← next) (copy_out-shift buf p a n (i + 1)))

pub length-copy_in : (src buf : List ℕ) (w n i : ℕ) → length (copy_in buf w n i src) ≡ length buf
unfolding copy_in
length-copy_in src buf w zero i = refl
length-copy_in [] buf w (suc n) i = refl
length-copy_in (b ∷ src) buf w (suc n) i =
    length-copy_in src (set buf ((w + i) % pipe_buf_size) b) w n (i + 1) ∙ length-set buf _ b

-- A cell that the loop does not reach keeps its byte.
copy_in-outside :
    (src buf : List ℕ) (w n i k : ℕ)
    → ((j : ℕ) → i ≤ j → j < i + n → (w + j) % pipe_buf_size ≢ k)
    → get_or (copy_in buf w n i src) k 0 ≡ get_or buf k 0
unfolding copy_in
copy_in-outside src buf w zero i k h = refl
copy_in-outside [] buf w (suc n) i k h = refl
copy_in-outside (b ∷ src) buf w (suc n) i k h =
    copy_in-outside src (set buf ((w + i) % pipe_buf_size) b) w n (i + 1) k
      (λ j p q. h j (omega arith) (omega arith))
    ∙ get_or-set_ne buf _ k b 0 (h i (omega arith) (omega arith))

-- What the loop has written is what the reader copies out again.
pub copy_out-copy_in :
    (src buf : List ℕ) (w n i : ℕ)
    → length buf ≡ pipe_buf_size
    → n ≤ length src
    → i + n ≤ pipe_buf_size
    → copy_out (copy_in buf w n i src) w n i ≡ take n src
unfolding copy_in copy_out
copy_out-copy_in src buf w zero i size enough fits = refl
copy_out-copy_in [] buf w (suc n) i size enough fits = absurd (omega arith)
copy_out-copy_in (b ∷ src) buf w (suc n) i size enough fits =
    ap₂ ◌∷◌
      (copy_in-outside src (set buf ((w + i) % pipe_buf_size) b) w n (i + 1)
          ((w + i) % pipe_buf_size) (λ j p q e. omega (arith, e))
        ∙ get_or-set_self buf _ b 0 (omega arith))
      (copy_out-copy_in src (set buf ((w + i) % pipe_buf_size) b) w n (i + 1)
        (length-set buf _ b ∙ size) (omega arith) (omega arith))

pub copy_out-outside :
    (src buf : List ℕ) (w n r m i : ℕ)
    → ((j t : ℕ) → j < n → t < i + m → (w + j) % pipe_buf_size ≢ (r + t) % pipe_buf_size)
    → copy_out (copy_in buf w n 0 src) r m i ≡ copy_out buf r m i
unfolding copy_out
copy_out-outside src buf w n r zero i h = refl
copy_out-outside src buf w n r (suc m) i h =
    ap₂ ◌∷◌
      (copy_in-outside src buf w n 0 ((r + i) % pipe_buf_size)
        (λ j p q. h j i (omega arith) (omega arith)))
      (copy_out-outside src buf w n r m (i + 1) (λ j t p q. h j t p (omega arith)))
