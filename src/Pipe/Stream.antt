-- ===== src/Pipe/Stream.antt =====
-- `write_from` appends to the contents of the ring and `read_into` takes from their front, so
-- the bytes come out in the order in which they went in.
use rumicos.Base.{
  ℕ, ◌+◌, ◌-◌, ◌≡◌, refl, sym, ap, ap₂, ◌∙◌, min, List, [], ◌∷◌, ◌++◌, arith, length, take,
  append_assoc, append-nil,
}
use rumicos.Pipe.{PipeRing, pipe_buf_size, copy_out, copy_in, read_into, write_from}
use rumicos.Pipe.Contents.{
  IsRing, contents, length-copy_out, length-copy_in, copy_out-append, copy_out-shift,
  copy_out-copy_in, copy_out-outside,
}

module _ (r : PipeRing) (buf : List ℕ) (v : IsRing r buf) where
  -- `write_from` stores as many bytes as fit behind the contents.
  pub write_from_lem :
      (src : List ℕ)
      → let (r', buf', n) = write_from r buf src in
        IsRing r' buf'
        × (n ≡ min (length src) (pipe_buf_size - r.len))
        × (contents r' buf' ≡ contents r buf ++ take n src)
  unfolding write_from contents
  write_from_lem src = (valid, refl, appended)
    where
      n : ℕ
      n = min (length src) (pipe_buf_size - r.len)

      valid : IsRing (write_from r buf src).0 (write_from r buf src).1
      valid = record {
        frame = length-copy_in src buf r.write_pos n 0 ∙ v.frame;
        reads_at = v.reads_at;
        writes_at = omega (arith, v.writes_at);
        fits = omega (arith, v.fits);
      }

      old :
          copy_out (copy_in buf r.write_pos n 0 src) r.read_pos r.len 0
          ≡ copy_out buf r.read_pos r.len 0
      old =
          copy_out-outside src buf r.write_pos n r.read_pos r.len 0
            (λ j t p q e. omega (arith, v.writes_at, v.fits, e, p, q))

      fresh : copy_out (copy_in buf r.write_pos n 0 src) r.read_pos n (0 + r.len) ≡ take n src
      fresh =
          sym (
            copy_out-shift (copy_in buf r.write_pos n 0 src) r.read_pos r.len n 0
            ∙ ap (copy_out _ r.read_pos n) (omega arith))
          ∙ rw (← v.writes_at) (
              copy_out-copy_in src buf r.write_pos n 0 v.frame (omega arith)
                (omega (arith, v.fits)))

      appended :
          contents (write_from r buf src).0 (write_from r buf src).1 ≡ contents r buf ++ take n src
      appended =
          copy_out-append (copy_in buf r.write_pos n 0 src) r.read_pos r.len n 0
          ∙ ap₂ ◌++◌ old fresh

  -- `read_into` takes as many bytes as fit the destination from the front of the contents.
  pub read_into_lem :
      (dst_len : ℕ)
      → let (r', bytes, n) = read_into r buf dst_len in
        IsRing r' buf
        × (n ≡ min dst_len r.len)
        × (length bytes ≡ n)
        × (contents r buf ≡ bytes ++ contents r' buf)
  unfolding read_into contents
  read_into_lem dst_len = (valid, refl, length-copy_out buf r.read_pos n 0, split)
    where
      n : ℕ
      n = min dst_len r.len

      valid : IsRing (read_into r buf dst_len).0 buf
      valid = record {
        frame = v.frame;
        reads_at = omega arith;
        writes_at = omega (arith, v.writes_at);
        fits = omega (arith, v.fits);
      }

      parts : r.len ≡ n + (r.len - n)
      parts = omega arith

      split :
          contents r buf ≡ copy_out buf r.read_pos n 0 ++ contents (read_into r buf dst_len).0 buf
      split =
          ap (λ t. copy_out buf r.read_pos t 0) parts
          ∙ copy_out-append buf r.read_pos n (r.len - n) 0
          ∙ ap (λ t. copy_out buf r.read_pos n 0 ++ t)
              (sym (
                copy_out-shift buf r.read_pos n (r.len - n) 0
                ∙ ap (copy_out buf r.read_pos (r.len - n)) (omega arith)))

-- Reads and writes of any sizes, in any order.
pub data Access : Type 0 where
  reads : ℕ → Access
  writes : List ℕ → Access

pub record Transfer : Type 0 where
  pub ring : PipeRing
  pub buf : List ℕ
  pub sent : List ℕ
  pub received : List ℕ

-- The ring after the accesses, with the bytes that were accepted and those that were delivered.
pub transfer : List Access → PipeRing → List ℕ → Transfer
transfer [] r buf = record { ring = r; buf = buf; sent = []; received = [] }
transfer (reads d ∷ rest_of) r buf =
    let (r', bytes, n) = read_into r buf d in
    let rest = transfer rest_of r' buf in record rest { received = bytes ++ rest.received }
transfer (writes src ∷ rest_of) r buf =
    let (r', buf', n) = write_from r buf src in
    let rest = transfer rest_of r' buf' in record rest { sent = take n src ++ rest.sent }

-- A pipe neither loses, repeats nor reorders a byte: what it held and accepted is what it
-- delivered, followed by what it holds.
pub transfer_fifo :
    (accesses : List Access) (r : PipeRing) (buf : List ℕ)
    → IsRing r buf
    → let t = transfer accesses r buf in
      IsRing t.ring t.buf × (contents r buf ++ t.sent ≡ t.received ++ contents t.ring t.buf)
unfolding transfer
transfer_fifo [] r buf v = (v, append-nil _)
transfer_fifo (reads d ∷ rest_of) r buf v =
    let step = read_into_lem r buf v d in
    let rest = transfer_fifo rest_of (read_into r buf d).0 buf step.0 in
    (rest.0, rw (step.3, append_assoc, append_assoc, rest.1))
transfer_fifo (writes src ∷ rest_of) r buf v =
    let step = write_from_lem r buf v src in
    let rest = transfer_fifo rest_of (write_from r buf src).0 (write_from r buf src).1 step.0 in
    (
      rest.0,
      sym (
            append_assoc (contents r buf) (take (write_from r buf src).2 src)
              (transfer rest_of (write_from r buf src).0 (write_from r buf src).1).sent)
          ∙ rw (← step.2) rest.1,
    )
