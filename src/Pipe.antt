-- ===== src/Pipe.antt =====
-- crates/fs/src/pipe.rs: the ring of a pipe, one round of the loops of `pipe_read` and
-- `pipe_write`, and the release of an end. The data frame is a list of `pipe_buf_size` bytes.
pub mod Contents
pub mod Stream
pub mod Wakeup
pub mod Rounds
pub mod Examples
use rumicos.Base.{
  ℕ, zero, suc, ◌+◌, ◌-◌, ◌%◌, ◌^◌, min, Bool, true, false, List, [], ◌∷◌, if◌then◌else◌, ltb, ◌==◌,
  length, get_or, set,
}
use rumicos.Base.Int.{ℤ, pos, negsuc}

abbrev pub pipe_buf_size : ℕ
pipe_buf_size = 4096

abbrev pub epipe : ℤ
epipe = negsuc 31

pub record PipeRing : Type 0 where
  pub read_pos : ℕ
  pub write_pos : ℕ
  pub len : ℕ

pub new : PipeRing
new = record { read_pos = 0; write_pos = 0; len = 0 }

abbrev pub is_empty : PipeRing → Bool
is_empty r = r.len == 0

abbrev pub is_full : PipeRing → Bool
is_full r = r.len == pipe_buf_size

-- The loop of `read_into` at index `i`, with `n` rounds left: the bytes that `dst` receives.
pub copy_out : List ℕ → ℕ → ℕ → ℕ → List ℕ
copy_out buf read_pos zero i = []
copy_out buf read_pos (suc n) i =
    get_or buf ((read_pos + i) % pipe_buf_size) 0 ∷ copy_out buf read_pos n (i + 1)

-- `dst_len` is the length of the destination; the bytes stored at its front are the second result.
pub read_into : PipeRing → List ℕ → ℕ → PipeRing × List ℕ × ℕ
unfolding copy_out
read_into r buf dst_len =
    let n = min dst_len r.len in
    (
      record r { read_pos = (r.read_pos + n) % pipe_buf_size; len = r.len - n },
      copy_out buf r.read_pos n 0,
      n,
    )

-- The loop of `write_from` at index `i`, with `n` rounds left.
pub copy_in : List ℕ → ℕ → ℕ → ℕ → List ℕ → List ℕ
copy_in buf write_pos zero i src = buf
copy_in buf write_pos (suc n) i [] = buf
copy_in buf write_pos (suc n) i (b ∷ src) =
    copy_in (set buf ((write_pos + i) % pipe_buf_size) b) write_pos n (i + 1) src

pub write_from : PipeRing → List ℕ → List ℕ → PipeRing × List ℕ × ℕ
unfolding copy_in
write_from r buf src =
    let space = pipe_buf_size - r.len in
    let n = min (length src) space in
    (
      record r { write_pos = (r.write_pos + n) % pipe_buf_size; len = r.len + n },
      copy_in buf r.write_pos n 0 src,
      n,
    )

pub data ReaderStep : Type 0 where
  return_to_user : ℤ → ReaderStep
  block : ReaderStep

pub reader_step_when_empty : Bool → ReaderStep
reader_step_when_empty writers_present = if writers_present then block else return_to_user (pos 0)

pub data WriterStep : Type 0 where
  return_to_user : ℤ → WriterStep
  block : WriterStep

pub writer_step_when_full : Bool → WriterStep
writer_step_when_full readers_present =
    if readers_present then WriterStep.block else WriterStep.return_to_user epipe

-- The control block with its data frame and the reference counts of its two end vnodes.
pub record Pipe : Type 0 where
  pub ring : PipeRing
  pub buf : List ℕ
  pub read_seq : ℕ
  pub write_seq : ℕ
  pub readers : ℕ
  pub writers : ℕ

-- Whom a call wakes on the opposite wait queue.
pub data Wake : Type 0 where
  nobody one everybody : Wake

pub data Round : Type 0 where
  returns : ℤ → List ℕ → Wake → Round
  blocks : Round

abbrev pub bump : ℕ → ℕ
bump seq = (seq + 1) % 2 ^ 32

-- What a reader with no byte copied does.
reader_round : ReaderStep → Round
reader_round (ReaderStep.return_to_user v) = returns v [] nobody
reader_round ReaderStep.block = blocks

-- The lock-protected block of a round of `pipe_read`: the pipe, the bytes, `n` and `was_full`.
pub take_bytes : Pipe → ℕ → Pipe × List ℕ × ℕ × Bool
unfolding read_into
take_bytes p dst_len = if is_empty p.ring then (p, [], 0, false) else (
  record p { ring = (read_into p.ring p.buf dst_len).0 },
  (read_into p.ring p.buf dst_len).1,
  (read_into p.ring p.buf dst_len).2,
  is_full p.ring,
)

finish_read : Pipe × List ℕ × ℕ × Bool → Pipe × Round
unfolding reader_round reader_step_when_empty
finish_read (p, bytes, zero, was_full) =
    (p, reader_round (reader_step_when_empty (ltb 0 p.writers)))
finish_read (p, bytes, suc n, was_full) =
    if was_full
    then (record p { write_seq = bump p.write_seq }, returns (pos (suc n)) bytes one)
    else (p, returns (pos (suc n)) bytes nobody)

-- One round of the loop of `pipe_read` into a buffer of `dst_len` bytes, run alone.
pub read_round : Pipe → ℕ → Pipe × Round
unfolding take_bytes finish_read
read_round p dst_len = finish_read (take_bytes p dst_len)

writer_round : WriterStep → Round
writer_round (WriterStep.return_to_user v) = returns v [] nobody
writer_round WriterStep.block = blocks

-- The lock-protected block of a round of `pipe_write`: the pipe, the count and `was_empty`.
pub put_bytes : Pipe → List ℕ → Pipe × ℕ × Bool
unfolding write_from
put_bytes p src = if is_full p.ring then (p, 0, false) else (
  record p { ring = (write_from p.ring p.buf src).0; buf = (write_from p.ring p.buf src).1 },
  (write_from p.ring p.buf src).2,
  is_empty p.ring,
)

finish_write : Pipe × ℕ × Bool → Pipe × Round
unfolding writer_round writer_step_when_full
finish_write (p, zero, was_empty) = (p, writer_round (writer_step_when_full (ltb 0 p.readers)))
finish_write (p, suc n, was_empty) =
    if was_empty
    then (record p { read_seq = bump p.read_seq }, returns (pos (suc n)) [] one)
    else (p, returns (pos (suc n)) [] nobody)

-- One round of the loop of `pipe_write`, run alone.
pub write_round : Pipe → List ℕ → Pipe × Round
unfolding put_bytes finish_write
write_round p src = finish_write (put_bytes p src)

-- `pipe_write` before its loop: a pipe with no reader is EPIPE.
pub write_entry : Pipe → List ℕ → Pipe × Round
unfolding write_round
write_entry p src = if p.readers == 0 then (p, returns epipe [] nobody) else write_round p src

-- The release of an end, run alone: at the last reference the opposite side is told and woken.
pub read_release : Pipe → Pipe × Wake
read_release p =
    let p' = record p { readers = (p.readers + 2 ^ 32 - 1) % 2 ^ 32 } in
    if p.readers == 1 then (record p' { write_seq = bump p.write_seq }, everybody) else (p', nobody)

pub write_release : Pipe → Pipe × Wake
write_release p =
    let p' = record p { writers = (p.writers + 2 ^ 32 - 1) % 2 ^ 32 } in
    if p.writers == 1 then (record p' { read_seq = bump p.read_seq }, everybody) else (p', nobody)
