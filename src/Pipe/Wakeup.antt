-- ===== src/Pipe/Wakeup.antt =====
-- crates/fs/src/pipe.rs as callers run it beside one another: each load, each section under the
-- lock of the ring, each bump of a sequence number and each wakeup is a step of its own, and the
-- steps of different callers interleave. A caller is a number. The wait queues are not modelled: a
-- sleeper may go on at any step. A weak order of memory is not modelled either.
pub mod Places
mod Locked
mod ReaderEffects
pub mod Reader
mod WriterEffects
pub mod Writer
mod Alone
use rumicos.Base.{
  ℕ, zero, suc, ◌+◌, ◌-◌, ◌%◌, ◌^◌, Bool, List, [], ◌∷◌, if◌then◌else◌, ltb, ◌==◌, update,
}
use rumicos.Pipe.{
  Pipe, ReaderStep, WriterStep, reader_step_when_empty, writer_step_when_full, take_bytes,
  put_bytes, Wake, one, everybody, bump,
}

pub data Side : Type 0 where
  readers writers : Side

-- Where a caller stands, with what it has sampled. `tells` is a caller that has changed the pipe
-- and has not yet bumped the sequence number of the other side, `wakes` one that has.
pub data Op : Type 0 where
  idle : Op
  read_samples : ℕ → Op
  read_takes : ℕ → ℕ → Op
  read_looks : ℕ → ℕ → Op
  read_decides : ℕ → ℕ → Op
  read_sleeps : ℕ → Op
  write_enters : List ℕ → Op
  write_samples : List ℕ → Op
  write_puts : List ℕ → ℕ → Op
  write_looks : List ℕ → ℕ → Op
  write_decides : List ℕ → ℕ → Op
  write_sleeps : List ℕ → Op
  read_releases : Op
  write_releases : Op
  tells : Side → Wake → Op
  wakes : Side → Wake → Op

pub record Scene : Type 0 where
  pub pipe : Pipe
  pub op : ℕ → Op

abbrev pub moves : Scene → ℕ → Pipe → Op → Scene
moves s i p o = record { pipe = p; op = update s.op i o }

-- `pipe_read` behind the section under the lock.
pub after_take : ℕ → ℕ → ℕ → Bool → Op
after_take dst_len snap zero was_full = read_looks dst_len snap
after_take dst_len snap (suc n) was_full = if was_full then tells writers one else idle

pub after_read_look : ℕ → ℕ → ReaderStep → Op
after_read_look dst_len snap (ReaderStep.return_to_user v) = idle
after_read_look dst_len snap ReaderStep.block = read_decides dst_len snap

-- `pipe_write` behind the section under the lock.
pub after_put : List ℕ → ℕ → ℕ → Bool → Op
after_put src snap zero was_empty = write_looks src snap
after_put src snap (suc n) was_empty = if was_empty then tells readers one else idle

pub after_write_look : List ℕ → ℕ → WriterStep → Op
after_write_look src snap (WriterStep.return_to_user v) = idle
after_write_look src snap WriterStep.block = write_decides src snap

pub bumped : Pipe → Side → Pipe
bumped p readers = record p { read_seq = bump p.read_seq }
bumped p writers = record p { write_seq = bump p.write_seq }

-- The next step of caller `i`, which stands at the last argument.
unfoldable pub step_of : Scene → ℕ → Op → Scene
unfolding after_take after_read_look after_put after_write_look bumped reader_step_when_empty
    writer_step_when_full
step_of s i idle = s
step_of s i (read_samples d) = moves s i s.pipe (read_takes d s.pipe.read_seq)
step_of s i (read_takes d snap) =
    let t = take_bytes s.pipe d in moves s i t.0 (after_take d snap t.2 t.3)
step_of s i (read_looks d snap) =
    moves s i s.pipe (after_read_look d snap (reader_step_when_empty (ltb 0 s.pipe.writers)))
step_of s i (read_decides d snap) =
    moves s i s.pipe (if s.pipe.read_seq == snap then read_sleeps d else read_samples d)
step_of s i (read_sleeps d) = moves s i s.pipe (read_samples d)
step_of s i (write_enters src) =
    moves s i s.pipe (if s.pipe.readers == 0 then idle else write_samples src)
step_of s i (write_samples src) = moves s i s.pipe (write_puts src s.pipe.write_seq)
step_of s i (write_puts src snap) =
    let t = put_bytes s.pipe src in moves s i t.0 (after_put src snap t.1 t.2)
step_of s i (write_looks src snap) =
    moves s i s.pipe (after_write_look src snap (writer_step_when_full (ltb 0 s.pipe.readers)))
step_of s i (write_decides src snap) =
    moves s i s.pipe (if s.pipe.write_seq == snap then write_sleeps src else write_samples src)
step_of s i (write_sleeps src) = moves s i s.pipe (write_samples src)
step_of s i read_releases =
    moves s i (record s.pipe { readers = (s.pipe.readers + 2 ^ 32 - 1) % 2 ^ 32 })
      (if s.pipe.readers == 1 then tells writers everybody else idle)
step_of s i write_releases =
    moves s i (record s.pipe { writers = (s.pipe.writers + 2 ^ 32 - 1) % 2 ^ 32 })
      (if s.pipe.writers == 1 then tells readers everybody else idle)
step_of s i (tells side w) = moves s i (bumped s.pipe side) (wakes side w)
step_of s i (wakes side w) = moves s i s.pipe idle

pub data Call : Type 0 where
  read : ℕ → Call
  write : List ℕ → Call
  read_close write_close : Call

unfoldable pub starts : Call → Op
starts (read d) = read_samples d
starts (write src) = write_enters src
starts read_close = read_releases
starts write_close = write_releases

unfoldable pub called : Call → Op → Op
unfolding starts
called c idle = starts c
called c o = o

-- A caller that is idle makes a call, or a caller takes its next step.
pub data Event : Type 0 where
  calls : ℕ → Call → Event
  steps : ℕ → Event

unfoldable pub event : Scene → Event → Scene
unfolding called step_of
event s (calls i c) = moves s i s.pipe (called c (s.op i))
event s (steps i) = step_of s i (s.op i)

unfoldable pub run : Scene → List Event → Scene
run s [] = s
run s (e ∷ es) = run (event s e) es
