-- ===== src/Pipe/Examples.antt =====
-- Pipes in the states that the reads and writes tell apart.
use rumicos.Base.{
  ℕ, ◌+◌, ◌%◌, ◌≤◌, ◌≡◌, update, refl, List, [], ◌∷◌, ◌++◌, arith, replicate, length-replicate,
}
use rumicos.Pipe.{Pipe, PipeRing, pipe_buf_size, read_round, write_entry, blocks}
use rumicos.Pipe.Contents.{IsRing, contents}
use rumicos.Pipe.Stream.{reads, writes, transfer, transfer_fifo}
use rumicos.Pipe.Rounds.{zero_length_blocks}
use rumicos.Pipe.Wakeup.{readers, writers, Op, idle, Scene, Call, Event, calls, steps}

abbrev frame : List ℕ
frame = replicate pipe_buf_size 7

abbrev ring_of : ℕ → PipeRing
ring_of n = record { read_pos = 4094; write_pos = (4094 + n) % pipe_buf_size; len = n }

ring_of-IsRing : (n : ℕ) → n ≤ pipe_buf_size → IsRing (ring_of n) frame
ring_of-IsRing n h = record {
  frame = length-replicate {A = ℕ} pipe_buf_size 7;
  reads_at = omega arith;
  writes_at = refl;
  fits = h;
}

-- One reader, two writers, and `n` bytes.
abbrev pipe_of : ℕ → Pipe
pipe_of n = record {
  ring = ring_of n;
  buf = frame;
  read_seq = 5;
  write_seq = 6;
  readers = 1;
  writers = 2;
}

transfer_fifo_example :
    let t = transfer (writes (1 ∷ 2 ∷ 3 ∷ []) ∷ reads 2 ∷ writes (4 ∷ []) ∷ []) (ring_of 1) frame in
    IsRing t.ring t.buf
    × (contents (ring_of 1) frame ++ t.sent ≡ t.received ++ contents t.ring t.buf)
transfer_fifo_example =
    transfer_fifo (writes (1 ∷ 2 ∷ 3 ∷ []) ∷ reads 2 ∷ writes (4 ∷ []) ∷ []) (ring_of 1) frame
      (ring_of-IsRing 1 (omega arith))

zero_length_blocks_example :
    ((read_round (pipe_of 3) 0).1 ≡ blocks) × ((write_entry (pipe_of 3) []).1 ≡ blocks)
zero_length_blocks_example = zero_length_blocks (pipe_of 3) (omega arith) (omega arith)

-- One caller at this place, the others idle.
abbrev scene_of : ℕ → Op → Scene
scene_of n o = record { pipe = pipe_of n; op = update (λ i. idle) 1 o }

-- Caller 1 comes to its decision; then caller 2 changes the pipe and has not yet told.
abbrev reader_events : List Event
reader_events =
    steps 1 ∷ steps 1 ∷ steps 1 ∷ calls 2 (Call.write (5 ∷ [])) ∷ steps 2 ∷ steps 2 ∷ steps 2 ∷ []

abbrev writer_events : List Event
writer_events = steps 1 ∷ steps 1 ∷ steps 1 ∷ calls 2 (Call.read 3) ∷ steps 2 ∷ steps 2 ∷ []
