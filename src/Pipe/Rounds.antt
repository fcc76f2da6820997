-- ===== src/Pipe/Rounds.antt =====
-- What one round of `pipe_read` and of `pipe_write` answers, in every state of the ring.
use rumicos.Base.{ℕ, ◌<◌, ◌≡◌, List, [], ◌++◌, arith, length, take, if◌then◌else◌, ltb}
use rumicos.Base.Int.{pos}
use rumicos.Pipe.{
  Pipe, pipe_buf_size, read_into, write_from, read_round, write_round, write_entry, epipe, returns,
  blocks, nobody, one, bump, is_full, is_empty,
}
use rumicos.Pipe.Contents.{IsRing, contents}
use rumicos.Pipe.Stream.{read_into_lem, write_from_lem}

-- A reader of an empty pipe waits while a writer is left, and otherwise reads the end of file.
pub read_round_empty :
    (p : Pipe) (dst_len : ℕ)
    → p.ring.len ≡ 0
    → read_round p dst_len ≡ (p, if ltb 0 p.writers then blocks else returns (pos 0) [] nobody)
unfolding read_round
read_round_empty p dst_len h = ground arith

-- A reader with room finds data: it gets the oldest bytes, and a writer that may wait on the full
-- ring is told and woken.
pub read_round_data :
    (p : Pipe) (dst_len : ℕ)
    → IsRing p.ring p.buf
    → 0 < p.ring.len
    → 0 < dst_len
    → let (ring, bytes, n) = read_into p.ring p.buf dst_len in
      (read_round p dst_len ≡ (
        record p {
          ring = ring;
          write_seq = if is_full p.ring then bump p.write_seq else p.write_seq;
        },
        returns (pos n) bytes (if is_full p.ring then one else nobody),
      ))
      × (0 < n)
      × (contents p.ring p.buf ≡ bytes ++ contents ring p.buf)
unfolding read_round
read_round_data p dst_len v some_data some_room =
    let taken = read_into_lem p.ring p.buf v dst_len in
    (ground (arith, taken.1), omega (arith, taken.1), taken.3)

-- A writer to a full pipe waits while a reader is left, and otherwise gets EPIPE.
pub write_round_full :
    (p : Pipe) (src : List ℕ)
    → p.ring.len ≡ pipe_buf_size
    → write_round p src ≡ (p, if ltb 0 p.readers then blocks else returns epipe [] nobody)
unfolding write_round
write_round_full p src h = ground arith

-- A writer with something to write finds room: what fits goes behind the contents, and a reader
-- that may wait on the empty ring is told and woken.
pub write_round_room :
    (p : Pipe) (src : List ℕ)
    → IsRing p.ring p.buf
    → p.ring.len < pipe_buf_size
    → 0 < length src
    → let (ring, buf, n) = write_from p.ring p.buf src in
      (write_round p src ≡ (
        record p {
          ring = ring;
          buf = buf;
          read_seq = if is_empty p.ring then bump p.read_seq else p.read_seq;
        },
        returns (pos n) [] (if is_empty p.ring then one else nobody),
      ))
      × (0 < n)
      × (contents ring buf ≡ contents p.ring p.buf ++ take n src)
unfolding write_round
write_round_room p src v room some_bytes =
    let stored = write_from_lem p.ring p.buf v src in
    (ground (arith, stored.1), omega (arith, stored.1), stored.2)

-- A call for zero bytes on an open pipe waits, whatever the ring holds: a read with data at hand
-- and a write with room left do not return.
pub zero_length_blocks :
    (p : Pipe)
    → 0 < p.writers
    → 0 < p.readers
    → ((read_round p 0).1 ≡ blocks) × ((write_entry p []).1 ≡ blocks)
unfolding read_round write_entry write_from read_into
zero_length_blocks p w r = (ground arith, ground arith)
