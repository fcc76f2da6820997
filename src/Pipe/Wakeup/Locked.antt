-- ===== src/Pipe/Wakeup/Locked.antt =====
-- The sections of `pipe_read` and `pipe_write` under the lock of the ring.
use rumicos.Base.{ℕ, ◌≤◌, ◌<◌, ◌≡◌, ◌≢◌, Bool, true, List, arith, length}
use rumicos.Pipe.{Pipe, pipe_buf_size, take_bytes, put_bytes, read_into, write_from}

-- What `pipe_read` leaves when it is done with the ring, with the count of its bytes. A ring that
-- was full is reported, and a read with room that takes nothing leaves it empty.
pub record Takes (p p' : Pipe) (d n : ℕ) (found_full : Bool) : Type 0 where
  pub read_seq : p'.read_seq ≡ p.read_seq
  pub write_seq : p'.write_seq ≡ p.write_seq
  pub readers : p'.readers ≡ p.readers
  pub writers : p'.writers ≡ p.writers
  pub empty : p.ring.len ≡ 0 → p'.ring.len ≡ 0
  pub fits : p.ring.len ≤ pipe_buf_size → p'.ring.len ≤ pipe_buf_size
  pub nothing : 0 < d → n ≡ 0 → p'.ring.len ≡ 0
  pub still_full : p.ring.len ≡ pipe_buf_size → n ≡ 0 → p'.ring.len ≡ pipe_buf_size
  pub was_full : p.ring.len ≡ pipe_buf_size → n ≢ 0 → found_full ≡ true

pub take_bytes_lem : (p : Pipe) (d : ℕ) → let t = take_bytes p d in Takes p t.0 d t.2 t.3
unfolding take_bytes read_into
take_bytes_lem p d = ground arith

-- What `pipe_write` leaves. A ring that was empty is reported, and a write of something that
-- stores nothing leaves it full.
pub record Puts (p p' : Pipe) (src : List ℕ) (n : ℕ) (found_empty : Bool) : Type 0 where
  pub read_seq : p'.read_seq ≡ p.read_seq
  pub write_seq : p'.write_seq ≡ p.write_seq
  pub readers : p'.readers ≡ p.readers
  pub writers : p'.writers ≡ p.writers
  pub full : p.ring.len ≡ pipe_buf_size → p'.ring.len ≡ pipe_buf_size
  pub fits : p.ring.len ≤ pipe_buf_size → p'.ring.len ≤ pipe_buf_size
  pub nothing : p.ring.len ≤ pipe_buf_size → 0 < length src → n ≡ 0 → p'.ring.len ≡ pipe_buf_size
  pub empty : p.ring.len ≡ 0 → n ≡ 0 → p'.ring.len ≡ 0
  pub was_empty : p.ring.len ≡ 0 → n ≢ 0 → found_empty ≡ true

pub put_bytes_lem : (p : Pipe) (src : List ℕ) → let t = put_bytes p src in Puts p t.0 src t.1 t.2
unfolding put_bytes write_from
put_bytes_lem p src = ground arith
