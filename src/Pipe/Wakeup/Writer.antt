-- ===== src/Pipe/Wakeup/Writer.antt =====
-- A writer between its sample of `write_seq` and its decision to sleep.
use rumicos.Base.{ℕ, ◌^◌, ◌≤◌, ◌<◌, ◌≡◌, ◌⊎◌, length}
use rumicos.Pipe.{pipe_buf_size}
use rumicos.Pipe.Wakeup.{writers, Op, write_puts, write_looks, write_decides, Scene}
use rumicos.Base.Samples.{Since}
use rumicos.Pipe.Wakeup.Places.{Told}

-- What holds at the place of a writer `n` events after its sample.
abbrev Knows : Scene → ℕ → Op → Type 0
Knows s n (write_puts src snap) = Since snap n s.pipe.write_seq (Unit {0})
Knows s n (write_looks src snap) =
    Since snap n s.pipe.write_seq
      (0 < length src → (s.pipe.ring.len ≡ pipe_buf_size) ⊎ Told writers s)
Knows s n (write_decides src snap) = Since snap n s.pipe.write_seq (
    0 < length src
    → ((s.pipe.ring.len ≡ pipe_buf_size) ⊎ Told writers s)
      × ((0 < s.pipe.readers) ⊎ Told writers s))
Knows s n _ = Unit {0}

abbrev pub InRange : Scene → Type 0
InRange s =
    (s.pipe.write_seq < 2 ^ 32) × (s.pipe.readers < 2 ^ 32) × (s.pipe.ring.len ≤ pipe_buf_size)
