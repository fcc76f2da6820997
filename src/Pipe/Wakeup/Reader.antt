-- ===== src/Pipe/Wakeup/Reader.antt =====
-- A reader between its sample of `read_seq` and its decision to sleep.
use rumicos.Base.{ℕ, ◌^◌, ◌<◌, ◌≡◌, ◌⊎◌}
use rumicos.Pipe.Wakeup.{readers, Op, read_takes, read_looks, read_decides, Scene}
use rumicos.Base.Samples.{Since}
use rumicos.Pipe.Wakeup.Places.{Told}

-- What holds at the place of a reader `n` events after its sample.
abbrev Knows : Scene → ℕ → Op → Type 0
Knows s n (read_takes d snap) = Since snap n s.pipe.read_seq (Unit {0})
Knows s n (read_looks d snap) =
    Since snap n s.pipe.read_seq (0 < d → (s.pipe.ring.len ≡ 0) ⊎ Told readers s)
Knows s n (read_decides d snap) =
    Since snap n s.pipe.read_seq
      (0 < d → ((s.pipe.ring.len ≡ 0) ⊎ Told readers s) × ((0 < s.pipe.writers) ⊎ Told readers s))
Knows s n _ = Unit {0}

abbrev pub InRange : Scene → Type 0
InRange s = (s.pipe.read_seq < 2 ^ 32) × (s.pipe.writers < 2 ^ 32)
