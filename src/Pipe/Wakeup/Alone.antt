-- ===== src/Pipe/Wakeup/Alone.antt =====
-- The steps of one call that nobody interrupts are the round of `pipe_read` or `pipe_write`.
use rumicos.Base.{
  ℕ, zero, suc, ◌≡◌, refl, inl, inr, List, [], ◌∷◌, ltb, ◌==◌, ==-refl, Bool, true, false,
  Bool-cases, update, arith,
}
use rumicos.Pipe.{
  Pipe, Round, returns, blocks, take_bytes, finish_read, put_bytes, finish_write, write_round,
  read_round,
}
use rumicos.Pipe.Wakeup.Locked.{take_bytes_lem, put_bytes_lem}
use rumicos.Pipe.Wakeup.{
  Op, idle, write_samples, write_puts, write_sleeps, after_put, read_samples, read_takes,
  read_sleeps, Scene, step_of, after_take, steps, event, run,
}

-- Where a round leaves its caller.
abbrev pub at_end : Op → Round → Op
at_end sleeps (returns v bytes w) = idle
at_end sleeps blocks = sleeps

-- Behind the section under the lock, two more steps end the round.
read_ends :
    (s : Scene) (i d : ℕ) (p : Pipe) (bytes : List ℕ) (n : ℕ) (full : Bool)
    → p.read_seq ≡ s.pipe.read_seq
    → let s' =
        run
          (record { pipe = p; op = update s.op i (after_take d s.pipe.read_seq n full) })
          (steps i ∷ steps i ∷ []) in
      (s'.pipe ≡ (finish_read (p, bytes, n, full)).0)
      × (s'.op i ≡ at_end (read_sleeps d) (finish_read (p, bytes, n, full)).1)
unfolding run event step_of after_take finish_read
read_ends s i d p bytes zero full e = elim (Bool-cases (ltb 0 p.writers)) [
  | inl left ↦
      let same : (p.read_seq == s.pipe.read_seq) ≡ true = ground (arith, e) in
      rw (==-refl i, left, ==-refl i, same, ==-refl i) (refl, refl)
  | inr gone ↦ rw (==-refl i, gone, ==-refl i, ==-refl i) (refl, refl)
]
read_ends s i d p bytes (suc n) true e = rw (==-refl i, ==-refl i, ==-refl i) (refl, refl)
read_ends s i d p bytes (suc n) false e = rw (==-refl i, ==-refl i, ==-refl i) (refl, refl)

-- Four steps of a reader that nobody interrupts are its round: they leave the pipe of the round,
-- and the reader idle or, if the round blocks, asleep.
pub read_alone :
    (s : Scene) (i d : ℕ)
    → s.op i ≡ read_samples d
    → let s' = run s (steps i ∷ steps i ∷ steps i ∷ steps i ∷ []) in
      (s'.pipe ≡ (read_round s.pipe d).0)
      × (s'.op i ≡ at_end (read_sleeps d) (read_round s.pipe d).1)
unfolding run event step_of read_round
read_alone s i d here =
    let t = take_bytes s.pipe d in
    rw (here, ==-refl i)
      (read_ends (record { pipe = s.pipe; op = update s.op i (read_takes d s.pipe.read_seq) }) i d
        t.0 t.1 t.2 t.3 (take_bytes_lem s.pipe d).read_seq)

write_ends :
    (s : Scene) (i : ℕ) (src : List ℕ) (p : Pipe) (n : ℕ) (empty : Bool)
    → p.write_seq ≡ s.pipe.write_seq
    → let s' =
        run
          (record { pipe = p; op = update s.op i (after_put src s.pipe.write_seq n empty) })
          (steps i ∷ steps i ∷ []) in
      (s'.pipe ≡ (finish_write (p, n, empty)).0)
      × (s'.op i ≡ at_end (write_sleeps src) (finish_write (p, n, empty)).1)
unfolding run event step_of after_put finish_write
write_ends s i src p zero empty e = elim (Bool-cases (ltb 0 p.readers)) [
  | inl left ↦
      let same : (p.write_seq == s.pipe.write_seq) ≡ true = ground (arith, e) in
      rw (==-refl i, left, ==-refl i, same, ==-refl i) (refl, refl)
  | inr gone ↦ rw (==-refl i, gone, ==-refl i, ==-refl i) (refl, refl)
]
write_ends s i src p (suc n) true e = rw (==-refl i, ==-refl i, ==-refl i) (refl, refl)
write_ends s i src p (suc n) false e = rw (==-refl i, ==-refl i, ==-refl i) (refl, refl)

-- So are four steps of a writer, behind its first look at the readers.
pub write_alone :
    (s : Scene) (i : ℕ) (src : List ℕ)
    → s.op i ≡ write_samples src
    → let s' = run s (steps i ∷ steps i ∷ steps i ∷ steps i ∷ []) in
      (s'.pipe ≡ (write_round s.pipe src).0)
      × (s'.op i ≡ at_end (write_sleeps src) (write_round s.pipe src).1)
unfolding run event step_of write_round
write_alone s i src here =
    let t = put_bytes s.pipe src in
    rw (here, ==-refl i)
      (write_ends (record { pipe = s.pipe; op = update s.op i (write_puts src s.pipe.write_seq) }) i
        src t.0 t.1 t.2 (put_bytes_lem s.pipe src).write_seq)
