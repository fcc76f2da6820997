-- ===== src/Pipe/Wakeup/ReaderEffects.antt =====
-- What a step of any caller does to what a reader waits for.
use rumicos.Base.{
  Bool, ℕ, zero, suc, ◌+◌, ◌-◌, ◌%◌, ◌^◌, ◌<◌, ◌≡◌, ◌≢◌, ◌⊎◌, inl, inr, refl, sym, ap, ◌∙◌, true,
  false, List, arith, ◌==◌, Bool-cases, update,
}
use rumicos.Pipe.{Pipe, Wake, one, everybody, take_bytes, put_bytes, bump}
use rumicos.Pipe.Wakeup.Locked.{take_bytes_lem, put_bytes_lem}
use rumicos.Pipe.Wakeup.{
  readers, writers, Op, idle, read_samples, read_takes, read_looks, read_decides, read_sleeps,
  write_enters, write_samples, write_puts, write_looks, write_decides, write_sleeps, read_releases,
  write_releases, tells, wakes, Scene, step_of, after_take, after_put, called, bumped, Event, calls,
  steps, event,
}
use rumicos.Base.Samples.{update_cases}
use rumicos.Pipe.Wakeup.Places.{Told, called_cases}

-- What one step does for a reader: it bumps `read_seq`, or it leaves an empty pipe empty and a
-- writer in place, unless the caller that takes the step is then to bump `read_seq`.
pub data Effect (s s' : Scene) : Type 0 where
  bumps : s'.pipe.read_seq ≡ bump s.pipe.read_seq → Effect s s'
  keeps :
      s'.pipe.read_seq ≡ s.pipe.read_seq
      → (Told readers s → Told readers s')
      → (s.pipe.ring.len ≡ 0 → (s'.pipe.ring.len ≡ 0) ⊎ Told readers s')
      → (0 < s.pipe.writers → (0 < s'.pipe.writers) ⊎ Told readers s')
      → Effect s s'

-- The pipe of a step at which caller `j`, itself not about to bump, moves on.
pub Told-moves :
    (s : Scene) (j : ℕ) (p : Pipe) (o : Op)
    → ((w : Wake) → s.op j ≢ tells readers w)
    → Told readers s
    → Told readers (record { pipe = p; op = update s.op j o })
Told-moves s j p o not_j (k, w, e) = elim (update_cases s.op j o k) [
  | inl (same, _) ↦ absurd (not_j w (ground (arith, same, e)))
  | inr (_, kept) ↦ (k, w, kept ∙ e)
]

-- A step that leaves the ring and the writers as they are.
quiet :
    (s : Scene) (j : ℕ) (o o' : Op) (p : Pipe)
    → s.op j ≡ o
    → ((w : Wake) → o ≢ tells readers w)
    → p.read_seq ≡ s.pipe.read_seq
    → p.ring ≡ s.pipe.ring
    → p.writers ≡ s.pipe.writers
    → Effect s (record { pipe = p; op = update s.op j o' })
quiet s j o o' p e away seq ring left =
    keeps seq (Told-moves s j p o' (λ w h. away w (sym e ∙ h))) (λ z. inl (ground arith))
      (λ z. inl (ground arith))

-- Who stands to tell the readers after a step of caller `j`.
now_tells :
    (s : Scene) (j : ℕ) (p : Pipe) (w : Wake)
    → Told readers (record { pipe = p; op = update s.op j (tells readers w) })
now_tells s j p w = (j, w, ground arith)

put-Effect :
    (s : Scene) (j : ℕ) (src : List ℕ) (snap : ℕ)
    → s.op j ≡ write_puts src snap
    → Effect s (step_of s j (write_puts src snap))
unfolding step_of after_put
put-Effect s j src snap e =
    let l = put_bytes_lem s.pipe src in
    let t = put_bytes s.pipe src in by_count t.0 t.1 t.2 l.read_seq l.writers l.empty l.was_empty
  where
    news_lost : false ≢ true
    news_lost h = cc

    by_count :
        (p : Pipe) (n : ℕ) (was_empty : Bool)
        → p.read_seq ≡ s.pipe.read_seq
        → p.writers ≡ s.pipe.writers
        → (s.pipe.ring.len ≡ 0 → n ≡ 0 → p.ring.len ≡ 0)
        → (s.pipe.ring.len ≡ 0 → n ≢ 0 → was_empty ≡ true)
        → Effect s (record { pipe = p; op = update s.op j (after_put src snap n was_empty) })
    by_count p zero was_empty seq left still news =
        keeps seq (Told-moves s j p (write_looks src snap) (λ w h. cc)) (λ z. inl (still z refl))
          (λ z. inl (omega (arith, left)))
    by_count p (suc n) true seq left still news =
        keeps seq (λ told. now_tells s j p one) (λ z. inr (now_tells s j p one))
          (λ z. inl (omega (arith, left)))
    by_count p (suc n) false seq left still news =
        keeps seq (Told-moves s j p idle (λ w h. cc))
          (λ z. absurd (news_lost (news z (λ h. ground arith)))) (λ z. inl (omega (arith, left)))

take-Effect :
    (s : Scene) (j d snap : ℕ)
    → s.op j ≡ read_takes d snap
    → Effect s (step_of s j (read_takes d snap))
unfolding step_of
take-Effect s j d snap e =
    let l = take_bytes_lem s.pipe d in
    let t = take_bytes s.pipe d in
    keeps l.read_seq (Told-moves s j t.0 (after_take d snap t.2 t.3) (λ w h. cc))
      (λ z. inl (l.empty z)) (λ z. inl (omega (arith, l.writers)))

write_release-Effect :
    (s : Scene) (j : ℕ)
    → s.pipe.writers < 2 ^ 32
    → s.op j ≡ write_releases
    → Effect s (step_of s j write_releases)
unfolding step_of
write_release-Effect s j h e = elim (Bool-cases (s.pipe.writers == 1)) [
  | inl last ↦
      let told =
        now_tells s j (record s.pipe { writers = (s.pipe.writers + 2 ^ 32 - 1) % 2 ^ 32 })
          everybody in
      rw last (keeps refl (λ _. told) (λ z. inr told) (λ z. inr told))
  | inr more ↦ rw more (
      keeps refl
        (Told-moves s j (record s.pipe { writers = (s.pipe.writers + 2 ^ 32 - 1) % 2 ^ 32 }) idle
          (λ w h. cc))
        (λ z. inl z) (λ z. inl (ground arith)))
]

step_of-Effect :
    (s : Scene) (j : ℕ) (o : Op) → s.pipe.writers < 2 ^ 32 → s.op j ≡ o → Effect s (step_of s j o)
unfolding step_of bumped
step_of-Effect s j idle h e = keeps refl (λ told. told) (λ z. inl z) (λ z. inl z)
step_of-Effect s j (read_samples d) h e =
    quiet s j (read_samples d) _ _ e (λ w p. cc) refl refl refl
step_of-Effect s j (read_takes d snap) h e = take-Effect s j d snap e
step_of-Effect s j (read_looks d snap) h e =
    quiet s j (read_looks d snap) _ _ e (λ w p. cc) refl refl refl
step_of-Effect s j (read_decides d snap) h e =
    quiet s j (read_decides d snap) _ _ e (λ w p. cc) refl refl refl
step_of-Effect s j (read_sleeps d) h e = quiet s j (read_sleeps d) _ _ e (λ w p. cc) refl refl refl
step_of-Effect s j (write_enters src) h e =
    quiet s j (write_enters src) _ _ e (λ w p. cc) refl refl refl
step_of-Effect s j (write_samples src) h e =
    quiet s j (write_samples src) _ _ e (λ w p. cc) refl refl refl
step_of-Effect s j (write_puts src snap) h e = put-Effect s j src snap e
step_of-Effect s j (write_looks src snap) h e =
    quiet s j (write_looks src snap) _ _ e (λ w p. cc) refl refl refl
step_of-Effect s j (write_decides src snap) h e =
    quiet s j (write_decides src snap) _ _ e (λ w p. cc) refl refl refl
step_of-Effect s j (write_sleeps src) h e =
    quiet s j (write_sleeps src) _ _ e (λ w p. cc) refl refl refl
step_of-Effect s j read_releases h e = quiet s j read_releases _ _ e (λ w p. cc) refl refl refl
step_of-Effect s j write_releases h e = write_release-Effect s j h e
step_of-Effect s j (tells readers w) h e = bumps refl
step_of-Effect s j (tells writers w) h e =
    quiet s j (tells writers w) _ _ e (λ w p. cc) refl refl refl
step_of-Effect s j (wakes side w) h e = quiet s j (wakes side w) _ _ e (λ w p. cc) refl refl refl

step_of-writers :
    (s : Scene) (j : ℕ) (o : Op) → s.pipe.writers < 2 ^ 32 → (step_of s j o).pipe.writers < 2 ^ 32
unfolding step_of bumped
step_of-writers s j (read_takes d snap) h = omega (arith, (take_bytes_lem s.pipe d).writers)
step_of-writers s j (write_puts src snap) h = omega (arith, (put_bytes_lem s.pipe src).writers)
step_of-writers s j write_releases h = omega arith
step_of-writers s j (tells readers w) h = h
step_of-writers s j (tells writers w) h = h
step_of-writers s j _ h = h

pub event-Effect : (s : Scene) (e : Event) → s.pipe.writers < 2 ^ 32 → Effect s (event s e)
unfolding event
event-Effect s (steps j) h = step_of-Effect s j (s.op j) h refl
event-Effect s (calls j c) h = elim (called_cases c (s.op j)) [
  | inl waits ↦ quiet s j idle _ _ waits (λ w p. cc) refl refl refl
  | inr same ↦ keeps refl (λ told. told_same told same) (λ z. inl z) (λ z. inl z)
]
  where
    told_same :
        Told readers s
        → called c (s.op j) ≡ s.op j
        → Told readers (record { pipe = s.pipe; op = update s.op j (called c (s.op j)) })
    told_same (k, w, e) same = elim (update_cases s.op j (called c (s.op j)) k) [
      | inl (here, now) ↦ (k, w, now ∙ same ∙ ap s.op here ∙ e)
      | inr (_, kept) ↦ (k, w, kept ∙ e)
    ]

pub event-writers :
    (s : Scene) (e : Event) → s.pipe.writers < 2 ^ 32 → (event s e).pipe.writers < 2 ^ 32
unfolding event
event-writers s (steps j) h = step_of-writers s j (s.op j) h
event-writers s (calls j c) h = h
