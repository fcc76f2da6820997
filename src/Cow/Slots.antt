-- ===== src/Cow/Slots.antt =====
-- One bucket: what counting up and down does to the counts of the frames.
use rumicos.Base.{
  ℕ, ◌+◌, ◌-◌, ◌^◌, ◌≤◌, ◌<◌, ◌≡◌, ◌≢◌, ◌⊎◌, refl, sym, subst, inl, inr, min, Bool, true, false, [],
  ◌∷◌, none, some, arith, ltb, ◌==◌, Bool-cases, ==-refl,
}
use rumicos.Cow.{
  CowEntry, CowBucket, before, count_up, insert_first, counted_or_new, share_in, refcount_in,
  count_down,
}

-- No entry has the frame.
abbrev pub IsAbsent : ℕ → CowBucket → Type 0
IsAbsent f [] = Unit {0}
IsAbsent f (none ∷ slots) = IsAbsent f slots
IsAbsent f (some e ∷ slots) = (e.frame ≢ f) × IsAbsent f slots

-- Each frame has one entry at most, with a count from 2 to 2 ^ 32 - 1.
abbrev pub IsBucket : CowBucket → Type 0
IsBucket [] = Unit {0}
IsBucket (none ∷ slots) = IsBucket slots
IsBucket (some e ∷ slots) =
    (2 ≤ e.refcount) × (e.refcount < 2 ^ 32) × IsAbsent e.frame slots × IsBucket slots

abbrev pub has_free : CowBucket → Bool
has_free [] = false
has_free (none ∷ slots) = true
has_free (some e ∷ slots) = has_free slots

-- The entry is counted up or the new one finds a slot, and the count does not stick at its top.
pub record HasRoom (f : ℕ) (slots : CowBucket) : Type 0 where
  pub free_if_absent : refcount_in f slots ≡ 1 → has_free slots ≡ true
  pub below_top : refcount_in f slots < 2 ^ 32 - 1

absent-refcount : (f : ℕ) (slots : CowBucket) → IsAbsent f slots → refcount_in f slots ≡ 1
unfolding refcount_in
absent-refcount f [] a = refl
absent-refcount f (none ∷ slots) a = absent-refcount f slots a
absent-refcount f (some e ∷ slots) a = elim (Bool-cases (e.frame == f)) [
  | inl t ↦ absurd (a.0 (ground arith))
  | inr n ↦ rw n (absent-refcount f slots a.1)
]

-- `slots'` has the frame `f` with the count `n`, and every other frame as before.
pub record Counts (f n : ℕ) (slots slots' : CowBucket) : Type 0 where
  pub self : refcount_in f slots' ≡ n
  pub other : (g : ℕ) → g ≢ f → refcount_in g slots' ≡ refcount_in g slots
  pub bucket : IsBucket slots'
  pub absent : (g : ℕ) → g ≢ f → IsAbsent g slots → IsAbsent g slots'

-- A slot in front that holds another frame, or none.
Counts-none :
    (f n : ℕ) (slots slots' : CowBucket)
    → Counts f n slots slots'
    → Counts f n (none ∷ slots) (none ∷ slots')
unfolding refcount_in
Counts-none f n slots slots' c = record {
  self = c.self;
  other = c.other;
  bucket = c.bucket;
  absent = c.absent;
}

Counts-some :
    (f n : ℕ) (e : CowEntry) (slots slots' : CowBucket)
    → e.frame ≢ f
    → IsBucket (some e ∷ slots)
    → Counts f n slots slots'
    → Counts f n (some e ∷ slots) (some e ∷ slots')
unfolding refcount_in
Counts-some f n e slots slots' ne v c =
    let away : (e.frame == f) ≡ false = ground arith in
    record {
      self = rw away c.self;
      other = λ g h. rw (c.other g h) refl;
      bucket = (v.0, v.1, c.absent e.frame ne v.2, c.bucket);
      absent = λ g h a. (a.0, c.absent g h a.1);
    }

-- The entry of `f` itself, with a new count.
Counts-here :
    (f n : ℕ) (e : CowEntry) (slots : CowBucket)
    → e.frame ≡ f
    → 2 ≤ n
    → n < 2 ^ 32
    → IsBucket (some e ∷ slots)
    → Counts f n (some e ∷ slots) (some (record e { refcount = n }) ∷ slots)
unfolding refcount_in
Counts-here f n e slots here lo hi v =
    let at_f : (e.frame == f) ≡ true = ground arith in
    record {
      self = rw at_f refl;
      other = λ g h. (let away : (e.frame == g) ≡ false = ground arith in rw away refl);
      bucket = (lo, hi, v.2, v.3);
      absent = λ g h a. a;
    }

-- The entry of `f` taken out.
Counts-gone :
    (f : ℕ) (e : CowEntry) (slots : CowBucket)
    → e.frame ≡ f
    → IsBucket (some e ∷ slots)
    → Counts f 1 (some e ∷ slots) (none ∷ slots)
unfolding refcount_in
Counts-gone f e slots here v = record {
  self = absent-refcount f slots (subst (λ (j : ℕ). IsAbsent j slots) here v.2);
  other = λ g h. (let away : (e.frame == g) ≡ false = ground arith in rw away refl);
  bucket = v.3;
  absent = λ g h a. a.1;
}

pub count_up_lem :
    (f : ℕ) (slots : CowBucket)
    → IsBucket slots
    → refcount_in f slots < 2 ^ 32 - 1
    → ((count_up f slots ≡ none) × IsAbsent f slots)
      ⊎ ((slots' : CowBucket) × (count_up f slots ≡ some slots')
          × (2 ≤ refcount_in f slots)
          × Counts f (refcount_in f slots + 1) slots slots')
unfolding count_up before refcount_in
count_up_lem f [] v h = inl (refl, tt)
count_up_lem f (none ∷ slots) v h = elim (count_up_lem f slots v h) [
  | inl (e, a) ↦ inl (rw e refl, a)
  | inr (slots', e, two, c) ↦
      inr (none ∷ slots', rw e refl, two, Counts-none f (refcount_in f slots + 1) slots slots' c)
]
count_up_lem f (some x ∷ slots) v h = elim (Bool-cases (x.frame == f)) [
  | inl here ↦
      let top : x.refcount < 2 ^ 32 - 1 = rw here at h in
      let same : min (x.refcount + 1) (2 ^ 32 - 1) ≡ x.refcount + 1 = omega arith in
      inr (
        some (record x { refcount = x.refcount + 1 }) ∷ slots,
        rw (here, same) refl,
        rw here v.0,
        rw here (
            Counts-here f (x.refcount + 1) x slots (ground arith) (omega (arith, v.0)) (omega arith)
              v),
      )
  | inr away ↦ elim (count_up_lem f slots v.3 (rw away at h)) [
    | inl (e, a) ↦ inl (rw (away, e) refl, ((λ same. ground arith), a))
    | inr (slots', e, two, c) ↦ inr (
      some x ∷ slots',
      rw (away, e) refl,
      rw away two,
      rw away (Counts-some f (refcount_in f slots + 1) x slots slots' (λ same. ground arith) v c),
    )
  ]
]

insert_first_lem :
    (f : ℕ) (slots : CowBucket)
    → IsBucket slots
    → IsAbsent f slots
    → has_free slots ≡ true
    → Counts f 2 slots (insert_first (record { frame = f; refcount = 2 }) slots)
unfolding insert_first refcount_in
insert_first_lem f [] v a room = absurd (ground (arith, room))
insert_first_lem f (none ∷ slots) v a room = record {
  self = rw (==-refl f) refl;
  other = λ g h. (let away : (f == g) ≡ false = ground arith in rw away refl);
  bucket = (omega arith, omega arith, a, v);
  absent = λ g h b. ((λ e. h (sym e)), b);
}
insert_first_lem f (some e ∷ slots) v a room =
    Counts-some f 2 e slots (insert_first (record { frame = f; refcount = 2 }) slots) a.0 v
      (insert_first_lem f slots v.3 a.1 room)

-- Where there is room, `cow_share` adds one owner to the frame and leaves the others alone.
pub share_in_lem :
    (f : ℕ) (slots : CowBucket)
    → IsBucket slots
    → HasRoom f slots
    → Counts f (refcount_in f slots + 1) slots (share_in f slots)
unfolding share_in counted_or_new
share_in_lem f slots v room = elim (count_up_lem f slots v room.below_top) [
  | inl (e, a) ↦
      let one = absent-refcount f slots a in
      rw (e, one) (insert_first_lem f slots v a (room.free_if_absent one))
  | inr (slots', e, two, c) ↦ rw e c
]

-- One owner leaves: the count goes down, and only an absent frame has a sole owner.
pub count_down_lem :
    (f : ℕ) (slots : CowBucket)
    → IsBucket slots
    → ((count_down f slots ≡ none) × (refcount_in f slots ≡ 1))
      ⊎ ((slots' : CowBucket) × (count_down f slots ≡ some slots')
          × (2 ≤ refcount_in f slots)
          × Counts f (refcount_in f slots - 1) slots slots')
unfolding count_down before refcount_in
count_down_lem f [] v = inl (refl, refl)
count_down_lem f (none ∷ slots) v = elim (count_down_lem f slots v) [
  | inl (e, a) ↦ inl (rw e refl, a)
  | inr (slots', e, two, c) ↦
      inr (none ∷ slots', rw e refl, two, Counts-none f (refcount_in f slots - 1) slots slots' c)
]
count_down_lem f (some x ∷ slots) v = elim (Bool-cases (x.frame == f)) [
  | inl here ↦ elim (Bool-cases (ltb 2 x.refcount)) [
    | inl more ↦ inr (
      some (record x { refcount = x.refcount - 1 }) ∷ slots,
      rw (here, more) refl,
      rw here v.0,
      rw here (
          Counts-here f (x.refcount - 1) x slots (ground arith) (ground arith) (omega (arith, v.1))
            v),
    )
    | inr last ↦ inr (
      none ∷ slots,
      rw (here, last) refl,
      rw here v.0,
      rw here (
          let one : x.refcount - 1 ≡ 1 = ground (arith, v.0) in
          rw one (Counts-gone f x slots (ground arith) v)),
    )
  ]
  | inr away ↦ elim (count_down_lem f slots v.3) [
    | inl (e, a) ↦ inl (rw (away, e) refl, rw away a)
    | inr (slots', e, two, c) ↦ inr (
      some x ∷ slots',
      rw (away, e) refl,
      rw away two,
      rw away (Counts-some f (refcount_in f slots - 1) x slots slots' (λ same. ground arith) v c),
    )
  ]
]
