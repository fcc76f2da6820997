-- ===== src/Cow/Claims.antt =====
-- The table over any sequence of calls: it keeps the number of owners of each frame.
use rumicos.Base.{
  ℕ, ◌+◌, ◌-◌, ◌≡◌, ◌≢◌, refl, ap₂, subst, ◌∙◌, inl, inr, Bool, true, false, List, [], ◌∷◌, arith,
  if◌then◌else◌, ◌==◌, Bool-cases, update, ==-refl,
}
use rumicos.Cow.{
  CowTable, bucket_index, cow_share, cow_refcount, cow_release, share_in, refcount_in, released,
  new_table,
}
use rumicos.Cow.Slots.{IsBucket, HasRoom, Counts, share_in_lem, count_down_lem}

pub data Call : Type 0 where
  shares releases : ℕ → Call

-- The table after the calls, and what each `cow_release` answered.
pub run : CowTable → List Call → CowTable × List Bool
run t [] = (t, [])
run t (shares f ∷ cs) = run (cow_share t f) cs
run t (releases f ∷ cs) =
    let (t', sole) = cow_release t f in let (t'', answers) = run t' cs in (t'', sole ∷ answers)

-- The owners of each frame, with the same answers: a sole owner keeps the frame.
unfoldable pub owned : (ℕ → ℕ) → List Call → (ℕ → ℕ) × List Bool
owned o [] = (o, [])
owned o (shares f ∷ cs) = owned (update o f (o f + 1)) cs
owned o (releases f ∷ cs) =
    let sole = o f == 1 in
    let (o', answers) = owned (if sole then o else update o f (o f - 1)) cs in (o', sole ∷ answers)

-- No `cow_share` of the sequence meets a full bucket.
abbrev pub HasRooms : CowTable → List Call → Type 0
HasRooms t [] = Unit {0}
HasRooms t (shares f ∷ cs) = HasRoom f (t (bucket_index f)) × HasRooms (cow_share t f) cs
HasRooms t (releases f ∷ cs) = HasRooms (cow_release t f).0 cs

pub record IsCow (t : CowTable) (o : ℕ → ℕ) : Type 0 where
  pub buckets : (i : ℕ) → IsBucket (t i)
  pub counts : (f : ℕ) → cow_refcount t f ≡ o f

-- A bucket that counts `n` for `f` put in its place.
counted-IsCow :
    (t : CowTable) (o : ℕ → ℕ) (f n : ℕ) (slots : List _)
    → IsCow t o
    → Counts f n (t (bucket_index f)) slots
    → IsCow (update t (bucket_index f) slots) (update o f n)
unfolding cow_refcount
counted-IsCow t o f n slots v c = record {
  buckets = λ i. elim (Bool-cases (bucket_index f == i)) [
    | inl here ↦ rw here c.bucket
    | inr away ↦ rw away (v.buckets i)
  ];
  counts = λ g. elim (Bool-cases (f == g)) [
    | inl same ↦
        let e : f ≡ g = ground arith in
        subst (λ (h : ℕ). cow_refcount (update t (bucket_index f) slots) h ≡ update o f n h) e
          (rw (==-refl (bucket_index f), ==-refl f) c.self)
    | inr other ↦ elim (Bool-cases (bucket_index f == bucket_index g)) [
      | inl h ↦
          let e : bucket_index f ≡ bucket_index g = ground arith in
          let ne : g ≢ f = λ e'. ground arith in
          let kept : refcount_in g slots ≡ refcount_in g (t (bucket_index g)) =
            rw (← e) (c.other g ne) in
          rw (other, h) (kept ∙ v.counts g)
      | inr h ↦ rw (other, h) (v.counts g)
    ]
  ];
}

share-IsCow :
    (t : CowTable) (o : ℕ → ℕ) (f : ℕ)
    → IsCow t o
    → HasRoom f (t (bucket_index f))
    → IsCow (cow_share t f) (update o f (o f + 1))
unfolding cow_share cow_refcount
share-IsCow t o f v room =
    let e : refcount_in f (t (bucket_index f)) ≡ o f = v.counts f in
    counted-IsCow t o f (o f + 1) (share_in f (t (bucket_index f))) v
      (rw (← e) (share_in_lem f (t (bucket_index f)) (v.buckets (bucket_index f)) room))

-- A release answers whether the owner is the only one, and else takes it off the count.
release-IsCow :
    (t : CowTable) (o : ℕ → ℕ) (f : ℕ)
    → IsCow t o
    → ((cow_release t f).1 ≡ (o f == 1))
      × IsCow (cow_release t f).0 (if o f == 1 then o else update o f (o f - 1))
unfolding cow_release released cow_refcount
release-IsCow t o f v =
    let count : refcount_in f (t (bucket_index f)) ≡ o f = v.counts f in
    elim (count_down_lem f (t (bucket_index f)) (v.buckets (bucket_index f))) [
      | inl (e, one) ↦ let sole : (o f == 1) ≡ true = ground arith in rw (e, sole) (refl, v)
      | inr (slots, e, two, c) ↦
          let shared : (o f == 1) ≡ false = ground arith in
          rw (e, shared) (refl, counted-IsCow t o f (o f - 1) slots v (rw count at c))
    ]

-- Over any sequence of shares and releases in which no share meets a full bucket, each release
-- answers true exactly when the owner is the only one that the frame has left, and the table counts
-- the owners of every frame.
pub run-IsCow :
    (cs : List Call) (t : CowTable) (o : ℕ → ℕ)
    → IsCow t o
    → HasRooms t cs
    → ((run t cs).1 ≡ (owned o cs).1) × IsCow (run t cs).0 (owned o cs).0
unfolding run owned
run-IsCow [] t o v rooms = (refl, v)
run-IsCow (shares f ∷ cs) t o v rooms =
    run-IsCow cs (cow_share t f) (update o f (o f + 1)) (share-IsCow t o f v rooms.0) rooms.1
run-IsCow (releases f ∷ cs) t o v rooms =
    let (answer, v') = release-IsCow t o f v in
    let (answers, v'') =
      run-IsCow cs (cow_release t f).0 (if o f == 1 then o else update o f (o f - 1)) v' rooms in
    (ap₂ (λ (b : Bool) (bs : List Bool). b ∷ bs) answer answers, v'')

-- At first each frame has one owner.
pub new_table-IsCow : IsCow new_table (λ f. 1)
unfolding new_table cow_refcount refcount_in
new_table-IsCow = record { buckets = λ i. tt; counts = λ f. refl }
