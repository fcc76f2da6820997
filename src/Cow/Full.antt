-- ===== src/Cow/Full.antt =====
-- A bucket without a free slot.
use rumicos.Base.{ℕ, ◌≡◌, refl, true, false, [], ◌∷◌, none, some, arith, ◌==◌, update_self}
use rumicos.Cow.{
  CowEntry, CowBucket, CowTable, before, bucket_index, count_up, count_down, insert_first,
  counted_or_new, share_in, cow_share, cow_release, released,
}
use rumicos.Cow.Slots.{IsAbsent, has_free}

count_up-absent : (f : ℕ) (slots : CowBucket) → IsAbsent f slots → count_up f slots ≡ none
unfolding count_up before
count_up-absent f [] a = refl
count_up-absent f (none ∷ slots) a = rw (count_up-absent f slots a) refl
count_up-absent f (some e ∷ slots) a =
    let away : (e.frame == f) ≡ false = ground arith in rw (away, count_up-absent f slots a.1) refl

count_down-absent : (f : ℕ) (slots : CowBucket) → IsAbsent f slots → count_down f slots ≡ none
unfolding count_down before
count_down-absent f [] a = refl
count_down-absent f (none ∷ slots) a = rw (count_down-absent f slots a) refl
count_down-absent f (some e ∷ slots) a =
    let away : (e.frame == f) ≡ false = ground arith in
    rw (away, count_down-absent f slots a.1) refl

insert_first-full :
    (new : CowEntry) (slots : CowBucket) → has_free slots ≡ false → insert_first new slots ≡ slots
unfolding insert_first
insert_first-full new [] full = refl
insert_first-full new (none ∷ slots) full = absurd (ground (arith, full))
insert_first-full new (some e ∷ slots) full = rw (insert_first-full new slots full) refl

-- When 32 other shared frames fill the bucket of a frame, `cow_share` forgets the new owner: the
-- next `cow_release` takes one of the two owners for the only one.
pub full_bucket_lem :
    (t : CowTable) (f : ℕ)
    → IsAbsent f (t (bucket_index f))
    → has_free (t (bucket_index f)) ≡ false
    → (cow_release (cow_share t f) f).1 ≡ true
unfolding cow_release cow_share share_in counted_or_new released
full_bucket_lem t f absent full =
    let slots = t (bucket_index f) in
    rw
      (
        update_self t (bucket_index f) (share_in f slots),
        count_up-absent f slots absent,
        insert_first-full (record { frame = f; refcount = 2 }) slots full,
        count_down-absent f slots absent,
      )
      refl
