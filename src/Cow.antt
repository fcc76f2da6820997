-- ===== src/Cow.antt =====
-- crates/proc/src/cow.rs: who shares a frame after a fork. Each bucket is a row of 32 slots under
-- its own lock; an absent frame has one owner.
pub mod Slots
pub mod Claims
pub mod Full
mod Examples
use rumicos.Base.{
  ℕ, zero, suc, ◌+◌, ◌-◌, ◌*◌, ◌/◌, ◌%◌, ◌^◌, min, Bool, true, false, List, [], ◌∷◌, Option, none,
  some, if◌then◌else◌, ltb, ◌==◌, replicate, update,
}

abbrev pub cow_buckets : ℕ
cow_buckets = 256

abbrev pub cow_bucket_capacity : ℕ
cow_bucket_capacity = 32

pub record CowEntry : Type 0 where
  pub frame : ℕ
  pub refcount : ℕ

abbrev pub CowBucket : Type 0
CowBucket = List (Option CowEntry)

-- `COW_TABLE`, by the index of a bucket.
abbrev pub CowTable : Type 0
CowTable = ℕ → CowBucket

pub new_table : CowTable
new_table i = replicate cow_bucket_capacity none

pub bucket_index : ℕ → ℕ
bucket_index frame =
    let key = frame / 2 ^ 12 in
    let hash = key * 0x9e37_79b9_7f4a_7c15 % 2 ^ 64 in hash / 2 ^ (64 - 8)

before : Option CowEntry → Option CowBucket → Option CowBucket
before slot none = none
before slot (some slots) = some (slot ∷ slots)

-- The entry of a frame counted up, if there is one.
pub count_up : ℕ → CowBucket → Option CowBucket
unfolding before
count_up frame [] = none
count_up frame (none ∷ slots) = before none (count_up frame slots)
count_up frame (some e ∷ slots) =
    let rest = before (some e) (count_up frame slots) in
    if e.frame == frame
    then some (some (record e { refcount = min (e.refcount + 1) (2 ^ 32 - 1) }) ∷ slots)
    else rest

-- A new entry in the first free slot; a full bucket stays as it is.
pub insert_first : CowEntry → CowBucket → CowBucket
insert_first new [] = []
insert_first new (none ∷ slots) = some new ∷ slots
insert_first new (some e ∷ slots) = some e ∷ insert_first new slots

pub counted_or_new : ℕ → CowBucket → Option CowBucket → CowBucket
counted_or_new frame slots (some counted) = counted
counted_or_new frame slots none = insert_first (record { frame = frame; refcount = 2 }) slots

pub share_in : ℕ → CowBucket → CowBucket
share_in frame slots = counted_or_new frame slots (count_up frame slots)

pub cow_share : CowTable → ℕ → CowTable
cow_share t frame = update t (bucket_index frame) (share_in frame (t (bucket_index frame)))

pub refcount_in : ℕ → CowBucket → ℕ
refcount_in frame [] = 1
refcount_in frame (none ∷ slots) = refcount_in frame slots
refcount_in frame (some e ∷ slots) =
    let rest = refcount_in frame slots in if e.frame == frame then e.refcount else rest

pub cow_refcount : CowTable → ℕ → ℕ
cow_refcount t frame = refcount_in frame (t (bucket_index frame))

-- The loop that `cow_unshare`, `cow_release` and `cow_resolve` share: `none` without an entry.
pub count_down : ℕ → CowBucket → Option CowBucket
unfolding before
count_down frame [] = none
count_down frame (none ∷ slots) = before none (count_down frame slots)
count_down frame (some e ∷ slots) =
    let rest = before (some e) (count_down frame slots) in
    if e.frame == frame
    then (if ltb 2 e.refcount
        then some (some (record e { refcount = e.refcount - 1 }) ∷ slots)
        else some (none ∷ slots))
    else rest

-- The table after the loop, and whether there was no entry.
pub released : CowTable → ℕ → Option CowBucket → CowTable × Bool
released t index none = (t, true)
released t index (some slots) = (update t index slots, false)

pub cow_unshare : CowTable → ℕ → CowTable
cow_unshare t frame =
    (released t (bucket_index frame) (count_down frame (t (bucket_index frame)))).0

pub cow_release : CowTable → ℕ → CowTable × Bool
cow_release t frame = released t (bucket_index frame) (count_down frame (t (bucket_index frame)))

-- The action runs on the answer before the bucket is unlocked.
pub cow_resolve {ℓ} : {R : Type ℓ} → CowTable → ℕ → (Bool → R) → CowTable × R
cow_resolve t frame action =
    let (t', sole) = released t (bucket_index frame) (count_down frame (t (bucket_index frame))) in
    (t', action sole)
