-- ===== src/Cow/Examples.antt =====
-- The theorems on shared frames at small tables.
use rumicos.Base.{
  ℕ, ◌*◌, ◌≡◌, refl, Bool, true, false, not, ◌&&◌, List, [], ◌∷◌, none, some, map, arith, ◌==◌,
  update,
}
use rumicos.Cow.{
  CowBucket, bucket_index, new_table, before, count_up, count_down, insert_first, counted_or_new,
  share_in, refcount_in, cow_share, cow_release, released,
}
use rumicos.Cow.Slots.{IsAbsent}
use rumicos.Cow.Claims.{Call, shares, releases, run, owned, IsCow, run-IsCow, new_table-IsCow}
use rumicos.Cow.Full.{full_bucket_lem}

-- A parent forks twice and all three write to the frame; another frame is shared beside it.
abbrev calls : List Call
calls =
    shares 0x5000
    ∷ shares 0x9000
    ∷ shares 0x5000
    ∷ releases 0x5000
    ∷ releases 0x5000
    ∷ releases 0x5000
    ∷ []

answers_are : (owned (λ f. 1) calls).1 ≡ false ∷ false ∷ true ∷ []
unfolding owned
answers_are = refl

run-IsCow_example :
    ((run new_table calls).1 ≡ (owned (λ f. 1) calls).1)
    × IsCow (run new_table calls).0 (owned (λ f. 1) calls).0
unfolding new_table bucket_index cow_share share_in counted_or_new count_up insert_first before
    refcount_in cow_release released count_down
run-IsCow_example =
    run-IsCow calls new_table (λ f. 1) new_table-IsCow
      (
        record { free_if_absent = λ e. refl; below_top = omega arith },
        (
          record { free_if_absent = λ e. refl; below_top = omega arith },
          (record { free_if_absent = λ e. refl; below_top = omega arith }, tt),
        ),
      )

-- Thirty-two frames whose bucket is that of 0x5000.
abbrev others : List ℕ
others =
    238 ∷ 615 ∷ 848 ∷ 1225 ∷ 1458 ∷ 1602 ∷ 1835 ∷ 2212 ∷ 2445 ∷ 2589 ∷ 2822 ∷ 3199 ∷ 3432 ∷ 3809
    ∷ 4042 ∷ 4186 ∷ 4419 ∷ 4796 ∷ 5029 ∷ 5406 ∷ 5639 ∷ 5783 ∷ 6016 ∷ 6393 ∷ 6626 ∷ 6770 ∷ 7003
    ∷ 7380 ∷ 7613 ∷ 7990 ∷ 8223 ∷ 8367 ∷ []

abbrev lacks : ℕ → CowBucket → Bool
lacks f [] = true
lacks f (none ∷ slots) = lacks f slots
lacks f (some e ∷ slots) = not (e.frame == f) && lacks f slots

lacks-IsAbsent : (f : ℕ) (slots : CowBucket) → lacks f slots ≡ true → IsAbsent f slots
lacks-IsAbsent f [] h = tt
lacks-IsAbsent f (none ∷ slots) h = lacks-IsAbsent f slots h
lacks-IsAbsent f (some e ∷ slots) h =
    ((λ same. ground (arith, h)), lacks-IsAbsent f slots (ground (arith, h)))

abbrev full : CowBucket
full = map (λ key. some (record { frame = key * 4096; refcount = 2 })) others

others_are_there :
    map (λ key. bucket_index (key * 4096)) others ≡ map (λ key. bucket_index 0x5000) others
unfolding bucket_index
others_are_there = refl

full_bucket_lem_example :
    (cow_release (cow_share (update new_table (bucket_index 0x5000) full) 0x5000) 0x5000).1 ≡ true
unfolding bucket_index
full_bucket_lem_example =
    full_bucket_lem (update new_table (bucket_index 0x5000) full) 0x5000
      (lacks-IsAbsent 0x5000 full refl) refl
