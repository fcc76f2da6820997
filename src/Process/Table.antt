-- ===== src/Process/Table.antt =====
-- The table of processes: a pid and the process that it names.
use rumicos.Base.{
  ℕ, ◌≡◌, ◌≢◌, ◌⊎◌, refl, ◌∙◌, ap, inl, inr, Bool, true, false, [], ◌∷◌, none, some, arith, ◌==◌,
  ==-refl, Bool-cases, update,
}
use rumicos.Process.{
  PTableEntry, Bucket, PTable, ptable_bucket, after, overwrite, take_free, written_or_free,
  ptable_insert, remove_in, ptable_remove, find_in, ptable_find,
}

remove_in_self : (pid : ℕ) (slots : Bucket) → find_in pid (remove_in pid slots) ≡ none
unfolding remove_in find_in
remove_in_self pid [] = refl
remove_in_self pid (none ∷ slots) = remove_in_self pid slots
remove_in_self pid (some e ∷ slots) = elim (Bool-cases (e.pid == pid)) [
  | inl t ↦ rw t (remove_in_self pid slots)
  | inr f ↦ rw (f, f) (remove_in_self pid slots)
]

remove_in_other :
    (pid g : ℕ) (slots : Bucket) → pid ≢ g → find_in g (remove_in pid slots) ≡ find_in g slots
unfolding remove_in find_in
remove_in_other pid g [] ne = refl
remove_in_other pid g (none ∷ slots) ne = remove_in_other pid g slots ne
remove_in_other pid g (some e ∷ slots) ne = elim (Bool-cases (e.pid == pid)) [
  | inl t ↦
      let away : (e.pid == g) ≡ false = ground arith in
      rw (t, away) (remove_in_other pid g slots ne)
  | inr f ↦ rw (f, remove_in_other pid g slots ne) refl
]

-- A bucket written at the place of `pid` is seen under `pid`, and under the pids beside it.
find-update :
    (t : PTable) (pid g : ℕ) (slots : Bucket)
    → find_in g slots ≡ find_in g (t (ptable_bucket pid))
    → ptable_find (update t (ptable_bucket pid) slots) g ≡ ptable_find t g
unfolding ptable_find
find-update t pid g slots e = elim (Bool-cases (ptable_bucket pid == ptable_bucket g)) [
  | inl h ↦
      let same : ptable_bucket pid ≡ ptable_bucket g = ground arith in
      rw h (e ∙ ap (λ (i : ℕ). find_in g (t i)) same)
  | inr h ↦ rw h refl
]

find-update_self :
    (t : PTable) (pid : ℕ) (slots : Bucket)
    → ptable_find (update t (ptable_bucket pid) slots) pid ≡ find_in pid slots
unfolding ptable_find
find-update_self t pid slots = rw (==-refl (ptable_bucket pid)) refl

find_at : (t : PTable) (pid : ℕ) → ptable_find t pid ≡ find_in pid (t (ptable_bucket pid))
unfolding ptable_find
find_at t pid = refl

-- A removed pid names nobody, and every other pid names whom it named.
pub ptable_remove_lem :
    (t : PTable) (pid : ℕ)
    → (ptable_find (ptable_remove t pid) pid ≡ none)
      × ((g : ℕ) → pid ≢ g → ptable_find (ptable_remove t pid) g ≡ ptable_find t g)
unfolding ptable_remove
ptable_remove_lem t pid = (
  find-update_self t pid (remove_in pid (t (ptable_bucket pid)))
      ∙ remove_in_self pid (t (ptable_bucket pid)),
  λ g ne.
      find-update t pid g (remove_in pid (t (ptable_bucket pid)))
        (remove_in_other pid g (t (ptable_bucket pid)) ne),
)

abbrev pub has_free : Bucket → Bool
has_free [] = false
has_free (none ∷ slots) = true
has_free (some e ∷ slots) = has_free slots

-- `slots'` names `ptr` under `pid`, and under the other pids whom `slots` names.
record Names (pid ptr : ℕ) (slots slots' : Bucket) : Type 0 where
  self : find_in pid slots' ≡ some ptr
  other : (g : ℕ) → pid ≢ g → find_in g slots' ≡ find_in g slots

Names-some :
    (pid ptr : ℕ) (e : PTableEntry) (slots slots' : Bucket)
    → (e.pid == pid) ≡ false
    → Names pid ptr slots slots'
    → Names pid ptr (some e ∷ slots) (some e ∷ slots')
unfolding find_in
Names-some pid ptr e slots slots' away n = record {
  self = rw away n.self;
  other = λ g ne. rw (n.other g ne) refl;
}

overwrite-Names :
    (pid ptr : ℕ) (slots : Bucket)
    → ((overwrite (record { pid = pid; proc_ptr = ptr }) slots ≡ none) × (find_in pid slots ≡ none))
      ⊎ ((slots' : Bucket) × (overwrite (record { pid = pid; proc_ptr = ptr }) slots ≡ some slots')
          × Names pid ptr slots slots')
unfolding overwrite after find_in
overwrite-Names pid ptr [] = inl (refl, refl)
overwrite-Names pid ptr (none ∷ slots) = elim (overwrite-Names pid ptr slots) [
  | inl (e, f) ↦ inl (rw e refl, f)
  | inr (slots', e, n) ↦ inr (none ∷ slots', rw e refl, record { self = n.self; other = n.other })
]
overwrite-Names pid ptr (some x ∷ slots) = elim (Bool-cases (x.pid == pid)) [
  | inl here ↦ inr (
    some (record { pid = pid; proc_ptr = ptr }) ∷ slots,
    rw here refl,
    record {
      self = rw (==-refl pid) refl;
      other = λ g ne.
          let away : (pid == g) ≡ false = ground arith in
          let gone : (x.pid == g) ≡ false = ground arith in rw (away, gone) refl;
    },
  )
  | inr away ↦ elim (overwrite-Names pid ptr slots) [
    | inl (e, f) ↦ inl (rw (away, e) refl, rw (away, f) refl)
    | inr (slots', e, n) ↦
        inr (some x ∷ slots', rw (away, e) refl, Names-some pid ptr x slots slots' away n)
  ]
]

take_free-Names :
    (pid ptr : ℕ) (slots : Bucket)
    → has_free slots ≡ true
    → find_in pid slots ≡ none
    → Names pid ptr slots (take_free (record { pid = pid; proc_ptr = ptr }) slots)
unfolding take_free find_in
take_free-Names pid ptr [] room nobody = absurd (ground (arith, room))
take_free-Names pid ptr (none ∷ slots) room nobody = record {
  self = rw (==-refl pid) refl;
  other = λ g ne. (let away : (pid == g) ≡ false = ground arith in rw away refl);
}
take_free-Names pid ptr (some x ∷ slots) room nobody = elim (Bool-cases (x.pid == pid)) [
  | inl here ↦ absurd (named (rw here at nobody))
  | inr away ↦
      Names-some pid ptr x slots (take_free (record { pid = pid; proc_ptr = ptr }) slots) away
        (take_free-Names pid ptr slots room (rw away at nobody))
]
  where
    named : {a : ℕ} → some a ≢ none
    named e = cc

-- Where the pid is there already or its bucket has a free slot, an inserted pid names the process
-- from then on, and every other pid names whom it named.
pub ptable_insert_lem :
    (t : PTable) (pid ptr : ℕ)
    → (ptable_find t pid ≡ none → has_free (t (ptable_bucket pid)) ≡ true)
    → (ptable_find (ptable_insert t pid ptr) pid ≡ some ptr)
      × ((g : ℕ) → pid ≢ g → ptable_find (ptable_insert t pid ptr) g ≡ ptable_find t g)
unfolding ptable_insert written_or_free
ptable_insert_lem t pid ptr room =
    let slots = t (ptable_bucket pid) in
    let new : PTableEntry = record { pid = pid; proc_ptr = ptr } in
    elim (overwrite-Names pid ptr slots) [
      | inl (e, nobody) ↦
          let n = take_free-Names pid ptr slots (room (find_at t pid ∙ nobody)) nobody in
          rw e (
            find-update_self t pid (take_free new slots) ∙ n.self,
            λ g ne. find-update t pid g (take_free new slots) (n.other g ne),
          )
      | inr (slots', e, n) ↦ rw e (
        find-update_self t pid slots' ∙ n.self,
        λ g ne. find-update t pid g slots' (n.other g ne),
      )
    ]
