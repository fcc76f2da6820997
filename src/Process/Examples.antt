-- ===== src/Process/Examples.antt =====
-- The theorems on processes at a family of three.
use rumicos.Base.{
  ℕ, zero, suc, subst, ◌≡◌, ◌≢◌, ◌⊎◌, ◌∙◌, ◌++◌, sym, ap, get_elem?, refl, List, [], ◌∷◌, Option,
  none, some, arith, replicate, update,
}
use rumicos.Base.Int.{pos, negsuc}
use rumicos.Process.{
  Process, System, PTable, running, ptable_bucket, ptable_insert, ptable_find, overwrite, take_free,
  written_or_free, find_in, after, exit, sys_wait4, zombie_at, code_at, dead_code, selects, group,
  still_waits, returns, blocks,
}
use rumicos.Process.Sleep.{
  idle, wait_samples, wait_decides, wait_sleeps, Scene, looks, step_of, Call, starts, called, Event,
  calls, steps, event, run,
}
use rumicos.Process.Sleep.Kept.{IsFamily, Told}
use rumicos.Process.Sleep.Justified.{sleep_justified}
use rumicos.Process.Reap.{IsWaited, Waits, sys_wait4-Waits}
use rumicos.Process.Reports.{AreStrangers, exit-sys_wait4, stranger_lem}

abbrev process : ℕ → ℕ → List ℕ → ℕ → Process
process pid parent_pid children count = record {
  pid = pid;
  state = running;
  exit_code = pos 0;
  parent_pid = parent_pid;
  pending = 0;
  children = children;
  child_count = count;
  child_exit_seq = 0;
}

-- Process 7, at address 100, has the children 8 and 9, at 200 and 300; 12 is of another family.
abbrev table : PTable
table =
    ptable_insert
      (ptable_insert (ptable_insert (ptable_insert (λ i. replicate 16 none) 7 100) 8 200) 9 300) 12
      400

abbrev family : System
family = record {
  ptable = table;
  procs =
      update
        (update (update (λ a. process 12 3 (replicate 32 0) 0) 300 (process 9 7 (replicate 32 0) 0))
          200 (process 8 7 (replicate 32 0) 0))
        100 (process 7 1 (8 ∷ 9 ∷ replicate 30 0) 2);
}

found_are :
    (ptable_find table 7 ≡ some 100)
    × (ptable_find table 8 ≡ some 200)
    × (ptable_find table 9 ≡ some 300)
unfolding ptable_find ptable_insert ptable_bucket overwrite take_free written_or_free find_in after
found_are = (refl, refl, refl)

free-AreStrangers : (n : ℕ) → AreStrangers (pos 12) (replicate n 0)
free-AreStrangers zero = tt
free-AreStrangers (suc n) = ((λ ne. absurd (ne refl)), free-AreStrangers n)

-- The child that the table names at `a`.
child_at :
    (a q : ℕ) → (family.procs a).parent_pid ≡ 7 → some a ≡ some q → (family.procs q).parent_pid ≡ 7
child_at a q v e =
    let same : a ≡ q = cc in subst (λ (j : ℕ). (family.procs j).parent_pid ≡ 7) same v

-- The child that the list and the table name.
family_children :
    (slot c q : ℕ)
    → get_elem? (8 ∷ 9 ∷ replicate 30 0) slot ≡ some c
    → c ≢ 0
    → ptable_find table c ≡ some q
    → (family.procs q).parent_pid ≡ 7
family_children zero c q listed ne names =
    let same : 8 ≡ c = cc in
    child_at 200 q refl (sym found_are.1 ∙ ap (ptable_find table) same ∙ names)
family_children (suc zero) c q listed ne names =
    let same : 9 ≡ c = cc in
    child_at 300 q refl (sym found_are.2 ∙ ap (ptable_find table) same ∙ names)
family_children (suc (suc slot)) c q listed ne names = absurd (ne (free 30 slot listed))
  where
    free : (n slot : ℕ) → get_elem? (replicate n 0) slot ≡ some c → c ≡ 0
    free zero slot e = cc
    free (suc n) zero e = cc
    free (suc n) (suc slot) e = free n slot e

family-IsFamily : IsFamily family 100
family-IsFamily = record {
  named = λ e. ground arith;
  found = found_are.0;
  word = omega arith;
  children = family_children;
}

-- The parent is about to sample; the others are idle.
abbrev family_scene : Scene
family_scene = record { system = family; op = update (λ q. idle) 100 (wait_samples (negsuc 0) 0) }

-- It looks at all its children; then one of them dies and has not yet told it.
abbrev death : List Event
death = replicate 34 (steps 100) ++ (calls 300 (Call.exit (pos 1)) ∷ steps 300 ∷ [])

death_decides : (run family_scene death).op 100 ≡ wait_decides (negsuc 0) 0 0
unfolding run event step_of called starts looks zombie_at code_at dead_code selects ptable_find
    ptable_insert ptable_bucket overwrite take_free written_or_free find_in after
death_decides = refl

death_sleeps : (event (run family_scene death) (steps 100)).op 100 ≡ wait_sleeps (negsuc 0) 0
unfolding run event step_of called starts looks zombie_at code_at dead_code selects still_waits
    ptable_find ptable_insert ptable_bucket overwrite take_free written_or_free find_in after
death_sleeps = refl

death-IsWaited : IsWaited (negsuc 0) ((run family_scene death).system.procs 100).children 9
unfolding run event step_of called starts looks zombie_at code_at dead_code selects ptable_find
    ptable_insert ptable_bucket overwrite take_free written_or_free find_in after
death-IsWaited = record { slot = 1; listed = refl; child = λ e. ground arith; selected = refl }

sleep_justified_example :
    (zombie_at (run family_scene death).system 9 ≡ none) ⊎ Told (run family_scene death) 100
sleep_justified_example =
    sleep_justified family_scene 100 (negsuc 0) 0 death (negsuc 0) 0 0 family-IsFamily refl
      (omega arith) death_decides death_sleeps 9 death-IsWaited

sys_wait4-Waits_example : Waits family 100 (pos 8) 0 1 (sys_wait4 family 100 (pos 8) 0 1)
sys_wait4-Waits_example = sys_wait4-Waits family 100 (pos 8) 0 1

exit-sys_wait4_example :
    (c : ℕ) × (status : Option ℕ) × ((sys_wait4
        (exit family 300 (negsuc 0)).0
        100
        (negsuc 0)
        4096
        0).1
      ≡ returns (pos c) status)
    × IsWaited (negsuc 0) (family.procs 100).children c
unfolding selects group
exit-sys_wait4_example =
    exit-sys_wait4 family 100 300 (negsuc 0) (negsuc 0) 4096 0 9 found_are.2
      (record { slot = 1; listed = refl; child = λ e. ground arith; selected = refl })
      (λ e. ground arith) refl

stranger_lem_example : sys_wait4 family 100 (pos 12) 0 0 ≡ (family, blocks 0)
unfolding selects group
stranger_lem_example =
    stranger_lem family 100 (pos 12) 0 0 ((λ ne. refl), ((λ ne. refl), free-AreStrangers 30))
      (λ e. ground arith) refl refl
