-- ===== src/Ipc/Examples.antt =====
-- The theorems on a ring of four slots.
use rumicos.Base.{ℕ, ◌^◌, ◌≤◌, ◌≡◌, refl, List, [], ◌∷◌, ◌++◌, some, arith, length, get_elem?}
use rumicos.Ipc.{Turn, produces, consumes, run, step, push_step, pop_step, is_full, start, new_ring}
use rumicos.Ipc.Order.{IsOrdered, run-IsOrdered, start-IsOrdered, run_fifo}
use rumicos.Ipc.Progress.{push_accepts, pop_delivers}

abbrev memory : ℕ → ℕ
memory = λ i. 0

-- Two values are pushed while the consumer looks too early, and takes the first.
abbrev turns : List (Turn ℕ)
turns =
    consumes
    ∷ produces 7
    ∷ produces 7
    ∷ consumes
    ∷ produces 7
    ∷ consumes
    ∷ consumes
    ∷ produces 8
    ∷ produces 8
    ∷ consumes
    ∷ produces 8
    ∷ []

turns-run :
    ((run 4 (start memory) turns).accepted ≡ 7 ∷ 8 ∷ [])
    × ((run 4 (start memory) turns).delivered ≡ 7 ∷ [])
unfolding run step push_step pop_step is_full start new_ring
turns-run = (refl, refl)

run_fifo_example :
    (rest : List ℕ) × ((run (2 ^ 2) (start memory) turns).delivered ++ rest
      ≡ (run (2 ^ 2) (start memory) turns).accepted)
    × (length rest ≤ 2 ^ 2)
run_fifo_example = run_fifo memory 2 turns (omega arith)

after_turns : IsOrdered (2 ^ 2) (run (2 ^ 2) (start memory) turns)
after_turns = run-IsOrdered turns 2 (start memory) (omega arith) (start-IsOrdered 2 memory)

push_accepts_example :
    (run
      (2 ^ 2)
      (run (2 ^ 2) (start memory) turns)
      (produces 9 ∷ produces 9 ∷ produces 9 ∷ [])).accepted
    ≡ (run (2 ^ 2) (start memory) turns).accepted ++ (9 ∷ [])
unfolding run step push_step pop_step is_full start new_ring
push_accepts_example =
    push_accepts 2 (run (2 ^ 2) (start memory) turns) 9 9 9 (omega arith) after_turns refl
      (omega arith)

pop_delivers_example :
    (v : ℕ) × (get_elem?
        (run (2 ^ 2) (start memory) turns).accepted
        (length (run (2 ^ 2) (start memory) turns).delivered)
      ≡ some v)
    × ((run
          (2 ^ 2)
          (run (2 ^ 2) (start memory) turns)
          (consumes ∷ consumes ∷ consumes ∷ [])).delivered
        ≡ (run (2 ^ 2) (start memory) turns).delivered ++ (v ∷ []))
unfolding run step push_step pop_step is_full start new_ring
pop_delivers_example =
    pop_delivers 2 (run (2 ^ 2) (start memory) turns) (omega arith) after_turns refl (omega arith)
