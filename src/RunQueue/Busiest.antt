-- ===== src/RunQueue/Busiest.antt =====
-- Which CPU `busiest_cpu` chooses.
use rumicos.Base.{
  ℕ, zero, suc, ◌+◌, ◌≤◌, ◌<◌, ◌≡◌, refl, inl, inr, List, [], ◌∷◌, arith, ltb, Bool-cases, length,
  get_or,
}
use rumicos.RunQueue.{MlfqQueue, len, busiest_from, busiest_cpu}
use rumicos.RunQueue.Placement.{loads}

-- The first of the greatest loads above `limit`, counted from `first`, or `other`.
data FirstMost (xs : List ℕ) (first other limit r : ℕ) : Type 0 where
  stays :
      r ≡ other
      → ((k : ℕ) → k < length xs → get_or xs k 0 ≤ limit)
      → FirstMost xs first other limit r
  moves :
      (j : ℕ)
      → r ≡ first + j
      → j < length xs
      → limit < get_or xs j 0
      → ((k : ℕ) → k < length xs → get_or xs k 0 ≤ get_or xs j 0)
      → FirstMost xs first other limit r

at_most-cons :
    (x b : ℕ) (xs : List ℕ)
    → x ≤ b
    → ((k : ℕ) → k < length xs → get_or xs k 0 ≤ b)
    → (k : ℕ) → k < length (x ∷ xs)
    → get_or (x ∷ xs) k 0 ≤ b
at_most-cons x b xs h all zero lt = h
at_most-cons x b xs h all (suc k) lt = all k (omega arith)

taken :
    (x first other limit r : ℕ) (xs : List ℕ)
    → limit < x
    → FirstMost xs (first + 1) first x r
    → FirstMost (x ∷ xs) first other limit r
taken x first other limit r xs h (stays e all) =
    moves 0 (omega (arith, e)) (omega arith) h (at_most-cons x x xs (omega arith) all)
taken x first other limit r xs h (moves j e lt above most) =
    moves (suc j) (omega (arith, e)) (omega arith) (omega arith)
      (at_most-cons x (get_or xs j 0) xs (omega arith) most)

passed :
    (x first other limit r : ℕ) (xs : List ℕ)
    → x ≤ limit
    → FirstMost xs (first + 1) other limit r
    → FirstMost (x ∷ xs) first other limit r
passed x first other limit r xs h (stays e all) = stays e (at_most-cons x limit xs h all)
passed x first other limit r xs h (moves j e lt above most) =
    moves (suc j) (omega (arith, e)) (omega arith) above
      (at_most-cons x (get_or xs j 0) xs (omega arith) most)

busiest_from-FirstMost :
    (cpus : List MlfqQueue) (cpu best_cpu best_len : ℕ)
    → FirstMost (loads cpus) cpu best_cpu best_len (busiest_from cpus cpu best_cpu best_len)
unfolding busiest_from len
busiest_from-FirstMost [] cpu best_cpu best_len = stays refl (λ k h. elim h [ ])
busiest_from-FirstMost (q ∷ qs) cpu best_cpu best_len = elim (Bool-cases (ltb best_len q.total)) [
  | inl better ↦ rw better (
      taken q.total cpu best_cpu best_len _ (loads qs) (ground arith)
        (busiest_from-FirstMost qs (cpu + 1) cpu q.total))
  | inr worse ↦ rw worse (
      passed q.total cpu best_cpu best_len _ (loads qs) (ground arith)
        (busiest_from-FirstMost qs (cpu + 1) best_cpu best_len))
]

-- Of the CPUs that exist, `busiest_cpu` names one whose run queue is no shorter than that of any
-- CPU `k`.
pub busiest_cpu_lem :
    (cpus : List MlfqQueue) (k : ℕ)
    → k < length (loads cpus)
    → let best = busiest_cpu cpus in
      (best < length (loads cpus)) × (get_or (loads cpus) k 0 ≤ get_or (loads cpus) best 0)
unfolding busiest_cpu
busiest_cpu_lem cpus k h = go (busiest_from cpus 0 0 0) (busiest_from-FirstMost cpus 0 0 0)
  where
    go :
        (best : ℕ)
        → FirstMost (loads cpus) 0 0 0 best
        → (best < length (loads cpus)) × (get_or (loads cpus) k 0 ≤ get_or (loads cpus) best 0)
    go best (stays e all) = let same : best ≡ 0 = e in rw same (omega arith, omega (arith, all k h))
    go best (moves j e lt above most) =
        let same : best ≡ j = omega (arith, e) in rw same (lt, most k h)
