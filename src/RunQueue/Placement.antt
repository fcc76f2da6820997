-- ===== src/RunQueue/Placement.antt =====
-- Which CPU the searches over the run queues choose.
use rumicos.Base.{
  ℕ, zero, suc, ◌+◌, ◌-◌, ◌^◌, ◌≤◌, ◌<◌, ◌≡◌, refl, inl, inr, List, [], ◌∷◌, arith, ltb, Bool-cases,
  length, get_or,
}
use rumicos.RunQueue.{MlfqQueue, len, least_from, least_loaded_cpu}

-- How many threads each CPU has.
abbrev pub loads : List MlfqQueue → List ℕ
loads [] = []
loads (q ∷ qs) = q.total ∷ loads qs

-- The first of the smallest loads below `limit`, counted from `first`, or `other`.
data FirstLeast (xs : List ℕ) (first other limit r : ℕ) : Type 0 where
  stays :
      r ≡ other
      → ((k : ℕ) → k < length xs → limit ≤ get_or xs k 0)
      → FirstLeast xs first other limit r
  moves :
      (j : ℕ)
      → r ≡ first + j
      → j < length xs
      → get_or xs j 0 < limit
      → ((k : ℕ) → k < length xs → get_or xs j 0 ≤ get_or xs k 0)
      → ((k : ℕ) → k < j → get_or xs j 0 < get_or xs k 0)
      → FirstLeast xs first other limit r

at_least-cons :
    (x b : ℕ) (xs : List ℕ)
    → b ≤ x
    → ((k : ℕ) → k < length xs → b ≤ get_or xs k 0)
    → (k : ℕ) → k < length (x ∷ xs)
    → b ≤ get_or (x ∷ xs) k 0
at_least-cons x b xs h all zero lt = h
at_least-cons x b xs h all (suc k) lt = all k (omega arith)

above-cons :
    (x b j : ℕ) (xs : List ℕ)
    → b < x
    → ((k : ℕ) → k < j → b < get_or xs k 0)
    → (k : ℕ) → k < suc j
    → b < get_or (x ∷ xs) k 0
above-cons x b j xs h all zero lt = h
above-cons x b j xs h all (suc k) lt = all k (omega arith)

taken :
    (x first other limit r : ℕ) (xs : List ℕ)
    → x < limit
    → FirstLeast xs (first + 1) first x r
    → FirstLeast (x ∷ xs) first other limit r
taken x first other limit r xs h (stays e all) =
    moves 0 (omega (arith, e)) (omega arith) h (at_least-cons x x xs (omega arith) all)
      (λ k lt. elim lt [ ])
taken x first other limit r xs h (moves j e lt below least earlier) =
    moves (suc j) (omega (arith, e)) (omega arith) (omega arith)
      (at_least-cons x (get_or xs j 0) xs (omega arith) least)
      (above-cons x (get_or xs j 0) j xs below earlier)

passed :
    (x first other limit r : ℕ) (xs : List ℕ)
    → limit ≤ x
    → FirstLeast xs (first + 1) other limit r
    → FirstLeast (x ∷ xs) first other limit r
passed x first other limit r xs h (stays e all) = stays e (at_least-cons x limit xs h all)
passed x first other limit r xs h (moves j e lt below least earlier) =
    moves (suc j) (omega (arith, e)) (omega arith) below
      (at_least-cons x (get_or xs j 0) xs (omega arith) least)
      (above-cons x (get_or xs j 0) j xs (omega arith) earlier)

least_from-FirstLeast :
    (cpus : List MlfqQueue) (cpu best_cpu best_len : ℕ)
    → FirstLeast (loads cpus) cpu best_cpu best_len (least_from cpus cpu best_cpu best_len)
unfolding least_from len
least_from-FirstLeast [] cpu best_cpu best_len = stays refl (λ k h. elim h [ ])
least_from-FirstLeast (q ∷ qs) cpu best_cpu best_len = elim (Bool-cases (ltb q.total best_len)) [
  | inl better ↦ rw better (
      taken q.total cpu best_cpu best_len _ (loads qs) (ground arith)
        (least_from-FirstLeast qs (cpu + 1) cpu q.total))
  | inr worse ↦ rw worse (
      passed q.total cpu best_cpu best_len _ (loads qs) (ground arith)
        (least_from-FirstLeast qs (cpu + 1) best_cpu best_len))
]

-- When the run queue of some CPU `k` is shorter than 2 ^ 32 - 1, `least_loaded_cpu` names a CPU
-- that exists, whose run queue is no longer than that of `k`, and shorter if `k` comes before it.
pub least_loaded_cpu_lem :
    (cpus : List MlfqQueue) (k : ℕ)
    → k < length (loads cpus)
    → get_or (loads cpus) k 0 < 2 ^ 32 - 1
    → let best = least_loaded_cpu cpus in
      (best < length (loads cpus))
      × (get_or (loads cpus) best 0 ≤ get_or (loads cpus) k 0)
      × (k < best → get_or (loads cpus) best 0 < get_or (loads cpus) k 0)
unfolding least_loaded_cpu
least_loaded_cpu_lem cpus k h short =
    go (least_from cpus 0 0 (2 ^ 32 - 1)) (least_from-FirstLeast cpus 0 0 (2 ^ 32 - 1))
  where
    go :
        (best : ℕ)
        → FirstLeast (loads cpus) 0 0 (2 ^ 32 - 1) best
        → (best < length (loads cpus))
          × (get_or (loads cpus) best 0 ≤ get_or (loads cpus) k 0)
          × (k < best → get_or (loads cpus) best 0 < get_or (loads cpus) k 0)
    go best (stays e all) = absurd (omega (arith, all k h, short))
    go best (moves j e lt below least earlier) =
        let same : best ≡ j = omega (arith, e) in
        rw same (lt, least k h, λ before. earlier k before)
