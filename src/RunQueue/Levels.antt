-- ===== src/RunQueue/Levels.antt =====
-- The eight levels as eight lists: `push` appends to one of them, `pop` takes the first thread of
-- the first that is not empty, and the counter is the number of threads.
use rumicos.Base.{
  ℕ, zero, suc, ◌+◌, ◌*◌, ◌%◌, ◌^◌, ◌≤◌, ◌<◌, ◌≡◌, refl, ap, sym, ◌∙◌, ◌⊎◌, inl, inr, min, true,
  false, List, [], ◌∷◌, ◌++◌, Option, none, some, arith, length, get_or, set, length-set,
  length-append,
}
use rumicos.RunQueue.{
  RingQueue, MlfqQueue, new_ring, mlfq_levels, ring_pop, push, pushed, pop, popped, pop_levels,
  first_of,
}
use rumicos.RunQueue.Ring.{IsQueue, queued, length-queued, ring_push_lem, ring_pop_lem}

abbrev pub queues : List RingQueue → List (List ℕ)
queues [] = []
queues (r ∷ rs) = queued r ∷ queues rs

abbrev pub AreQueues : List RingQueue → Type 0
AreQueues [] = Unit {0}
AreQueues (r ∷ rs) = IsQueue r × AreQueues rs

-- How many threads wait.
abbrev pub waiting : List (List ℕ) → ℕ
waiting [] = 0
waiting (q ∷ qs) = length q + waiting qs

pub record IsMlfq (q : MlfqQueue) : Type 0 where
  pub levels_are : length q.levels ≡ mlfq_levels
  pub rings : AreQueues q.levels
  pub counted : q.total ≡ waiting (queues q.levels)

-- The specification of `pop`.
abbrev pub pop_first : List (List ℕ) → List (List ℕ) × Option ℕ
pop_first [] = ([], none)
pop_first ([] ∷ qs) = ([] ∷ (pop_first qs).0, (pop_first qs).1)
pop_first ((x ∷ xs) ∷ qs) = (xs ∷ qs, some x)

-- The specification of `push`, at a level.
abbrev pub append_at : List (List ℕ) → ℕ → ℕ → List (List ℕ)
append_at qs l thread = set qs l (get_or qs l [] ++ thread ∷ [])

pub queued-get :
    (rs : List RingQueue) (l : ℕ)
    → l < length rs
    → queued (get_or rs l new_ring) ≡ get_or (queues rs) l []
queued-get [] l h = elim h [ ]
queued-get (r ∷ rs) zero h = refl
queued-get (r ∷ rs) (suc l) h = queued-get rs l (omega arith)

pub queues-set :
    (rs : List RingQueue) (l : ℕ) (r : RingQueue)
    → queues (set rs l r) ≡ set (queues rs) l (queued r)
queues-set [] l r = refl
queues-set (x ∷ rs) zero r = refl
queues-set (x ∷ rs) (suc l) r = ap (λ (qs : List (List ℕ)). queued x ∷ qs) (queues-set rs l r)

pub AreQueues-get :
    (rs : List RingQueue) (l : ℕ) → l < length rs → AreQueues rs → IsQueue (get_or rs l new_ring)
AreQueues-get [] l h v = elim h [ ]
AreQueues-get (r ∷ rs) zero h v = v.0
AreQueues-get (r ∷ rs) (suc l) h v = AreQueues-get rs l (omega arith) v.1

pub AreQueues-set :
    (rs : List RingQueue) (l : ℕ) (r : RingQueue)
    → AreQueues rs
    → IsQueue r
    → AreQueues (set rs l r)
AreQueues-set [] l r v w = tt
AreQueues-set (x ∷ rs) zero r v w = (w, v.1)
AreQueues-set (x ∷ rs) (suc l) r v w = (v.0, AreQueues-set rs l r v.1 w)

pub length-queues : (rs : List RingQueue) → length (queues rs) ≡ length rs
length-queues [] = refl
length-queues (r ∷ rs) = ap suc (length-queues rs)

pub waiting-append_at :
    (qs : List (List ℕ)) (l thread : ℕ)
    → l < length qs
    → waiting (append_at qs l thread) ≡ suc (waiting qs)
waiting-append_at [] l thread h = elim h [ ]
waiting-append_at (q ∷ qs) zero thread h = omega (arith, length-append q (thread ∷ []))
waiting-append_at (q ∷ qs) (suc l) thread h =
    omega (arith, waiting-append_at qs l thread (omega arith))

waiting-le : (rs : List RingQueue) → AreQueues rs → waiting (queues rs) ≤ length rs * 255
waiting-le [] v = omega arith
waiting-le (r ∷ rs) v = omega (arith, length-queued r, v.0.head_at, v.0.tail_at, waiting-le rs v.1)

-- `push` refuses at a level that holds 255 threads, changing nothing, and otherwise makes the
-- thread the last of its level, the numbers above 7 taken as 7.
pub push_lem :
    (q : MlfqQueue) (thread level : ℕ)
    → IsMlfq q
    → let l = min level 7 in
      ((push q thread level ≡ (q, false)) × (length (get_or (queues q.levels) l []) ≡ 255))
      ⊎ ((q' : MlfqQueue) × (push q thread level ≡ (q', true))
          × IsMlfq q'
          × (queues q'.levels ≡ append_at (queues q.levels) l thread))
unfolding push
push_lem q thread level v = elim (ring_push_lem (get_or q.levels l new_ring) thread ring) [
  | inl (e, many) ↦ inl (ap (pushed q l) e, ap length (sym at_level) ∙ many)
  | inr (r, e, w, last) ↦
      let after : queues (set q.levels l r) ≡ append_at (queues q.levels) l thread =
        queues-set q.levels l r
        ∙ ap (set (queues q.levels) l) (last ∙ ap (λ (xs : List ℕ). xs ++ thread ∷ []) at_level) in
      inr (
        record { levels = set q.levels l r; total = (q.total + 1) % 2 ^ 32 },
        ap (pushed q l) e,
        record {
          levels_are = length-set q.levels l r ∙ v.levels_are;
          rings = AreQueues-set q.levels l r v.rings w;
          counted = omega (
            arith,
            v.counted,
            waiting-le q.levels v.rings,
            v.levels_are,
            ap waiting after,
            waiting-append_at (queues q.levels) l thread
                (omega (arith, length-queues q.levels, in_levels)),
          );
        },
        after,
      )
]
  where
    l : ℕ
    l = min level 7

    in_levels : l < length q.levels
    in_levels = omega (arith, v.levels_are)

    ring : IsQueue (get_or q.levels l new_ring)
    ring = AreQueues-get q.levels l in_levels v.rings

    at_level : queued (get_or q.levels l new_ring) ≡ get_or (queues q.levels) l []
    at_level = queued-get q.levels l in_levels

-- What a scan of the levels leaves and finds.
record Pops (rs : List RingQueue) (out : List RingQueue × Option ℕ) : Type 0 where
  pub rings : AreQueues out.0
  pub same_length : length out.0 ≡ length rs
  pub left : queues out.0 ≡ (pop_first (queues rs)).0
  pub found : out.1 ≡ (pop_first (queues rs)).1

first_of-Pops :
    (r : RingQueue) (rs : List RingQueue) (out : RingQueue × Option ℕ)
    → AreQueues (r ∷ rs)
    → Pops rs (pop_levels rs)
    → ((out ≡ (r, none)) × (queued r ≡ []))
      ⊎ ((r' : RingQueue) × (thread : ℕ) × (out ≡ (r', some thread))
          × IsQueue r'
          × (queued r ≡ thread ∷ queued r'))
    → Pops (r ∷ rs) (first_of r rs out (pop_levels rs))
unfolding first_of
first_of-Pops r rs out v below (inl (e, empty)) = rw e (record {
  rings = (v.0, below.rings);
  same_length = ap suc below.same_length;
  left = rw empty (ap (λ (qs : List (List ℕ)). [] ∷ qs) below.left);
  found = rw empty below.found;
})
first_of-Pops r rs out v below (inr (r', thread, e, w, first)) =
    rw e
      (record { rings = (w, v.1); same_length = refl; left = rw first refl; found = rw first refl })

pop_levels-Pops : (rs : List RingQueue) → AreQueues rs → Pops rs (pop_levels rs)
unfolding pop_levels
pop_levels-Pops [] v = record { rings = tt; same_length = refl; left = refl; found = refl }
pop_levels-Pops (r ∷ rs) v =
    first_of-Pops r rs (ring_pop r) v (pop_levels-Pops rs v.1) (ring_pop_lem r v.0)

pub pop_first-waiting :
    (qs : List (List ℕ))
    → (((pop_first qs).1 ≡ none) × ((pop_first qs).0 ≡ qs))
      ⊎ ((x : ℕ) × ((pop_first qs).1 ≡ some x) × (waiting qs ≡ suc (waiting (pop_first qs).0)))
pop_first-waiting [] = inl (refl, refl)
pop_first-waiting ([] ∷ qs) = elim (pop_first-waiting qs) [
  | inl (e, same) ↦ inl (e, ap (λ (t : List (List ℕ)). [] ∷ t) same)
  | inr (x, e, fewer) ↦ inr (x, e, omega (arith, fewer))
]
pop_first-waiting ((x ∷ xs) ∷ qs) = inr (x, refl, omega arith)

-- `pop` takes the first thread of the highest level that has one, and the counter stays the
-- number of threads that wait.
pub pop_lem :
    (q : MlfqQueue)
    → IsMlfq q
    → IsMlfq (pop q).0
      × (queues (pop q).0.levels ≡ (pop_first (queues q.levels)).0)
      × ((pop q).1 ≡ (pop_first (queues q.levels)).1)
unfolding pop popped
pop_lem q v = go (pop_levels q.levels) (pop_levels-Pops q.levels v.rings)
  where
    go :
        (out : List RingQueue × Option ℕ)
        → Pops q.levels out
        → IsMlfq (popped q out).0
          × (queues (popped q out).0.levels ≡ (pop_first (queues q.levels)).0)
          × ((popped q out).1 ≡ (pop_first (queues q.levels)).1)
    go (levels, none) p = elim (pop_first-waiting (queues q.levels)) [
      | inl (e, same) ↦ (v, sym same, sym e)
      | inr (x, e, _) ↦ absurd (ground (arith, p.found, e))
    ]
    go (levels, some thread) p = elim (pop_first-waiting (queues q.levels)) [
      | inl (e, same) ↦ absurd (ground (arith, p.found, e))
      | inr (x, e, fewer) ↦ (
        record {
          levels_are = p.same_length ∙ v.levels_are;
          rings = p.rings;
          counted = omega (
            arith,
            v.counted,
            fewer,
            ap waiting p.left,
            waiting-le q.levels v.rings,
            v.levels_are,
          );
        },
        p.left,
        p.found,
      )
    ]
