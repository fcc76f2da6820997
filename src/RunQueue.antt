-- ===== src/RunQueue.antt =====
-- crates/sched/src/queue.rs: the run queue of a CPU, eight rings of thread addresses under one
-- counter. A run queue is used under the lock of its CPU (crates/sched/src/percpu.rs), so the
-- exchange in `RingQueue::pop` succeeds in its first round. The priority of a thread is read from
-- a store by the thread's address.
pub mod Ring
pub mod Levels
pub mod Steal
pub mod Placement
pub mod Busiest
pub mod Boost
pub mod Examples
use rumicos.Base.{
  ℕ, zero, suc, ◌+◌, ◌-◌, ◌%◌, ◌^◌, min, Bool, true, false, List, [], ◌∷◌, Option, none, some,
  if◌then◌else◌, ltb, ◌==◌, get_or, set, replicate,
}

abbrev pub mlfq_levels : ℕ
mlfq_levels = 8

abbrev pub queue_depth : ℕ
queue_depth = 256

-- Ticks between two boosts.
abbrev pub boost_interval : ℕ
boost_interval = 1000

-- `1 << level`, of 32 bits.
pub timeslice : ℕ → ℕ
timeslice level = 2 ^ (level % 32) % 2 ^ 32

pub record RingQueue : Type 0 where
  pub buf : List ℕ
  pub head : ℕ
  pub tail : ℕ

abbrev pub new_ring : RingQueue
new_ring = record { buf = replicate queue_depth 0; head = 0; tail = 0 }

pub ring_push : RingQueue → ℕ → RingQueue × Bool
ring_push q thread =
    let next = (q.tail + 1) % queue_depth in
    if next == q.head
    then (q, false)
    else (record q { buf = set q.buf q.tail thread; tail = next }, true)

pub ring_pop : RingQueue → RingQueue × Option ℕ
ring_pop q =
    if q.head == q.tail
    then (q, none)
    else (record q { head = (q.head + 1) % queue_depth }, some (get_or q.buf q.head 0))

pub record MlfqQueue : Type 0 where
  pub levels : List RingQueue
  pub total : ℕ

pub new : MlfqQueue
new = record { levels = replicate mlfq_levels new_ring; total = 0 }

-- The count goes up when the ring of the level took the thread.
pushed : MlfqQueue → ℕ → RingQueue × Bool → MlfqQueue × Bool
pushed q level (r, false) = (q, false)
pushed q level (r, true) =
    (record { levels = set q.levels level r; total = (q.total + 1) % 2 ^ 32 }, true)

pub push : MlfqQueue → ℕ → ℕ → MlfqQueue × Bool
unfolding pushed
push q thread level =
    let l = min level (mlfq_levels - 1) in
    pushed q l (ring_push (get_or q.levels l new_ring) thread)

-- What one level of the scan of `pop` does, with the outcome for the levels below it.
first_of :
    RingQueue
    → List RingQueue
    → RingQueue × Option ℕ
    → List RingQueue × Option ℕ
    → List RingQueue × Option ℕ
first_of r rs (r', some thread) below = (r' ∷ rs, some thread)
first_of r rs (r', none) (rs', found) = (r ∷ rs', found)

pub pop_levels : List RingQueue → List RingQueue × Option ℕ
unfolding first_of
pop_levels [] = ([], none)
pop_levels (r ∷ rs) = let below = pop_levels rs in first_of r rs (ring_pop r) below

popped : MlfqQueue → List RingQueue × Option ℕ → MlfqQueue × Option ℕ
popped q (levels, none) = (q, none)
popped q (levels, some thread) =
    (record { levels = levels; total = (q.total + 2 ^ 32 - 1) % 2 ^ 32 }, some thread)

pub pop : MlfqQueue → MlfqQueue × Option ℕ
unfolding popped pop_levels
pop q = popped q (pop_levels q.levels)

-- `priority` is the field of the thread at an address. A thread that the destination does not
-- take goes back, at its priority, and the loop ends.
pub steal_into : (ℕ → ℕ) → MlfqQueue → MlfqQueue → ℕ → MlfqQueue × MlfqQueue × ℕ
steal_into priority src dst zero = (src, dst, 0)
steal_into priority src dst (suc n) =
    let src' = (pop src).0 in
    elim (pop src).1 [
      | none ↦ (src', dst, 0)
      | some thread ↦
          let level = priority thread in
          let rest = steal_into priority src' (push dst thread level).0 n in
          if (push dst thread level).1
          then (rest.0, rest.1, suc rest.2)
          else ((push src' thread level).0, dst, 0)
    ]

pub len : MlfqQueue → ℕ
len q = q.total

pub is_empty : MlfqQueue → Bool
unfolding len
is_empty q = len q == 0

-- The loops of `busiest_cpu` and `least_loaded_cpu` of crates/sched/src/steal.rs, from the CPU
-- `cpu` on. Each reads a length under the lock of its CPU, so the queues may be of different
-- moments.
pub busiest_from : List MlfqQueue → ℕ → ℕ → ℕ → ℕ
unfolding len
busiest_from [] cpu best_cpu best_len = best_cpu
busiest_from (q ∷ qs) cpu best_cpu best_len =
    let better = ltb best_len (len q) in
    busiest_from qs (cpu + 1) (if better then cpu else best_cpu)
      (if better then len q else best_len)

pub busiest_cpu : List MlfqQueue → ℕ
unfolding busiest_from
busiest_cpu cpus = busiest_from cpus 0 0 0

pub least_from : List MlfqQueue → ℕ → ℕ → ℕ → ℕ
unfolding len
least_from [] cpu best_cpu best_len = best_cpu
least_from (q ∷ qs) cpu best_cpu best_len =
    let better = ltb (len q) best_len in
    least_from qs (cpu + 1) (if better then cpu else best_cpu) (if better then len q else best_len)

pub least_loaded_cpu : List MlfqQueue → ℕ
unfolding least_from
least_loaded_cpu cpus = least_from cpus 0 0 (2 ^ 32 - 1)
