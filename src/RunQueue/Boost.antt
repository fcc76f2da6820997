-- ===== src/RunQueue/Boost.antt =====
-- `boost_all` of crates/sched/src/queue.rs: every waiting thread moves to level 0, with its
-- priority and its ticks at 0.
pub mod Kept
pub mod Drained
use rumicos.Base.{
  ℕ, zero, suc, ◌+◌, ◌^◌, ◌≤◌, ◌<◌, ◌≡◌, refl, sym, ap, ◌∙◌, ◌⊎◌, inl, inr, Bool, true, false, List,
  [], ◌∷◌, ◌++◌, Option, none, some, arith, if◌then◌else◌, ◌==◌, length, get_or, set, update,
  length-set, get_or-set_self,
}
use rumicos.RunQueue.{RingQueue, MlfqQueue, new_ring, queue_depth, ring_push, ring_pop}
use rumicos.RunQueue.Ring.{IsQueue, queued, size, length-queued, ring_push_lem, ring_pop_lem}
use rumicos.RunQueue.Levels.{
  IsMlfq, queues, AreQueues, queued-get, queues-set, AreQueues-get, AreQueues-set, length-queues,
}
use rumicos.RunQueue.Steal.{occurs, occurrences, occurs-append}

-- The fields that a boost writes, by the address of the thread.
pub record Threads : Type 0 where
  pub priority : ℕ → ℕ
  pub ticks_used : ℕ → ℕ

-- Whether the loop over a level goes on, with the rings and the threads.
abbrev pub Boosted : Type 0
Boosted = Bool × List RingQueue × Threads

-- A thread that level 0 does not take goes back, and the loop over its level ends.
pub back_or_on : ℕ → List RingQueue → Threads → ℕ → RingQueue × Bool → Boosted
back_or_on level rings threads t (r, true) = (true, set rings 0 r, threads)
back_or_on level rings threads t (r, false) =
    (false, set rings level (ring_push (get_or rings level new_ring) t).0, threads)

pub boost_popped : ℕ → List RingQueue → Threads → RingQueue × Option ℕ → Boosted
unfolding back_or_on
boost_popped level rings threads (r, none) = (false, rings, threads)
boost_popped level rings threads (r, some t) =
    let rings' = set rings level r in
    back_or_on level rings'
      (record {
        priority = update threads.priority t 0;
        ticks_used = update threads.ticks_used t 0;
      })
      t (ring_push (get_or rings' 0 new_ring) t)

pub boost_level : ℕ → ℕ → List RingQueue → Threads → List RingQueue × Threads
unfolding boost_popped
boost_level zero level rings threads = (rings, threads)
boost_level (suc fuel) level rings threads =
    let (goes_on, rings', threads') =
      boost_popped level rings threads (ring_pop (get_or rings level new_ring)) in
    let rest = boost_level fuel level rings' threads' in
    if goes_on then rest else (rings', threads')

-- The loop over `n` levels from `level` on; a ring holds at most 255 threads.
pub boost_levels : ℕ → ℕ → List RingQueue → Threads → List RingQueue × Threads
unfolding boost_level
boost_levels zero level rings threads = (rings, threads)
boost_levels (suc n) level rings threads =
    let (rings', threads') = boost_level queue_depth level rings threads in
    boost_levels n (level + 1) rings' threads'

pub boost_all : MlfqQueue → Threads → MlfqQueue × Threads
unfolding boost_levels
boost_all q threads =
    let (rings, threads') = boost_levels 7 1 q.levels threads in
    (record q { levels = rings }, threads')
