-- ===== src/RunQueue/Examples.antt =====
-- A run queue with two threads at its second level, robbed by an empty one.
use rumicos.Base.{
  ℕ, zero, suc, ◌≡◌, ◌⊎◌, refl, true, false, [], ◌∷◌, arith, length, get_or, replicate,
}
use rumicos.RunQueue.{queue_depth, RingQueue, MlfqQueue, new_ring, push, pop, steal_into}
use rumicos.RunQueue.Ring.{IsQueue, queued, items}
use rumicos.RunQueue.Levels.{queues, AreQueues, IsMlfq, pop_first, append_at, push_lem, pop_lem}
use rumicos.RunQueue.Boost.{Threads, boost_level, boost_all}
use rumicos.RunQueue.Boost.Kept.{Keeps, boost_all-Keeps}
use rumicos.RunQueue.Boost.Drained.{IsDrained, boost_level-IsDrained}
use rumicos.RunQueue.Steal.{Settled, Stolen, steal_into-Stolen}

abbrev two_waiting : RingQueue
two_waiting = record { buf = 4096 ∷ 8192 ∷ replicate 254 0; head = 0; tail = 2 }

abbrev robbed : MlfqQueue
robbed = record { levels = new_ring ∷ two_waiting ∷ replicate 6 new_ring; total = 2 }

abbrev idle : MlfqQueue
idle = record { levels = replicate 8 new_ring; total = 0 }

abbrev priority : ℕ → ℕ
priority thread = 1

new_ring-IsQueue : IsQueue new_ring
new_ring-IsQueue = record { slots = refl; head_at = omega arith; tail_at = omega arith }

new_rings-AreQueues : (n : ℕ) → AreQueues (replicate n new_ring)
new_rings-AreQueues zero = tt
new_rings-AreQueues (suc n) = (new_ring-IsQueue, new_rings-AreQueues n)

two_waiting-IsQueue : IsQueue two_waiting
two_waiting-IsQueue = record { slots = refl; head_at = omega arith; tail_at = omega arith }

robbed-IsMlfq : IsMlfq robbed
unfolding queued items
robbed-IsMlfq = record {
  levels_are = refl;
  rings = (new_ring-IsQueue, (two_waiting-IsQueue, new_rings-AreQueues 6));
  counted = refl;
}

idle-IsMlfq : IsMlfq idle
unfolding queued items
idle-IsMlfq = record { levels_are = refl; rings = new_rings-AreQueues 8; counted = refl }

robbed-Settled : Settled priority 0 (queues robbed.levels)
unfolding queued items
robbed-Settled = (tt, ((omega arith, (omega arith, tt)), (tt, (tt, (tt, (tt, (tt, (tt, tt))))))))

push_lem_example :
    ((push robbed 12288 9 ≡ (robbed, false)) × (length (get_or (queues robbed.levels) 7 []) ≡ 255))
    ⊎ ((q : MlfqQueue) × (push robbed 12288 9 ≡ (q, true))
        × IsMlfq q
        × (queues q.levels ≡ append_at (queues robbed.levels) 7 12288))
push_lem_example = push_lem robbed 12288 9 robbed-IsMlfq

pop_lem_example :
    IsMlfq (pop robbed).0
    × (queues (pop robbed).0.levels ≡ (pop_first (queues robbed.levels)).0)
    × ((pop robbed).1 ≡ (pop_first (queues robbed.levels)).1)
pop_lem_example = pop_lem robbed robbed-IsMlfq

steal_into-Stolen_example : Stolen priority robbed idle 1 (steal_into priority robbed idle 1)
steal_into-Stolen_example =
    steal_into-Stolen priority 1 robbed idle robbed-IsMlfq idle-IsMlfq robbed-Settled

abbrev threads : Threads
threads = record { priority = priority; ticks_used = λ thread. 0 }

boost_all-Keeps_example :
    Keeps robbed.levels (boost_all robbed threads).0.levels
    × ((boost_all robbed threads).0.total ≡ 2)
boost_all-Keeps_example = boost_all-Keeps robbed threads robbed-IsMlfq

boost_level-IsDrained_example : IsDrained 1 (boost_level queue_depth 1 robbed.levels threads).0
unfolding queued items
boost_level-IsDrained_example =
    boost_level-IsDrained queue_depth 1 robbed.levels threads robbed-IsMlfq.rings (omega arith)
      (λ e. omega (arith, e)) (omega arith)
