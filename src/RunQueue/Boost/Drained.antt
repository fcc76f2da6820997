-- ===== src/RunQueue/Boost/Drained.antt =====
-- The fuel of a boost is enough: the loop over a level ends by itself.
use rumicos.Base.{
  ℕ, zero, suc, ◌<◌, ◌≡◌, sym, ap, ◌∙◌, ◌⊎◌, inl, inr, true, false, List, [], ◌∷◌, Option, none,
  some, arith, if◌then◌else◌, length, get_or, set, length-set, get_or-set_self, get_or-set_ne, ◌≢◌,
}
use rumicos.RunQueue.{RingQueue, new_ring, ring_push, ring_pop}
use rumicos.RunQueue.Ring.{IsQueue, queued, ring_push_lem, ring_pop_lem}
use rumicos.RunQueue.Levels.{AreQueues, AreQueues-get, AreQueues-set}
use rumicos.RunQueue.Boost.{Threads, Boosted, back_or_on, boost_popped, boost_level}
use rumicos.RunQueue.Boost.Kept.{Keeps, boost_popped-Keeps}

-- Why the loop over level `l` ends: it is empty, or level 0 is full.
abbrev pub IsDrained : ℕ → List RingQueue → Type 0
IsDrained l rs =
    (queued (get_or rs l new_ring) ≡ []) ⊎ (length (queued (get_or rs 0 new_ring)) ≡ 255)

-- A round ends the loop for a reason, or leaves one thread fewer at the level.
abbrev Shrinks : ℕ → List RingQueue → Boosted → Type 0
Shrinks l rs (false, rs', threads) = IsDrained l rs'
Shrinks l rs (true, rs', threads) =
    length (queued (get_or rs' l new_ring)) < length (queued (get_or rs l new_ring))

boost_popped-Shrinks :
    (rs : List RingQueue) (l : ℕ) (threads : Threads) (out : RingQueue × Option ℕ)
    → AreQueues rs
    → l < length rs
    → l ≢ 0
    → ((out ≡ (get_or rs l new_ring, none)) × (queued (get_or rs l new_ring) ≡ []))
      ⊎ ((r : RingQueue) × (t : ℕ) × (out ≡ (r, some t))
          × IsQueue r
          × (queued (get_or rs l new_ring) ≡ t ∷ queued r))
    → Shrinks l rs (boost_popped l rs threads out)
unfolding boost_popped back_or_on
boost_popped-Shrinks rs l threads out v h ne (inl (e, none_left)) = rw e (inl none_left)
boost_popped-Shrinks rs l threads out v h ne (inr (r, t, e, w, first)) =
    let rs' = set rs l r in
    let v' : AreQueues rs' = AreQueues-set rs l r v w in
    let same : length rs' ≡ length rs = length-set rs l r in
    elim (ring_push_lem (get_or rs' 0 new_ring) t (AreQueues-get rs' 0 (omega (arith, same)) v')) [
      | inr (r0, e0, w0, last) ↦
          rw (e, e0)
            (omega (
              arith,
              ap (λ (x : RingQueue). length (queued x))
                  (get_or-set_ne rs' 0 l r0 new_ring (λ z. ne (sym z))),
              ap (λ (x : RingQueue). length (queued x)) (get_or-set_self rs l r new_ring h),
              ap length first,
            ))
      | inl (e0, many) ↦
          rw (e, e0)
            (inr (
              ap (λ (x : RingQueue). length (queued x))
                (get_or-set_ne rs' l 0 (ring_push (get_or rs' l new_ring) t).0 new_ring ne)
              ∙ many))
    ]

-- The loop over a level below the first, given one round more than the level has threads, ends
-- with that level empty or with level 0 full.
pub boost_level-IsDrained :
    (fuel l : ℕ) (rs : List RingQueue) (threads : Threads)
    → AreQueues rs
    → l < length rs
    → l ≢ 0
    → length (queued (get_or rs l new_ring)) < fuel
    → IsDrained l (boost_level fuel l rs threads).0
unfolding boost_level
boost_level-IsDrained zero l rs threads v h ne few = absurd (omega (arith, few))
boost_level-IsDrained (suc fuel) l rs threads v h ne few =
    let popped = ring_pop_lem (get_or rs l new_ring) (AreQueues-get rs l h v) in
    go (λ rs' threads' v' h' few'. boost_level-IsDrained fuel l rs' threads' v' h' ne few')
      (boost_popped l rs threads (ring_pop (get_or rs l new_ring)))
      (boost_popped-Keeps rs l threads _ v h popped)
      (boost_popped-Shrinks rs l threads _ v h ne popped)
  where
    go :
        (again : (rs' : List RingQueue) (threads' : Threads)
          → AreQueues rs'
          → l < length rs'
          → length (queued (get_or rs' l new_ring)) < fuel
          → IsDrained l (boost_level fuel l rs' threads').0)
        (out : Boosted)
        → Keeps rs out.1
        → Shrinks l rs out
        → IsDrained l (if out.0 then boost_level fuel l out.1 out.2 else (out.1, out.2)).0
    go again (true, rs', threads') kept fewer =
        again rs' threads' kept.rings (omega (arith, kept.same_length)) (omega (arith, fewer, few))
    go again (false, rs', threads') kept ended = ended
