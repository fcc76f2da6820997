-- ===== src/RunQueue/Boost/Kept.antt =====
-- A boost keeps the rings well formed and every thread.
use rumicos.Base.{
  ℕ, zero, suc, ◌+◌, ◌≤◌, ◌<◌, ◌≡◌, refl, ap, ◌∙◌, ◌⊎◌, inl, inr, Bool, true, false, List, [], ◌∷◌,
  ◌++◌, Option, none, some, arith, if◌then◌else◌, ◌==◌, length, get_or, set, length-set,
  get_or-set_self,
}
use rumicos.RunQueue.{RingQueue, MlfqQueue, new_ring, queue_depth, ring_pop}
use rumicos.RunQueue.Ring.{IsQueue, queued, length-queued, ring_push_lem, ring_pop_lem}
use rumicos.RunQueue.Levels.{IsMlfq, queues, AreQueues, AreQueues-get, AreQueues-set}
use rumicos.RunQueue.Steal.{occurs, occurrences, occurs-append}
use rumicos.RunQueue.Boost.{Threads, boost_popped, boost_level, boost_levels, boost_all}

-- Trading one ring for another changes the occurrences by what the two hold.
occurrences-set :
    (t : ℕ) (rs : List RingQueue) (l : ℕ) (r : RingQueue)
    → l < length rs
    → occurrences t (queues (set rs l r)) + occurs t (queued (get_or rs l new_ring))
      ≡ occurrences t (queues rs) + occurs t (queued r)
occurrences-set t [] l r h = elim h [ ]
occurrences-set t (x ∷ rs) zero r h = omega arith
occurrences-set t (x ∷ rs) (suc l) r h = omega (arith, occurrences-set t rs l r (omega arith))

-- The rings after a part of a boost.
pub record Keeps (rs rs' : List RingQueue) : Type 0 where
  pub rings : AreQueues rs'
  pub same_length : length rs' ≡ length rs
  pub kept : (t : ℕ) → occurrences t (queues rs') ≡ occurrences t (queues rs)

pushed-kept :
    (rs : List RingQueue) (l t u : ℕ) (r : RingQueue)
    → l < length rs
    → queued r ≡ queued (get_or rs l new_ring) ++ t ∷ []
    → occurrences u (queues (set rs l r)) ≡ occurrences u (queues rs) + (if t == u then 1 else 0)
pushed-kept rs l t u r h e = omega (
  arith,
  occurrences-set u rs l r h,
  ap (occurs u) e,
  occurs-append u t (queued (get_or rs l new_ring)),
)

popped-kept :
    (rs : List RingQueue) (l t u : ℕ) (r : RingQueue)
    → l < length rs
    → queued (get_or rs l new_ring) ≡ t ∷ queued r
    → occurrences u (queues (set rs l r)) + (if t == u then 1 else 0) ≡ occurrences u (queues rs)
popped-kept rs l t u r h e = omega (arith, occurrences-set u rs l r h, ap (occurs u) e)

pub back-room :
    (rs : List RingQueue) (l t : ℕ) (r : RingQueue)
    → AreQueues rs
    → l < length rs
    → queued (get_or rs l new_ring) ≡ t ∷ queued r
    → length (queued (get_or (set rs l r) l new_ring)) < 255
back-room rs l t r v h e =
    let q = AreQueues-get rs l h v in
    omega (
      arith,
      ap (λ (x : RingQueue). length (queued x)) (get_or-set_self rs l r new_ring h),
      ap length e,
      length-queued (get_or rs l new_ring),
      q.head_at,
      q.tail_at,
    )

pub boost_popped-Keeps :
    (rs : List RingQueue) (l : ℕ) (threads : Threads) (out : RingQueue × Option ℕ)
    → AreQueues rs
    → l < length rs
    → ((out ≡ (get_or rs l new_ring, none)) × (queued (get_or rs l new_ring) ≡ []))
      ⊎ ((r : RingQueue) × (t : ℕ) × (out ≡ (r, some t))
          × IsQueue r
          × (queued (get_or rs l new_ring) ≡ t ∷ queued r))
    → Keeps rs (boost_popped l rs threads out).1
unfolding boost_popped
boost_popped-Keeps rs l threads out v h (inl (e, _)) =
    rw e (record { rings = v; same_length = refl; kept = λ u. refl })
boost_popped-Keeps rs l threads out v h (inr (r, t, e, w, first)) =
    let rs' = set rs l r in
    let v' : AreQueues rs' = AreQueues-set rs l r v w in
    let same : length rs' ≡ length rs = length-set rs l r in
    let at_0 : 0 < length rs' = omega (arith, same) in
    let at_l : l < length rs' = omega (arith, same) in
    elim (ring_push_lem (get_or rs' 0 new_ring) t (AreQueues-get rs' 0 at_0 v')) [
      | inr (r0, e0, w0, last) ↦
          rw (e, e0)
            (record {
              rings = AreQueues-set rs' 0 r0 v' w0;
              same_length = length-set rs' 0 r0 ∙ same;
              kept = λ u.
                  omega (arith, popped-kept rs l t u r h first, pushed-kept rs' 0 t u r0 at_0 last);
            })
      | inl (e0, _) ↦ elim (ring_push_lem (get_or rs' l new_ring) t (AreQueues-get rs' l at_l v')) [
        | inl (_, many) ↦ absurd (omega (arith, many, back-room rs l t r v h first))
        | inr (r1, e1, w1, last) ↦
            rw (e, e0, e1)
              (record {
                rings = AreQueues-set rs' l r1 v' w1;
                same_length = length-set rs' l r1 ∙ same;
                kept = λ u.
                    omega
                      (arith, popped-kept rs l t u r h first, pushed-kept rs' l t u r1 at_l last);
              })
      ]
    ]

Keeps-trans : {a b c : List RingQueue} → Keeps a b → Keeps b c → Keeps a c
Keeps-trans h k = record {
  rings = k.rings;
  same_length = k.same_length ∙ h.same_length;
  kept = λ t. k.kept t ∙ h.kept t;
}

if-Keeps :
    (rs : List RingQueue) (c : Bool) (a b : List RingQueue × Threads)
    → Keeps rs a.0
    → Keeps rs b.0
    → Keeps rs (if c then a else b).0
if-Keeps rs true a b h k = h
if-Keeps rs false a b h k = k

boost_level-Keeps :
    (fuel l : ℕ) (rs : List RingQueue) (threads : Threads)
    → AreQueues rs
    → l < length rs
    → Keeps rs (boost_level fuel l rs threads).0
unfolding boost_level
boost_level-Keeps zero l rs threads v h = record { rings = v; same_length = refl; kept = λ u. refl }
boost_level-Keeps (suc fuel) l rs threads v h =
    let out = boost_popped l rs threads (ring_pop (get_or rs l new_ring)) in
    let once =
      boost_popped-Keeps rs l threads _ v h
        (ring_pop_lem (get_or rs l new_ring) (AreQueues-get rs l h v)) in
    if-Keeps rs out.0 (boost_level fuel l out.1 out.2) (out.1, out.2)
      (Keeps-trans once
        (boost_level-Keeps fuel l out.1 out.2 once.rings (omega (arith, once.same_length))))
      once

boost_levels-Keeps :
    (n l : ℕ) (rs : List RingQueue) (threads : Threads)
    → AreQueues rs
    → l + n ≤ length rs
    → Keeps rs (boost_levels n l rs threads).0
unfolding boost_levels
boost_levels-Keeps zero l rs threads v h = record {
  rings = v;
  same_length = refl;
  kept = λ u. refl;
}
boost_levels-Keeps (suc n) l rs threads v h =
    let once = boost_level-Keeps queue_depth l rs threads v (omega arith) in
    Keeps-trans once (boost_levels-Keeps n (l + 1) _ _ once.rings (omega (arith, once.same_length)))

-- A boost loses no thread and adds none: each waits as often as before, in rings that are well
-- formed, and the counter does not change.
pub boost_all-Keeps :
    (q : MlfqQueue) (threads : Threads)
    → IsMlfq q
    → Keeps q.levels (boost_all q threads).0.levels × ((boost_all q threads).0.total ≡ q.total)
unfolding boost_all
boost_all-Keeps q threads v =
    (boost_levels-Keeps 7 1 q.levels threads v.rings (omega (arith, v.levels_are)), refl)
