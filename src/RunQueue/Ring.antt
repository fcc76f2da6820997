-- ===== src/RunQueue/Ring.antt =====
-- A ring of threads as a first-in-first-out list.
use rumicos.Base.{
  ℕ, zero, suc, ◌+◌, ◌-◌, ◌%◌, ◌<◌, ◌≡◌, ◌≢◌, refl, ap, ◌∙◌, ◌⊎◌, inl, inr, true, false, List, [],
  ◌∷◌, ◌++◌, none, some, arith, ◌==◌, Bool-cases, length, get_or, set, length-set, get_or-set_self,
  get_or-set_ne,
}
use rumicos.RunQueue.{RingQueue, queue_depth, ring_push, ring_pop}

-- The `n` elements from position `p` on.
unfoldable pub items : List ℕ → ℕ → ℕ → List ℕ
items buf p zero = []
items buf p (suc n) = get_or buf p 0 ∷ items buf ((p + 1) % queue_depth) n

abbrev pub size : RingQueue → ℕ
size q = (q.tail + queue_depth - q.head) % queue_depth

-- The threads of the ring, the next to run first.
unfoldable pub queued : RingQueue → List ℕ
unfolding items
queued q = items q.buf q.head (size q)

pub record IsQueue (q : RingQueue) : Type 0 where
  pub slots : length q.buf ≡ queue_depth
  pub head_at : q.head < queue_depth
  pub tail_at : q.tail < queue_depth

length-items : (buf : List ℕ) (p n : ℕ) → length (items buf p n) ≡ n
unfolding items
length-items buf p zero = refl
length-items buf p (suc n) = ap suc (length-items buf ((p + 1) % queue_depth) n)

pub length-queued : (q : RingQueue) → length (queued q) ≡ size q
unfolding queued
length-queued q = length-items q.buf q.head (size q)

-- A write just behind the last of fewer than 256 elements appends to them.
items-set :
    (buf : List ℕ) (p n t v : ℕ)
    → length buf ≡ queue_depth
    → p < queue_depth
    → n < queue_depth
    → t ≡ (p + n) % queue_depth
    → items (set buf t v) p (suc n) ≡ items buf p n ++ v ∷ []
unfolding items
items-set buf p zero t v slots at few e =
    let here : t ≡ p = omega arith in
    rw here (ap (λ (x : ℕ). x ∷ []) (get_or-set_self buf p v 0 (omega (arith, slots))))
items-set buf p (suc n) t v slots at few e =
    let apart : t ≢ p = λ h. omega arith in
    let rest =
      items-set buf ((p + 1) % queue_depth) n t v slots (omega arith) (omega arith) (omega arith) in
    rw (get_or-set_ne buf t p v 0 apart) (ap (λ (xs : List ℕ). get_or buf p 0 ∷ xs) rest)

-- A full ring of 255 threads refuses; otherwise the thread goes last.
pub ring_push_lem :
    (q : RingQueue) (thread : ℕ)
    → IsQueue q
    → ((ring_push q thread ≡ (q, false)) × (length (queued q) ≡ 255))
      ⊎ ((q' : RingQueue) × (ring_push q thread ≡ (q', true))
          × IsQueue q'
          × (queued q' ≡ queued q ++ thread ∷ []))
unfolding ring_push queued
ring_push_lem q thread v = elim (Bool-cases ((q.tail + 1) % queue_depth == q.head)) [
  | inl full ↦
      rw full (
        inl (refl, length-items q.buf q.head (size q) ∙ ground (arith, v.head_at, v.tail_at, full)))
  | inr room ↦
      let one_more : ((q.tail + 1) % queue_depth + queue_depth - q.head) % queue_depth
          ≡ suc (size q) =
        ground (arith, v.head_at, v.tail_at, room) in
      rw room (
        inr (
          record {
            buf = set q.buf q.tail thread;
            head = q.head;
            tail = (q.tail + 1) % queue_depth;
          },
          refl,
          record {
            slots = length-set q.buf q.tail thread ∙ v.slots;
            head_at = v.head_at;
            tail_at = omega arith;
          },
          ap (items (set q.buf q.tail thread) q.head) one_more
              ∙ items-set q.buf q.head (size q) q.tail thread v.slots v.head_at (omega arith)
                  (omega (arith, v.head_at, v.tail_at)),
        ))
]

-- An empty ring gives nothing; otherwise the first thread leaves.
pub ring_pop_lem :
    (q : RingQueue)
    → IsQueue q
    → ((ring_pop q ≡ (q, none)) × (queued q ≡ []))
      ⊎ ((q' : RingQueue) × (thread : ℕ) × (ring_pop q ≡ (q', some thread))
          × IsQueue q'
          × (queued q ≡ thread ∷ queued q'))
unfolding ring_pop queued items
ring_pop_lem q v = elim (Bool-cases (q.head == q.tail)) [
  | inl empty ↦
      let none_left : size q ≡ 0 = ground (arith, v.head_at, v.tail_at, empty) in
      rw empty (inl (refl, ap (items q.buf q.head) none_left))
  | inr some_left ↦
      let one_less : size q
          ≡ suc ((q.tail + queue_depth - (q.head + 1) % queue_depth) % queue_depth) =
        ground (arith, v.head_at, v.tail_at, some_left) in
      rw some_left (
        inr (
          record { buf = q.buf; head = (q.head + 1) % queue_depth; tail = q.tail },
          get_or q.buf q.head 0,
          refl,
          record { slots = v.slots; head_at = omega arith; tail_at = v.tail_at },
          ap (items q.buf q.head) one_less,
        ))
]
