-- ===== src/RunQueue/Steal.antt =====
-- `steal_into` moves threads from one run queue to another and loses none.
use rumicos.Base.{
  ℕ, zero, suc, ◌+◌, ◌≤◌, ◌<◌, ◌≡◌, refl, sym, ap, ◌∙◌, inl, inr, min, List, [], ◌∷◌, ◌++◌, none,
  some, arith, ◌⊎◌, if◌then◌else◌, ◌==◌, ==-refl, length, get_or, Option-cases,
}
use rumicos.RunQueue.{RingQueue, MlfqQueue, pop, steal_into}
use rumicos.RunQueue.Ring.{length-queued}
use rumicos.RunQueue.Levels.{
  queues, AreQueues, IsMlfq, pop_first, append_at, push_lem, pop_lem, length-queues,
  pop_first-waiting, waiting, waiting-append_at,
}

-- How often a thread waits.
abbrev pub occurs : ℕ → List ℕ → ℕ
occurs t [] = 0
occurs t (x ∷ xs) = (if x == t then 1 else 0) + occurs t xs

abbrev pub occurrences : ℕ → List (List ℕ) → ℕ
occurrences t [] = 0
occurrences t (q ∷ qs) = occurs t q + occurrences t qs

pub occurs-append :
    (t x : ℕ) (xs : List ℕ) → occurs t (xs ++ x ∷ []) ≡ occurs t xs + (if x == t then 1 else 0)
occurs-append t x [] = omega arith
occurs-append t x (y ∷ xs) = omega (arith, occurs-append t x xs)

pub occurrences-append_at :
    (t x : ℕ) (qs : List (List ℕ)) (l : ℕ)
    → l < length qs
    → occurrences t (append_at qs l x) ≡ occurrences t qs + (if x == t then 1 else 0)
occurrences-append_at t x [] l h = elim h [ ]
occurrences-append_at t x (q ∷ qs) zero h = omega (arith, occurs-append t x q)
occurrences-append_at t x (q ∷ qs) (suc l) h =
    omega (arith, occurrences-append_at t x qs l (omega arith))

occurrences-pop_first :
    (t x : ℕ) (qs : List (List ℕ))
    → (pop_first qs).1 ≡ some x
    → occurrences t qs ≡ occurrences t (pop_first qs).0 + (if x == t then 1 else 0)
occurrences-pop_first t x [] h = cc
occurrences-pop_first t x ([] ∷ qs) h = omega (arith, occurrences-pop_first t x qs h)
occurrences-pop_first t x ((y ∷ ys) ∷ qs) h = ground arith

-- Every waiting thread waits at its priority or at a lower one, which has a higher number.
abbrev pub SettledAt : (ℕ → ℕ) → ℕ → List ℕ → Type 0
SettledAt priority l [] = Unit {0}
SettledAt priority l (t ∷ ts) = (min (priority t) 7 ≤ l) × SettledAt priority l ts

abbrev pub Settled : (ℕ → ℕ) → ℕ → List (List ℕ) → Type 0
Settled priority l [] = Unit {0}
Settled priority l (q ∷ qs) = SettledAt priority l q × Settled priority (suc l) qs

pop_first-Settled :
    (priority : ℕ → ℕ) (l : ℕ) (qs : List (List ℕ))
    → Settled priority l qs
    → Settled priority l (pop_first qs).0
pop_first-Settled priority l [] s = tt
pop_first-Settled priority l ([] ∷ qs) s = (tt, pop_first-Settled priority (suc l) qs s.1)
pop_first-Settled priority l ((x ∷ xs) ∷ qs) s = (s.0.1, s.1)

abbrev Fits : List (List ℕ) → Type 0
Fits [] = Unit {0}
Fits (q ∷ qs) = (length q ≤ 255) × Fits qs

AreQueues-Fits : (rs : List RingQueue) → AreQueues rs → Fits (queues rs)
AreQueues-Fits [] v = tt
AreQueues-Fits (r ∷ rs) v =
    (omega (arith, length-queued r, v.0.head_at, v.0.tail_at), AreQueues-Fits rs v.1)

-- The level to which a thread just taken would go back has room.
pop_first-room :
    (priority : ℕ → ℕ) (x : ℕ) (l k : ℕ) (qs : List (List ℕ))
    → Settled priority l qs
    → Fits qs
    → (pop_first qs).1 ≡ some x
    → l + k ≡ min (priority x) 7
    → length (get_or (pop_first qs).0 k []) < 255
pop_first-room priority x l k [] s f h e = cc
pop_first-room priority x l zero ([] ∷ qs) s f h e = omega arith
pop_first-room priority x l (suc k) ([] ∷ qs) s f h e =
    pop_first-room priority x (suc l) k qs s.1 f.1 h (omega (arith, e))
pop_first-room priority x l zero ((y ∷ ys) ∷ qs) s f h e = omega (arith, f.0)
pop_first-room priority x l (suc k) ((y ∷ ys) ∷ qs) s f h e =
    let same : y ≡ x = ground arith in
    let at : min (priority y) 7 ≡ min (priority x) 7 = ap (λ (t : ℕ). min (priority t) 7) same in
    absurd (omega (arith, s.0.0, at, e))

-- Two queues after a steal of up to `n` threads.
pub record Stolen (priority : ℕ → ℕ) (src dst : MlfqQueue) (n : ℕ) (out : MlfqQueue × MlfqQueue × ℕ)
    : Type 0 where
  pub src_queue : IsMlfq out.0
  pub dst_queue : IsMlfq out.1
  pub at_most : out.2 ≤ n
  pub departed : waiting (queues src.levels) ≡ waiting (queues out.0.levels) + out.2
  pub arrived : waiting (queues out.1.levels) ≡ waiting (queues dst.levels) + out.2
  pub stops :
      out.2 < n
      → (waiting (queues out.0.levels) ≡ 0)
        ⊎ ((x : ℕ) × (0 < occurrences x (queues out.0.levels))
            × (length (get_or (queues out.1.levels) (min (priority x) 7) []) ≡ 255))
  pub kept :
      (t : ℕ)
      → occurrences t (queues out.0.levels) + occurrences t (queues out.1.levels)
        ≡ occurrences t (queues src.levels) + occurrences t (queues dst.levels)

-- `pop`, as the steal uses it.
record Popped (priority : ℕ → ℕ) (src : MlfqQueue) (x : ℕ) (src' : MlfqQueue) : Type 0 where
  pub queue : IsMlfq src'
  pub settled : Settled priority 0 (queues src'.levels)
  pub room : length (get_or (queues src'.levels) (min (priority x) 7) []) < 255
  pub one_fewer : waiting (queues src.levels) ≡ suc (waiting (queues src'.levels))
  pub fewer :
      (t : ℕ)
      → occurrences t (queues src.levels)
        ≡ occurrences t (queues src'.levels) + (if x == t then 1 else 0)

pop-Popped :
    (priority : ℕ → ℕ) (src : MlfqQueue) (x : ℕ)
    → IsMlfq src
    → Settled priority 0 (queues src.levels)
    → (pop src).1 ≡ some x
    → Popped priority src x (pop src).0
pop-Popped priority src x v s e =
    let p = pop_lem src v in
    let taken : (pop_first (queues src.levels)).1 ≡ some x = sym p.2 ∙ e in
    record {
      queue = p.0;
      settled = rw p.1 (pop_first-Settled priority 0 (queues src.levels) s);
      room = rw p.1 (
          pop_first-room priority x 0 (min (priority x) 7) (queues src.levels) s
            (AreQueues-Fits src.levels v.rings) taken (omega arith));
      one_fewer = rw p.1 (elim (pop_first-waiting (queues src.levels)) [
        | inl (nothing, _) ↦ absurd (ground (arith, taken, nothing))
        | inr (_, _, fewer) ↦ fewer
      ]);
      fewer = λ t. rw p.1 (occurrences-pop_first t x (queues src.levels) taken);
    }

-- A queue that has taken a thread.
pushed-occurrences :
    (t x l : ℕ) (q : MlfqQueue) (qs : List (List ℕ))
    → IsMlfq q
    → l < 8
    → qs ≡ append_at (queues q.levels) l x
    → occurrences t qs ≡ occurrences t (queues q.levels) + (if x == t then 1 else 0)
pushed-occurrences t x l q qs v h e =
    ap (occurrences t) e
    ∙ occurrences-append_at t x (queues q.levels) l
        (omega (arith, length-queues q.levels, v.levels_are))

-- One more thread waits in it.
pushed-waiting :
    (x l : ℕ) (q q' : MlfqQueue)
    → IsMlfq q
    → l < 8
    → queues q'.levels ≡ append_at (queues q.levels) l x
    → waiting (queues q'.levels) ≡ suc (waiting (queues q.levels))
pushed-waiting x l q q' v h e =
    ap waiting e
    ∙ waiting-append_at (queues q.levels) l x (omega (arith, length-queues q.levels, v.levels_are))

none-waiting : (qs : List (List ℕ)) → (pop_first qs).1 ≡ none → waiting qs ≡ 0
none-waiting [] e = refl
none-waiting ([] ∷ qs) e = omega (arith, none-waiting qs e)
none-waiting ((x ∷ xs) ∷ qs) e = cc

none_popped :
    (src : MlfqQueue)
    → IsMlfq src
    → (pop src).1 ≡ none
    → IsMlfq (pop src).0
      × (queues (pop src).0.levels ≡ queues src.levels)
      × (waiting (queues src.levels) ≡ 0)
none_popped src v e =
    let p = pop_lem src v in
    elim (pop_first-waiting (queues src.levels)) [
      | inl (nothing, same) ↦ (p.0, p.1 ∙ same, none-waiting (queues src.levels) nothing)
      | inr (x, some_x, _) ↦ absurd (ground (arith, p.2, e, some_x))
    ]

one_at : (x : ℕ) → ◌≡◌ {A = ℕ} (if x == x then 1 else 0) 1
one_at x = rw (==-refl x) refl

-- With every thread of the source at or below its priority, a steal keeps both queues well formed
-- and returns how many threads it has moved, at most `n`: so many fewer wait in the source and so
-- many more in the destination. When they are fewer than `n`, the source is empty, or the
-- destination has no room at the level of a thread that still waits in the source. Every thread
-- waits in the two queues together as often as before: none is lost.
pub steal_into-Stolen :
    (priority : ℕ → ℕ) (n : ℕ) (src dst : MlfqQueue)
    → IsMlfq src
    → IsMlfq dst
    → Settled priority 0 (queues src.levels)
    → Stolen priority src dst n (steal_into priority src dst n)
unfolding steal_into
steal_into-Stolen priority zero src dst v w s = record {
  src_queue = v;
  dst_queue = w;
  at_most = omega arith;
  departed = omega arith;
  arrived = omega arith;
  stops = λ h. absurd (omega (arith, h));
  kept = λ t. refl;
}
steal_into-Stolen priority (suc n) src dst v w s = elim (Option-cases (pop src).1) [
  | inl e ↦
      let (queue, same, nobody) = none_popped src v e in
      rw (steal_into, e)
        (record {
          src_queue = queue;
          dst_queue = w;
          at_most = omega arith;
          departed = omega (arith, ap waiting same);
          arrived = omega arith;
          stops = λ h. inl (ap waiting same ∙ nobody);
          kept = λ t.
              ap (λ (qs : List (List ℕ)). occurrences t qs + occurrences t (queues dst.levels))
                same;
        })
  | inr (x, e) ↦
      let p = pop-Popped priority src x v s e in
      let l = min (priority x) 7 in
      elim (push_lem dst x (priority x) w) [
        | inl (refused, many) ↦ elim (push_lem (pop src).0 x (priority x) p.queue) [
          | inl (_, crowded) ↦ absurd (omega (arith, p.room, crowded))
          | inr (src', back, v', last) ↦
              rw (steal_into, e, refused, back)
                (record {
                  src_queue = v';
                  dst_queue = w;
                  at_most = omega arith;
                  departed = omega (
                    arith,
                    p.one_fewer,
                    pushed-waiting x l (pop src).0 src' p.queue (omega arith) last,
                  );
                  arrived = omega arith;
                  stops = λ h. inr (
                    x,
                    omega (
                      arith,
                      pushed-occurrences x x l (pop src).0 _ p.queue (omega arith) last,
                      one_at x,
                    ),
                    many,
                  );
                  kept = λ t. omega (
                    arith,
                    p.fewer t,
                    pushed-occurrences t x l (pop src).0 _ p.queue (omega arith) last,
                  );
                })
        ]
        | inr (dst', taken, w', last) ↦
            let rest = steal_into-Stolen priority n (pop src).0 dst' p.queue w' p.settled in
            rw (steal_into, e, taken)
              (record {
                src_queue = rest.src_queue;
                dst_queue = rest.dst_queue;
                at_most = omega (arith, rest.at_most);
                departed = omega (arith, p.one_fewer, rest.departed);
                arrived =
                    omega (arith, rest.arrived, pushed-waiting x l dst dst' w (omega arith) last);
                stops = λ h. rest.stops (omega (arith, h));
                kept = λ t. omega (
                  arith,
                  p.fewer t,
                  rest.kept t,
                  pushed-occurrences t x l dst _ w (omega arith) last,
                );
              })
      ]
]
