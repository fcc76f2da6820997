-- ===== src/Ipc/Order.antt =====
-- Under any interleaving, `pop` returns what `push` accepted, in order.
use rumicos.Base.{
  ℕ, ◌+◌, ◌-◌, ◌%◌, ◌^◌, ◌≤◌, ◌<◌, ◌≡◌, refl, sym, ap, subst, ◌∙◌, inl, inr, List, [], ◌∷◌, ◌++◌,
  append_assoc, some, arith, ltb, ◌==◌, Bool-cases, length, length-append, get_elem?,
  get_elem?-append, get_elem?-append_end, next_of, update_self, update_ne, bit_and,
}
use rumicos.Ipc.{
  Producer, resting, loaded, wrote, Consumer, waiting, sees, holds, Channel, is_full, push_step,
  pop_step, Turn, produces, consumes, step, run, start, new_ring,
}
use rumicos.Ipc.Wrap.{slot-ne, is_full_lem, slot_lem, small-lt}

module _ {ℓ} {A : Type ℓ} where
  -- What a call of `push` knows of the ends `h` and `t` of the ring.
  pub data KnowsRoom (n t h : ℕ) (slots : ℕ → A) : Producer A → Type ℓ where
    at_rest : KnowsRoom n t h slots resting
    has_loaded :
        {v : A} {head : ℕ} (past : ℕ)
        → past ≤ h
        → t ≤ past + n
        → head ≡ past % 2 ^ 64
        → KnowsRoom n t h slots (loaded v head)
    has_written : {v : A} → t < h + n → slots (t % n) ≡ v → KnowsRoom n t h slots (wrote v)

  -- What a call of `pop` knows.
  pub data KnowsNext (t h : ℕ) (accepted : List A) : Consumer A → Type ℓ where
    at_wait : KnowsNext t h accepted waiting
    has_seen :
        {tail : ℕ} (past : ℕ)
        → h ≤ past
        → past ≤ t
        → tail ≡ past % 2 ^ 64
        → KnowsNext t h accepted (sees tail)
    has_read : {v : A} → h < t → get_elem? accepted h ≡ some v → KnowsNext t h accepted (holds v)

  -- The ring holds what is accepted and not yet delivered, at the slots of its positions.
  pub record IsOrdered (n : ℕ) (c : Channel A) : Type ℓ where
    pub head_at : c.ring.head ≡ length c.delivered % 2 ^ 64
    pub tail_at : c.ring.tail ≡ length c.accepted % 2 ^ 64
    pub le : length c.delivered ≤ length c.accepted
    pub room : length c.accepted ≤ length c.delivered + n
    pub stored :
        (j : ℕ)
        → length c.delivered ≤ j
        → j < length c.accepted
        → get_elem? c.accepted j ≡ some (c.ring.slots (j % n))
    pub rest : List A
    pub order : c.delivered ++ rest ≡ c.accepted
    pub producer : KnowsRoom n (length c.accepted) (length c.delivered) c.ring.slots c.producer
    pub consumer : KnowsNext (length c.accepted) (length c.delivered) c.accepted c.consumer

  push_step-IsOrdered :
      (k : ℕ) (value : A) (c : Channel A) (p : Producer A)
      → k ≤ 63
      → IsOrdered (2 ^ k) c
      → KnowsRoom (2 ^ k) (length c.accepted) (length c.delivered) c.ring.slots p
      → IsOrdered (2 ^ k) (push_step (2 ^ k) value c p)
  unfolding push_step
  push_step-IsOrdered k value c resting few v at_rest = record {
    head_at = v.head_at;
    tail_at = v.tail_at;
    le = v.le;
    room = v.room;
    stored = v.stored;
    rest = v.rest;
    order = v.order;
    producer = has_loaded (length c.delivered) (omega arith) v.room v.head_at;
    consumer = v.consumer;
  }
  push_step-IsOrdered k value c (loaded x head) few v (has_loaded past before near at_past) =
      let small : 2 ^ k < 2 ^ 64 = small-lt k few in
      let test : is_full (2 ^ k) c.ring.tail head ≡ (length c.accepted == past + 2 ^ k) =
        rw (v.tail_at, at_past)
          (is_full_lem (2 ^ k) (length c.accepted) past (omega (arith, v.le, before)) near small) in
      elim (Bool-cases (length c.accepted == past + 2 ^ k)) [
        | inl full ↦
            rw (test, full)
              (record {
                head_at = v.head_at;
                tail_at = v.tail_at;
                le = v.le;
                room = v.room;
                stored = v.stored;
                rest = v.rest;
                order = v.order;
                producer = at_rest;
                consumer = v.consumer;
              })
        | inr free ↦
            let more : length c.accepted < past + 2 ^ k = ground (arith, near) in
            let slot : bit_and c.ring.tail (2 ^ k - 1) ≡ length c.accepted % 2 ^ k =
              ap (λ (t : ℕ). bit_and t (2 ^ k - 1)) v.tail_at
              ∙ slot_lem k (length c.accepted) few in
            rw (test, free, slot)
              (record {
                head_at = v.head_at;
                tail_at = v.tail_at;
                le = v.le;
                room = v.room;
                stored = λ j lo hi.
                    v.stored j lo hi
                    ∙ ap some (
                        sym (
                          update_ne c.ring.slots (length c.accepted % 2 ^ k) x (j % 2 ^ k) (λ e.
                            slot-ne (2 ^ k) j (length c.accepted) hi
                              (omega (arith, lo, more, before)) (sym e))));
                rest = v.rest;
                order = v.order;
                producer =
                    has_written (omega (arith, more, before))
                      (update_self c.ring.slots (length c.accepted % 2 ^ k) x);
                consumer = v.consumer;
              })
      ]
  push_step-IsOrdered k value c (wrote x) few v (has_written free here) =
      let t = length c.accepted in
      let longer : length (c.accepted ++ (x ∷ [])) ≡ t + 1 = length-append c.accepted (x ∷ []) in
      record {
        head_at = v.head_at;
        tail_at = omega (arith, longer, v.tail_at);
        le = omega (arith, longer, v.le);
        room = omega (arith, longer, free);
        stored = λ j lo hi. elim (Bool-cases (ltb j t)) [
          | inl old ↦
              get_elem?-append c.accepted (x ∷ []) j (ground arith) ∙ v.stored j lo (ground arith)
          | inr new ↦
              let same : t ≡ j = ground (arith, longer, hi) in
              subst
                (λ (i : ℕ). get_elem? (c.accepted ++ (x ∷ [])) i ≡ some (c.ring.slots (i % 2 ^ k)))
                same (get_elem?-append_end c.accepted x ∙ ap some (sym here))
        ];
        rest = v.rest ++ (x ∷ []);
        order =
            sym (append_assoc c.delivered v.rest (x ∷ []))
            ∙ ap (λ (xs : List A). xs ++ (x ∷ [])) v.order;
        producer = at_rest;
        consumer = later c.consumer v.consumer;
      }
    where
      later :
          (q : Consumer A)
          → KnowsNext (length c.accepted) (length c.delivered) c.accepted q
          → KnowsNext
              (length (c.accepted ++ (x ∷ [])))
              (length c.delivered)
              (c.accepted ++ (x ∷ []))
              q
      later waiting at_wait = at_wait
      later (sees tail) (has_seen past lo hi e) =
          has_seen past lo (omega (arith, hi, length-append c.accepted (x ∷ []))) e
      later (holds y) (has_read lt e) =
          has_read (omega (arith, lt, length-append c.accepted (x ∷ [])))
            (get_elem?-append c.accepted (x ∷ []) (length c.delivered) lt ∙ e)

  pop_step-IsOrdered :
      (k : ℕ) (c : Channel A) (q : Consumer A)
      → k ≤ 63
      → IsOrdered (2 ^ k) c
      → KnowsNext (length c.accepted) (length c.delivered) c.accepted q
      → IsOrdered (2 ^ k) (pop_step (2 ^ k) c q)
  unfolding pop_step
  pop_step-IsOrdered k c waiting few v at_wait = record {
    head_at = v.head_at;
    tail_at = v.tail_at;
    le = v.le;
    room = v.room;
    stored = v.stored;
    rest = v.rest;
    order = v.order;
    producer = v.producer;
    consumer = has_seen (length c.accepted) v.le (omega arith) v.tail_at;
  }
  pop_step-IsOrdered k c (sees tail) few v (has_seen past lo hi at_past) =
      elim (Bool-cases (c.ring.head == tail)) [
        | inl empty ↦ rw empty (record {
          head_at = v.head_at;
          tail_at = v.tail_at;
          le = v.le;
          room = v.room;
          stored = v.stored;
          rest = v.rest;
          order = v.order;
          producer = v.producer;
          consumer = at_wait;
        })
        | inr more ↦
            let h = length c.delivered in
            let left : h < length c.accepted = ground (arith, lo, hi, at_past, v.head_at) in
            let slot : bit_and c.ring.head (2 ^ k - 1) ≡ h % 2 ^ k =
              ap (λ (t : ℕ). bit_and t (2 ^ k - 1)) v.head_at ∙ slot_lem k h few in
            rw (more, slot)
              (record {
                head_at = v.head_at;
                tail_at = v.tail_at;
                le = v.le;
                room = v.room;
                stored = v.stored;
                rest = v.rest;
                order = v.order;
                producer = v.producer;
                consumer = has_read left (v.stored h (omega arith) left);
              })
      ]
  pop_step-IsOrdered k c (holds x) few v (has_read lt e) =
      let h = length c.delivered in
      let longer : length (c.delivered ++ (x ∷ [])) ≡ h + 1 = length-append c.delivered (x ∷ []) in
      let (rest, first) =
        next_of c.delivered v.rest x (ap (λ (xs : List A). get_elem? xs h) v.order ∙ e) in
      record {
        head_at = omega (arith, longer, v.head_at);
        tail_at = v.tail_at;
        le = omega (arith, longer, lt);
        room = omega (arith, longer, v.room);
        stored = λ j lo hi. v.stored j (omega (arith, lo, longer)) hi;
        rest = rest;
        order =
            append_assoc c.delivered (x ∷ []) rest
            ∙ ap (λ (xs : List A). c.delivered ++ xs) (sym first)
            ∙ v.order;
        producer = later c.producer v.producer;
        consumer = at_wait;
      }
    where
      later :
          (p : Producer A)
          → KnowsRoom (2 ^ k) (length c.accepted) (length c.delivered) c.ring.slots p
          → KnowsRoom (2 ^ k) (length c.accepted) (length (c.delivered ++ (x ∷ []))) c.ring.slots p
      later resting at_rest = at_rest
      later (loaded y head) (has_loaded past lo near e) =
          has_loaded past (omega (arith, lo, length-append c.delivered (x ∷ []))) near e
      later (wrote y) (has_written free here) =
          has_written (omega (arith, free, length-append c.delivered (x ∷ []))) here

  pub run-IsOrdered :
      (ts : List (Turn A)) (k : ℕ) (c : Channel A)
      → k ≤ 63
      → IsOrdered (2 ^ k) c
      → IsOrdered (2 ^ k) (run (2 ^ k) c ts)
  unfolding run step
  run-IsOrdered [] k c few v = v
  run-IsOrdered (produces x ∷ ts) k c few v =
      run-IsOrdered ts k (push_step (2 ^ k) x c c.producer) few
        (push_step-IsOrdered k x c c.producer few v v.producer)
  run-IsOrdered (consumes ∷ ts) k c few v =
      run-IsOrdered ts k (pop_step (2 ^ k) c c.consumer) few
        (pop_step-IsOrdered k c c.consumer few v v.consumer)

  pub start-IsOrdered : (k : ℕ) (memory : ℕ → A) → IsOrdered (2 ^ k) (start memory)
  unfolding start new_ring
  start-IsOrdered k memory = record {
    head_at = refl;
    tail_at = refl;
    le = omega arith;
    room = omega arith;
    stored = λ j lo hi. elim hi [ ];
    rest = [];
    order = refl;
    producer = at_rest;
    consumer = at_wait;
  }

-- However the steps of one producer and one consumer interleave, and as often as the counters wrap
-- around, the values that `pop` has returned are the first of those that `push` has accepted, in
-- order and each once, and at most as many more as the ring has slots are on their way.
pub run_fifo {ℓ} :
    {A : Type ℓ} (memory : ℕ → A) (k : ℕ) (ts : List (Turn A))
    → k ≤ 63
    → (rest : List A) × ((run (2 ^ k) (start memory) ts).delivered ++ rest
        ≡ (run (2 ^ k) (start memory) ts).accepted)
      × (length rest ≤ 2 ^ k)
run_fifo memory k ts few =
    let c = run (2 ^ k) (start memory) ts in
    let v = run-IsOrdered ts k (start memory) few (start-IsOrdered k memory) in
    (v.rest, v.order, omega (arith, v.room, ap length v.order, length-append c.delivered v.rest))
