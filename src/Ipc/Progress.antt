-- ===== src/Ipc/Progress.antt =====
-- A call that runs alone: `push` with a free slot accepts, `pop` of a ring with a value returns it.
use rumicos.Base.{
  ℕ, ◌+◌, ◌-◌, ◌%◌, ◌^◌, ◌≤◌, ◌<◌, ◌≡◌, refl, ap, ◌∙◌, false, [], ◌∷◌, ◌++◌, some, arith, ◌==◌,
  length, get_elem?, bit_and,
}
use rumicos.Ipc.{
  resting, waiting, Channel, is_full, push_step, pop_step, produces, consumes, step, run,
}
use rumicos.Ipc.Wrap.{is_full_lem, slot_lem, small-lt}
use rumicos.Ipc.Order.{IsOrdered}

-- In a channel in order, of at most 2 ^ 63 slots, a new call of `push` whose three steps are not
-- interrupted accepts its value while a slot is free.
pub push_accepts {ℓ} :
    {A : Type ℓ} (k : ℕ) (c : Channel A) (x y z : A)
    → k ≤ 63
    → IsOrdered (2 ^ k) c
    → c.producer ≡ resting
    → length c.accepted < length c.delivered + 2 ^ k
    → (run (2 ^ k) c (produces x ∷ produces y ∷ produces z ∷ [])).accepted ≡ c.accepted ++ (x ∷ [])
unfolding run step push_step
push_accepts k c x y z few v rests free =
    let same : is_full (2 ^ k) c.ring.tail c.ring.head
        ≡ (length c.accepted == length c.delivered + 2 ^ k) =
      rw (v.tail_at, v.head_at)
        (is_full_lem (2 ^ k) (length c.accepted) (length c.delivered) v.le v.room
          (small-lt k few)) in
    let test : (length c.accepted == length c.delivered + 2 ^ k) ≡ false = ground arith in
    rw (rests, same, test) refl

-- In a channel in order, of at most 2 ^ 63 slots, a new call of `pop` whose three steps are not
-- interrupted returns the oldest value, if there is one.
pub pop_delivers {ℓ} :
    {A : Type ℓ} (k : ℕ) (c : Channel A)
    → k ≤ 63
    → IsOrdered (2 ^ k) c
    → c.consumer ≡ waiting
    → length c.delivered < length c.accepted
    → (v : A) × (get_elem? c.accepted (length c.delivered) ≡ some v)
      × ((run (2 ^ k) c (consumes ∷ consumes ∷ consumes ∷ [])).delivered ≡ c.delivered ++ (v ∷ []))
unfolding run step pop_step
pop_delivers k c few v waits more =
    let h = length c.delivered in
    let small = small-lt k few in
    let test : (c.ring.head == c.ring.tail) ≡ false =
      ground (arith, v.head_at, v.tail_at, v.room) in
    let slot : bit_and c.ring.head (2 ^ k - 1) ≡ h % 2 ^ k =
      ap (λ (t : ℕ). bit_and t (2 ^ k - 1)) v.head_at ∙ slot_lem k h few in
    (c.ring.slots (h % 2 ^ k), v.stored h (omega arith) more, rw (waits, test, slot) refl)
