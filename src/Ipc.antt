-- ===== src/Ipc.antt =====
-- crates/ipc/src/spsc.rs: a ring of `n` slots between one producer and one consumer, with the
-- loads and stores of the two as steps that interleave. `n` is a power of two.
pub mod Wrap
pub mod Order
pub mod Progress
mod Examples
use rumicos.Base.{
  ℕ, zero, suc, ◌+◌, ◌-◌, ◌%◌, ◌^◌, Bool, true, false, List, [], ◌∷◌, ◌++◌, Option, none, some,
  if◌then◌else◌, ◌==◌, bit_and, update,
}

pub record SpscRing {ℓ} (A : Type ℓ) : Type ℓ where
  pub head : ℕ
  pub tail : ℕ
  pub slots : ℕ → A

-- The slots of a new ring hold whatever the memory holds.
pub new_ring {ℓ} : {A : Type ℓ} → (ℕ → A) → SpscRing A
new_ring memory = record { head = 0; tail = 0; slots = memory }

-- Where a call of `push` stands: its value, with the head that it has loaded.
pub data Producer {ℓ} (A : Type ℓ) : Type ℓ where
  resting : Producer A
  loaded : A → ℕ → Producer A
  wrote : A → Producer A

-- Where a call of `pop` stands: the tail that it has loaded, or the value that it has read.
pub data Consumer {ℓ} (A : Type ℓ) : Type ℓ where
  waiting : Consumer A
  sees : ℕ → Consumer A
  holds : A → Consumer A

-- The ring and its two users, with the values that `push` has accepted and those that `pop` has
-- returned.
pub record Channel {ℓ} (A : Type ℓ) : Type ℓ where
  pub ring : SpscRing A
  pub producer : Producer A
  pub consumer : Consumer A
  pub accepted : List A
  pub delivered : List A

pub is_full : ℕ → ℕ → ℕ → Bool
is_full n tail head = (tail + 2 ^ 64 - head) % 2 ^ 64 == n

-- The next step of `push`; `value` is the argument of a new call.
pub push_step {ℓ} : {A : Type ℓ} → ℕ → A → Channel A → Producer A → Channel A
push_step n value c resting = record c { producer = loaded value c.ring.head }
push_step n value c (loaded v head) =
    let r = c.ring in
    let slots = update r.slots (bit_and r.tail (n - 1)) v in
    if is_full n r.tail head
    then record c { producer = resting }
    else record c { ring = record r { slots = slots }; producer = wrote v }
push_step n value c (wrote v) =
    let r = c.ring in
    record c {
      ring = record r { tail = (r.tail + 1) % 2 ^ 64 };
      producer = resting;
      accepted = c.accepted ++ (v ∷ []);
    }

-- The next step of `pop`.
pub pop_step {ℓ} : {A : Type ℓ} → ℕ → Channel A → Consumer A → Channel A
pop_step n c waiting = record c { consumer = sees c.ring.tail }
pop_step n c (sees tail) =
    let r = c.ring in
    if r.head == tail
    then record c { consumer = waiting }
    else record c { consumer = holds (r.slots (bit_and r.head (n - 1))) }
pop_step n c (holds v) =
    let r = c.ring in
    record c {
      ring = record r { head = (r.head + 1) % 2 ^ 64 };
      consumer = waiting;
      delivered = c.delivered ++ (v ∷ []);
    }

-- Whose turn it is.
pub data Turn {ℓ} (A : Type ℓ) : Type ℓ where
  produces : A → Turn A
  consumes : Turn A

pub step {ℓ} : {A : Type ℓ} → ℕ → Channel A → Turn A → Channel A
step n c (produces value) = push_step n value c c.producer
step n c consumes = pop_step n c c.consumer

pub run {ℓ} : {A : Type ℓ} → ℕ → Channel A → List (Turn A) → Channel A
run n c [] = c
run n c (t ∷ ts) = run n (step n c t) ts

pub start {ℓ} : {A : Type ℓ} → (ℕ → A) → Channel A
start memory = record {
  ring = new_ring memory;
  producer = resting;
  consumer = waiting;
  accepted = [];
  delivered = [];
}
