-- ===== src/Transport/MessageBuffer/Invariant.antt =====
-- The representation invariant of the ring, and the messages that it stands for.
use kubemq_cpp.Base.{
  ℕ, zero, suc, ◌+◌, ◌-◌, ◌%◌, ◌≤◌, ◌<◌, ◌≡◌, refl, ap, sym, ◌∙◌, inl, inr, true, false, List, [],
  ◌∷◌, ◌++◌, Bytes, arith, length, get_or, set, length-set, length-append, length-replicate,
  Bool-cases, ltb, ◌==◌, if◌then◌else◌,
}
use native.Mathlib.Nat.{mod-eq_of_lt, mod-eq-sub-mod, mod-add-mod, mod-lt}
use native.Mathlib.Decide.{dec_lt}
use kubemq_cpp.Base.Int.{ℤ}
use kubemq_cpp.Transport.MessageBuffer.{MessageBuffer, effective_capacity, create, push, drop_head}

pub record IsValid (b : MessageBuffer) : Type 0 where
  pub storage : length b.buffer ≡ b.capacity
  pub head_in : b.head < b.capacity
  pub count_in : b.count ≤ b.capacity
  pub tail_at : b.tail ≡ (b.head + b.count) % b.capacity

-- An index less than twice the capacity is reduced by one subtraction.
pub mod-wrap : (x c : ℕ) → x < c + c → x % c ≡ (if ltb x c then x else x - c)
mod-wrap x c h = elim (dec_lt x c) [
  | yes p ↦ ground (arith, mod-eq_of_lt p)
  | no p ↦ ground (
    arith,
    mod-eq-sub-mod {n = x} {m = c} (omega arith),
    mod-eq_of_lt {n = x - c} {m = c} (omega arith),
  )
]

module _ (buffer : List Bytes) (c : ℕ) where
  -- The `n` messages from index `h` on, round the ring.
  abbrev pub entries : ℕ → ℕ → List Bytes
  entries h zero = []
  entries h (suc n) = entries h n ++ get_or buffer ((h + n) % c) [] ∷ []

-- The messages in the buffer, oldest first.
abbrev pub contents : MessageBuffer → List Bytes
contents b = entries b.buffer b.capacity b.head b.count

pub length-entries : (buffer : List Bytes) (c h n : ℕ) → length (entries buffer c h n) ≡ n
length-entries buffer c h zero = refl
length-entries buffer c h (suc n) = omega (
  arith,
  length-entries buffer c h n,
  length-append (entries buffer c h n) (get_or buffer ((h + n) % c) [] ∷ []),
)

-- The constructor makes an empty buffer of positive capacity that satisfies the invariant.
pub create-IsValid :
    (capacity : ℤ)
    → IsValid (create capacity)
      × (contents (create capacity) ≡ [])
      × (0 < (create capacity).capacity)
unfolding create effective_capacity
create-IsValid capacity = (
  record {
    storage = length-replicate (effective_capacity capacity) [];
    head_in = ground arith;
    count_in = omega arith;
    tail_at = ground (arith, mod-eq_of_lt {n = 0} {m = effective_capacity capacity});
  },
  refl,
  ground arith,
)

-- The index after one that is reduced: reduce once at the end.
pub add-mod_left : (x y z c : ℕ) → x + y ≡ z → (x % c + y) % c ≡ z % c
add-mod_left x y z c e = mod-add-mod x c y ∙ ap (λ k. k % c) e

-- What `Push` does below the capacity, and at it.
pub push_room :
    (b : MessageBuffer) (message : Bytes)
    → (b.count == b.capacity) ≡ false
    → push b message ≡ (
      record b {
        buffer = set b.buffer b.tail message;
        tail = (b.tail + 1) % b.capacity;
        count = b.count + 1;
      },
      0,
    )
unfolding push
push_room b message h = rw h

pub push_full :
    (b : MessageBuffer) (message : Bytes)
    → (b.count == b.capacity) ≡ true
    → push b message ≡ (
      record b {
        buffer = set b.buffer b.tail message;
        head = (b.head + 1) % b.capacity;
        tail = (b.tail + 1) % b.capacity;
      },
      1,
    )
unfolding push
push_full b message h = rw h

-- `Push` keeps the invariant and the capacity.
pub push-IsValid :
    {b : MessageBuffer} (message : Bytes)
    → IsValid b
    → IsValid (push b message).0 × ((push b message).0.capacity ≡ b.capacity)
push-IsValid {b} message v = elim (Bool-cases (b.count == b.capacity)) [
  | inl full ↦ rw (push_full b message full) (
    record {
      storage = stored;
      head_in = mod-lt (b.head + 1) (omega arith);
      count_in = v.count_in;
      tail_at = next ∙ sym (add-mod_left (b.head + 1) b.count _ b.capacity (omega arith));
    },
    refl,
  )
  | inr room ↦ rw (push_room b message room) (
    record {
      storage = stored;
      head_in = v.head_in;
      count_in = ground arith;
      tail_at = next ∙ ap (λ k. k % b.capacity) (omega arith);
    },
    refl,
  )
]
  where
    stored : length (set b.buffer b.tail message) ≡ b.capacity
    stored = length-set b.buffer b.tail message ∙ v.storage

    next : (b.tail + 1) % b.capacity ≡ (b.head + b.count + 1) % b.capacity
    next = rw v.tail_at (mod-add-mod (b.head + b.count) b.capacity 1)

-- A round of `Drain` keeps the invariant.
pub drop_head-IsValid : {b : MessageBuffer} → IsValid b → 0 < b.count → IsValid (drop_head b)
unfolding drop_head
drop_head-IsValid {b} v h = record {
  storage = length-set b.buffer b.head [] ∙ v.storage;
  head_in = mod-lt (b.head + 1) (omega arith);
  count_in = omega arith;
  tail_at = v.tail_at ∙ sym (add-mod_left (b.head + 1) (b.count - 1) _ b.capacity (omega arith));
}
