-- ===== src/Transport/MessageBuffer.antt =====
-- src/internal/transport/message_buffer.cc: the ring of messages kept while the connection is down.
-- Every method holds `mu_` for its whole body, so each is one step. An index is an `int` that the
-- invariant of `MessageBuffer.Invariant` keeps between 0 and `capacity_`; here it is a number.
pub mod Fifo
pub mod Invariant
pub mod Refine
pub mod Drain
pub mod Discard
mod Tests
use kubemq_cpp.Base.{
  ℕ, zero, suc, ◌+◌, ◌-◌, ◌%◌, Bool, true, false, List, [], Bytes, get_or, set, replicate, ltb,
  ◌==◌, if◌then◌else◌,
}
use kubemq_cpp.Base.Int.{ℤ, is_pos, pos_part}

pub record MessageBuffer : Type 0 where
  pub buffer : List Bytes
  pub head : ℕ
  pub tail : ℕ
  pub count : ℕ
  pub capacity : ℕ

-- `capacity > 0 ? capacity : 1`
unfoldable pub effective_capacity : ℤ → ℕ
effective_capacity capacity = if is_pos capacity then pos_part capacity else 1

-- `MessageBuffer(int capacity)`
unfoldable pub create : ℤ → MessageBuffer
create capacity = record {
  buffer = replicate (effective_capacity capacity) [];
  head = 0;
  tail = 0;
  count = 0;
  capacity = effective_capacity capacity;
}

-- The eviction test of `Push`: the new head, the new count and the number of evicted messages.
make_room : MessageBuffer → ℕ × ℕ × ℕ
make_room b =
    if b.count == b.capacity
    then ((b.head + 1) % b.capacity, b.count, 1)
    else (b.head, b.count + 1, 0)

-- `Push`: the buffer afterwards, and the number of evicted messages.
unfoldable pub push : MessageBuffer → Bytes → MessageBuffer × ℕ
unfolding make_room
push b message =
    let (head, count, evicted) = make_room b in
    (
      record b {
        buffer = set b.buffer b.tail message;
        head = head;
        tail = (b.tail + 1) % b.capacity;
        count = count;
      },
      evicted,
    )

-- One round of the loop of `Drain` after the sender has taken the message at the head.
unfoldable pub drop_head : MessageBuffer → MessageBuffer
drop_head b = record b {
  buffer = set b.buffer b.head [];
  head = (b.head + 1) % b.capacity;
  count = b.count - 1;
}

module _ {ℓ} {S : Type ℓ} (sender : S → Bytes → S × Bool) where
  -- The loop of `Drain` on fuel. `S` is what the sender keeps; its flag is whether to go on.
  unfoldable pub drain_loop : ℕ → S → MessageBuffer → ℕ → S × MessageBuffer × ℕ
  drain_loop zero s b drained = (s, b, drained)
  drain_loop (suc fuel) s b drained =
      let (s', go_on) = sender s (get_or b.buffer b.head []) in
      let rest = drain_loop fuel s' (drop_head b) (drained + 1) in
      if ltb 0 b.count
      then (if go_on then rest else (s', drop_head b, drained + 1))
      else (s, b, drained)

  -- `Drain`: a round takes one message, so the count is fuel enough.
  unfoldable pub drain : S → MessageBuffer → S × MessageBuffer × ℕ
  drain s b = drain_loop b.count s b 0

-- `for (int i = 0; i < count_; ++i) buffer_[(head_ + i) % capacity_].clear()`: the rounds left, and `i`.
unfoldable pub clear_entries : ℕ → ℕ → MessageBuffer → List Bytes → List Bytes
clear_entries zero i b buffer = buffer
clear_entries (suc rounds) i b buffer =
    clear_entries rounds (i + 1) b (set buffer ((b.head + i) % b.capacity) [])

-- `Discard`: the buffer afterwards, and the number of discarded messages.
unfoldable pub discard : MessageBuffer → MessageBuffer × ℕ
discard b = (
  record b { buffer = clear_entries b.count 0 b b.buffer; head = 0; tail = 0; count = 0 },
  b.count,
)

-- `Empty`
unfoldable pub empty : MessageBuffer → Bool
empty b = b.count == 0
