-- ===== src/Transport/MessageBuffer/Discard.antt =====
-- `Discard` forgets every queued message and reports how many there were.
use kubemq_cpp.Base.{
  ℕ, zero, suc, ◌+◌, ◌%◌, ◌≤◌, ◌<◌, ◌≡◌, refl, ◌∙◌, List, [], ◌∷◌, Bytes, arith, length, get_or,
  set, length-set, get_or-set_self,
}
use native.Mathlib.Nat.{mod-lt, mod-eq_of_lt}
use native.Mathlib.Decide.{ℕ_discrete}
use kubemq_cpp.Transport.MessageBuffer.{MessageBuffer, clear_entries, discard}
use kubemq_cpp.Transport.MessageBuffer.Invariant.{IsValid, contents}

module _ (b : MessageBuffer) where
  length-clear_entries :
      (rounds i : ℕ) (buffer : List Bytes)
      → length (clear_entries rounds i b buffer) ≡ length buffer
  unfolding clear_entries
  length-clear_entries zero i buffer = refl
  length-clear_entries (suc rounds) i buffer =
      length-clear_entries rounds (i + 1) _ ∙ length-set buffer ((b.head + i) % b.capacity) []

  -- A write of the empty message keeps an empty place empty.
  set-empty :
      (buffer : List Bytes) (i j : ℕ) → get_or buffer j [] ≡ [] → get_or (set buffer i []) j [] ≡ []
  set-empty [] i j e = refl
  set-empty (x ∷ buffer) zero zero e = refl
  set-empty (x ∷ buffer) zero (suc j) e = e
  set-empty (x ∷ buffer) (suc i) zero e = e
  set-empty (x ∷ buffer) (suc i) (suc j) e = set-empty buffer i j e

  clear_entries-empty :
      (rounds i j : ℕ) (buffer : List Bytes)
      → get_or buffer j [] ≡ []
      → get_or (clear_entries rounds i b buffer) j [] ≡ []
  unfolding clear_entries
  clear_entries-empty zero i j buffer e = e
  clear_entries-empty (suc rounds) i j buffer e =
      clear_entries-empty rounds (i + 1) j _ (set-empty buffer ((b.head + i) % b.capacity) j e)

  clear_entries-clears :
      (rounds i k : ℕ) (buffer : List Bytes)
      → 0 < b.capacity
      → length buffer ≡ b.capacity
      → i ≤ k
      → k < i + rounds
      → get_or (clear_entries rounds i b buffer) ((b.head + k) % b.capacity) [] ≡ []
  unfolding clear_entries
  clear_entries-clears zero i k buffer pos e lo hi = absurd (omega arith)
  clear_entries-clears (suc rounds) i k buffer pos e lo hi = elim (ℕ_discrete i k) [
    | yes p ↦ clear_entries-empty rounds (i + 1) ((b.head + k) % b.capacity) _ (
        rw p (
          get_or-set_self buffer ((b.head + k) % b.capacity) [] []
            (omega (arith, mod-lt (b.head + k) pos))))
    | no p ↦
        clear_entries-clears rounds (i + 1) k _ pos
          (length-set buffer ((b.head + i) % b.capacity) [] ∙ e) (omega arith) (omega arith)
  ]

-- Discarding reports the number of queued messages, and leaves a valid empty buffer of the same
-- capacity in which the place of every former message is cleared.
pub discard_lem :
    {b : MessageBuffer}
    → IsValid b
    → let (b', discarded) = discard b in
      (discarded ≡ b.count)
      × IsValid b'
      × (contents b' ≡ [])
      × (b'.capacity ≡ b.capacity)
      × ((k : ℕ) → k < b.count → get_or b'.buffer ((b.head + k) % b.capacity) [] ≡ [])
unfolding discard
discard_lem {b} v = (
  refl,
  record {
    storage = length-clear_entries b b.count 0 b.buffer ∙ v.storage;
    head_in = omega arith;
    count_in = omega arith;
    tail_at = ground (arith, mod-eq_of_lt {n = 0} {m = b.capacity});
  },
  refl,
  refl,
  λ k lt.
      clear_entries-clears b b.count 0 k b.buffer (omega arith) v.storage (omega arith)
        (omega arith),
)
