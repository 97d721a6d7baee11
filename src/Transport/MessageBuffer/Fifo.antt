-- ===== src/Transport/MessageBuffer/Fifo.antt =====
-- What the buffer promises: a queue of at most `capacity` messages, oldest first, that makes room
-- by forgetting its oldest message.
use kubemq_cpp.Base.{ℕ, suc, Bool, List, [], ◌∷◌, ◌++◌, Bytes, length, ◌==◌, if◌then◌else◌}

abbrev pub Fifo : Type 0
Fifo = List Bytes

unfoldable pub tail : Fifo → Fifo
tail [] = []
tail (x ∷ q) = q

-- The queue with the message at its end, and the number of forgotten messages.
unfoldable pub push : ℕ → Fifo → Bytes → Fifo × ℕ
push capacity q message =
    if length q == capacity then (tail q ++ message ∷ [], 1) else (q ++ message ∷ [], 0)

-- Messages go to the sender in order, up to and with the first that it answers by false.
unfoldable pub drain {ℓ} : {S : Type ℓ} → (S → Bytes → S × Bool) → S → Fifo → S × Fifo × ℕ
drain sender s [] = (s, [], 0)
drain sender s (x ∷ q) =
    let (s', go_on) = sender s x in
    let (s'', left, n) = drain sender s' q in if go_on then (s'', left, suc n) else (s', q, 1)
