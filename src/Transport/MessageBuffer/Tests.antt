-- ===== src/Transport/MessageBuffer/Tests.antt =====
-- The buffer at work on a few messages.
use kubemq_cpp.Base.{ℕ, ◌+◌, ◌≡◌, refl, Bool, [], ◌∷◌, ltb, Bytes}
use kubemq_cpp.Base.Int.{pos}
use kubemq_cpp.Transport.MessageBuffer.{MessageBuffer, create, push, drain, discard}
use kubemq_cpp.Transport.MessageBuffer.Fifo
use kubemq_cpp.Transport.MessageBuffer.Invariant.{IsValid, contents, create-IsValid, push-IsValid}
use kubemq_cpp.Transport.MessageBuffer.Refine.{push_refines}
use kubemq_cpp.Transport.MessageBuffer.Drain.{drain_refines}

-- Three messages through a buffer of two: the first is forgotten.
abbrev full : MessageBuffer
full = (push (push (push (create (pos 2)) (1 ∷ [])).0 (2 ∷ [])).0 (3 ∷ [])).0

full-IsValid : IsValid full
full-IsValid =
    (push-IsValid (3 ∷ [])
      (push-IsValid (2 ∷ []) (push-IsValid (1 ∷ []) (create-IsValid (pos 2)).0).0).0).0

holds_the_last_two : contents full ≡ (2 ∷ []) ∷ (3 ∷ []) ∷ []
unfolding create push kubemq_cpp.Transport.MessageBuffer.effective_capacity
holds_the_last_two = refl

-- A sender that takes one message and no more; its state is the number taken.
abbrev one_only : ℕ → Bytes → ℕ × Bool
one_only s m = (s + 1, ltb s 1)

push_refines_example :
    (contents (push full (4 ∷ [])).0, (push full (4 ∷ [])).1)
    ≡ Fifo.push full.capacity (contents full) (4 ∷ [])
push_refines_example = push_refines (4 ∷ []) full-IsValid

drain_refines_example :
    let (s', b', n) = drain one_only 0 full in
    IsValid b' × ((s', contents b', n) ≡ Fifo.drain one_only 0 (contents full))
drain_refines_example = drain_refines one_only 0 full-IsValid
