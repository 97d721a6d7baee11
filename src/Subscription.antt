-- ===== src/Subscription.antt =====
-- src/internal/subscription_impl.h and the four `SubscribeTo...` of src/client_events.cc,
-- src/client_events_store.cc, src/client_commands.cc and src/client_queries.cc: the reader thread of a
-- subscription and `Cancel`. The reader and the other threads share `done` and the context of the
-- stream; each access is one action, and a history is a list of actions in the order in which they
-- happen. `deliver` says what a message from the stream is for the callback, if it is for it at all.
pub mod Setup
pub mod Admitted
pub mod Callback
pub mod Life
pub mod Ends
pub mod Delivery
pub mod Readers
pub mod Told
pub mod Waits
pub mod Alone
mod Tests
use kubemq_cpp.Base.{
  ℕ, ◌*◌, leb, Bool, true, false, Option, none, some, List, [], ◌∷◌, ◌++◌, if◌then◌else◌,
}

-- Where the reader is. A wait is in seconds.
pub data Phase : Type 0 where
  -- before the test of the outer loop
  top : Phase
  -- in the inner read loop
  reading : Phase
  -- after `Finish`, before the test of an intentional close
  ended : Phase
  -- before the test of the loop that reconnects
  retry : ℕ → Phase
  -- in `sleep_for`
  sleeping : ℕ → Phase
  -- after it, before the test
  woken : ℕ → Phase
  -- past the test: the stream is being opened again
  opening : ℕ → Phase
  -- after the loops
  leaving : Phase
  exited : Phase

-- What the threads share, and what has happened: `cancelled` is whether `TryCancel` was called on the
-- context of the present stream, `asked` whether a `Cancel` has run to its end, and `reported` whether
-- `on_error` was told that the subscription ended. The pointer to the context is not locked in the source;
-- here reading or writing it is one action.
pub record Shared (D : Type 0) : Type 0 where
  pub done : Bool
  pub cancelled : Bool
  pub asked : Bool
  pub client_closed : Bool
  pub reported : Bool
  pub delivered : List D

-- The actions: those of the reader, the two of `Cancel`, and `Close` of the client's transport.
pub data Action (E : Type 0) : Type 0 where
  test : Action E
  read : E → Action E
  stream_ends : Action E
  wake : Action E
  opened : Action E
  refused : Action E
  leave : Action E
  set_done : Action E
  try_cancel : Action E
  close_client : Action E

-- `std::min(backoff * 2, max_backoff)`
unfoldable pub next_backoff : ℕ → ℕ
next_backoff b = if leb (2 * b) 30 then 2 * b else 30

abbrev pub delivered_with : {D : Type 0} → Option D → List D → List D
delivered_with none ds = ds
delivered_with (some d) ds = ds ++ d ∷ []

-- A new subscription, its reader started.
abbrev pub started : {D : Type 0} → Shared D
started = record {
  done = false;
  cancelled = false;
  asked = false;
  client_closed = false;
  reported = false;
  delivered = [];
}

module _ {E D : Type 0} (deliver : E → Option D) where
  -- One action; `none` when it cannot happen here. A stream may give messages also when its context is
  -- cancelled, since `TryCancel` promises nothing; a closed transport opens none. `Cancel` sets `done`
  -- first.
  unfoldable pub step : Action E → Phase → Shared D → Option (Phase × Shared D)
  step test Phase.top v = some (if v.done then Phase.leaving else Phase.reading, v)
  step (read e) Phase.reading v =
      some (Phase.reading, record v { delivered = delivered_with (deliver e) v.delivered })
  step stream_ends Phase.reading v = some (Phase.ended, v)
  step test Phase.ended v = some (if v.done then Phase.leaving else Phase.retry 1, v)
  step test (Phase.retry b) v = some (if v.done then Phase.leaving else Phase.sleeping b, v)
  step wake (Phase.sleeping b) v = some (Phase.woken b, v)
  step test (Phase.woken b) v = some (if v.done then Phase.leaving else Phase.opening b, v)
  step opened (Phase.opening b) v =
      if v.client_closed then none else some (Phase.top, record v { cancelled = false })
  step refused (Phase.opening b) v = some (Phase.retry (next_backoff b), v)
  step leave Phase.leaving v =
      if v.done
      then some (Phase.exited, v)
      else some (Phase.exited, record v { done = true; reported = true })
  step set_done p v = some (p, record v { done = true })
  step try_cancel p v =
      if v.done then some (p, record v { cancelled = true; asked = true }) else none
  step close_client p v = some (p, record v { client_closed = true })
  step _ _ v = none

  -- A history from a state; `none` when an action of it cannot happen.
  unfoldable pub run : List (Action E) → Option (Phase × Shared D) → Option (Phase × Shared D)
  run [] s = s
  run (a ∷ rest) none = none
  run (a ∷ rest) (some (p, v)) = run rest (step a p v)
