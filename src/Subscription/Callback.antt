-- ===== src/Subscription/Callback.antt =====
-- src/internal/callback_guard.h: `SafeInvoke`. A callback acts on a state of the application and either
-- returns or throws.
use kubemq_cpp.Base.{Option, none, some, [], ◌++◌, Bytes, bytes, List, ◌∷◌}
use kubemq_cpp.Status.{ErrorCode, Status, make_error}

-- How a callback ends: it returns, it throws a `std::exception` with a text, or it throws something else.
pub data Ending : Type 0 where
  returned : Ending
  threw : Bytes → Ending
  threw_unknown : Ending

abbrev pub Function : Type 0 → Type 0
Function P = P → P × Ending

-- The status that a throw is reported with, if it is one.
unfoldable pub reported_as : Bytes → Ending → Option Status
reported_as operation Ending.returned = none
reported_as operation (Ending.threw what) =
    some (make_error ErrorCode.fatal (bytes "callback threw: " ++ what) operation [] [])
reported_as operation Ending.threw_unknown =
    some (make_error ErrorCode.fatal (bytes "callback threw unknown exception") operation [] [])

module _ {P : Type 0} where
  -- What `on_error` throws is swallowed.
  unfoldable pub report : Option (Status → Function P) → Option Status → P → P
  report none s p = p
  report (some on_error) none p = p
  report (some on_error) (some s) p = (on_error s p).0

  -- `SafeInvoke`, which always returns
  unfoldable pub safe_invoke : Function P → Option (Status → Function P) → Bytes → P → P
  safe_invoke f on_error operation p =
      let (p', ending) = f p in report on_error (reported_as operation ending) p'

  -- A callback that is null is not called.
  unfoldable pub call_if : {A : Type 0} → Option (A → Function P) → A → Function P
  call_if none a p = (p, Ending.returned)
  call_if (some f) a p = f a p

  -- The calls of the callback for the messages of a subscription, in their order.
  unfoldable pub dispatch :
      {A : Type 0} → Option (A → Function P) → Option (Status → Function P) → Bytes → List A → P → P
  dispatch callback on_error operation [] p = p
  dispatch callback on_error operation (a ∷ rest) p =
      dispatch callback on_error operation rest
        (safe_invoke (call_if callback a) on_error operation p)
