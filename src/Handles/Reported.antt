-- ===== src/Handles/Reported.antt =====
-- What the callbacks of a stream handle are told. The application notes each call; how each callback
-- ends is any function of what it is given.
use kubemq_cpp.Base.{◌⊎◌, inl, inr, Option, none, some, List, [], ◌∷◌, ◌++◌, Bytes, if◌then◌else◌}
use kubemq_cpp.Status.{Status}
use kubemq_cpp.Middleware.ErrorMapper.{GrpcStatus, grpc_ok, from_grpc_status}
use kubemq_cpp.Subscription.Callback.{Ending, Function, reported_as}
use kubemq_cpp.Handles.Readers.{Callbacks}

-- The calls, the first one first
abbrev pub Log : Type 0 → Type 0
Log R = List (R ⊎ Status)

abbrev pub note_result : {R : Type 0} → (R → Ending) → R → Function (Log R)
note_result answer r log = (log ++ inl r ∷ [], answer r)

abbrev pub note_error : {R : Type 0} → (Status → Ending) → Status → Function (Log R)
note_error answer s log = (log ++ inr s ∷ [], answer s)

-- A status as one call of `on_error`
abbrev pub errors : {R : Type 0} → Option Status → Log R
errors none = []
errors (some s) = inr s ∷ []

-- The calls for one result: `on_result`, and `on_error` if that throws.
unfoldable pub calls_for : {R : Type 0} → (R → Ending) → Bytes → R → Log R
calls_for answer operation r = inl r ∷ errors (reported_as operation (answer r))

-- The calls for the results in their order
unfoldable pub calls_for_all : {M R : Type 0} → (M → R) → (R → Ending) → Bytes → List M → Log R
calls_for_all from_proto answer operation [] = []
calls_for_all from_proto answer operation (m ∷ rest) =
    calls_for answer operation (from_proto m) ++ calls_for_all from_proto answer operation rest

-- The call for the end of the stream
unfoldable pub calls_at_end : {R : Type 0} → Bytes → GrpcStatus → Log R
calls_at_end operation st =
    if grpc_ok st.error_code then [] else inr (from_grpc_status st operation [] []) ∷ []

module _ {M R : Type 0} (from_proto : M → R) (answer : R → Ending) (answer_error : Status → Ending)
    (operation : Bytes) where
  -- Both callbacks set
  heard : Callbacks R (Log R)
  heard = record {
    on_result = some (note_result answer);
    on_error = some (note_error answer_error);
  }

  -- No callback for results
  unheard : Callbacks R (Log R)
  unheard = record { on_result = none; on_error = some (note_error answer_error) }
