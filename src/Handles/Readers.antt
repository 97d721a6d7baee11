-- ===== src/Handles/Readers.antt =====
-- The reader threads of the stream handles: `StartReader` of `EventStreamHandle::Impl` and
-- `EventStoreStreamHandle::Impl` in src/internal/stream_handle_impl.h and of
-- `QueueUpstreamHandle::Impl` in src/internal/queue_stream_impl.h, with the setters of the callbacks.
-- `callback_mu` makes each read with its call, each setter and the report at the end one step.
use kubemq_cpp.Base.{Option, none, some, List, [], ◌∷◌, Bytes, bytes, if◌then◌else◌}
use kubemq_cpp.Status.{Status}
use kubemq_cpp.Middleware.ErrorMapper.{GrpcStatus, grpc_ok, from_grpc_status}
use kubemq_cpp.Transport.Grpc.{EventStoreResult}
use kubemq_cpp.Convert.Queues.{QueueUpstreamResult, queue_upstream_response_from_proto}
use kubemq_cpp.Subscription.Callback.{Function, safe_invoke}
use kubemq_cpp.Wire
use kubemq_cpp.Wire.{Result}

-- The callbacks of a handle
pub record Callbacks (R P : Type 0) : Type 0 where
  pub on_result : Option (R → Function P)
  pub on_error : Option (Status → Function P)

-- What happens to a handle until its reader reports: `Read` gives a message, or a callback is set.
pub data Turn (M R P : Type 0) : Type 0 where
  got : M → Turn M R P
  set_on_result : Option (R → Function P) → Turn M R P
  set_on_error : Option (Status → Function P) → Turn M R P

module _ {R P : Type 0} where
  -- The call for one result, if there is a callback
  unfoldable pub hand_on : Bytes → Callbacks R P → R → P → P
  hand_on operation c r p = elim c.on_result [
    | none ↦ p
    | some f ↦ safe_invoke (f r) c.on_error operation p
  ]

  -- The reader's loop, with the calls of the setters between its reads.
  unfoldable pub read_loop :
      {M : Type 0} → (M → R) → Bytes → List (Turn M R P) → Callbacks R P → P → Callbacks R P × P
  read_loop from_proto operation [] c p = (c, p)
  read_loop from_proto operation (Turn.got m ∷ rest) c p =
      read_loop from_proto operation rest c (hand_on operation c (from_proto m) p)
  read_loop from_proto operation (Turn.set_on_result f ∷ rest) c p =
      read_loop from_proto operation rest (record c { on_result = f }) p
  read_loop from_proto operation (Turn.set_on_error f ∷ rest) c p =
      read_loop from_proto operation rest (record c { on_error = f }) p

-- The report of a stream that did not finish well.
unfoldable pub report_finish :
    {P : Type 0} → Bytes → GrpcStatus → Option (Status → Function P) → P → P
report_finish operation st on_error p = if grpc_ok st.error_code then p else elim on_error [
  | none ↦ p
  | some f ↦ safe_invoke (f (from_grpc_status st operation [] [])) none operation p
]

-- The whole of the thread: the loop, then the report of what `Finish` gave.
unfoldable pub read_stream :
    {M R P : Type 0}
    → (M → R)
    → Bytes
    → Bytes
    → List (Turn M R P)
    → GrpcStatus
    → Callbacks R P
    → P
    → P
read_stream from_proto on_result_name finish_name turns st c p =
    let (c', p') = read_loop from_proto on_result_name turns c p in
    report_finish finish_name st c'.on_error p'

-- What happens to an event stream: a result is read, or the callback is set.
pub data EventTurn (P : Type 0) : Type 0 where
  got : Result → EventTurn P
  set_on_error : Option (Status → Function P) → EventTurn P

-- `EventStreamHandle::Impl::StartReader`: the results are read and dropped.
unfoldable pub read_event_results :
    {P : Type 0} → List (EventTurn P) → GrpcStatus → Option (Status → Function P) → P → P
read_event_results [] st on_error p =
    report_finish (bytes "EventStreamHandle::Finish") st on_error p
read_event_results (EventTurn.got m ∷ rest) st on_error p = read_event_results rest st on_error p
read_event_results (EventTurn.set_on_error f ∷ rest) st on_error p = read_event_results rest st f p

-- The result of a stored event
unfoldable pub store_result : Result → EventStoreResult
store_result m = record { id = m.event_id; sent = m.sent; error = m.error }

-- `EventStoreStreamHandle::Impl::StartReader`
unfoldable pub read_store_results :
    {P : Type 0}
    → List (Turn Result EventStoreResult P)
    → GrpcStatus
    → Callbacks EventStoreResult P
    → P
    → P
read_store_results turns st c p =
    read_stream store_result (bytes "EventStoreStreamHandle::OnResult")
      (bytes "EventStoreStreamHandle::Finish") turns st c p

-- `QueueUpstreamHandle::Impl::StartReader`
unfoldable pub read_upstream_results :
    {P : Type 0}
    → List (Turn Wire.QueuesUpstreamResponse QueueUpstreamResult P)
    → GrpcStatus
    → Callbacks QueueUpstreamResult P
    → P
    → P
read_upstream_results turns st c p =
    read_stream queue_upstream_response_from_proto (bytes "QueueUpstreamHandle::OnResult")
      (bytes "QueueUpstreamHandle::Finish") turns st c p
