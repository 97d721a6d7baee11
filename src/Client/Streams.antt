-- ===== src/Client/Streams.antt =====
-- src/client_events.cc, src/client_events_store.cc and src/client_queues_stream.cc: the client's calls
-- that open a stream; and the receiver of a queue with its `Close`.
use kubemq_cpp.Base.{ℕ, Bool, true, false, [], Bytes, bytes, if◌then◌else◌, Option, List}
use kubemq_cpp.Status.{ErrorCode, Status, StatusOr, value, failed, make_error, is_ok}
use kubemq_cpp.Message.Tags.{copy_tags}
use kubemq_cpp.Message.Content.{first_non_empty}
use kubemq_cpp.Message.EventStore.{EventStore}
use kubemq_cpp.Transport.Grpc.Streams
use kubemq_cpp.Transport.Grpc.Streams.{Open}
use kubemq_cpp.Handles.{Call, Handle, send, start_reader}
use kubemq_cpp.Downstream.{PollRequest, PollResponse, poll}
use kubemq_cpp.Client.{Client, check_closed}
use kubemq_cpp.Wire
use kubemq_cpp.Wire.{QueuesDownstreamRequest, QueuesDownstreamResponse, new_downstream_request}

-- A handle with the stream that it owns.
pub record Opened (S A : Type 0) : Type 0 where
  pub stream : S
  pub client_id : Bytes
  pub handle : Handle A

-- A receiver of queue messages
pub record Receiver (S : Type 0) : Type 0 where
  pub stream : S
  pub client_id : Bytes
  pub closed : Bool

-- The handle around a stream, its reader started.
unfoldable pub with_handle : {W S A : Type 0} → Bytes → W × StatusOr S → W × StatusOr (Opened S A)
with_handle client_id (w, failed s) = (w, failed s)
with_handle client_id (w, value stream) =
    (w, value record { stream = stream; client_id = client_id; handle = start_reader })

unfoldable pub with_receiver : {W S : Type 0} → Bytes → W × StatusOr S → W × StatusOr (Receiver S)
with_receiver client_id (w, failed s) = (w, failed s)
with_receiver client_id (w, value stream) =
    (w, value record { stream = stream; client_id = client_id; closed = false })

module _ {W C X S : Type 0} (c : Client W C X) where
  -- `SendEventStream` and, with other callbacks, `SendEventStoreStream`
  unfoldable pub send_event_stream : Open W Unit S → W → W × StatusOr (Opened S Wire.Event)
  send_event_stream stub w =
      let s = check_closed c in
      if is_ok s
      then with_handle c.opts.client_id (Streams.open_event_stream stub c.transport w)
      else (w, failed s)

  -- `QueueUpstream`
  unfoldable pub queue_upstream :
      Open W Unit S → W → W × StatusOr (Opened S Wire.QueuesUpstreamRequest)
  queue_upstream stub w =
      let s = check_closed c in
      if is_ok s
      then with_handle c.opts.client_id (Streams.open_queue_upstream stub c.transport w)
      else (w, failed s)

  unfoldable pub new_queue_downstream_receiver : Open W Unit S → W → W × StatusOr (Receiver S)
  new_queue_downstream_receiver stub w =
      let s = check_closed c in
      if is_ok s
      then with_receiver c.opts.client_id (Streams.open_queue_downstream stub c.transport w)
      else (w, failed s)

-- The event that `EventStoreStreamHandle::Send` writes.
unfoldable pub stream_event_store : Bytes → Bytes → EventStore → Wire.Event
stream_event_store uuid client_id e = record {
  event_id = first_non_empty e.id uuid;
  client_id = first_non_empty e.client_id client_id;
  channel = e.channel;
  metadata = e.metadata;
  body = e.body;
  store = true;
  tags = copy_tags e.tags;
}

-- `EventStoreStreamHandle::Send`
unfoldable pub send_stream_event_store :
    (List (Call Wire.Event) → Bool)
    → Bytes
    → Bytes
    → EventStore
    → Handle Wire.Event
    → Handle Wire.Event × Status
send_stream_event_store accepts uuid client_id e h =
    let failure = λ (code : ErrorCode) (message : Bytes).
      make_error code message (bytes "EventStoreStreamHandle::Send") e.channel [] in
    send accepts (failure ErrorCode.fatal (bytes "event store stream is closed"))
      (failure ErrorCode.transient (bytes "failed to write to event store stream"))
      (stream_event_store uuid client_id e) h

module _ {W S : Type 0} (write : S → QueuesDownstreamRequest → W → W × Bool)
    (read : S → W → W × Option QueuesDownstreamResponse) (writes_done : S → W → W) where
  -- `QueueDownstreamReceiver::Poll`
  unfoldable pub poll_receiver :
      (ℕ → Bytes) → Bytes → Receiver S → PollRequest → W → W × StatusOr PollResponse
  poll_receiver fresh uuid r request w =
      poll (write r.stream) (read r.stream) fresh uuid r.client_id r.closed request w

  -- `QueueDownstreamReceiver::Close`; the result of the write is not looked at.
  unfoldable pub close_receiver : Bytes → Receiver S → W → Receiver S × W
  close_receiver uuid r w =
      let (w', _) =
        write r.stream (record new_downstream_request { request_id = uuid; request_type = 10 }) w in
      if r.closed then (r, w) else (record r { closed = true }, writes_done r.stream w')

  unfoldable pub keep_or_close :
      Bytes → Receiver S → W × StatusOr PollResponse → W × StatusOr (PollResponse × Receiver S)
  keep_or_close uuid r (w, value p) = (w, value (p, r))
  keep_or_close uuid r (w, failed s) = ((close_receiver uuid r w).1, failed s)

  -- The end of `PollQueue`. A receiver that is not handed over is destroyed, and closed by its
  -- destructor.
  unfoldable pub poll_once :
      (ℕ → Bytes)
      → Bytes
      → Bytes
      → PollRequest
      → W × StatusOr (Receiver S)
      → W × StatusOr (PollResponse × Receiver S)
  poll_once fresh uuid close_uuid request (w, failed s) = (w, failed s)
  poll_once fresh uuid close_uuid request (w, value r) =
      keep_or_close close_uuid r (poll_receiver fresh uuid r request w)

  -- `PollQueue`; the answer keeps the receiver alive.
  unfoldable pub poll_queue :
      {C X : Type 0}
      → Client W C X
      → Open W Unit S
      → (ℕ → Bytes)
      → Bytes
      → Bytes
      → PollRequest
      → W
      → W × StatusOr (PollResponse × Receiver S)
  poll_queue c stub fresh uuid close_uuid request w =
      poll_once fresh uuid close_uuid request (new_queue_downstream_receiver c stub w)
