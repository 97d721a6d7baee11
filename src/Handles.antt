-- ===== src/Handles.antt =====
-- The stream handles for events and for queue messages: src/client_events.cc and
-- src/client_queues_stream.cc with their `Impl` in src/internal/stream_handle_impl.h and
-- src/internal/queue_stream_impl.h. `Send` and `Close` change the handle under `write_mu`, so each is
-- one step; the background reader is another party, whose last act is the step `reader_ends`; the
-- callbacks that it runs are in Handles/Readers. The
-- stream is what was called on it, the last call first; `accepts` is what a write returns, by the
-- calls before it.
pub mod Protocol
pub mod Life
pub mod Readers
pub mod Reported
mod Tests
use kubemq_cpp.Base.{Bool, true, false, List, [], ◌∷◌, Bytes, bytes, if◌then◌else◌}
use kubemq_cpp.Status.{ErrorCode, Status, ok_status, make_error}
use kubemq_cpp.Message.Tags.{copy_tags}
use kubemq_cpp.Message.Content.{first_non_empty}
use kubemq_cpp.Message.Event.{Event}
use kubemq_cpp.Message.QueueMessage.{QueueMessage}
use kubemq_cpp.Convert.Queues.{queue_upstream_request_to_proto}
use kubemq_cpp.Wire
use kubemq_cpp.Wire.{QueuesUpstreamRequest}

-- A call on the stream.
pub data Call (A : Type 0) : Type 0 where
  write : A → Call A
  writes_done : Call A

-- A handle whose stream is open; `joinable` says that its reader thread has not been joined.
pub record Handle (A : Type 0) : Type 0 where
  pub done : Bool
  pub joinable : Bool
  pub stream : List (Call A)

module _ {A : Type 0} where
  -- A new handle, its reader started.
  unfoldable pub start_reader : Handle A
  start_reader = record { done = false; joinable = true; stream = [] }

  -- The locked part of `Send`, with the two statuses that it can fail with.
  unfoldable pub send : (List (Call A) → Bool) → Status → Status → A → Handle A → Handle A × Status
  send accepts closed broken a h = if h.done then (h, closed) else (
    record h { stream = write a ∷ h.stream },
    if accepts h.stream then ok_status else broken,
  )

  -- `Close`: a handle that is done is left as it is; otherwise the reader is joined at the end.
  unfoldable pub close : Handle A → Handle A
  close h =
      if h.done
      then h
      else record { done = true; joinable = false; stream = writes_done ∷ h.stream }

  -- The reader stops when the server ends the stream.
  unfoldable pub reader_ends : Handle A → Handle A
  reader_ends h = record h { done = true }

  -- `Wait` joins the reader, and so returns after its end.
  unfoldable pub wait : Handle A → Handle A
  wait h = record h { done = true; joinable = false }

  -- The destructor closes the handle and destroys its members; destroying a thread that is joinable
  -- calls `std::terminate`, which is `true`.
  unfoldable pub destroy_terminates : Handle A → Bool
  destroy_terminates h = (close h).joinable

-- The event that `EventStreamHandle::Send` writes.
unfoldable pub stream_event : Bytes → Bytes → Event → Wire.Event
stream_event uuid client_id e = record {
  event_id = first_non_empty e.id uuid;
  client_id = first_non_empty e.client_id client_id;
  channel = e.channel;
  metadata = e.metadata;
  body = e.body;
  store = false;
  tags = copy_tags e.tags;
}

-- `EventStreamHandle::Send`
unfoldable pub send_stream_event :
    (List (Call Wire.Event) → Bool)
    → Bytes
    → Bytes
    → Event
    → Handle Wire.Event
    → Handle Wire.Event × Status
send_stream_event accepts uuid client_id e h =
    let failure = λ (code : ErrorCode) (message : Bytes).
      make_error code message (bytes "EventStreamHandle::Send") e.channel [] in
    send accepts (failure ErrorCode.fatal (bytes "event stream is closed"))
      (failure ErrorCode.transient (bytes "failed to write to event stream"))
      (stream_event uuid client_id e) h

-- `QueueUpstreamHandle::Send`
unfoldable pub send_upstream :
    (List (Call QueuesUpstreamRequest) → Bool)
    → Bytes
    → Bytes
    → Bytes
    → List QueueMessage
    → Handle QueuesUpstreamRequest
    → Handle QueuesUpstreamRequest × Status
send_upstream accepts uuid client_id request_id messages h =
    let failure = λ (code : ErrorCode) (message : Bytes).
      make_error code message (bytes "QueueUpstreamHandle::Send") [] [] in
    send accepts (failure ErrorCode.fatal (bytes "upstream stream is closed"))
      (failure ErrorCode.transient (bytes "failed to write to upstream stream"))
      (queue_upstream_request_to_proto (first_non_empty request_id uuid) messages client_id) h
