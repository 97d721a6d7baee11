-- ===== src/Client.antt =====
-- src/client.cc, src/internal/client_impl.h and the sending methods of src/client_events.cc,
-- src/client_commands.cc and src/client_queues.cc. A context of a subscription is a value of `X`; it
-- is in the list while someone still holds it.
pub mod Sends
pub mod Streams
pub mod Create
pub mod Queues
pub mod Channels
pub mod Shortcuts
pub mod Admission
pub mod Sent
pub mod QuerySent
pub mod Life
mod Tests
use kubemq_cpp.Base.{
  Bool, true, false, not, ◌&&◌, Option, none, some, List, [], ◌∷◌, ◌++◌, Bytes, bytes, is_empty,
  if◌then◌else◌,
}
use kubemq_cpp.Base.Int.{ℤ, as_int32, is_pos}
use kubemq_cpp.Status.{
  ErrorCode, Status, StatusOr, value, failed, ok_status, make_error, is_ok, client_closed, and_then,
}
use kubemq_cpp.Options.{ClientOptions}
use kubemq_cpp.Validation.{validate_channel_no_wildcard, validate_body, validate_timeout}
use kubemq_cpp.Message.Tags.{copy_tags}
use kubemq_cpp.Message.Content.{first_non_empty}
use kubemq_cpp.Message.Event.{Event}
use kubemq_cpp.Message.Command.{Command}
use kubemq_cpp.Message.QueueMessage.{QueueMessage}
use kubemq_cpp.Convert.Requests.{CommandResponse, command_response_from_proto}
use kubemq_cpp.Convert.Queues.{
  QueueSendResult, queue_message_to_proto, queue_send_result_from_proto,
}
use kubemq_cpp.Transport.StateMachine.{ConnectionState}
use kubemq_cpp.Transport.Grpc
use kubemq_cpp.Transport.Grpc.{ChannelState, Rpc, Transport, default_rpc_timeout}
use kubemq_cpp.Wire
use kubemq_cpp.Wire.{RequestType, Result, Request, Response, SendQueueMessageResult, new_request}

-- `Client::Impl`
pub record Client (W C X : Type 0) : Type 0 where
  pub transport : Transport W C
  pub opts : ClientOptions
  pub closed : Bool
  pub active_contexts : List X

-- The conversion at the end of `SendCommand`; an error text of the server is an error.
unfoldable pub command_result : Bytes → Bytes → StatusOr Response → StatusOr CommandResponse
command_result channel request_id (failed s) = failed s
command_result channel request_id (value r) =
    if is_empty r.error
    then value (command_response_from_proto r)
    else failed (make_error ErrorCode.fatal r.error (bytes "SendCommand") channel request_id)

-- The conversion at the end of `SendQueueMessage`
unfoldable pub queue_result : Bytes → StatusOr SendQueueMessageResult → StatusOr QueueSendResult
queue_result channel (failed s) = failed s
queue_result channel (value p) =
    let r = queue_send_result_from_proto p in
    if r.is_error
    then failed (make_error ErrorCode.fatal r.error (bytes "SendQueueMessage") channel r.message_id)
    else value r

-- `SendCommand` replaces a timeout that is not above zero.
unfoldable pub effective_timeout : ℤ → ℤ
effective_timeout timeout = if is_pos timeout then timeout else default_rpc_timeout

module _ {W C X : Type 0} where
  -- `Impl::CheckClosed`
  unfoldable pub check_closed : Client W C X → Status
  check_closed c = if c.closed then client_closed else ok_status

  -- The steps before a message is sent, up to the first that fails.
  unfoldable pub admit : Client W C X → Bytes → Bytes → Bytes → Bytes → Status
  admit c channel metadata body operation = and_then (check_closed c) (
      and_then (validate_channel_no_wildcard channel operation)
        (validate_body body metadata operation))

  -- `uuid` is the identifier that is made for an event without one.
  unfoldable pub wire_event : Bytes → Client W C X → Event → Wire.Event
  wire_event uuid c e = record {
    event_id = first_non_empty e.id uuid;
    client_id = first_non_empty e.client_id c.opts.client_id;
    channel = first_non_empty e.channel c.opts.default_channel;
    metadata = e.metadata;
    body = e.body;
    store = false;
    tags = copy_tags e.tags;
  }

  -- `SendEvent`
  unfoldable pub send_event :
      Rpc W Wire.Event Result → Bytes → Client W C X → Event → W → W × Status
  send_event rpc uuid c e w =
      let channel = first_non_empty e.channel c.opts.default_channel in
      let s = admit c channel e.metadata e.body (bytes "SendEvent") in
      if is_ok s then Grpc.send_event rpc c.transport (wire_event uuid c e) w else (w, s)

  unfoldable pub wire_command : Bytes → Client W C X → Command → Request
  wire_command uuid c m = record new_request {
    request_id = first_non_empty m.id uuid;
    request_type = RequestType.command;
    client_id = first_non_empty m.client_id c.opts.client_id;
    channel = first_non_empty m.channel c.opts.default_channel;
    metadata = m.metadata;
    body = m.body;
    timeout = as_int32 (effective_timeout m.timeout);
    tags = copy_tags m.tags;
  }

  -- The steps of `SendCommand` before the request is made.
  unfoldable pub admit_command : Client W C X → Command → Status
  admit_command c m = and_then (check_closed c) (
      and_then
        (validate_channel_no_wildcard (first_non_empty m.channel c.opts.default_channel)
          (bytes "SendCommand"))
        (and_then (validate_timeout (effective_timeout m.timeout) (bytes "SendCommand"))
          (validate_body m.body m.metadata (bytes "SendCommand"))))

  -- `SendCommand`
  unfoldable pub send_command :
      Rpc W Request Response → Bytes → Client W C X → Command → W → W × StatusOr CommandResponse
  send_command rpc uuid c m w =
      let s = admit_command c m in
      let request = wire_command uuid c m in
      let (w', r) = Grpc.send_request rpc c.transport request w in
      if is_ok s then (w', command_result request.channel request.request_id r) else (w, failed s)

  unfoldable pub wire_queue_message : Client W C X → QueueMessage → Wire.QueueMessage
  wire_queue_message c m = record (queue_message_to_proto m c.opts.client_id) {
    channel = first_non_empty m.channel c.opts.default_channel;
  }

  -- `SendQueueMessage`
  unfoldable pub send_queue_message :
      Rpc W Wire.QueueMessage SendQueueMessageResult
      → Client W C X
      → QueueMessage
      → W
      → W × StatusOr QueueSendResult
  send_queue_message rpc c m w =
      let channel = first_non_empty m.channel c.opts.default_channel in
      let s = admit c channel m.metadata m.body (bytes "SendQueueMessage") in
      let (w', r) = Grpc.send_queue_message rpc c.transport (wire_queue_message c m) w in
      if is_ok s then (w', queue_result channel r) else (w, failed s)

  -- `TrackContext`
  unfoldable pub track_context : X → Client W C X → Client W C X
  track_context x c = record c { active_contexts = c.active_contexts ++ x ∷ [] }

  -- `Close`: the client afterwards, the contexts that were cancelled and the callbacks that ran. The
  -- body runs once; the result is OK.
  unfoldable pub close : Client W C X → Client W C X × List X × List C
  close c =
      let (transport, callbacks) = Grpc.close c.transport in
      if c.closed then (c, [], []) else (
        record c { closed = true; transport = transport; active_contexts = [] },
        c.active_contexts,
        callbacks,
      )

  -- `State`
  unfoldable pub state : Client W C X → Option ChannelState → ConnectionState
  state c channel = if c.closed then ConnectionState.closed else Grpc.state c.transport channel
