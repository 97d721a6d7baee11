-- ===== src/Client/Queues.antt =====
-- src/client_queues.cc: the unary calls on several queue messages.
pub mod Batch
use kubemq_cpp.Base.{ℕ, List, [], ◌∷◌, map, Bytes, bytes, is_empty, if◌then◌else◌}
use kubemq_cpp.Status.{
  ErrorCode, Status, StatusOr, value, failed, ok_status, make_error, is_ok, and_then,
}
use kubemq_cpp.Validation.{validate_channel, validate_channel_no_wildcard, validate_body}
use kubemq_cpp.Message.Content.{first_non_empty}
use kubemq_cpp.Message.QueueMessage.{QueueMessage}
use kubemq_cpp.Convert.Queues.{QueueSendResult, queue_send_result_from_proto}
use kubemq_cpp.Convert.Simple.{
  ReceiveQueueMessagesRequest, ReceiveQueueMessagesResponse, AckAllQueueMessagesRequest,
  AckAllQueueMessagesResponse, receive_response_from_proto, ack_all_response_from_proto,
}
use kubemq_cpp.Transport.Grpc.{Rpc}
use kubemq_cpp.Transport.Grpc.Calls
use kubemq_cpp.Client.{Client, check_closed, wire_queue_message}
use kubemq_cpp.Wire
use kubemq_cpp.Wire.Simple
use kubemq_cpp.Wire.Simple.{QueueMessagesBatchRequest, QueueMessagesBatchResponse}

-- The results of a batch, in the server's order; an error of a message is in its result.
unfoldable pub batch_result : StatusOr QueueMessagesBatchResponse → StatusOr (List QueueSendResult)
batch_result (failed s) = failed s
batch_result (value p) = value (map queue_send_result_from_proto p.results)

-- The conversion at the end of `ReceiveQueueMessages`
unfoldable pub receive_result :
    (ℕ → Bytes)
    → Bytes
    → Bytes
    → StatusOr Simple.ReceiveQueueMessagesResponse
    → StatusOr ReceiveQueueMessagesResponse
receive_result uuids channel request_id (failed s) = failed s
receive_result uuids channel request_id (value p) =
    if p.is_error
    then failed
        (make_error ErrorCode.fatal p.error (bytes "ReceiveQueueMessages") channel request_id)
    else value (receive_response_from_proto uuids p)

-- The conversion at the end of `AckAllQueueMessages`
unfoldable pub ack_all_result :
    Bytes
    → Bytes
    → StatusOr Simple.AckAllQueueMessagesResponse
    → StatusOr AckAllQueueMessagesResponse
ack_all_result channel request_id (failed s) = failed s
ack_all_result channel request_id (value p) =
    if p.is_error
    then failed
        (make_error ErrorCode.fatal p.error (bytes "AckAllQueueMessages") channel request_id)
    else value (ack_all_response_from_proto p)

module _ {W C X : Type 0} where
  -- The checks of one message of a batch.
  unfoldable pub check_message : Client W C X → QueueMessage → Status
  check_message c m =
      and_then
        (validate_channel_no_wildcard (first_non_empty m.channel c.opts.default_channel)
          (bytes "SendQueueMessages"))
        (validate_body m.body m.metadata (bytes "SendQueueMessages"))

  -- The loop of `SendQueueMessages`, up to the first message that fails.
  unfoldable pub build_batch : Client W C X → List QueueMessage → Status × List Wire.QueueMessage
  unfolding check_message
  build_batch c [] = (ok_status, [])
  build_batch c (m ∷ ms) =
      let s = check_message c m in
      let (s', rest) = build_batch c ms in
      if is_ok s then (s', wire_queue_message c m ∷ rest) else (s, [])

  -- `SendQueueMessages`; `uuid` is the identifier of the batch.
  unfoldable pub send_queue_messages :
      Rpc W QueueMessagesBatchRequest QueueMessagesBatchResponse
      → Bytes
      → Client W C X
      → List QueueMessage
      → W
      → W × StatusOr (List QueueSendResult)
  send_queue_messages rpc uuid c [] w =
      let s = check_closed c in
      if is_ok s
      then (
        w,
        failed (
            make_error ErrorCode.validation (bytes "messages list is empty")
              (bytes "SendQueueMessages") [] []),
      )
      else (w, failed s)
  send_queue_messages rpc uuid c (m ∷ ms) w =
      let s = check_closed c in
      let (s', messages) = build_batch c (m ∷ ms) in
      let (w', r) =
        Calls.send_queue_messages_batch rpc c.transport
          record { batch_id = uuid; messages = messages } w in
      if is_ok s then (if is_ok s' then (w', batch_result r) else (w, failed s')) else (w, failed s)

  unfoldable pub wire_receive :
      Bytes → Client W C X → ReceiveQueueMessagesRequest → Simple.ReceiveQueueMessagesRequest
  wire_receive uuid c r = record {
    request_id = first_non_empty r.request_id uuid;
    client_id = first_non_empty r.client_id c.opts.client_id;
    channel = first_non_empty r.channel c.opts.default_channel;
    max_number_of_messages = r.max_number_of_messages;
    wait_time_seconds = r.wait_time_seconds;
    is_peak = r.is_peek;
  }

  -- `ReceiveQueueMessages`; `uuids` are the identifiers of messages that came without one.
  unfoldable pub receive_queue_messages :
      Rpc W Simple.ReceiveQueueMessagesRequest Simple.ReceiveQueueMessagesResponse
      → (ℕ → Bytes)
      → Bytes
      → Client W C X
      → ReceiveQueueMessagesRequest
      → W
      → W × StatusOr ReceiveQueueMessagesResponse
  receive_queue_messages rpc uuids uuid c r w =
      let channel = first_non_empty r.channel c.opts.default_channel in
      let s = and_then (check_closed c) (validate_channel channel (bytes "ReceiveQueueMessages")) in
      let request = wire_receive uuid c r in
      let (w', p) = Calls.receive_queue_messages rpc c.transport request w in
      if is_ok s then (w', receive_result uuids channel request.request_id p) else (w, failed s)

  unfoldable pub wire_ack_all :
      Bytes → Client W C X → AckAllQueueMessagesRequest → Simple.AckAllQueueMessagesRequest
  wire_ack_all uuid c r = record {
    request_id = first_non_empty r.request_id uuid;
    client_id = first_non_empty r.client_id c.opts.client_id;
    channel = first_non_empty r.channel c.opts.default_channel;
    wait_time_seconds = r.wait_time_seconds;
  }

  -- `AckAllQueueMessages`
  unfoldable pub ack_all_queue_messages :
      Rpc W Simple.AckAllQueueMessagesRequest Simple.AckAllQueueMessagesResponse
      → Bytes
      → Client W C X
      → AckAllQueueMessagesRequest
      → W
      → W × StatusOr AckAllQueueMessagesResponse
  ack_all_queue_messages rpc uuid c r w =
      let channel = first_non_empty r.channel c.opts.default_channel in
      let s = and_then (check_closed c) (validate_channel channel (bytes "AckAllQueueMessages")) in
      let request = wire_ack_all uuid c r in
      let (w', p) = Calls.ack_all_queue_messages rpc c.transport request w in
      if is_ok s then (w', ack_all_result channel request.request_id p) else (w, failed s)
