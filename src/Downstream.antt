-- ===== src/Downstream.antt =====
-- src/internal/queue_stream_impl.h and src/client_queues_stream.cc: polling a queue and settling what
-- was polled. The stream is a parameter: a write acts on a state `V` and says whether it succeeded, and
-- a read also gives the response. The receiver owns the stream; `alive` is whether it still does, which
-- is what `lock` of the messages' weak pointers finds.
pub mod Settle
pub mod Poll
mod Tests
use kubemq_cpp.Base.{
  ℕ, suc, ◌-◌, ◌^◌, ltb, Bool, true, false, List, [], ◌∷◌, Option, none, some, Bytes, bytes,
  is_empty, if◌then◌else◌,
}
use kubemq_cpp.Base.Int.{ℤ, pos, negsuc}
use kubemq_cpp.Status.{ErrorCode, Status, StatusOr, value, failed, ok_status, make_error, is_ok}
use kubemq_cpp.Message.QueueMessage.{QueueMessage}
use kubemq_cpp.Validation.{validate_channel}
use kubemq_cpp.Convert.Queues.{queue_message_from_proto}
use kubemq_cpp.Wire
use kubemq_cpp.Wire.{QueuesDownstreamRequest, QueuesDownstreamResponse, new_downstream_request}

-- `QueueDownstreamMessage::Impl` without the stream
pub record DownstreamMessage : Type 0 where
  pub message : QueueMessage
  pub transaction_id : Bytes
  pub sequence : ℕ
  pub auto_ack : Bool

-- `PollResponse::Impl` without the stream
pub record PollResponse : Type 0 where
  pub transaction_id : Bytes
  pub messages : List DownstreamMessage
  pub is_error : Bool
  pub error : Bytes
  pub auto_ack : Bool
  pub transaction_complete : Bool

pub record PollRequest : Type 0 where
  pub channel : Bytes
  pub max_items : ℤ
  pub wait_timeout_seconds : ℤ
  pub auto_ack : Bool

-- `messages.empty()`
abbrev pub is_nil : List DownstreamMessage → Bool
is_nil [] = true
is_nil (m ∷ ms) = false

-- `static_cast<int64_t>`: a number of 64 bits as the signed integer with the same bits.
unfoldable pub as_int64 : ℕ → ℤ
as_int64 n = if ltb n (2 ^ 63) then pos n else negsuc (2 ^ 64 - 1 - n)

-- The request of one message, or of all with no sequence; `set_requeuechannel` is skipped for an
-- empty channel, which leaves it empty.
abbrev pub settlement : Bytes → ℕ → Bytes → List ℤ → Bytes → QueuesDownstreamRequest
settlement uuid request_type transaction_id sequences requeue_channel =
    record new_downstream_request {
      request_id = uuid;
      request_type = request_type;
      ref_transaction_id = transaction_id;
      sequence_range = sequences;
      requeue_channel = requeue_channel;
    }

abbrev one : Bytes
one = bytes "QueueDownstreamMessage::Settle"

abbrev all : Bytes
all = bytes "PollResponse::Settle"

module _ {V : Type 0} (write : QueuesDownstreamRequest → V → V × Bool) where
  -- The write at the end of both kinds of settlement.
  unfoldable pub write_settlement : Bytes → QueuesDownstreamRequest → V → V × Status
  write_settlement operation request v =
      let (v', written) = write request v in
      if written then (v', ok_status) else (
        v',
        make_error ErrorCode.transient (bytes "failed to write settlement to downstream stream")
            operation [] [],
      )

  -- `SendSettle`
  unfoldable pub send_settle : Bytes → Bool → DownstreamMessage → ℕ → Bytes → V → V × Status
  send_settle uuid alive m request_type requeue_channel v =
      if m.auto_ack
      then (v, make_error ErrorCode.validation (bytes "cannot settle: poll used AutoAck") one [] [])
      else (if alive
          then (if is_empty m.transaction_id
              then (
                v,
                make_error ErrorCode.validation (bytes "message has no transaction ID") one [] [],
              )
              else write_settlement one
                  (settlement uuid request_type m.transaction_id (as_int64 m.sequence ∷ [])
                    requeue_channel)
                  v)
          else (
            v,
            make_error ErrorCode.fatal
                (bytes "receiver has been destroyed; settlement no longer possible") one [] [],
          ))

  -- `SendSettleAll`
  unfoldable pub send_settle_all : Bytes → Bool → PollResponse → ℕ → Bytes → V → V × Status
  send_settle_all uuid alive r request_type requeue_channel v =
      if r.auto_ack
      then (v, make_error ErrorCode.validation (bytes "cannot settle: poll used AutoAck") all [] [])
      else (if alive
          then (if is_empty r.transaction_id
              then (v, make_error ErrorCode.validation (bytes "no transaction ID") all [] [])
              else (if is_nil r.messages
                  then (v, ok_status)
                  else write_settlement all
                      (settlement uuid request_type r.transaction_id [] requeue_channel) v))
          else (
            v,
            make_error ErrorCode.fatal
                (bytes "receiver has been destroyed; settlement no longer possible") all [] [],
          ))

  unfoldable pub ack : Bytes → Bool → DownstreamMessage → V → V × Status
  ack uuid alive m v = send_settle uuid alive m 3 [] v

  unfoldable pub nack : Bytes → Bool → DownstreamMessage → V → V × Status
  nack uuid alive m v = send_settle uuid alive m 5 [] v

  unfoldable pub requeue : Bytes → Bool → DownstreamMessage → Bytes → V → V × Status
  requeue uuid alive m channel v =
      if is_empty channel
      then (
        v,
        make_error ErrorCode.validation (bytes "requeue channel is required")
            (bytes "QueueDownstreamMessage::ReQueue") [] [],
      )
      else send_settle uuid alive m 7 channel v

  unfoldable pub ack_all : Bytes → Bool → PollResponse → V → V × Status
  ack_all uuid alive r v = send_settle_all uuid alive r 2 [] v

  unfoldable pub nack_all : Bytes → Bool → PollResponse → V → V × Status
  nack_all uuid alive r v = send_settle_all uuid alive r 4 [] v

  unfoldable pub requeue_all : Bytes → Bool → PollResponse → Bytes → V → V × Status
  requeue_all uuid alive r channel v =
      if is_empty channel
      then (
        v,
        make_error ErrorCode.validation (bytes "requeue channel is required")
            (bytes "PollResponse::ReQueueAll") [] [],
      )
      else send_settle_all uuid alive r 6 channel v

-- `attributes().sequence()`, or 0
abbrev pub sequence_of : Option Wire.QueueMessageAttributes → ℕ
sequence_of none = 0
sequence_of (some a) = a.sequence

unfoldable pub downstream_message : Bytes → Bytes → Bool → Wire.QueueMessage → DownstreamMessage
downstream_message uuid transaction_id auto_ack p = record {
  message = queue_message_from_proto uuid p;
  transaction_id = transaction_id;
  sequence = sequence_of p.attributes;
  auto_ack = auto_ack;
}

-- `fresh` gives the identifiers for messages without one, in their order.
unfoldable pub downstream_messages :
    (ℕ → Bytes) → Bytes → Bool → List Wire.QueueMessage → List DownstreamMessage
downstream_messages fresh transaction_id auto_ack [] = []
downstream_messages fresh transaction_id auto_ack (p ∷ ps) =
    downstream_message (fresh 0) transaction_id auto_ack p
    ∷ downstream_messages (λ i. fresh (suc i)) transaction_id auto_ack ps

unfoldable pub poll_response : (ℕ → Bytes) → Bool → QueuesDownstreamResponse → PollResponse
poll_response fresh auto_ack p = record {
  transaction_id = p.transaction_id;
  messages = downstream_messages fresh p.transaction_id auto_ack p.messages;
  is_error = p.is_error;
  error = p.error;
  auto_ack = auto_ack;
  transaction_complete = p.transaction_complete;
}

unfoldable pub poll_request : Bytes → Bytes → PollRequest → QueuesDownstreamRequest
poll_request uuid client_id r = record new_downstream_request {
  request_id = uuid;
  client_id = client_id;
  request_type = 1;
  channel = r.channel;
  max_items = r.max_items;
  wait_timeout = r.wait_timeout_seconds;
  auto_ack = r.auto_ack;
}

module _ {V : Type 0} (write : QueuesDownstreamRequest → V → V × Bool)
    (read : V → V × Option QueuesDownstreamResponse) where
  abbrev failure : ErrorCode → Bytes → Bytes → Status
  failure code message channel =
      make_error code message (bytes "QueueDownstreamReceiver::Poll") channel []

  -- The end of `Poll`, once there is a response or none.
  unfoldable pub poll_answer :
      (ℕ → Bytes) → PollRequest → Option QueuesDownstreamResponse → StatusOr PollResponse
  poll_answer fresh r none = failed (
      failure ErrorCode.transient (bytes "failed to read poll response from downstream stream")
        r.channel)
  poll_answer fresh r (some p) =
      if p.is_error
      then failed (failure ErrorCode.fatal p.error r.channel)
      else value (poll_response fresh r.auto_ack p)

  -- `Poll`; `uuid` names the request.
  unfoldable pub poll :
      (ℕ → Bytes) → Bytes → Bytes → Bool → PollRequest → V → V × StatusOr PollResponse
  poll fresh uuid client_id closed r v =
      let s = validate_channel r.channel (bytes "QueueDownstreamReceiver::Poll") in
      let (v1, written) = write (poll_request uuid client_id r) v in
      let (v2, response) = read v1 in
      if closed
      then (v, failed (failure ErrorCode.fatal (bytes "downstream receiver is closed") []))
      else (if is_ok s
          then (if written then (v2, poll_answer fresh r response) else (
            v1,
            failed (
                failure ErrorCode.transient
                  (bytes "failed to write poll request to downstream stream") r.channel),
          ))
          else (v, failed s))
