-- ===== src/Convert/Simple.antt =====
-- src/internal/transport/converter.cc: the unary queue calls, `ServerInfo` and the channel management;
-- include/kubemq/queue_message.h: the requests and responses of these calls.
use kubemq_cpp.Base.{ℕ, Bool, List, suc, ◌∷◌, [], Bytes, bytes}
use kubemq_cpp.Base.Int.{ℤ, pos}
use kubemq_cpp.Message.Tags.{add_tag}
use kubemq_cpp.Message.QueueMessage.{QueueMessage}
use kubemq_cpp.Convert.Queues.{queue_message_from_proto}
use kubemq_cpp.Wire
use kubemq_cpp.Wire.{Request, RequestType, new_request}
use kubemq_cpp.Wire.Simple

pub record ReceiveQueueMessagesRequest : Type 0 where
  pub request_id : Bytes
  pub client_id : Bytes
  pub channel : Bytes
  pub max_number_of_messages : ℤ
  pub wait_time_seconds : ℤ
  pub is_peek : Bool

pub record ReceiveQueueMessagesResponse : Type 0 where
  pub request_id : Bytes
  pub messages : List QueueMessage
  pub messages_received : ℤ
  pub messages_expired : ℤ
  pub is_peek : Bool
  pub is_error : Bool
  pub error : Bytes

pub record AckAllQueueMessagesRequest : Type 0 where
  pub request_id : Bytes
  pub client_id : Bytes
  pub channel : Bytes
  pub wait_time_seconds : ℤ

pub record AckAllQueueMessagesResponse : Type 0 where
  pub request_id : Bytes
  pub affected_messages : ℕ
  pub is_error : Bool
  pub error : Bytes

unfoldable pub receive_request_to_proto :
    ReceiveQueueMessagesRequest → Simple.ReceiveQueueMessagesRequest
receive_request_to_proto r = record {
  request_id = r.request_id;
  client_id = r.client_id;
  channel = r.channel;
  max_number_of_messages = r.max_number_of_messages;
  wait_time_seconds = r.wait_time_seconds;
  is_peak = r.is_peek;
}

-- `uuids i` is the identifier that is made for the message at `i` when it came without one.
unfoldable pub messages_from_proto : (ℕ → Bytes) → List Wire.QueueMessage → List QueueMessage
messages_from_proto uuids [] = []
messages_from_proto uuids (p ∷ ps) =
    queue_message_from_proto (uuids 0) p ∷ messages_from_proto (λ i. uuids (suc i)) ps

unfoldable pub receive_response_from_proto :
    (ℕ → Bytes) → Simple.ReceiveQueueMessagesResponse → ReceiveQueueMessagesResponse
receive_response_from_proto uuids p = record {
  request_id = p.request_id;
  messages = messages_from_proto uuids p.messages;
  messages_received = p.messages_received;
  messages_expired = p.messages_expired;
  is_peek = p.is_peak;
  is_error = p.is_error;
  error = p.error;
}

unfoldable pub ack_all_request_to_proto :
    AckAllQueueMessagesRequest → Simple.AckAllQueueMessagesRequest
ack_all_request_to_proto r = record {
  request_id = r.request_id;
  client_id = r.client_id;
  channel = r.channel;
  wait_time_seconds = r.wait_time_seconds;
}

unfoldable pub ack_all_response_from_proto :
    Simple.AckAllQueueMessagesResponse → AckAllQueueMessagesResponse
ack_all_response_from_proto p = record {
  request_id = p.request_id;
  affected_messages = p.affected_messages;
  is_error = p.is_error;
  error = p.error;
}

-- `BuildChannelManagementRequest` on a new request
unfoldable pub channel_management_request : Bytes → Bytes → Bytes → Bytes → Bytes → Request
channel_management_request client_id channel_name channel_type operation request_id =
    record new_request {
      request_id = request_id;
      request_type = RequestType.query;
      client_id = client_id;
      channel = bytes "kubemq.cluster.internal.requests";
      metadata = operation;
      timeout = pos 10000;
      tags =
          add_tag (bytes "client_id") client_id (
            add_tag (bytes "channel_type") channel_type
              (add_tag (bytes "channel") channel_name []));
    }
