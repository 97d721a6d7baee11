-- ===== src/Wire.antt =====
-- src/proto/kubemq.proto: the messages on the wire, with the fields that the client reads or writes.
-- A field that is not set has its default; a submessage that is not set is `none`.
pub mod Simple
use kubemq_cpp.Base.{ℕ, Bool, false, List, [], Option, none, Bytes}
use kubemq_cpp.Base.Int.{ℤ, pos}
use kubemq_cpp.Message.Tags.{Tags}

-- `Request.RequestType`
pub data RequestType : Type 0 where
  unknown command query : RequestType

pub record Result : Type 0 where
  pub event_id : Bytes
  pub sent : Bool
  pub error : Bytes

pub record Event : Type 0 where
  pub event_id : Bytes
  pub client_id : Bytes
  pub channel : Bytes
  pub metadata : Bytes
  pub body : Bytes
  pub store : Bool
  pub tags : Tags

pub record EventReceive : Type 0 where
  pub event_id : Bytes
  pub channel : Bytes
  pub metadata : Bytes
  pub body : Bytes
  pub timestamp : ℤ
  pub sequence : ℕ
  pub tags : Tags

pub record Request : Type 0 where
  pub request_id : Bytes
  pub request_type : RequestType
  pub client_id : Bytes
  pub channel : Bytes
  pub metadata : Bytes
  pub body : Bytes
  pub reply_channel : Bytes
  pub timeout : ℤ
  pub cache_key : Bytes
  pub cache_ttl : ℤ
  pub tags : Tags

pub record Response : Type 0 where
  pub client_id : Bytes
  pub request_id : Bytes
  pub reply_channel : Bytes
  pub metadata : Bytes
  pub body : Bytes
  pub cache_hit : Bool
  pub timestamp : ℤ
  pub executed : Bool
  pub error : Bytes
  pub tags : Tags

pub record QueueMessageAttributes : Type 0 where
  pub timestamp : ℤ
  pub sequence : ℕ
  pub md5_of_body : Bytes
  pub receive_count : ℤ
  pub re_routed : Bool
  pub re_routed_from_queue : Bytes
  pub expiration_at : ℤ
  pub delayed_to : ℤ

pub record QueueMessagePolicy : Type 0 where
  pub expiration_seconds : ℤ
  pub delay_seconds : ℤ
  pub max_receive_count : ℤ
  pub max_receive_queue : Bytes

pub record QueueMessage : Type 0 where
  pub message_id : Bytes
  pub client_id : Bytes
  pub channel : Bytes
  pub metadata : Bytes
  pub body : Bytes
  pub tags : Tags
  pub attributes : Option QueueMessageAttributes
  pub policy : Option QueueMessagePolicy

pub record SendQueueMessageResult : Type 0 where
  pub message_id : Bytes
  pub sent_at : ℤ
  pub expiration_at : ℤ
  pub delayed_to : ℤ
  pub is_error : Bool
  pub error : Bytes

pub record QueuesUpstreamRequest : Type 0 where
  pub request_id : Bytes
  pub messages : List QueueMessage

pub record QueuesUpstreamResponse : Type 0 where
  pub ref_request_id : Bytes
  pub results : List SendQueueMessageResult
  pub is_error : Bool
  pub error : Bytes

pub record QueuesDownstreamRequest : Type 0 where
  pub request_id : Bytes
  pub client_id : Bytes
  pub request_type : ℕ
  pub channel : Bytes
  pub max_items : ℤ
  pub wait_timeout : ℤ
  pub auto_ack : Bool
  pub requeue_channel : Bytes
  pub sequence_range : List ℤ
  pub ref_transaction_id : Bytes

pub record QueuesDownstreamResponse : Type 0 where
  pub transaction_id : Bytes
  pub messages : List QueueMessage
  pub is_error : Bool
  pub error : Bytes
  pub transaction_complete : Bool

-- A new `Request`
abbrev pub new_request : Request
new_request = record {
  request_id = [];
  request_type = RequestType.unknown;
  client_id = [];
  channel = [];
  metadata = [];
  body = [];
  reply_channel = [];
  timeout = pos 0;
  cache_key = [];
  cache_ttl = pos 0;
  tags = [];
}

-- A new `Response`
abbrev pub new_response : Response
new_response = record {
  client_id = [];
  request_id = [];
  reply_channel = [];
  metadata = [];
  body = [];
  cache_hit = false;
  timestamp = pos 0;
  executed = false;
  error = [];
  tags = [];
}

-- A new `QueueMessage`
abbrev pub new_queue_message : QueueMessage
new_queue_message = record {
  message_id = [];
  client_id = [];
  channel = [];
  metadata = [];
  body = [];
  tags = [];
  attributes = none;
  policy = none;
}

-- A new `QueuesDownstreamRequest`
abbrev pub new_downstream_request : QueuesDownstreamRequest
new_downstream_request = record {
  request_id = [];
  client_id = [];
  request_type = 0;
  channel = [];
  max_items = pos 0;
  wait_timeout = pos 0;
  auto_ack = false;
  requeue_channel = [];
  sequence_range = [];
  ref_transaction_id = [];
}
