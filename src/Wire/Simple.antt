-- ===== src/Wire/Simple.antt =====
-- src/proto/kubemq.proto: the messages of `Ping`, of the subscriptions and of the unary queue calls.
use kubemq_cpp.Base.{ℕ, Bool, List, Bytes}
use kubemq_cpp.Base.Int.{ℤ}
use kubemq_cpp.Wire.{QueueMessage, SendQueueMessageResult}

pub record PingResult : Type 0 where
  pub host : Bytes
  pub version : Bytes
  pub server_start_time : ℤ
  pub server_up_time_seconds : ℤ

-- `Subscribe.SubscribeType`
pub data SubscribeType : Type 0 where
  undefined events events_store commands queries : SubscribeType

-- `Subscribe`; the kind of start is a number.
pub record Subscribe : Type 0 where
  pub subscribe_type : SubscribeType
  pub client_id : Bytes
  pub channel : Bytes
  pub group : Bytes
  pub events_store_type : ℤ
  pub events_store_type_value : ℤ

pub record QueueMessagesBatchRequest : Type 0 where
  pub batch_id : Bytes
  pub messages : List QueueMessage

pub record QueueMessagesBatchResponse : Type 0 where
  pub batch_id : Bytes
  pub results : List SendQueueMessageResult
  pub have_errors : Bool

pub record ReceiveQueueMessagesRequest : Type 0 where
  pub request_id : Bytes
  pub client_id : Bytes
  pub channel : Bytes
  pub max_number_of_messages : ℤ
  pub wait_time_seconds : ℤ
  pub is_peak : Bool

pub record ReceiveQueueMessagesResponse : Type 0 where
  pub request_id : Bytes
  pub messages : List QueueMessage
  pub messages_received : ℤ
  pub messages_expired : ℤ
  pub is_peak : Bool
  pub is_error : Bool
  pub error : Bytes

pub record AckAllQueueMessagesRequest : Type 0 where
  pub request_id : Bytes
  pub client_id : Bytes
  pub channel : Bytes
  pub wait_time_seconds : ℤ

pub record AckAllQueueMessagesResponse : Type 0 where
  pub request_id : Bytes
  pub affected_messages : ℕ
  pub is_error : Bool
  pub error : Bytes
