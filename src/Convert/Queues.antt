-- ===== src/Convert/Queues.antt =====
-- src/internal/transport/converter.cc: queue messages, and the batches of the upstream.
use kubemq_cpp.Base.{Bool, List, [], map, Option, none, some, Bytes}
use kubemq_cpp.Base.Int.{ℤ, as_int32}
use kubemq_cpp.Status.{StatusOr, value, failed}
use kubemq_cpp.Message.Tags.{copy_tags}
use kubemq_cpp.Message.Content.{first_non_empty}
use kubemq_cpp.Message.QueueMessage.{
  QueueMessage, Builder, new_builder, set_id, set_channel, set_client_id, set_metadata, set_body,
  set_tags, set_policy, build, no_attributes, no_policy,
}
use kubemq_cpp.Wire

-- `policy()` is never null.
unfoldable pub queue_message_to_proto : QueueMessage → Bytes → Wire.QueueMessage
queue_message_to_proto m client_id = record {
  message_id = m.id;
  client_id = first_non_empty m.client_id client_id;
  channel = m.channel;
  metadata = m.metadata;
  body = m.body;
  tags = copy_tags m.tags;
  attributes = none;
  policy = some record {
    expiration_seconds = as_int32 m.policy.expiration_seconds;
    delay_seconds = as_int32 m.policy.delay_seconds;
    max_receive_count = as_int32 m.policy.max_receive_count;
    max_receive_queue = m.policy.max_receive_queue;
  };
}

-- `QueueMessage()`
abbrev pub empty_message : QueueMessage
empty_message = record {
  id = [];
  channel = [];
  metadata = [];
  body = [];
  client_id = [];
  tags = [];
  policy = no_policy;
  attributes = no_attributes;
}

unfoldable pub copy_policy : Option Wire.QueueMessagePolicy → Builder → Builder
copy_policy none b = b
copy_policy (some p) b =
    set_policy
      record {
        expiration_seconds = p.expiration_seconds;
        delay_seconds = p.delay_seconds;
        max_receive_count = p.max_receive_count;
        max_receive_queue = p.max_receive_queue;
      }
      b

unfoldable pub copy_attributes : Option Wire.QueueMessageAttributes → QueueMessage → QueueMessage
copy_attributes none m = m
copy_attributes (some a) m = record m {
  attributes = record {
    timestamp = a.timestamp;
    sequence = a.sequence;
    md5_of_body = a.md5_of_body;
    receive_count = a.receive_count;
    re_routed = a.re_routed;
    re_routed_from_queue = a.re_routed_from_queue;
    expiration_at = a.expiration_at;
    delayed_to = a.delayed_to;
  };
}

unfoldable pub builder_of : Wire.QueueMessage → Builder
builder_of p = copy_policy p.policy (
    set_tags (copy_tags p.tags) (
      set_body p.body (
        set_metadata p.metadata
          (set_client_id p.client_id (set_channel p.channel (set_id p.message_id new_builder))))))

unfoldable pub or_empty : Option Wire.QueueMessageAttributes → StatusOr QueueMessage → QueueMessage
or_empty attributes (value m) = copy_attributes attributes m
or_empty attributes (failed s) = empty_message

-- `uuid` is the identifier that `Build` would make.
unfoldable pub queue_message_from_proto : Bytes → Wire.QueueMessage → QueueMessage
queue_message_from_proto uuid p = or_empty p.attributes (build uuid (builder_of p))

pub record QueueSendResult : Type 0 where
  pub message_id : Bytes
  pub sent_at : ℤ
  pub expiration_at : ℤ
  pub delayed_to : ℤ
  pub is_error : Bool
  pub error : Bytes

unfoldable pub queue_send_result_from_proto : Wire.SendQueueMessageResult → QueueSendResult
queue_send_result_from_proto p = record {
  message_id = p.message_id;
  sent_at = p.sent_at;
  expiration_at = p.expiration_at;
  delayed_to = p.delayed_to;
  is_error = p.is_error;
  error = p.error;
}

unfoldable pub queue_upstream_request_to_proto :
    Bytes → List QueueMessage → Bytes → Wire.QueuesUpstreamRequest
queue_upstream_request_to_proto request_id messages client_id = record {
  request_id = request_id;
  messages = map (λ m. queue_message_to_proto m client_id) messages;
}

pub record QueueUpstreamResult : Type 0 where
  pub ref_request_id : Bytes
  pub results : List QueueSendResult
  pub is_error : Bool
  pub error : Bytes

unfoldable pub queue_upstream_response_from_proto :
    Wire.QueuesUpstreamResponse → QueueUpstreamResult
queue_upstream_response_from_proto p = record {
  ref_request_id = p.ref_request_id;
  results = map queue_send_result_from_proto p.results;
  is_error = p.is_error;
  error = p.error;
}
