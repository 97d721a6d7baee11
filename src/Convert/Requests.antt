-- ===== src/Convert/Requests.antt =====
-- src/internal/transport/converter.cc: events, commands and queries and their answers.
use kubemq_cpp.Base.{Bool, true, false, Bytes}
use kubemq_cpp.Base.Int.{ℤ, as_int32, of_seconds, to_seconds}
use kubemq_cpp.Message.Tags.{Tags, copy_tags}
use kubemq_cpp.Message.Content.{first_non_empty}
use kubemq_cpp.Message.Event.{Event}
use kubemq_cpp.Message.EventStore.{EventStore}
use kubemq_cpp.Message.Command.{Command}
use kubemq_cpp.Message.CommandReply.{CommandReply}
use kubemq_cpp.Message.Query.{Query}
use kubemq_cpp.Message.QueryReply.{QueryReply}
use kubemq_cpp.Wire
use kubemq_cpp.Wire.{RequestType, new_request, new_response}

unfoldable pub event_to_proto : Event → Bytes → Wire.Event
event_to_proto e client_id = record {
  event_id = e.id;
  client_id = first_non_empty e.client_id client_id;
  channel = e.channel;
  metadata = e.metadata;
  body = e.body;
  store = false;
  tags = copy_tags e.tags;
}

unfoldable pub event_store_to_proto : EventStore → Bytes → Wire.Event
event_store_to_proto e client_id = record {
  event_id = e.id;
  client_id = first_non_empty e.client_id client_id;
  channel = e.channel;
  metadata = e.metadata;
  body = e.body;
  store = true;
  tags = copy_tags e.tags;
}

unfoldable pub command_to_proto : Command → Bytes → Wire.Request
command_to_proto c client_id = record new_request {
  request_id = c.id;
  request_type = RequestType.command;
  client_id = first_non_empty c.client_id client_id;
  channel = c.channel;
  metadata = c.metadata;
  body = c.body;
  timeout = as_int32 c.timeout;
  tags = copy_tags c.tags;
}

-- The time is in milliseconds.
pub record CommandReceive : Type 0 where
  pub id : Bytes
  pub client_id : Bytes
  pub channel : Bytes
  pub metadata : Bytes
  pub body : Bytes
  pub response_to : Bytes
  pub timeout : ℤ
  pub tags : Tags

unfoldable pub command_receive_from_proto : Wire.Request → CommandReceive
command_receive_from_proto p = record {
  id = p.request_id;
  client_id = p.client_id;
  channel = p.channel;
  metadata = p.metadata;
  body = p.body;
  response_to = p.reply_channel;
  timeout = of_seconds p.timeout;
  tags = copy_tags p.tags;
}

pub record CommandResponse : Type 0 where
  pub command_id : Bytes
  pub response_client_id : Bytes
  pub reply_channel : Bytes
  pub executed : Bool
  pub executed_at : ℤ
  pub error : Bytes
  pub tags : Tags

unfoldable pub command_response_from_proto : Wire.Response → CommandResponse
command_response_from_proto p = record {
  command_id = p.request_id;
  response_client_id = p.client_id;
  reply_channel = p.reply_channel;
  executed = p.executed;
  executed_at = p.timestamp;
  error = p.error;
  tags = copy_tags p.tags;
}

unfoldable pub command_reply_to_proto : CommandReply → Wire.Response
command_reply_to_proto r = record new_response {
  client_id = r.client_id;
  request_id = r.request_id;
  reply_channel = r.response_to;
  metadata = r.metadata;
  body = r.body;
  timestamp = r.executed_at;
  executed = r.executed;
  error = r.error;
  tags = copy_tags r.tags;
}

unfoldable pub query_to_proto : Query → Bytes → Wire.Request
query_to_proto q client_id = record new_request {
  request_id = q.id;
  request_type = RequestType.query;
  client_id = first_non_empty q.client_id client_id;
  channel = q.channel;
  metadata = q.metadata;
  body = q.body;
  timeout = as_int32 q.timeout;
  cache_key = q.cache_key;
  cache_ttl = as_int32 (to_seconds q.cache_ttl);
  tags = copy_tags q.tags;
}

-- The times are in milliseconds.
pub record QueryReceive : Type 0 where
  pub id : Bytes
  pub client_id : Bytes
  pub channel : Bytes
  pub metadata : Bytes
  pub body : Bytes
  pub response_to : Bytes
  pub timeout : ℤ
  pub cache_key : Bytes
  pub cache_ttl : ℤ
  pub tags : Tags

unfoldable pub query_receive_from_proto : Wire.Request → QueryReceive
query_receive_from_proto p = record {
  id = p.request_id;
  client_id = p.client_id;
  channel = p.channel;
  metadata = p.metadata;
  body = p.body;
  response_to = p.reply_channel;
  timeout = of_seconds p.timeout;
  cache_key = p.cache_key;
  cache_ttl = of_seconds p.cache_ttl;
  tags = copy_tags p.tags;
}

pub record QueryResponse : Type 0 where
  pub query_id : Bytes
  pub reply_channel : Bytes
  pub executed : Bool
  pub executed_at : ℤ
  pub metadata : Bytes
  pub response_client_id : Bytes
  pub body : Bytes
  pub cache_hit : Bool
  pub error : Bytes
  pub tags : Tags

unfoldable pub query_response_from_proto : Wire.Response → QueryResponse
query_response_from_proto p = record {
  query_id = p.request_id;
  reply_channel = p.reply_channel;
  executed = p.executed;
  executed_at = p.timestamp;
  metadata = p.metadata;
  response_client_id = p.client_id;
  body = p.body;
  cache_hit = p.cache_hit;
  error = p.error;
  tags = copy_tags p.tags;
}

unfoldable pub query_reply_to_proto : QueryReply → Wire.Response
query_reply_to_proto r = record new_response {
  client_id = r.client_id;
  request_id = r.request_id;
  reply_channel = r.response_to;
  metadata = r.metadata;
  body = r.body;
  timestamp = r.executed_at;
  executed = r.executed;
  error = r.error;
  cache_hit = r.cache_hit;
  tags = copy_tags r.tags;
}
