-- ===== src/Convert/RoundTrip.antt =====
-- What the receiver of a command, a query or a reply reads of what the sender wrote.
use kubemq_cpp.Base.{◌≡◌, refl, [], Bytes}
use kubemq_cpp.Base.Int.{FitsInt32, as_int32-FitsInt32, of_seconds, to_seconds}
use kubemq_cpp.Message.Tags.{Tags, IsMap, copy_tags, copy_tags-IsMap}
use kubemq_cpp.Message.Content.{first_non_empty}
use kubemq_cpp.Message.Command.{Command}
use kubemq_cpp.Message.CommandReply.{CommandReply}
use kubemq_cpp.Message.Query.{Query}
use kubemq_cpp.Message.QueryReply.{QueryReply}
use kubemq_cpp.Convert.Requests.{
  command_to_proto, command_receive_from_proto, command_reply_to_proto, command_response_from_proto,
  query_to_proto, query_receive_from_proto, query_reply_to_proto, query_response_from_proto,
}

copy_twice : (t : Tags) → IsMap t → copy_tags (copy_tags t) ≡ t
copy_twice t m = rw (copy_tags-IsMap t m, copy_tags-IsMap t m) refl

-- A command whose timeout is a 32-bit integer and whose tags are a map, sent and read back unchanged,
-- has its content, and the client's name where it had none. Its timeout of so many milliseconds is read
-- as so many seconds.
pub command_round_trip :
    (c : Command) (client : Bytes)
    → FitsInt32 c.timeout
    → IsMap c.tags
    → command_receive_from_proto (command_to_proto c client) ≡ record {
      id = c.id;
      client_id = first_non_empty c.client_id client;
      channel = c.channel;
      metadata = c.metadata;
      body = c.body;
      response_to = [];
      timeout = of_seconds c.timeout;
      tags = c.tags;
    }
unfolding command_receive_from_proto command_to_proto
command_round_trip c client fits m =
    rw (as_int32-FitsInt32 c.timeout fits, copy_twice c.tags m) refl

-- A query whose timeout and cache time are 32-bit integers and whose tags are a map, sent and read back
-- unchanged, has its content. Its timeout of so many milliseconds is read as so many seconds; its cache
-- time is rounded down to whole seconds.
pub query_round_trip :
    (q : Query) (client : Bytes)
    → FitsInt32 q.timeout
    → FitsInt32 (to_seconds q.cache_ttl)
    → IsMap q.tags
    → query_receive_from_proto (query_to_proto q client) ≡ record {
      id = q.id;
      client_id = first_non_empty q.client_id client;
      channel = q.channel;
      metadata = q.metadata;
      body = q.body;
      response_to = [];
      timeout = of_seconds q.timeout;
      cache_key = q.cache_key;
      cache_ttl = of_seconds (to_seconds q.cache_ttl);
      tags = q.tags;
    }
unfolding query_receive_from_proto query_to_proto
query_round_trip q client fits fits' m =
    rw
      (
        as_int32-FitsInt32 q.timeout fits,
        as_int32-FitsInt32 (to_seconds q.cache_ttl) fits',
        copy_twice q.tags m,
      )
      refl

-- The answer to a query has all that the reply had, if the reply's tags are a map.
pub query_reply_round_trip :
    (r : QueryReply)
    → IsMap r.tags
    → query_response_from_proto (query_reply_to_proto r) ≡ record {
      query_id = r.request_id;
      reply_channel = r.response_to;
      executed = r.executed;
      executed_at = r.executed_at;
      metadata = r.metadata;
      response_client_id = r.client_id;
      body = r.body;
      cache_hit = r.cache_hit;
      error = r.error;
      tags = r.tags;
    }
unfolding query_response_from_proto query_reply_to_proto
query_reply_round_trip r m = rw (copy_twice r.tags m) refl

-- The answer to a command has all that the reply had but its body and metadata, if the reply's tags are
-- a map.
pub command_reply_round_trip :
    (r : CommandReply)
    → IsMap r.tags
    → command_response_from_proto (command_reply_to_proto r) ≡ record {
      command_id = r.request_id;
      response_client_id = r.client_id;
      reply_channel = r.response_to;
      executed = r.executed;
      executed_at = r.executed_at;
      error = r.error;
      tags = r.tags;
    }
unfolding command_response_from_proto command_reply_to_proto
command_reply_round_trip r m = rw (copy_twice r.tags m) refl
