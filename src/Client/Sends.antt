-- ===== src/Client/Sends.antt =====
-- src/client.cc, src/client_events_store.cc, src/client_queries.cc and src/client_commands.cc: `Ping`,
-- `SendEventStore`, `SendQuery` and the replies to commands and queries.
use kubemq_cpp.Base.{true, ◌&&◌, not, Bytes, bytes, is_empty, if◌then◌else◌}
use kubemq_cpp.Base.Int.{ℤ, pos, as_int32, is_pos, to_seconds}
use kubemq_cpp.Status.{ErrorCode, Status, StatusOr, value, failed, make_error, is_ok, and_then}
use kubemq_cpp.Validation.{validate_channel_no_wildcard, validate_body, validate_timeout}
use kubemq_cpp.Message.Tags.{copy_tags}
use kubemq_cpp.Message.Content.{first_non_empty}
use kubemq_cpp.Message.EventStore.{EventStore}
use kubemq_cpp.Message.Query.{Query}
use kubemq_cpp.Message.CommandReply.{CommandReply}
use kubemq_cpp.Message.QueryReply.{QueryReply}
use kubemq_cpp.Convert.Requests.{QueryResponse, query_response_from_proto}
use kubemq_cpp.Transport.Grpc
use kubemq_cpp.Transport.Grpc.{Rpc, EventStoreResult}
use kubemq_cpp.Transport.Grpc.Calls
use kubemq_cpp.Transport.Grpc.Calls.{ServerInfo}
use kubemq_cpp.Client.{Client, check_closed, admit, effective_timeout}
use kubemq_cpp.Wire
use kubemq_cpp.Wire.{RequestType, Result, Request, Response, new_request, new_response}
use kubemq_cpp.Wire.Simple.{PingResult}

-- The life in the cache that `SendQuery` uses: the query's own, or else the default of the options.
unfoldable pub effective_ttl : ℤ → ℤ → ℤ
effective_ttl ttl default_ttl = if not (is_pos ttl) && is_pos default_ttl then default_ttl else ttl

-- The life as the request has it, in seconds; it is not set when it is not above zero.
unfoldable pub wire_ttl : ℤ → ℤ
wire_ttl ttl = if is_pos ttl then as_int32 (to_seconds ttl) else pos 0

-- The conversion at the end of `SendQuery`; an error text of the server is an error.
unfoldable pub query_result : Bytes → Bytes → StatusOr Response → StatusOr QueryResponse
query_result channel request_id (failed s) = failed s
query_result channel request_id (value r) =
    if is_empty r.error
    then value (query_response_from_proto r)
    else failed (make_error ErrorCode.fatal r.error (bytes "SendQuery") channel request_id)

module _ {W C X : Type 0} where
  -- `Ping`
  unfoldable pub ping : Rpc W Unit PingResult → Client W C X → W → W × StatusOr ServerInfo
  ping rpc c w =
      let s = check_closed c in
      if is_ok s then Calls.ping rpc c.opts.connection_timeout c.transport w else (w, failed s)

  unfoldable pub wire_event_store : Bytes → Client W C X → EventStore → Wire.Event
  wire_event_store uuid c e = record {
    event_id = first_non_empty e.id uuid;
    client_id = first_non_empty e.client_id c.opts.client_id;
    channel = first_non_empty e.channel c.opts.default_channel;
    metadata = e.metadata;
    body = e.body;
    store = true;
    tags = copy_tags e.tags;
  }

  -- `SendEventStore`
  unfoldable pub send_event_store :
      Rpc W Wire.Event Result
      → Bytes
      → Client W C X
      → EventStore
      → W
      → W × StatusOr EventStoreResult
  send_event_store rpc uuid c e w =
      let channel = first_non_empty e.channel c.opts.default_channel in
      let s = admit c channel e.metadata e.body (bytes "SendEventStore") in
      if is_ok s
      then Grpc.send_event_store rpc c.transport (wire_event_store uuid c e) w
      else (w, failed s)

  unfoldable pub wire_query : Bytes → Client W C X → Query → Request
  wire_query uuid c q = record new_request {
    request_id = first_non_empty q.id uuid;
    request_type = RequestType.query;
    client_id = first_non_empty q.client_id c.opts.client_id;
    channel = first_non_empty q.channel c.opts.default_channel;
    metadata = q.metadata;
    body = q.body;
    timeout = as_int32 (effective_timeout q.timeout);
    cache_key = q.cache_key;
    cache_ttl = wire_ttl (effective_ttl q.cache_ttl c.opts.default_cache_ttl);
    tags = copy_tags q.tags;
  }

  -- The steps of `SendQuery` before the request is made.
  unfoldable pub admit_query : Client W C X → Query → Status
  admit_query c q = and_then (check_closed c) (
      and_then
        (validate_channel_no_wildcard (first_non_empty q.channel c.opts.default_channel)
          (bytes "SendQuery"))
        (and_then (validate_timeout (effective_timeout q.timeout) (bytes "SendQuery"))
          (validate_body q.body q.metadata (bytes "SendQuery"))))

  -- `SendQuery`
  unfoldable pub send_query :
      Rpc W Request Response → Bytes → Client W C X → Query → W → W × StatusOr QueryResponse
  send_query rpc uuid c q w =
      let s = admit_query c q in
      let request = wire_query uuid c q in
      let (w', r) = Grpc.send_request rpc c.transport request w in
      if is_ok s then (w', query_result request.channel request.request_id r) else (w, failed s)

  unfoldable pub wire_command_reply : Client W C X → CommandReply → Response
  wire_command_reply c r = record new_response {
    client_id = first_non_empty r.client_id c.opts.client_id;
    request_id = r.request_id;
    reply_channel = r.response_to;
    metadata = r.metadata;
    body = r.body;
    timestamp = r.executed_at;
    executed = r.executed;
    error = r.error;
    tags = copy_tags r.tags;
  }

  -- `SendCommandResponse`
  unfoldable pub send_command_response :
      Rpc W Response Unit → Client W C X → CommandReply → W → W × Status
  send_command_response rpc c r w =
      let s = check_closed c in
      if is_ok s then Grpc.send_response rpc c.transport (wire_command_reply c r) w else (w, s)

  unfoldable pub wire_query_reply : Client W C X → QueryReply → Response
  wire_query_reply c r = record new_response {
    client_id = first_non_empty r.client_id c.opts.client_id;
    request_id = r.request_id;
    reply_channel = r.response_to;
    metadata = r.metadata;
    body = r.body;
    cache_hit = r.cache_hit;
    timestamp = r.executed_at;
    executed = r.executed;
    error = r.error;
    tags = copy_tags r.tags;
  }

  -- `SendQueryResponse`
  unfoldable pub send_query_response :
      Rpc W Response Unit → Client W C X → QueryReply → W → W × Status
  send_query_response rpc c r w =
      let s = check_closed c in
      if is_ok s then Grpc.send_response rpc c.transport (wire_query_reply c r) w else (w, s)
