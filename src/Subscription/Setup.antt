-- ===== src/Subscription/Setup.antt =====
-- src/subscription_option.cc, and the first steps of the four `SubscribeTo...` of src/client_events.cc,
-- src/client_events_store.cc, src/client_commands.cc and src/client_queries.cc.
use kubemq_cpp.Base.{ℕ, Option, none, some, Bytes, bytes, if◌then◌else◌}
use kubemq_cpp.Base.Int.{ℤ, pos}
use kubemq_cpp.Status.{Status, StatusOr, value, failed, is_ok, and_then}
use kubemq_cpp.Validation.{validate_channel}
use kubemq_cpp.Message.Tags.{Tags, copy_tags}
use kubemq_cpp.Message.Content.{first_non_empty}
use kubemq_cpp.Convert.Requests.{
  CommandReceive, QueryReceive, command_receive_from_proto, query_receive_from_proto,
}
use kubemq_cpp.Downstream.{as_int64}
use kubemq_cpp.Transport.Grpc.Streams
use kubemq_cpp.Transport.Grpc.Streams.{Open}
use kubemq_cpp.Client.{Client, check_closed}
use kubemq_cpp.Wire
use kubemq_cpp.Wire.{Request, RequestType}
use kubemq_cpp.Wire.Simple.{Subscribe, SubscribeType}

pub record SubscriptionOption : Type 0 where
  pub type_code : ℤ
  pub start : ℤ

unfoldable pub start_from_new_events : SubscriptionOption
start_from_new_events = record { type_code = pos 1; start = pos 0 }

unfoldable pub start_from_first_event : SubscriptionOption
start_from_first_event = record { type_code = pos 2; start = pos 0 }

unfoldable pub start_from_last_event : SubscriptionOption
start_from_last_event = record { type_code = pos 3; start = pos 0 }

unfoldable pub start_from_sequence : ℕ → SubscriptionOption
start_from_sequence sequence = record { type_code = pos 4; start = as_int64 sequence }

-- The time is in nanoseconds since the epoch, which is what the clock counts.
unfoldable pub start_from_time : ℤ → SubscriptionOption
start_from_time time = record { type_code = pos 5; start = time }

unfoldable pub start_from_time_delta : ℤ → SubscriptionOption
start_from_time_delta delta = record { type_code = pos 6; start = delta }

-- What a new subscription is made of; the stream is a value of `S`.
pub record Subscribed (S : Type 0) : Type 0 where
  pub id : Bytes
  pub subscribe_proto : Subscribe
  pub stream : S

unfoldable pub subscribed :
    {W S : Type 0} → Bytes → Subscribe → W × StatusOr S → W × StatusOr (Subscribed S)
subscribed uuid sub (w, failed s) = (w, failed s)
subscribed uuid sub (w, value stream) =
    (w, value record { id = uuid; subscribe_proto = sub; stream = stream })

unfoldable pub with_start : SubscriptionOption → Subscribe → Subscribe
with_start option sub = record sub {
  events_store_type = option.type_code;
  events_store_type_value = option.start;
}

module _ {W C X : Type 0} (c : Client W C X) where
  unfoldable pub subscribe_proto : SubscribeType → Bytes → Bytes → Subscribe
  subscribe_proto kind channel group = record {
    subscribe_type = kind;
    client_id = c.opts.client_id;
    channel = first_non_empty channel c.opts.default_channel;
    group = group;
    events_store_type = pos 0;
    events_store_type_value = pos 0;
  }

  -- The checks before a stream is opened. Wildcards are allowed.
  unfoldable pub admit_subscription : Bytes → Bytes → Status
  admit_subscription channel operation =
      and_then (check_closed c)
        (validate_channel (first_non_empty channel c.opts.default_channel) operation)

module _ {W C X S : Type 0} (c : Client W C X) where
  unfoldable pub subscribe_to_events :
      Open W Subscribe S → Bytes → Bytes → Bytes → W → W × StatusOr (Subscribed S)
  subscribe_to_events stub uuid channel group w =
      let s = admit_subscription c channel (bytes "SubscribeToEvents") in
      let sub = subscribe_proto c SubscribeType.events channel group in
      if is_ok s
      then subscribed uuid sub (Streams.subscribe_to_events stub c.transport sub w)
      else (w, failed s)

  unfoldable pub subscribe_to_events_store :
      Open W Subscribe S
      → Bytes
      → Bytes
      → Bytes
      → SubscriptionOption
      → W
      → W × StatusOr (Subscribed S)
  subscribe_to_events_store stub uuid channel group option w =
      let s = admit_subscription c channel (bytes "SubscribeToEventsStore") in
      let sub = with_start option (subscribe_proto c SubscribeType.events_store channel group) in
      if is_ok s
      then subscribed uuid sub (Streams.subscribe_to_events stub c.transport sub w)
      else (w, failed s)

  unfoldable pub subscribe_to_commands :
      Open W Subscribe S → Bytes → Bytes → Bytes → W → W × StatusOr (Subscribed S)
  subscribe_to_commands stub uuid channel group w =
      let s = admit_subscription c channel (bytes "SubscribeToCommands") in
      let sub = subscribe_proto c SubscribeType.commands channel group in
      if is_ok s
      then subscribed uuid sub (Streams.subscribe_to_requests stub c.transport sub w)
      else (w, failed s)

  unfoldable pub subscribe_to_queries :
      Open W Subscribe S → Bytes → Bytes → Bytes → W → W × StatusOr (Subscribed S)
  subscribe_to_queries stub uuid channel group w =
      let s = admit_subscription c channel (bytes "SubscribeToQueries") in
      let sub = subscribe_proto c SubscribeType.queries channel group in
      if is_ok s
      then subscribed uuid sub (Streams.subscribe_to_requests stub c.transport sub w)
      else (w, failed s)

-- `EventReceive` and `EventStoreReceive`
pub record EventReceive : Type 0 where
  pub id : Bytes
  pub channel : Bytes
  pub metadata : Bytes
  pub body : Bytes
  pub timestamp : ℤ
  pub sequence : ℕ
  pub tags : Tags

-- What the callback gets of a message of the stream: every event,
unfoldable pub deliver_event : Wire.EventReceive → Option EventReceive
deliver_event p = some record {
  id = p.event_id;
  channel = p.channel;
  metadata = p.metadata;
  body = p.body;
  timestamp = p.timestamp;
  sequence = p.sequence;
  tags = copy_tags p.tags;
}

-- every request that is a command,
unfoldable pub deliver_command : Request → Option CommandReceive
deliver_command p = elim p.request_type [
  | RequestType.command ↦ some (command_receive_from_proto p)
  | _ ↦ none
]

-- and every request that is a query.
unfoldable pub deliver_query : Request → Option QueryReceive
deliver_query p = elim p.request_type [
  | RequestType.query ↦ some (query_receive_from_proto p)
  | _ ↦ none
]
