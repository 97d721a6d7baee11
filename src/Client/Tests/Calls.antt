-- ===== src/Client/Tests/Calls.antt =====
-- The other calls of a client, on concrete inputs.
use kubemq_cpp.Base.{◌⊎◌, ℕ, ◌≡◌, ◌≢◌, false, none, some, [], ◌∷◌, Bytes, bytes}
use kubemq_cpp.Base.Int.{pos}
use kubemq_cpp.Status.{is_ok, has_value}
use kubemq_cpp.Options.{new_options}
use kubemq_cpp.Message.Content.{first_non_empty}
use kubemq_cpp.Message.EventStore.{EventStore}
use kubemq_cpp.Message.Query.{Query}
use kubemq_cpp.Message.QueueMessage.{QueueMessage, no_policy, no_attributes}
use kubemq_cpp.Transport.StateMachine.Callbacks as Machine
use kubemq_cpp.Transport.Grpc
use kubemq_cpp.Transport.Grpc.Tests.{accept, accept_event, accept_request, network, open_transport}
use kubemq_cpp.Client.{Client}
use kubemq_cpp.Client.Admission.{IsAdmitted, Handed}
use kubemq_cpp.Client.Sends.{send_event_store, wire_event_store, send_query}
use kubemq_cpp.Client.QuerySent.{IsAsked, send_query_lem}
use kubemq_cpp.Client.Sent.{send_event_store_lem}
use kubemq_cpp.Client.Queues.{send_queue_messages}
use kubemq_cpp.Client.Queues.Batch.{IsBatch, send_queue_messages_lem}
use kubemq_cpp.Client.Channels.{create_channel, delete_channel, queues_type}
use kubemq_cpp.Client.Channels.Kinds.{IsKind, asked, manage_channel_lem}
use kubemq_cpp.Client.Shortcuts.{
  publish_event, publish_event_store, send_command_simple, send_query_simple,
  send_queue_message_simple,
}
use kubemq_cpp.Client.Shortcuts.Defaults.{with_default, shortcuts-with_default}
use kubemq_cpp.Client.Create.{StateCallbacks, create}
use kubemq_cpp.Client.Create.Created.{IsCreated, create_lem}

abbrev client : Client ℕ Machine.Event ℕ
client = record {
  transport = open_transport;
  opts = new_options;
  closed = false;
  active_contexts = [];
}

abbrev stored : EventStore
stored = record {
  id = [];
  channel = 97 ∷ [];
  metadata = [];
  body = 3 ∷ [];
  client_id = [];
  tags = [];
}

send_event_store_example :
    Handed has_value
      (IsAdmitted false (first_non_empty (97 ∷ []) []) [] (3 ∷ []))
      0
      (Grpc.send_event_store accept_event open_transport
        (wire_event_store (5 ∷ []) client stored)
        0)
      (send_event_store accept_event (5 ∷ []) client stored 0)
send_event_store_example = send_event_store_lem client 0 accept_event (5 ∷ []) stored

abbrev query : Query
query = record {
  id = [];
  channel = 97 ∷ [];
  metadata = [];
  body = 3 ∷ [];
  timeout = pos 0;
  client_id = [];
  cache_key = 1 ∷ [];
  cache_ttl = pos 2500;
  tags = [];
}

send_query_example :
    let admitted = IsAdmitted false (first_non_empty (97 ∷ []) []) [] (3 ∷ []) in
    let out = send_query accept_request (5 ∷ []) client query 0 in
    (admitted × IsAsked client 0 accept_request (5 ∷ []) query out)
    ⊎ (¬ admitted × ((out.0 ≡ 0) × (has_value out.1 ≡ false)))
send_query_example = send_query_lem client 0 accept_request (5 ∷ []) query

-- A message that may be sent, and one that may not.
abbrev message : Bytes → QueueMessage
message body = record {
  id = 1 ∷ [];
  channel = 97 ∷ [];
  metadata = [];
  body = body;
  client_id = [];
  tags = [];
  policy = no_policy;
  attributes = no_attributes;
}

send_queue_messages_example :
    IsBatch client accept.send_queue_messages_batch
      (5 ∷ [])
      (message (3 ∷ []) ∷ message [] ∷ [])
      0
      (send_queue_messages accept.send_queue_messages_batch
        (5 ∷ [])
        client
        (message (3 ∷ []) ∷ message [] ∷ [])
        0)
send_queue_messages_example =
    send_queue_messages_lem client accept.send_queue_messages_batch (5 ∷ [])
      (message (3 ∷ []) ∷ message [] ∷ []) 0

manage_channel_example :
    Handed is_ok
      ((client.closed ≡ false) × ((◌≢◌ {A = Bytes} (113 ∷ []) []) × IsKind queues_type))
      0
      (asked accept_request
        (5 ∷ [])
        client
        (113 ∷ [])
        queues_type
        0
        (bytes "CreateChannel")
        (bytes "create-channel"))
      (create_channel accept_request (5 ∷ []) client (113 ∷ []) queues_type 0)
    × Handed is_ok
        ((client.closed ≡ false) × ((◌≢◌ {A = Bytes} (113 ∷ []) []) × IsKind queues_type))
        0
        (asked accept_request
          (5 ∷ [])
          client
          (113 ∷ [])
          queues_type
          0
          (bytes "DeleteChannel")
          (bytes "delete-channel"))
        (delete_channel accept_request (5 ∷ []) client (113 ∷ []) queues_type 0)
manage_channel_example = manage_channel_lem accept_request (5 ∷ []) client (113 ∷ []) queues_type 0

shortcuts_example :
    (publish_event (5 ∷ []) (with_default (97 ∷ []) client) accept.send_event [] (3 ∷ []) [] [] 0
      ≡ publish_event (5 ∷ []) client accept.send_event [] (3 ∷ []) [] [] 0)
    × (publish_event_store
          (5 ∷ [])
          (with_default (97 ∷ []) client)
          accept.send_event
          []
          (3 ∷ [])
          []
          []
          0
        ≡ publish_event_store (5 ∷ []) client accept.send_event [] (3 ∷ []) [] [] 0)
    × (send_command_simple
          (5 ∷ [])
          (with_default (97 ∷ []) client)
          accept.send_request
          []
          (3 ∷ [])
          (pos 1)
          0
        ≡ send_command_simple (5 ∷ []) client accept.send_request [] (3 ∷ []) (pos 1) 0)
    × (send_query_simple
          (5 ∷ [])
          (with_default (97 ∷ []) client)
          accept.send_request
          []
          (3 ∷ [])
          (pos 1)
          0
        ≡ send_query_simple (5 ∷ []) client accept.send_request [] (3 ∷ []) (pos 1) 0)
    × (send_queue_message_simple
          (5 ∷ [])
          (with_default (97 ∷ []) client)
          accept.send_queue_message
          []
          (3 ∷ [])
          (pos 0)
          (pos 2)
          0
        ≡ send_queue_message_simple
            (5 ∷ [])
            client
            accept.send_queue_message
            []
            (3 ∷ [])
            (pos 0)
            (pos 2)
            0)
shortcuts_example =
    shortcuts-with_default accept (5 ∷ []) (97 ∷ []) client 0 [] (3 ∷ []) [] [] (pos 1) (pos 0)
      (pos 2)

abbrev callbacks : StateCallbacks Machine.Event
callbacks = record {
  on_connected = some Machine.Event.connected;
  on_disconnected = none;
  on_reconnecting = none;
  on_reconnected = none;
  on_closed = some Machine.Event.closed;
}

made : ◌≢◌ {A = Bytes} (5 ∷ []) []
made e = cc

create_example :
    IsCreated {X = ℕ} new_options callbacks
      (create network (λ path. none) accept.ping (5 ∷ []) new_options none callbacks 0)
create_example =
    create_lem ℕ network (λ path. none) accept.ping (5 ∷ []) new_options none callbacks 0 made
