-- ===== src/Transport/Grpc/Tests.antt =====
-- A server that counts its calls and accepts them all.
use kubemq_cpp.Base.{ℕ, ◌+◌, ◌≡◌, refl, true, false, none, some, [], ◌∷◌, is_empty, Bytes, Option}
use kubemq_cpp.Base.Int.{ℤ, pos}
use kubemq_cpp.Status.{failed, client_closed, ok_status}
use kubemq_cpp.Middleware.Auth.{Metadata, inject_auth_token}
use kubemq_cpp.Middleware.ErrorMapper.{StatusCode, GrpcStatus}
use kubemq_cpp.Transport.StateMachine.{ConnectionState}
use kubemq_cpp.Transport.StateMachine.Callbacks.{Event, registered}
use kubemq_cpp.Transport.Grpc.{
  Rpc, Transport, send_event, send_event_store, send_request, send_response, send_queue_message,
  apply_auth,
}
use kubemq_cpp.Transport.Grpc.Closed.{closed_calls}
use kubemq_cpp.Transport.Grpc.Calls.{
  ping, send_queue_messages_batch, receive_queue_messages, ack_all_queue_messages,
}
use kubemq_cpp.Transport.Grpc.Streams.{
  open_event_stream, subscribe_to_events, subscribe_to_requests, open_queue_upstream,
  open_queue_downstream,
}
use kubemq_cpp.Transport.Grpc.Stub.{Stub}
use kubemq_cpp.Transport.Grpc.Connect.{Network}
use kubemq_cpp.Wire.Simple.{
  Subscribe, SubscribeType, QueueMessagesBatchRequest, ReceiveQueueMessagesRequest,
  AckAllQueueMessagesRequest,
}
use kubemq_cpp.Wire
use kubemq_cpp.Wire.{
  Result, Request, Response, SendQueueMessageResult, new_request, new_response, new_queue_message,
}

abbrev pub good : GrpcStatus
good = record { error_code = StatusCode.ok; error_message = [] }

abbrev pub accept_event : Rpc ℕ Wire.Event Result
accept_event timeout metadata event n =
    (n + 1, good, record { event_id = event.event_id; sent = true; error = [] })

abbrev pub accept_request : Rpc ℕ Request Response
accept_request timeout metadata request n = (n + 1, good, new_response)

abbrev pub accept_message : Rpc ℕ Wire.QueueMessage SendQueueMessageResult
accept_message timeout metadata message n = (
  n + 1,
  good,
  record {
    message_id = message.message_id;
    sent_at = pos 1;
    expiration_at = pos 0;
    delayed_to = pos 0;
    is_error = false;
    error = [];
  },
)

abbrev pub open_transport : Transport ℕ Event
open_transport = record {
  closed = false;
  auth_token = [];
  credential_provider = none;
  state_machine = some (registered ConnectionState.ready false);
}

abbrev closed_transport : Transport ℕ Event
closed_transport = record open_transport { closed = true }

abbrev event : Wire.Event
event = record {
  event_id = 1 ∷ [];
  client_id = [];
  channel = 2 ∷ [];
  metadata = [];
  body = 3 ∷ [];
  store = false;
  tags = [];
}

-- The requests of an empty client.
abbrev pub batch_request : QueueMessagesBatchRequest
batch_request = record { batch_id = []; messages = [] }

abbrev pub receive_request : ReceiveQueueMessagesRequest
receive_request = record {
  request_id = [];
  client_id = [];
  channel = [];
  max_number_of_messages = pos 1;
  wait_time_seconds = pos 5;
  is_peak = false;
}

abbrev pub ack_request : AckAllQueueMessagesRequest
ack_request = record { request_id = []; client_id = []; channel = []; wait_time_seconds = pos 0 }

abbrev pub events_subscription : Subscribe
events_subscription = record {
  subscribe_type = SubscribeType.events;
  client_id = [];
  channel = 97 ∷ [];
  group = [];
  events_store_type = pos 0;
  events_store_type_value = pos 0;
}

-- A server that counts the calls and answers them all; a stream is its number.
abbrev pub accept : Stub ℕ ℕ
accept = record {
  ping = λ timeout metadata request n. (
    n + 1,
    good,
    record {
      host = 1 ∷ [];
      version = 2 ∷ [];
      server_start_time = pos 3;
      server_up_time_seconds = pos 4;
    },
  );
  send_event = accept_event;
  send_request = accept_request;
  send_response = λ timeout metadata response n. (n + 1, good, tt);
  send_queue_message = accept_message;
  send_queue_messages_batch = λ timeout metadata request n.
      (n + 1, good, record { batch_id = request.batch_id; results = []; have_errors = false });
  receive_queue_messages = λ timeout metadata request n. (
    n + 1,
    good,
    record {
      request_id = request.request_id;
      messages = [];
      messages_received = pos 0;
      messages_expired = pos 0;
      is_peak = request.is_peak;
      is_error = false;
      error = [];
    },
  );
  ack_all_queue_messages = λ timeout metadata request n. (
    n + 1,
    good,
    record { request_id = request.request_id; affected_messages = 0; is_error = false; error = [] },
  );
  send_events_stream = λ metadata request n. (n + 1, some n);
  subscribe_to_events = λ metadata request n. (n + 1, some n);
  subscribe_to_requests = λ metadata request n. (n + 1, some n);
  queues_upstream = λ metadata request n. (n + 1, some n);
  queues_downstream = λ metadata request n. (n + 1, some n);
}

closed_calls_example :
    ((send_event accept_event closed_transport event 0 ≡ (0, client_closed))
      × (send_event_store accept_event closed_transport event 0 ≡ (0, failed client_closed))
      × (send_request accept_request closed_transport new_request 0 ≡ (0, failed client_closed))
      × (send_response accept.send_response closed_transport new_response 0 ≡ (0, client_closed)))
    × ((send_queue_message accept_message closed_transport new_queue_message 0
          ≡ (0, failed client_closed))
        × (send_queue_messages_batch accept.send_queue_messages_batch closed_transport batch_request
              0
            ≡ (0, failed client_closed))
        × (receive_queue_messages accept.receive_queue_messages closed_transport receive_request 0
            ≡ (0, failed client_closed))
        × (ack_all_queue_messages accept.ack_all_queue_messages closed_transport ack_request 0
            ≡ (0, failed client_closed)))
    × ((open_event_stream accept.send_events_stream closed_transport 0 ≡ (0, failed client_closed))
        × (subscribe_to_events accept.subscribe_to_events closed_transport events_subscription 0
            ≡ (0, failed client_closed))
        × (subscribe_to_requests accept.subscribe_to_requests closed_transport events_subscription 0
            ≡ (0, failed client_closed))
        × (open_queue_upstream accept.queues_upstream closed_transport 0
            ≡ (0, failed client_closed))
        × (open_queue_downstream accept.queues_downstream closed_transport 0
            ≡ (0, failed client_closed)))
    × (ping accept.ping (pos 10000) closed_transport 0 ≡ (0, failed client_closed))
closed_calls_example =
    closed_calls closed_transport 0 accept event new_request new_response new_queue_message
      batch_request receive_request ack_request events_subscription (pos 10000) refl

-- A network on which everything works.
abbrev pub network : Network ℕ
network = record {
  create_channel = λ address creds arguments n. (n + 1, true);
  new_stub = λ n. (n + 1, true);
  wait_for_connected = λ timeout n. (n + 1, true);
}

abbrev stoi : Bytes → Option ℤ
stoi text = some (pos 50000)

abbrev no_metadata : Metadata
no_metadata = []

authorized : apply_auth open_transport 0 ≡ (0, some no_metadata, ok_status)
unfolding apply_auth inject_auth_token is_empty
authorized = refl
