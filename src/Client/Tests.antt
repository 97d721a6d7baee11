-- ===== src/Client/Tests.antt =====
-- A client that is open, and what it sends.
mod Calls
use kubemq_cpp.Base.{ℕ, ◌≡◌, false, none, [], ◌∷◌}
use kubemq_cpp.Base.Int.{pos}
use kubemq_cpp.Status.{has_value, client_closed}
use kubemq_cpp.Options.{new_options}
use kubemq_cpp.Message.Event.{Event}
use kubemq_cpp.Message.Command.{Command}
use kubemq_cpp.Message.QueueMessage.{QueueMessage, no_policy, no_attributes}
use kubemq_cpp.Transport.StateMachine.{ConnectionState}
use kubemq_cpp.Transport.StateMachine.Callbacks as Machine
use kubemq_cpp.Transport.Grpc
use kubemq_cpp.Transport.Grpc.Tests.{accept_event, accept_request, accept_message, open_transport}
use kubemq_cpp.Client.{
  Client, send_event, send_command, send_queue_message, wire_command, wire_queue_message,
  command_result, queue_result, close, state,
}
use kubemq_cpp.Client.Admission.{send_command_lem, send_queue_message_lem}
use kubemq_cpp.Client.Life.{close_lem}

abbrev client : Client ℕ Machine.Event ℕ
client = record {
  transport = open_transport;
  opts = new_options;
  closed = false;
  active_contexts = 1 ∷ 2 ∷ [];
}

abbrev event : Event
event = record {
  id = [];
  channel = 97 ∷ [];
  metadata = [];
  body = 3 ∷ [];
  client_id = [];
  tags = [];
}

close_example :
    (state (close client).0 none ≡ ConnectionState.closed)
    × (close (close client).0 ≡ ((close client).0, [], []))
    × (send_event accept_event (5 ∷ []) (close client).0 event 0 ≡ (0, client_closed))
close_example = close_lem client none accept_event (5 ∷ []) event 0
