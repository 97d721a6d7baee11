-- ===== src/Convert/Tests.antt =====
-- A queue message and a command on their way.
use kubemq_cpp.Base.{ℕ, ◌≡◌, ◌≢◌, refl, none, inl, inr, [], ◌∷◌, Bytes, arith}
use kubemq_cpp.Base.Int.{pos, of_seconds}
use kubemq_cpp.Message.Content.{first_non_empty, IsComplete}
use kubemq_cpp.Message.Command.{Command}
use kubemq_cpp.Message.QueueMessage.{QueueMessage, no_attributes}
use kubemq_cpp.Convert.Requests.{command_to_proto, command_receive_from_proto}
use kubemq_cpp.Convert.RoundTrip.{command_round_trip}
use kubemq_cpp.Convert.Queues.{queue_message_to_proto, queue_message_from_proto, empty_message}
use kubemq_cpp.Convert.QueueTrip.{IsSendable, queue_message_round_trip, queue_message_lost}
use kubemq_cpp.Wire

abbrev order : QueueMessage
order = record {
  id = 1 ∷ [];
  channel = 2 ∷ [];
  metadata = [];
  body = 3 ∷ [];
  client_id = [];
  tags = [];
  policy = record {
    expiration_seconds = pos 60;
    delay_seconds = pos 0;
    max_receive_count = pos 3;
    max_receive_queue = 9 ∷ [];
  };
  attributes = no_attributes;
}

filled : (c : ℕ) (s : Bytes) → c ∷ s ≢ []
filled c s e = cc

order-IsSendable : IsSendable order
order-IsSendable = record {
  id_some = filled 1 [];
  complete = (filled 2 [], inl (filled 3 []));
  tags_map = tt;
  expiration = omega arith;
  delay = omega arith;
  receive_count = omega arith;
}

queue_message_example :
    queue_message_from_proto [] (queue_message_to_proto order (7 ∷ []))
    ≡ record order { client_id = first_non_empty [] (7 ∷ []); attributes = no_attributes }
queue_message_example = queue_message_round_trip order (7 ∷ []) [] order-IsSendable

-- A message of the server with an identifier but no content.
abbrev hollow : Wire.QueueMessage
hollow = record {
  message_id = 1 ∷ [];
  client_id = [];
  channel = 2 ∷ [];
  metadata = [];
  body = [];
  tags = [];
  attributes = none;
  policy = none;
}

hollow_incomplete : ¬ (IsComplete hollow.channel hollow.metadata hollow.body)
hollow_incomplete (_, content) = elim content [ inl e ↦ e refl | inr e ↦ e refl ]

queue_message_lost_example : queue_message_from_proto (5 ∷ []) hollow ≡ empty_message
queue_message_lost_example = queue_message_lost hollow (5 ∷ []) hollow_incomplete

abbrev ten_seconds : Command
ten_seconds = record {
  id = 1 ∷ [];
  channel = 2 ∷ [];
  metadata = [];
  body = 3 ∷ [];
  timeout = pos 10000;
  client_id = [];
  tags = (4 ∷ [], 5 ∷ []) ∷ [];
}

ten_seconds_tags : kubemq_cpp.Message.Tags.IsMap ten_seconds.tags
unfolding kubemq_cpp.Message.Tags.lookup
ten_seconds_tags = (refl, tt)

command_example : command_receive_from_proto (command_to_proto ten_seconds (7 ∷ [])) ≡ record {
  id = 1 ∷ [];
  client_id = first_non_empty [] (7 ∷ []);
  channel = 2 ∷ [];
  metadata = [];
  body = 3 ∷ [];
  response_to = [];
  timeout = of_seconds (pos 10000);
  tags = (4 ∷ [], 5 ∷ []) ∷ [];
}
command_example = command_round_trip ten_seconds (7 ∷ []) (omega arith) ten_seconds_tags
