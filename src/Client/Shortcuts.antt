-- ===== src/Client/Shortcuts.antt =====
-- src/client_events.cc, src/client_events_store.cc, src/client_commands.cc, src/client_queries.cc and
-- src/client_queues.cc: the calls that build a message and send it. `uuid` is the identifier that the
-- builder makes; a built message has one, so that the send makes none that is used.
pub mod Defaults
use kubemq_cpp.Base.{Bytes, if◌then◌else◌}
use kubemq_cpp.Base.Int.{ℤ, is_pos}
use kubemq_cpp.Status.{Status, StatusOr, value, failed}
use kubemq_cpp.Message.Tags.{Tags}
use kubemq_cpp.Message.Event
use kubemq_cpp.Message.EventStore
use kubemq_cpp.Message.Command
use kubemq_cpp.Message.Query
use kubemq_cpp.Message.QueueMessage
use kubemq_cpp.Convert.Requests.{CommandResponse, QueryResponse}
use kubemq_cpp.Convert.Queues.{QueueSendResult}
use kubemq_cpp.Transport.Grpc.{Rpc, EventStoreResult}
use kubemq_cpp.Client.{Client, send_event, send_command, send_queue_message}
use kubemq_cpp.Client.Sends.{send_event_store, send_query}
use kubemq_cpp.Wire
use kubemq_cpp.Wire.{Result, Request, Response, SendQueueMessageResult}

-- `if (!m_or.ok()) return m_or.status(); return Send(*m_or);`
unfoldable pub if_built : {A W R : Type 0} → (Status → R) → StatusOr A → (A → W → W × R) → W → W × R
if_built refuse (value a) send w = send a w
if_built refuse (failed s) send w = (w, refuse s)

unfoldable pub set_expiration : ℤ → QueueMessage.Builder → QueueMessage.Builder
set_expiration n b = if is_pos n then QueueMessage.set_expiration_seconds n b else b

unfoldable pub set_delay : ℤ → QueueMessage.Builder → QueueMessage.Builder
set_delay n b = if is_pos n then QueueMessage.set_delay_seconds n b else b

module _ {W C X : Type 0} (uuid : Bytes) (c : Client W C X) where
  unfoldable pub publish_event :
      Rpc W Wire.Event Result → Bytes → Bytes → Bytes → Tags → W → W × Status
  publish_event rpc channel body metadata tags w =
      if_built (λ s. s)
        (Event.build uuid (
          Event.set_tags tags (
            Event.set_metadata metadata
              (Event.set_body body (Event.set_channel channel Event.new_builder)))))
        (send_event rpc uuid c) w

  unfoldable pub publish_event_store :
      Rpc W Wire.Event Result → Bytes → Bytes → Bytes → Tags → W → W × StatusOr EventStoreResult
  publish_event_store rpc channel body metadata tags w =
      if_built failed
        (EventStore.build uuid (
          EventStore.set_tags tags (
            EventStore.set_metadata metadata
              (EventStore.set_body body (EventStore.set_channel channel EventStore.new_builder)))))
        (send_event_store rpc uuid c) w

  unfoldable pub send_command_simple :
      Rpc W Request Response → Bytes → Bytes → ℤ → W → W × StatusOr CommandResponse
  send_command_simple rpc channel body timeout w =
      if_built failed
        (Command.build uuid (
          Command.set_timeout timeout
            (Command.set_body body (Command.set_channel channel Command.new_builder))))
        (send_command rpc uuid c) w

  unfoldable pub send_query_simple :
      Rpc W Request Response → Bytes → Bytes → ℤ → W → W × StatusOr QueryResponse
  send_query_simple rpc channel body timeout w =
      if_built failed
        (Query.build uuid (
          Query.set_timeout timeout
            (Query.set_body body (Query.set_channel channel Query.new_builder))))
        (send_query rpc uuid c) w

  unfoldable pub send_queue_message_simple :
      Rpc W Wire.QueueMessage SendQueueMessageResult
      → Bytes
      → Bytes
      → ℤ
      → ℤ
      → W
      → W × StatusOr QueueSendResult
  send_queue_message_simple rpc channel body expiration_seconds delay_seconds w =
      if_built failed
        (QueueMessage.build uuid (
          set_delay delay_seconds (
            set_expiration expiration_seconds (
              QueueMessage.set_body body
                (QueueMessage.set_channel channel QueueMessage.new_builder)))))
        (send_queue_message rpc c) w
