-- ===== src/Client/Shortcuts/Defaults.antt =====
-- The default channel: a message that was built has a channel of its own.
use kubemq_cpp.Base.{◌≡◌, refl, false, Bytes, is_empty, ◌&&◌, not, if_lem}
use kubemq_cpp.Base.Int.{ℤ, is_pos}
use kubemq_cpp.Status.{failed}
use kubemq_cpp.Message.Tags.{Tags}
use kubemq_cpp.Message.Content.{first_non_empty}
use kubemq_cpp.Message.Event
use kubemq_cpp.Message.EventStore
use kubemq_cpp.Message.Command
use kubemq_cpp.Message.Query
use kubemq_cpp.Message.QueueMessage
use kubemq_cpp.Options.Setters.{set_default_channel}
use kubemq_cpp.Transport.Grpc.Stub.{Stub}
use kubemq_cpp.Client.{
  Client, check_closed, admit, admit_command, wire_event, wire_command, wire_queue_message,
  send_event, send_command, send_queue_message,
}
use kubemq_cpp.Client.Sends.{
  send_event_store, send_query, wire_event_store, wire_query, admit_query,
}
use kubemq_cpp.Client.Shortcuts.{
  if_built, publish_event, publish_event_store, send_command_simple, send_query_simple,
  send_queue_message_simple,
}

-- The client with another default channel.
abbrev pub with_default : {W C X : Type 0} → Bytes → Client W C X → Client W C X
with_default d c = record c { opts = set_default_channel d c.opts }

module _ {W C X S : Type 0} (stub : Stub W S) (uuid d : Bytes) (c : Client W C X) (w : W) where
  send_event-with_default :
      (e : Event.Event)
      → is_empty e.channel ≡ false
      → send_event stub.send_event uuid (with_default d c) e w
        ≡ send_event stub.send_event uuid c e w
  unfolding send_event wire_event admit check_closed first_non_empty set_default_channel
  send_event-with_default e h = rw h refl

  send_event_store-with_default :
      (e : EventStore.EventStore)
      → is_empty e.channel ≡ false
      → send_event_store stub.send_event uuid (with_default d c) e w
        ≡ send_event_store stub.send_event uuid c e w
  unfolding send_event_store wire_event_store admit check_closed first_non_empty set_default_channel
  send_event_store-with_default e h = rw h refl

  send_command-with_default :
      (m : Command.Command)
      → is_empty m.channel ≡ false
      → send_command stub.send_request uuid (with_default d c) m w
        ≡ send_command stub.send_request uuid c m w
  unfolding send_command wire_command admit_command check_closed first_non_empty set_default_channel
  send_command-with_default m h = rw h refl

  send_query-with_default :
      (q : Query.Query)
      → is_empty q.channel ≡ false
      → send_query stub.send_request uuid (with_default d c) q w
        ≡ send_query stub.send_request uuid c q w
  unfolding send_query wire_query admit_query check_closed first_non_empty set_default_channel
  send_query-with_default q h = rw h refl

  send_queue_message-with_default :
      (m : QueueMessage.QueueMessage)
      → is_empty m.channel ≡ false
      → send_queue_message stub.send_queue_message (with_default d c) m w
        ≡ send_queue_message stub.send_queue_message c m w
  unfolding send_queue_message wire_queue_message admit check_closed first_non_empty
      set_default_channel
  send_queue_message-with_default m h = rw h refl

  built_event :
      (b : Event.Builder)
      → if_built
          (λ s. s)
          (Event.build uuid b)
          (send_event stub.send_event uuid (with_default d c))
          w
        ≡ if_built (λ s. s) (Event.build uuid b) (send_event stub.send_event uuid c) w
  unfolding Event.build if_built
  built_event b =
      if_lem
        (λ r.
          if_built (λ s. s) r (send_event stub.send_event uuid (with_default d c)) w
          ≡ if_built (λ s. s) r (send_event stub.send_event uuid c) w)
        (is_empty b.channel) (λ _. refl)
        (λ h.
          if_lem
            (λ r.
              if_built (λ s. s) r (send_event stub.send_event uuid (with_default d c)) w
              ≡ if_built (λ s. s) r (send_event stub.send_event uuid c) w)
            (is_empty b.body && is_empty b.metadata) (λ _. refl) (λ _. send_event-with_default _ h))

  built_event_store :
      (b : EventStore.Builder)
      → if_built failed
          (EventStore.build uuid b)
          (send_event_store stub.send_event uuid (with_default d c))
          w
        ≡ if_built failed (EventStore.build uuid b) (send_event_store stub.send_event uuid c) w
  unfolding EventStore.build if_built
  built_event_store b =
      if_lem
        (λ r.
          if_built failed r (send_event_store stub.send_event uuid (with_default d c)) w
          ≡ if_built failed r (send_event_store stub.send_event uuid c) w)
        (is_empty b.channel) (λ _. refl)
        (λ h.
          if_lem
            (λ r.
              if_built failed r (send_event_store stub.send_event uuid (with_default d c)) w
              ≡ if_built failed r (send_event_store stub.send_event uuid c) w)
            (is_empty b.body && is_empty b.metadata) (λ _. refl)
            (λ _. send_event_store-with_default _ h))

  built_command :
      (b : Command.Builder)
      → if_built failed
          (Command.build uuid b)
          (send_command stub.send_request uuid (with_default d c))
          w
        ≡ if_built failed (Command.build uuid b) (send_command stub.send_request uuid c) w
  unfolding Command.build if_built
  built_command b =
      if_lem
        (λ r.
          if_built failed r (send_command stub.send_request uuid (with_default d c)) w
          ≡ if_built failed r (send_command stub.send_request uuid c) w)
        (is_empty b.channel) (λ _. refl)
        (λ h.
          if_lem
            (λ r.
              if_built failed r (send_command stub.send_request uuid (with_default d c)) w
              ≡ if_built failed r (send_command stub.send_request uuid c) w)
            (is_empty b.body && is_empty b.metadata) (λ _. refl)
            (λ _.
              if_lem
                (λ r.
                  if_built failed r (send_command stub.send_request uuid (with_default d c)) w
                  ≡ if_built failed r (send_command stub.send_request uuid c) w)
                (not (is_pos b.timeout)) (λ _. refl) (λ _. send_command-with_default _ h)))

  built_query :
      (b : Query.Builder)
      → if_built failed
          (Query.build uuid b)
          (send_query stub.send_request uuid (with_default d c))
          w
        ≡ if_built failed (Query.build uuid b) (send_query stub.send_request uuid c) w
  unfolding Query.build if_built
  built_query b =
      if_lem
        (λ r.
          if_built failed r (send_query stub.send_request uuid (with_default d c)) w
          ≡ if_built failed r (send_query stub.send_request uuid c) w)
        (is_empty b.channel) (λ _. refl)
        (λ h.
          if_lem
            (λ r.
              if_built failed r (send_query stub.send_request uuid (with_default d c)) w
              ≡ if_built failed r (send_query stub.send_request uuid c) w)
            (is_empty b.body && is_empty b.metadata) (λ _. refl)
            (λ _.
              if_lem
                (λ r.
                  if_built failed r (send_query stub.send_request uuid (with_default d c)) w
                  ≡ if_built failed r (send_query stub.send_request uuid c) w)
                (not (is_pos b.timeout)) (λ _. refl) (λ _. send_query-with_default _ h)))

  built_queue_message :
      (b : QueueMessage.Builder)
      → if_built failed
          (QueueMessage.build uuid b)
          (send_queue_message stub.send_queue_message (with_default d c))
          w
        ≡ if_built failed
            (QueueMessage.build uuid b)
            (send_queue_message stub.send_queue_message c)
            w
  unfolding QueueMessage.build if_built
  built_queue_message b =
      if_lem
        (λ r.
          if_built failed r (send_queue_message stub.send_queue_message (with_default d c)) w
          ≡ if_built failed r (send_queue_message stub.send_queue_message c) w)
        (is_empty b.channel) (λ _. refl)
        (λ h.
          if_lem
            (λ r.
              if_built failed r (send_queue_message stub.send_queue_message (with_default d c)) w
              ≡ if_built failed r (send_queue_message stub.send_queue_message c) w)
            (is_empty b.body && is_empty b.metadata) (λ _. refl)
            (λ _. send_queue_message-with_default _ h))

  -- The default channel of the options is of no use to the calls that build a message and send it: each
  -- of the five has the same result and effect whatever the default channel is, since the builder
  -- refuses an empty channel before the default could take its place.
  pub shortcuts-with_default :
      (channel body metadata : Bytes) (tags : Tags) (timeout expiration delay : ℤ)
      → (publish_event uuid (with_default d c) stub.send_event channel body metadata tags w
          ≡ publish_event uuid c stub.send_event channel body metadata tags w)
        × (publish_event_store uuid (with_default d c) stub.send_event channel body metadata tags w
            ≡ publish_event_store uuid c stub.send_event channel body metadata tags w)
        × (send_command_simple uuid (with_default d c) stub.send_request channel body timeout w
            ≡ send_command_simple uuid c stub.send_request channel body timeout w)
        × (send_query_simple uuid (with_default d c) stub.send_request channel body timeout w
            ≡ send_query_simple uuid c stub.send_request channel body timeout w)
        × (send_queue_message_simple uuid
              (with_default d c)
              stub.send_queue_message
              channel
              body
              expiration
              delay
              w
            ≡ send_queue_message_simple uuid c stub.send_queue_message channel body expiration delay
                w)
  unfolding publish_event publish_event_store send_command_simple send_query_simple
      send_queue_message_simple
  shortcuts-with_default channel body metadata tags timeout expiration delay =
      (built_event _, built_event_store _, built_command _, built_query _, built_queue_message _)
