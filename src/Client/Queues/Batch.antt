-- ===== src/Client/Queues/Batch.antt =====
-- A batch of queue messages is sent whole or not at all.
use mathlib.Core.Bool.{false≢true}
use kubemq_cpp.Base.{
  ◌≡◌, ◌≢◌, ◌↔◌, refl, sym, ◌∙◌, ◌⊎◌, inl, inr, true, false, List, [], ◌∷◌, map, Bytes, if_lem,
  Bool-cases,
}
use kubemq_cpp.Status.{StatusOr, has_value, is_ok, is_ok_code, ok_status}
use kubemq_cpp.Validation.Channel.{validate_channel_no_wildcard_lem}
use kubemq_cpp.Message.Content.{first_non_empty}
use kubemq_cpp.Message.QueueMessage.{QueueMessage}
use kubemq_cpp.Convert.Queues.{QueueSendResult}
use kubemq_cpp.Transport.Grpc.{Rpc}
use kubemq_cpp.Transport.Grpc.Calls
use kubemq_cpp.Client.{Client, check_closed, wire_queue_message}
use kubemq_cpp.Client.Admission.{IsAdmitted, Handed, and_then_iff, open_lem, validate_body-is_ok}
use kubemq_cpp.Client.Queues.{check_message, build_batch, send_queue_messages, batch_result}
use kubemq_cpp.Wire.Simple.{QueueMessagesBatchRequest, QueueMessagesBatchResponse}

module _ {W C X : Type 0} (c : Client W C X) where
  -- The message may be sent by an open client.
  abbrev pub Sendable : QueueMessage → Type 0
  Sendable m = IsAdmitted false (first_non_empty m.channel c.opts.default_channel) m.metadata m.body

  abbrev pub AllSendable : List QueueMessage → Type 0
  AllSendable [] = Unit
  AllSendable (m ∷ ms) = Sendable m × AllSendable ms

  check_message_lem : (m : QueueMessage) → (is_ok (check_message c m) ≡ true) ↔ Sendable m
  unfolding check_message
  check_message_lem m =
      let channel = first_non_empty m.channel c.opts.default_channel in
      let (to, of) =
        and_then_iff _ _ (validate_channel_no_wildcard_lem channel _)
          (validate_body-is_ok m.body m.metadata _) in
      (
        λ h.
            let ((name, star, greater), d) = to h in
            record {
              is_open = refl;
              is_channel = name;
              no_star = star;
              no_greater = greater;
              content = d;
            },
        λ r. of ((r.is_channel, r.no_star, r.no_greater), r.content),
      )

  -- The loop ends well exactly when every message may be sent, and then it has converted them all.
  build_batch_lem :
      (ms : List QueueMessage)
      → ((build_batch c ms ≡ (ok_status, map (wire_queue_message c) ms)) × AllSendable ms)
        ⊎ ((is_ok (build_batch c ms).0 ≡ false) × ¬ (AllSendable ms))
  unfolding build_batch
  build_batch_lem [] = inl (refl, tt)
  build_batch_lem (m ∷ ms) = elim (Bool-cases (is_ok (check_message c m))) [
    | inl good ↦ elim (build_batch_lem ms) [
      | inl (e, all) ↦ inl (rw (good, e) refl, ((check_message_lem m).0 good, all))
      | inr (bad, some_bad) ↦ inr (rw good bad, λ (p, q). some_bad q)
    ]
    | inr bad ↦ inr (rw bad bad, λ (p, q). false≢true (sym bad ∙ (check_message_lem m).1 p))
  ]

  -- The result of a batch is that of sending the messages, or it is an error.
  abbrev pub IsBatch :
      Rpc W QueueMessagesBatchRequest QueueMessagesBatchResponse
      → Bytes
      → List QueueMessage
      → W
      → W × StatusOr (List QueueSendResult)
      → Type 0
  IsBatch rpc uuid messages w out =
      let (w', r) =
        Calls.send_queue_messages_batch rpc c.transport
          record { batch_id = uuid; messages = map (wire_queue_message c) messages } w in
      Handed has_value ((c.closed ≡ false) × ((messages ≢ []) × AllSendable messages)) w
        (w', batch_result r) out

  -- `SendQueueMessages` sends a batch exactly when the client is open, there is a message, and every
  -- message may be sent: its channel (or the default one) is one to send to, and it has a body or
  -- metadata. The server then gets all the messages in their order, and the result is converted from its
  -- answer. Otherwise nothing is sent: the result is an error and the world is as before.
  pub send_queue_messages_lem :
      (rpc : Rpc W QueueMessagesBatchRequest QueueMessagesBatchResponse) (uuid : Bytes)
      (messages : List QueueMessage) (w : W)
      → IsBatch rpc uuid messages w (send_queue_messages rpc uuid c messages w)
  unfolding send_queue_messages is_ok_code
  send_queue_messages_lem rpc uuid [] w =
      if_lem (IsBatch rpc uuid [] w) (is_ok (check_closed c))
        (λ _. inr ((λ (_, (ne, _)). ne refl), refl, refl))
        (λ _. inr ((λ (_, (ne, _)). ne refl), refl, refl))
  send_queue_messages_lem rpc uuid (m ∷ ms) w = elim (build_batch_lem (m ∷ ms)) [
    | inl (e, all) ↦ rw e (
        if_lem (IsBatch rpc uuid (m ∷ ms) w) (is_ok (check_closed c))
          (λ good. inl (((open_lem c).0 good, ((λ e. cc), all)), refl))
          (λ bad. inr ((λ (o, _). false≢true (sym bad ∙ (open_lem c).1 o)), refl, refl)))
    | inr (bad, some_bad) ↦
        if_lem (IsBatch rpc uuid (m ∷ ms) w) (is_ok (check_closed c))
          (λ _. rw bad (inr ((λ (_, (_, all)). some_bad all), refl, refl)))
          (λ _. inr ((λ (_, (_, all)). some_bad all), refl, refl))
  ]
