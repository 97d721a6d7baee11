-- ===== src/Client/Sent.antt =====
-- When a stored event is sent, and a query admitted.
use kubemq_cpp.Base.{◌≡◌, ◌↔◌, refl, inl, true, Bytes, bytes}
use kubemq_cpp.Status.{failed, has_value, is_ok}
use kubemq_cpp.Message.Content.{first_non_empty}
use kubemq_cpp.Message.EventStore.{EventStore}
use kubemq_cpp.Message.Query.{Query}
use kubemq_cpp.Transport.Grpc
use kubemq_cpp.Transport.Grpc.{Rpc}
use kubemq_cpp.Client.{Client, admit}
use kubemq_cpp.Client.Admission.{IsAdmitted, Handed, handed, admit_lem, admit_request_lem}
use kubemq_cpp.Client.Sends.{send_event_store, wire_event_store, admit_query}
use kubemq_cpp.Wire
use kubemq_cpp.Wire.{Result, Request, Response}

module _ {W C X : Type 0} (c : Client W C X) (w : W) where
  -- `SendEventStore` hands an event to the transport, marked to be stored and with the channel, the
  -- client's name and the identifier filled in, exactly when the client is open, the channel (or the
  -- default one) is one to send to, and there is a body or metadata. Any other event is refused: the
  -- result is an error and the world is as before.
  pub send_event_store_lem :
      (rpc : Rpc W Wire.Event Result) (uuid : Bytes) (e : EventStore)
      → Handed has_value
          (IsAdmitted c.closed (first_non_empty e.channel c.opts.default_channel) e.metadata e.body)
          w
          (Grpc.send_event_store rpc c.transport (wire_event_store uuid c e) w)
          (send_event_store rpc uuid c e w)
  unfolding send_event_store
  send_event_store_lem rpc uuid e =
      let ch = first_non_empty e.channel c.opts.default_channel in
      let s = admit c ch e.metadata e.body (bytes "SendEventStore") in
      handed has_value (is_ok s) w _ (failed s) (admit_lem c ch e.metadata e.body _) (inl refl)

  pub admit_query_lem :
      (q : Query)
      → (is_ok (admit_query c q) ≡ true)
        ↔ IsAdmitted c.closed (first_non_empty q.channel c.opts.default_channel) q.metadata q.body
  unfolding admit_query
  admit_query_lem q =
      admit_request_lem c (first_non_empty q.channel c.opts.default_channel) q.metadata q.body _
        q.timeout
