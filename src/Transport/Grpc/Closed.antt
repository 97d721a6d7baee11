-- ===== src/Transport/Grpc/Closed.antt =====
-- A transport that is closed, or that has no credentials, calls nothing.
use kubemq_cpp.Base.{◌≡◌, refl, inl, inr, true, Option, [], Bool-cases}
use kubemq_cpp.Status.{Status, failed, is_ok_code, client_closed}
use kubemq_cpp.Transport.StateMachine.{ConnectionState}
use kubemq_cpp.Transport.Grpc.{
  ChannelState, Transport, check_closed, guarded, send_event, send_event_store, send_request,
  send_response, send_queue_message, close, state,
}
use kubemq_cpp.Transport.Grpc.Calls.{
  ping, send_queue_messages_batch, receive_queue_messages, ack_all_queue_messages,
}
use kubemq_cpp.Transport.Grpc.Streams.{
  open_event_stream, subscribe_to_events, subscribe_to_requests, open_queue_upstream,
  open_queue_downstream,
}
use kubemq_cpp.Transport.Grpc.Stub.{Stub}
use kubemq_cpp.Base.Int.{ℤ}
use kubemq_cpp.Wire.Simple.{
  Subscribe, QueueMessagesBatchRequest, ReceiveQueueMessagesRequest, AckAllQueueMessagesRequest,
}
use kubemq_cpp.Wire
use kubemq_cpp.Wire.{Request, Response}

module _ {W C : Type 0} (t : Transport W C) (w : W) where
  guarded_closed :
      {R : Type 0} (refuse : Status → R) (body : _ → W → W × R)
      → t.closed ≡ true
      → guarded refuse t w body ≡ (w, refuse client_closed)
  unfolding guarded check_closed is_ok_code
  guarded_closed refuse body h = rw h refl

  -- After `Close` every call of the transport returns the closed error, those that open a stream
  -- included; the server is not called, nor is the credential provider: the world is as before.
  pub closed_calls :
      {S : Type 0} (stub : Stub W S) (event : Wire.Event) (request : Request) (response : Response)
      (message : Wire.QueueMessage) (batch : QueueMessagesBatchRequest)
      (receive : ReceiveQueueMessagesRequest) (ack : AckAllQueueMessagesRequest) (sub : Subscribe)
      (timeout : ℤ)
      → t.closed ≡ true
      → ((send_event stub.send_event t event w ≡ (w, client_closed))
          × (send_event_store stub.send_event t event w ≡ (w, failed client_closed))
          × (send_request stub.send_request t request w ≡ (w, failed client_closed))
          × (send_response stub.send_response t response w ≡ (w, client_closed)))
        × ((send_queue_message stub.send_queue_message t message w ≡ (w, failed client_closed))
            × (send_queue_messages_batch stub.send_queue_messages_batch t batch w
                ≡ (w, failed client_closed))
            × (receive_queue_messages stub.receive_queue_messages t receive w
                ≡ (w, failed client_closed))
            × (ack_all_queue_messages stub.ack_all_queue_messages t ack w
                ≡ (w, failed client_closed)))
        × ((open_event_stream stub.send_events_stream t w ≡ (w, failed client_closed))
            × (subscribe_to_events stub.subscribe_to_events t sub w ≡ (w, failed client_closed))
            × (subscribe_to_requests stub.subscribe_to_requests t sub w ≡ (w, failed client_closed))
            × (open_queue_upstream stub.queues_upstream t w ≡ (w, failed client_closed))
            × (open_queue_downstream stub.queues_downstream t w ≡ (w, failed client_closed)))
        × (ping stub.ping timeout t w ≡ (w, failed client_closed))
  unfolding send_event send_event_store send_request send_response send_queue_message
      send_queue_messages_batch receive_queue_messages ack_all_queue_messages open_event_stream
      subscribe_to_events subscribe_to_requests open_queue_upstream open_queue_downstream ping
  closed_calls stub event request response message batch receive ack sub timeout h = (
    (guarded_closed _ _ h, guarded_closed _ _ h, guarded_closed _ _ h, guarded_closed _ _ h),
    (guarded_closed _ _ h, guarded_closed _ _ h, guarded_closed _ _ h, guarded_closed _ _ h),
    (
      guarded_closed _ _ h,
      guarded_closed _ _ h,
      guarded_closed _ _ h,
      guarded_closed _ _ h,
      guarded_closed _ _ h,
    ),
    guarded_closed _ _ h,
  )

module _ {W C : Type 0} (t : Transport W C) where
  close-closed : (close t).0.closed ≡ true
  unfolding close
  close-closed = elim (Bool-cases t.closed) [ inl h ↦ rw h refl | inr h ↦ rw h refl ]

  close_closed : t.closed ≡ true → close t ≡ (t, [])
  unfolding close
  close_closed h = rw h refl

  state_closed :
      (channel : Option ChannelState) → t.closed ≡ true → state t channel ≡ ConnectionState.closed
  unfolding state
  state_closed channel h = rw h refl

module _ {W C : Type 0} (t : Transport W C) where
  -- `Close` closes the transport whatever its state: its state is closed afterwards, and a second
  -- `Close` changes nothing and runs no callback.
  pub close_twice :
      (channel : Option ChannelState)
      → (state (close t).0 channel ≡ ConnectionState.closed)
        × (close (close t).0 ≡ ((close t).0, []))
  close_twice channel =
      (state_closed (close t).0 channel (close-closed t), close_closed (close t).0 (close-closed t))
