-- ===== src/Client/Life.antt =====
-- The end of a client.
use kubemq_cpp.Base.{◌≡◌, refl, inl, inr, true, Option, [], Bytes, Bool-cases}
use kubemq_cpp.Status.{failed, is_ok_code, client_closed}
use kubemq_cpp.Message.Event.{Event}
use kubemq_cpp.Message.Command.{Command}
use kubemq_cpp.Message.QueueMessage.{QueueMessage}
use kubemq_cpp.Transport.StateMachine.{ConnectionState}
use kubemq_cpp.Transport.Grpc.{ChannelState, Rpc}
use kubemq_cpp.Client.{
  Client, check_closed, admit, admit_command, send_event, send_command, send_queue_message, close,
  state,
}
use kubemq_cpp.Wire
use kubemq_cpp.Wire.{Result, Request, Response, SendQueueMessageResult}

module _ {W C X : Type 0} (c : Client W C X) where
  close-closed : (close c).0.closed ≡ true
  unfolding close
  close-closed = elim (Bool-cases c.closed) [ inl h ↦ rw h refl | inr h ↦ rw h refl ]

  close_closed : c.closed ≡ true → close c ≡ (c, [], [])
  unfolding close
  close_closed h = rw h refl

  state_closed :
      (channel : Option ChannelState) → c.closed ≡ true → state c channel ≡ ConnectionState.closed
  unfolding state
  state_closed channel h = rw h refl

  -- On a closed client `SendEvent`, `SendCommand` and `SendQueueMessage` return the closed error, and the
  -- world is as before.
  pub closed_sends :
      (events : Rpc W Wire.Event Result) (requests : Rpc W Request Response)
      (queue : Rpc W Wire.QueueMessage SendQueueMessageResult) (uuid : Bytes) (e : Event)
      (m : Command) (q : QueueMessage) (w : W)
      → c.closed ≡ true
      → (send_event events uuid c e w ≡ (w, client_closed))
        × (send_command requests uuid c m w ≡ (w, failed client_closed))
        × (send_queue_message queue c q w ≡ (w, failed client_closed))
  unfolding send_event send_command send_queue_message admit admit_command check_closed is_ok_code
  closed_sends events requests queue uuid e m q w h = (rw h refl, rw h refl, rw h refl)

module _ {W C X : Type 0} (c : Client W C X) where
  -- After `Close` the state is closed, and `SendEvent` is refused with the world as before; a second
  -- `Close` changes nothing, cancels no context and runs no callback.
  pub close_lem :
      (channel : Option ChannelState) (events : Rpc W Wire.Event Result) (uuid : Bytes) (e : Event)
      (w : W)
      → (state (close c).0 channel ≡ ConnectionState.closed)
        × (close (close c).0 ≡ ((close c).0, [], []))
        × (send_event events uuid (close c).0 e w ≡ (w, client_closed))
  unfolding send_event admit check_closed is_ok_code
  close_lem channel events uuid e w =
      let h = close-closed c in
      (state_closed (close c).0 channel h, close_closed (close c).0 h, rw h refl)
