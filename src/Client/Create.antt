-- ===== src/Client/Create.antt =====
-- src/client.cc: `Create`, and what happens when it fails half-way.
pub mod Created
use kubemq_cpp.Base.{Option, none, some, List, [], Bytes, false, is_empty, if◌then◌else◌}
use kubemq_cpp.Status.{StatusOr, value, failed, is_ok}
use kubemq_cpp.Middleware.Auth.{Provider}
use kubemq_cpp.Options.{ClientOptions, validate}
use kubemq_cpp.Options.Setters.{set_client_id}
use kubemq_cpp.Transport.StateMachine.{
  StateMachine, set_on_connected, set_on_disconnected, set_on_reconnecting, set_on_reconnected,
  set_on_closed,
}
use kubemq_cpp.Transport.Grpc.{Transport, Rpc}
use kubemq_cpp.Transport.Grpc.Calls.{ServerInfo}
use kubemq_cpp.Transport.Grpc.Connect.{Network, connect}
use kubemq_cpp.Client.{Client, close}
use kubemq_cpp.Client.Sends.{ping}
use kubemq_cpp.Wire.Simple.{PingResult}

-- The state callbacks of the options; one that is not set is `none`.
pub record StateCallbacks (C : Type 0) : Type 0 where
  pub on_connected : Option C
  pub on_disconnected : Option C
  pub on_reconnecting : Option C
  pub on_reconnected : Option C
  pub on_closed : Option C

-- The identifier is made when there is none.
unfoldable pub named : Bytes → ClientOptions → ClientOptions
named uuid options = if is_empty options.client_id then set_client_id uuid options else options

module _ {C : Type 0} where
  -- `if (co.on_x()) sm->SetOnX(co.on_x());`
  unfoldable pub set_if :
      (StateMachine C → Option C → StateMachine C) → Option C → StateMachine C → StateMachine C
  set_if set none m = m
  set_if set (some callback) m = set m (some callback)

  unfoldable pub register : StateCallbacks C → StateMachine C → StateMachine C
  unfolding set_if
  register cbs m = set_if set_on_closed cbs.on_closed (
      set_if set_on_reconnected cbs.on_reconnected (
        set_if set_on_reconnecting cbs.on_reconnecting (
          set_if set_on_disconnected cbs.on_disconnected
            (set_if set_on_connected cbs.on_connected m))))

  -- `if (auto* sm = transport->GetStateMachine())`
  unfoldable pub register_on : StateCallbacks C → Option (StateMachine C) → Option (StateMachine C)
  register_on cbs none = none
  register_on cbs (some m) = some (register cbs m)

module _ {W C X : Type 0} where
  -- The client around a new transport.
  unfoldable pub assemble : ClientOptions → StateCallbacks C → Transport W C → Client W C X
  assemble opts cbs t = record {
    transport = record t { state_machine = register_on cbs t.state_machine };
    opts = opts;
    closed = false;
    active_contexts = [];
  }

  -- The end of the check of the connection. A client that is not returned is destroyed, and its
  -- destructor closes it.
  unfoldable pub checked :
      Client W C X → W × StatusOr ServerInfo → W × List C × StatusOr (Client W C X)
  checked c (w, value info) = (w, [], value c)
  checked c (w, failed s) = let (_, _, callbacks) = close c in (w, callbacks, failed s)

  -- `Create` after the transport was made.
  unfoldable pub finish :
      Rpc W Unit PingResult
      → ClientOptions
      → StateCallbacks C
      → W × StatusOr (Transport W C)
      → W × List C × StatusOr (Client W C X)
  unfolding checked
  finish rpc opts cbs (w, failed s) = (w, [], failed s)
  finish rpc opts cbs (w, value t) =
      let c = assemble opts cbs t in
      if opts.check_connection then checked c (ping rpc c w) else (w, [], value c)

  -- `Create`: the callbacks that ran, and the client or an error.
  unfoldable pub create :
      Network W
      → (Bytes → Option Bytes)
      → Rpc W Unit PingResult
      → Bytes
      → ClientOptions
      → Option (Provider W)
      → StateCallbacks C
      → W
      → W × List C × StatusOr (Client W C X)
  create net read rpc uuid options provider cbs w =
      let opts = named uuid options in
      let s = validate opts in
      if is_ok s then finish rpc opts cbs (connect net opts provider read w) else (w, [], failed s)
