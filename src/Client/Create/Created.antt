-- ===== src/Client/Create/Created.antt =====
-- What a new client is, and which of the application's callbacks run.
use mathlib.Core.Bool.{false≢true}
use kubemq_cpp.Base.{
  ◌≡◌, ◌≢◌, refl, ap, sym, ◌∙◌, ◌⊎◌, inl, inr, true, false, Option, none, some, List, [], Bytes,
  is_empty, if_lem,
}
use kubemq_cpp.Status.{StatusOr, value, failed, is_ok}
use kubemq_cpp.Middleware.Auth.{Provider}
use kubemq_cpp.Options.{ClientOptions, validate}
use kubemq_cpp.Options.Check.{IsInRange, validate-IsInRange}
use kubemq_cpp.Options.Setters.{set_client_id}
use kubemq_cpp.Transport.StateMachine.{
  ConnectionState, StateMachine, create, transition, enter, is_valid_transition, same_state, fire,
  set_on_connected, set_on_disconnected, set_on_reconnecting, set_on_reconnected, set_on_closed,
}
use kubemq_cpp.Transport.Grpc
use kubemq_cpp.Transport.Grpc.{Transport, Rpc}
use kubemq_cpp.Transport.Grpc.Calls.{ServerInfo}
use kubemq_cpp.Transport.Grpc.Connect.{Network, connect, new_transport, ready_machine}
use kubemq_cpp.Transport.Grpc.Connected.{IsConnection, connect-IsConnection}
use kubemq_cpp.Client.{Client, close, state}
use kubemq_cpp.Client.Sends.{ping}
use kubemq_cpp.Client.Create.{
  StateCallbacks, named, set_if, register, register_on, assemble, checked, finish,
}
use kubemq_cpp.Client.Create as Creation
use kubemq_cpp.Wire.Simple.{PingResult}

-- A callback that replaces another one if it is set.
abbrev or_else : {C : Type 0} → Option C → Option C → Option C
or_else none d = d
or_else (some c) d = some c

module _ {C : Type 0} where
  set_if_connected :
      (cb : Option C) (m : StateMachine C)
      → set_if set_on_connected cb m ≡ record m { on_connected = or_else cb m.on_connected }
  unfolding set_if set_on_connected
  set_if_connected none m = refl
  set_if_connected (some c) m = refl

  set_if_disconnected :
      (cb : Option C) (m : StateMachine C)
      → set_if set_on_disconnected cb m
        ≡ record m { on_disconnected = or_else cb m.on_disconnected }
  unfolding set_if set_on_disconnected
  set_if_disconnected none m = refl
  set_if_disconnected (some c) m = refl

  set_if_reconnecting :
      (cb : Option C) (m : StateMachine C)
      → set_if set_on_reconnecting cb m
        ≡ record m { on_reconnecting = or_else cb m.on_reconnecting }
  unfolding set_if set_on_reconnecting
  set_if_reconnecting none m = refl
  set_if_reconnecting (some c) m = refl

  set_if_reconnected :
      (cb : Option C) (m : StateMachine C)
      → set_if set_on_reconnected cb m ≡ record m { on_reconnected = or_else cb m.on_reconnected }
  unfolding set_if set_on_reconnected
  set_if_reconnected none m = refl
  set_if_reconnected (some c) m = refl

  set_if_closed :
      (cb : Option C) (m : StateMachine C)
      → set_if set_on_closed cb m ≡ record m { on_closed = or_else cb m.on_closed }
  unfolding set_if set_on_closed
  set_if_closed none m = refl
  set_if_closed (some c) m = refl

  or_else_none : (cb : Option C) → or_else cb none ≡ cb
  or_else_none none = refl
  or_else_none (some c) = refl

  -- The machine of a new client.
  abbrev wired : StateCallbacks C → StateMachine C
  wired cbs = record {
    state = ConnectionState.ready;
    reconnecting = false;
    on_connected = cbs.on_connected;
    on_disconnected = cbs.on_disconnected;
    on_reconnecting = cbs.on_reconnecting;
    on_reconnected = cbs.on_reconnected;
    on_closed = cbs.on_closed;
  }

  register_ready : (cbs : StateCallbacks C) → register cbs ready_machine ≡ wired cbs
  unfolding register ready_machine transition enter is_valid_transition same_state create
  register_ready cbs =
      rw
        (
          set_if_connected cbs.on_connected _,
          set_if_disconnected cbs.on_disconnected _,
          set_if_reconnecting cbs.on_reconnecting _,
          set_if_reconnected cbs.on_reconnected _,
          set_if_closed cbs.on_closed _,
        )
        (rw
          (
            or_else_none cbs.on_connected,
            or_else_none cbs.on_disconnected,
            or_else_none cbs.on_reconnecting,
            or_else_none cbs.on_reconnected,
            or_else_none cbs.on_closed,
          )
          refl)

-- A client as `Create` returns it: open and ready, on options in range and with a name; no context is
-- tracked; and `Close` will cancel none and will run the callback for closing, if there is one.
pub record IsNew {W C X : Type 0} (cbs : StateCallbacks C) (c : Client W C X) : Type 0 where
  pub is_open : c.closed ≡ false
  pub is_ready : state c none ≡ ConnectionState.ready
  pub in_range : IsInRange c.opts
  pub has_name : c.opts.client_id ≢ []
  pub no_context : c.active_contexts ≡ []
  pub cancels : (close c).1 ≡ []
  pub closes : (close c).2 ≡ fire cbs.on_closed

-- The outcome of `Create`: a new client, and no callback has run; or an error, and then none has run
-- either, or the callback for closing has, because the check of the connection failed.
abbrev pub IsCreated :
    {W C X : Type 0}
    → ClientOptions
    → StateCallbacks C
    → W × List C × StatusOr (Client W C X)
    → Type 0
IsCreated options cbs (w, ran, value c) = (ran ≡ []) × IsNew cbs c
IsCreated options cbs (w, ran, failed s) =
    (ran ≡ []) ⊎ ((ran ≡ fire cbs.on_closed) × (options.check_connection ≡ true))

module _ {W C : Type 0} (X : Type 0) (options : ClientOptions) (cbs : StateCallbacks C)
    (opts : ClientOptions) (provider : Option (Provider W)) where
  -- The client around the new transport.
  abbrev new_client : Client W C X
  new_client = assemble opts cbs (new_transport opts provider)

  new_client-IsNew : IsInRange opts → opts.client_id ≢ [] → IsNew cbs new_client
  unfolding assemble new_transport register_on state close Grpc.state Grpc.close Grpc.close_machine
      transition enter is_valid_transition same_state
  new_client-IsNew in_range has_name = record {
    is_open = refl;
    is_ready = rw (register_ready cbs) refl;
    in_range = in_range;
    has_name = has_name;
    no_context = refl;
    cancels = refl;
    closes = rw (register_ready cbs) refl;
  }

  checked-IsCreated :
      (r : W × StatusOr ServerInfo)
      → IsNew cbs new_client
      → options.check_connection ≡ true
      → IsCreated options cbs (checked new_client r)
  unfolding checked
  checked-IsCreated (w, value info) new asked = (refl, new)
  checked-IsCreated (w, failed s) new asked = inr (new.closes, asked)

  finish-IsCreated :
      (net : Network W) (read : Bytes → Option Bytes) (rpc : Rpc W Unit PingResult) (w : W)
      (r : W × StatusOr (Transport W C))
      → IsConnection C net read opts provider w r
      → IsInRange opts
      → opts.client_id ≢ []
      → options.check_connection ≡ opts.check_connection
      → IsCreated {X = X} options cbs (finish rpc opts cbs r)
  unfolding finish
  finish-IsCreated net read rpc w (w', failed s) connection in_range has_name same = inl refl
  finish-IsCreated net read rpc w (w', value t) (e, _) in_range has_name same = rw e (
      if_lem (IsCreated options cbs) opts.check_connection
        (λ asked.
          checked-IsCreated (ping rpc new_client w') (new_client-IsNew in_range has_name)
            (same ∙ asked))
        (λ _. (refl, new_client-IsNew in_range has_name)))

nil-is_empty : is_empty [] ≡ true
unfolding is_empty
nil-is_empty = refl

-- Naming the client changes nothing else that is looked at here.
named-check :
    (uuid : Bytes) (o : ClientOptions) → o.check_connection ≡ (named uuid o).check_connection
unfolding named set_client_id
named-check uuid o =
    if_lem (λ (p : ClientOptions). o.check_connection ≡ p.check_connection) (is_empty o.client_id)
      (λ _. refl) (λ _. refl)

named-has_name : (uuid : Bytes) (o : ClientOptions) → uuid ≢ [] → (named uuid o).client_id ≢ []
unfolding named set_client_id
named-has_name uuid o made =
    if_lem (λ (p : ClientOptions). p.client_id ≢ []) (is_empty o.client_id) (λ _. made)
      (λ given e. false≢true (sym given ∙ ap is_empty e ∙ nil-is_empty))

module _ {W C : Type 0} (X : Type 0) where
  -- `Create` either returns a client that is open and ready, with options in range and a name, or it
  -- fails. None of the application's callbacks runs, except the one for closing, when the check of the
  -- connection fails: in particular nobody is told that the client is connected. The new client tracks
  -- no context, so that `Close` will cancel none, and it will run the callback for closing alone.
  pub create_lem :
      (net : Network W) (read : Bytes → Option Bytes) (rpc : Rpc W Unit PingResult) (uuid : Bytes)
      (options : ClientOptions) (provider : Option (Provider W)) (cbs : StateCallbacks C) (w : W)
      → uuid ≢ []
      → IsCreated {X = X} options cbs (Creation.create net read rpc uuid options provider cbs w)
  unfolding Creation.create
  create_lem net read rpc uuid options provider cbs w made =
      let opts = named uuid options in
      if_lem (IsCreated options cbs) (is_ok (validate opts))
        (λ good.
          finish-IsCreated X options cbs opts provider net read rpc w
            (connect net opts provider read w) (connect-IsConnection C net read opts provider w)
            (validate-IsInRange opts good) (named-has_name uuid options made)
            (named-check uuid options))
        (λ _. inl refl)
