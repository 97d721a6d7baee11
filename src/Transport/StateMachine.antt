-- ===== src/Transport/StateMachine.antt =====
-- src/internal/transport/state_machine.cc: the connection's life cycle. `Transition` changes the state
-- and chooses its callbacks under `mu_`, and calls them after the lock is released: `transition` is the
-- locked part, with the callbacks that it chose, in their order, and each call is an action of its own,
-- before which other threads, or a callback itself, may ask for other moves. A callback is a value of
-- `C`.
pub mod Edges
pub mod Callbacks
pub mod Interleaved
mod Tests
use kubemq_cpp.Base.{
  ℕ, zero, suc, Bool, true, false, ◌||◌, List, [], ◌∷◌, ◌++◌, Option, none, some, if◌then◌else◌,
}

-- `enum class ConnectionState`
pub data ConnectionState : Type 0 where
  idle connecting ready reconnecting closed : ConnectionState

-- `==` on states
unfoldable pub same_state : ConnectionState → ConnectionState → Bool
same_state ConnectionState.idle ConnectionState.idle = true
same_state ConnectionState.connecting ConnectionState.connecting = true
same_state ConnectionState.ready ConnectionState.ready = true
same_state ConnectionState.reconnecting ConnectionState.reconnecting = true
same_state ConnectionState.closed ConnectionState.closed = true
same_state _ _ = false

-- `IsValidTransition`
unfoldable pub is_valid_transition : ConnectionState → ConnectionState → Bool
is_valid_transition ConnectionState.idle to =
    same_state to ConnectionState.connecting || same_state to ConnectionState.closed
is_valid_transition ConnectionState.connecting to =
    same_state to ConnectionState.ready || same_state to ConnectionState.closed
is_valid_transition ConnectionState.ready to =
    same_state to ConnectionState.reconnecting || same_state to ConnectionState.closed
is_valid_transition ConnectionState.reconnecting to =
    same_state to ConnectionState.connecting || same_state to ConnectionState.closed
is_valid_transition ConnectionState.closed to = false

pub record StateMachine (C : Type 0) : Type 0 where
  pub state : ConnectionState
  pub reconnecting : Bool
  pub on_connected : Option C
  pub on_disconnected : Option C
  pub on_reconnecting : Option C
  pub on_reconnected : Option C
  pub on_closed : Option C

module _ {C : Type 0} where
  -- `StateMachine(initial)`
  unfoldable pub create : ConnectionState → StateMachine C
  create initial = record {
    state = initial;
    reconnecting = false;
    on_connected = none;
    on_disconnected = none;
    on_reconnecting = none;
    on_reconnected = none;
    on_closed = none;
  }

  -- `if (callback) callback();`
  abbrev pub fire : Option C → List C
  fire none = []
  fire (some c) = c ∷ []

  -- The callback chosen for a move to `kReconnecting`.
  both_callbacks : Option C → Option C → List C
  both_callbacks none reconnecting_cb = fire reconnecting_cb
  both_callbacks (some disconnected_cb) reconnecting_cb = disconnected_cb ∷ fire reconnecting_cb

  -- The body of `Transition` once the move is accepted: what happens to the flag, and the callbacks.
  unfoldable pub enter : StateMachine C → ConnectionState → Bool × List C
  unfolding both_callbacks same_state
  enter m ConnectionState.ready =
      if same_state m.state ConnectionState.connecting
      then (if m.reconnecting then (false, fire m.on_reconnected) else (false, fire m.on_connected))
      else (m.reconnecting, [])
  enter m ConnectionState.reconnecting = (true, both_callbacks m.on_disconnected m.on_reconnecting)
  enter m ConnectionState.closed = (m.reconnecting, fire m.on_closed)
  enter m _ = (m.reconnecting, [])

  -- The locked part of `Transition`: the machine afterwards, the result, and the callbacks to call.
  unfoldable pub transition : StateMachine C → ConnectionState → StateMachine C × Bool × List C
  unfolding enter is_valid_transition
  transition m to =
      let (flag, callbacks) = enter m to in
      if is_valid_transition m.state to
      then (record m { state = to; reconnecting = flag }, true, callbacks)
      else (m, false, [])

  unfoldable pub set_on_connected : StateMachine C → Option C → StateMachine C
  set_on_connected m cb = record m { on_connected = cb }

  unfoldable pub set_on_disconnected : StateMachine C → Option C → StateMachine C
  set_on_disconnected m cb = record m { on_disconnected = cb }

  unfoldable pub set_on_reconnecting : StateMachine C → Option C → StateMachine C
  set_on_reconnecting m cb = record m { on_reconnecting = cb }

  unfoldable pub set_on_reconnected : StateMachine C → Option C → StateMachine C
  set_on_reconnected m cb = record m { on_reconnected = cb }

  unfoldable pub set_on_closed : StateMachine C → Option C → StateMachine C
  set_on_closed m cb = record m { on_closed = cb }

  -- The locked parts of a history of requested moves, with all callbacks that they chose. They are called in
  -- this order when each `Transition` returns before the next is asked for.
  unfoldable pub run : StateMachine C → List ConnectionState → StateMachine C × List C
  run m [] = (m, [])
  run m (to ∷ tos) =
      let (m', accepted, ran) = transition m to in
      let (m'', ran') = run m' tos in (m'', ran ++ ran')

-- What the threads do: the locked part of a `Transition`, or the next callback of the transition of this
-- number, counted from the first one.
pub data Act : Type 0 where
  moves : ConnectionState → Act
  calls : ℕ → Act

-- The machine, the callbacks that each transition has still to call, and those that were called.
pub record Running (C : Type 0) : Type 0 where
  pub machine : StateMachine C
  pub pending : List (List C)
  pub called : List C

module _ {C : Type 0} where
  unfoldable pub with_first : List C → Option (C × List (List C)) → Option (C × List (List C))
  with_first cs none = none
  with_first cs (some (c, rest)) = some (c, cs ∷ rest)

  -- The next callback of a transition, if it has one left.
  unfoldable pub take_call : ℕ → List (List C) → Option (C × List (List C))
  take_call k [] = none
  take_call zero ([] ∷ rest) = none
  take_call zero ((c ∷ cs) ∷ rest) = some (c, cs ∷ rest)
  take_call (suc k) (cs ∷ rest) = with_first cs (take_call k rest)

  unfoldable pub call : Running C → Option (C × List (List C)) → Running C
  call r none = r
  call r (some (c, rest)) = record r { pending = rest; called = r.called ++ c ∷ [] }

  unfoldable pub act : Running C → Act → Running C
  act r (Act.moves to) =
      let (m, accepted, chosen) = transition r.machine to in
      record r { machine = m; pending = r.pending ++ chosen ∷ [] }
  act r (Act.calls k) = call r (take_call k r.pending)

  -- A history from a state.
  unfoldable pub play : Running C → List Act → Running C
  play r [] = r
  play r (a ∷ rest) = play (act r a) rest
