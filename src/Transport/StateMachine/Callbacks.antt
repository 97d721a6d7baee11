-- ===== src/Transport/StateMachine/Callbacks.antt =====
-- The order in which the callbacks of a connection are chosen.
use kubemq_cpp.Base.{
  Bool, true, false, ◌≡◌, refl, inl, inr, List, [], ◌∷◌, ◌++◌, Option, none, some, Bool-cases, ◌∙◌,
}
use kubemq_cpp.Transport.StateMachine.{
  ConnectionState, StateMachine, is_valid_transition, same_state, enter, run,
}
use kubemq_cpp.Transport.StateMachine.Edges.{transition_refused, transition_accepted}

-- The events that an application observes when it has registered all five callbacks.
pub data Event : Type 0 where
  connected disconnected reconnecting reconnected closed : Event

-- What an application may conclude from the events so far.
pub data Phase : Type 0 where
  fresh up down over : Phase

-- The protocol of the callbacks: `connected` first and once, then rounds of `disconnected`,
-- `reconnecting` and `reconnected`, and nothing after `closed`. `none` rejects.
unfoldable pub accept : Phase → List Event → Option Phase
accept p [] = some p
accept Phase.fresh (Event.connected ∷ es) = accept Phase.up es
accept Phase.fresh (Event.closed ∷ es) = accept Phase.over es
accept Phase.up (Event.disconnected ∷ Event.reconnecting ∷ es) = accept Phase.down es
accept Phase.up (Event.closed ∷ es) = accept Phase.over es
accept Phase.down (Event.reconnected ∷ es) = accept Phase.up es
accept Phase.down (Event.closed ∷ es) = accept Phase.over es
accept _ (e ∷ es) = none

-- A machine on which all five callbacks are registered.
abbrev pub registered : ConnectionState → Bool → StateMachine Event
registered state flag = record {
  state = state;
  reconnecting = flag;
  on_connected = some Event.connected;
  on_disconnected = some Event.disconnected;
  on_reconnecting = some Event.reconnecting;
  on_reconnected = some Event.reconnected;
  on_closed = some Event.closed;
}

-- The states and flags that arise, and the phase that each stands for.
pub data InPhase : ConnectionState → Bool → Phase → Type 0 where
  at_idle : InPhase ConnectionState.idle false Phase.fresh
  first_try : InPhase ConnectionState.connecting false Phase.fresh
  next_try : InPhase ConnectionState.connecting true Phase.down
  at_ready : InPhase ConnectionState.ready false Phase.up
  at_reconnecting : InPhase ConnectionState.reconnecting true Phase.down
  at_closed : (flag : Bool) → InPhase ConnectionState.closed flag Phase.over

-- An accepted move leads to a phase, by events that the protocol allows there.
abbrev Moves : Phase → ConnectionState → Bool × List Event → Type 0
Moves p to (flag, ran) =
    (q : Phase) × InPhase to flag q × ((es : List Event) → accept p (ran ++ es) ≡ accept q es)

enter-Moves :
    {s : ConnectionState} {f : Bool} {p : Phase}
    → InPhase s f p
    → (to : ConnectionState) → is_valid_transition s to ≡ true
    → Moves p to (enter (registered s f) to)
unfolding enter is_valid_transition same_state accept
enter-Moves at_idle ConnectionState.connecting h = (Phase.fresh, first_try, λ es. refl)
enter-Moves at_idle ConnectionState.closed h = (Phase.over, at_closed false, λ es. refl)
enter-Moves first_try ConnectionState.ready h = (Phase.up, at_ready, λ es. refl)
enter-Moves first_try ConnectionState.closed h = (Phase.over, at_closed false, λ es. refl)
enter-Moves next_try ConnectionState.ready h = (Phase.up, at_ready, λ es. refl)
enter-Moves next_try ConnectionState.closed h = (Phase.over, at_closed true, λ es. refl)
enter-Moves at_ready ConnectionState.reconnecting h = (Phase.down, at_reconnecting, λ es. refl)
enter-Moves at_ready ConnectionState.closed h = (Phase.over, at_closed false, λ es. refl)
enter-Moves at_reconnecting ConnectionState.connecting h = (Phase.down, next_try, λ es. refl)
enter-Moves at_reconnecting ConnectionState.closed h = (Phase.over, at_closed true, λ es. refl)
enter-Moves _ _ h = cc

-- The outcome of a history of moves: the phase of the final state is the one that the protocol reaches.
abbrev pub Follows : Phase → StateMachine Event × List Event → Type 0
Follows p (m, ran) = (q : Phase) × InPhase m.state m.reconnecting q × (accept p ran ≡ some q)

pub run-Follows :
    (tos : List ConnectionState) {s : ConnectionState} {f : Bool} {p : Phase}
    → InPhase s f p
    → Follows p (run (registered s f) tos)
unfolding run
run-Follows [] {p = p} i = (p, i, unfold accept in refl)
run-Follows (to ∷ tos) {s} {f} {p} i = elim (Bool-cases (is_valid_transition s to)) [
  | inl valid ↦ rw (transition_accepted (registered s f) to valid) (
      let (q, j, moves) = enter-Moves i to valid in
      let (r, k, rest) = run-Follows tos j in (r, k, moves _ ∙ rest))
  | inr refused ↦ rw (transition_refused (registered s f) to refused) (run-Follows tos i)
]
