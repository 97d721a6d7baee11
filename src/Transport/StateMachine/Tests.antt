-- ===== src/Transport/StateMachine/Tests.antt =====
-- The life of one connection, and callbacks that are called late.
use kubemq_cpp.Base.{◌≡◌, ◌↔◌, ◌+◌, refl, Bool, true, false, List, [], ◌∷◌}
use kubemq_cpp.Transport.StateMachine.{
  ConnectionState, Act, is_valid_transition, same_state, transition, enter, run, with_first,
  take_call, call, act, play,
}
use kubemq_cpp.Transport.StateMachine.Edges.{Edge, is_valid_transition_iff}
use kubemq_cpp.Transport.StateMachine.Callbacks.{Event, Phase, registered, Follows}
use kubemq_cpp.Transport.StateMachine.Interleaved.{
  moves_of, at_start, count, count_all, interleaved_protocol,
}

abbrev is_closed : Event → Bool
is_closed Event.closed = true
is_closed _ = false

-- The connection is lost, and it is closed after `on_disconnected` was called and before
-- `on_reconnecting` is.
abbrev life : List Act
life =
    Act.moves ConnectionState.connecting
    ∷ Act.moves ConnectionState.ready
    ∷ Act.calls 1
    ∷ Act.moves ConnectionState.reconnecting
    ∷ Act.calls 2
    ∷ Act.moves ConnectionState.closed
    ∷ Act.calls 3
    ∷ Act.calls 2
    ∷ []

interleaved_protocol_example :
    let r = play (at_start (registered ConnectionState.idle false)) life in
    let chosen = (run (registered ConnectionState.idle false) (moves_of life)).1 in
    Follows Phase.fresh (r.machine, chosen)
    × (count is_closed r.called + count_all is_closed r.pending ≡ count is_closed chosen)
interleaved_protocol_example = interleaved_protocol life is_closed

-- `on_reconnecting` runs on a closed machine, after `on_closed`.
reconnecting_after_closed :
    (play (at_start (registered ConnectionState.idle false)) life).called
    ≡ Event.connected ∷ Event.disconnected ∷ Event.closed ∷ Event.reconnecting ∷ []
unfolding play act call take_call with_first transition enter is_valid_transition same_state
reconnecting_after_closed = refl

is_valid_transition_example :
    (is_valid_transition ConnectionState.idle ConnectionState.closed ≡ true)
    ↔ Edge ConnectionState.idle ConnectionState.closed
is_valid_transition_example = is_valid_transition_iff ConnectionState.idle ConnectionState.closed
