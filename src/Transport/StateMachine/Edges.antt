-- ===== src/Transport/StateMachine/Edges.antt =====
-- Which moves between connection states are accepted.
use mathlib.Core.Bool.{false≢true}
use kubemq_cpp.Base.{
  Bool-cases, inl, inr, sym, ◌∙◌, true, false, ◌≡◌, refl, ◌⊎◌, ◌↔◌, List, [], ◌∷◌, arith,
}
use kubemq_cpp.Transport.StateMachine.{
  ConnectionState, StateMachine, is_valid_transition, same_state, transition, enter, run,
}

-- The seven moves that the comment over `IsValidTransition` lists.
pub data Documented : ConnectionState → ConnectionState → Type 0 where
  connect : Documented ConnectionState.idle ConnectionState.connecting
  connected : Documented ConnectionState.connecting ConnectionState.ready
  give_up : Documented ConnectionState.connecting ConnectionState.closed
  lose : Documented ConnectionState.ready ConnectionState.reconnecting
  close : Documented ConnectionState.ready ConnectionState.closed
  retry : Documented ConnectionState.reconnecting ConnectionState.connecting
  abandon : Documented ConnectionState.reconnecting ConnectionState.closed

-- The moves that are accepted, and the one that the comment leaves out.
pub data Edge (from to : ConnectionState) : Type 0 where
  documented : Documented from to → Edge from to
  close_idle : from ≡ ConnectionState.idle → to ≡ ConnectionState.closed → Edge from to

Edge-of_test : (from to : ConnectionState) → is_valid_transition from to ≡ true → Edge from to
unfolding is_valid_transition same_state
Edge-of_test ConnectionState.idle ConnectionState.connecting h = documented connect
Edge-of_test ConnectionState.idle ConnectionState.closed h = close_idle refl refl
Edge-of_test ConnectionState.connecting ConnectionState.ready h = documented connected
Edge-of_test ConnectionState.connecting ConnectionState.closed h = documented give_up
Edge-of_test ConnectionState.ready ConnectionState.reconnecting h = documented lose
Edge-of_test ConnectionState.ready ConnectionState.closed h = documented close
Edge-of_test ConnectionState.reconnecting ConnectionState.connecting h = documented retry
Edge-of_test ConnectionState.reconnecting ConnectionState.closed h = documented abandon
Edge-of_test _ _ h = cc

test-of_Documented :
    {from to : ConnectionState} → Documented from to → is_valid_transition from to ≡ true
unfolding is_valid_transition same_state
test-of_Documented connect = refl
test-of_Documented connected = refl
test-of_Documented give_up = refl
test-of_Documented lose = refl
test-of_Documented close = refl
test-of_Documented retry = refl
test-of_Documented abandon = refl

test-of_Edge : (from to : ConnectionState) → Edge from to → is_valid_transition from to ≡ true
unfolding is_valid_transition same_state
test-of_Edge from to (documented d) = test-of_Documented d
test-of_Edge from to (close_idle p q) = ground arith

-- `IsValidTransition` accepts exactly the seven documented moves and the move from idle to closed.
pub is_valid_transition_iff :
    (from to : ConnectionState) → (is_valid_transition from to ≡ true) ↔ Edge from to
is_valid_transition_iff from to = (Edge-of_test from to, test-of_Edge from to)

module _ {C : Type 0} (m : StateMachine C) (to : ConnectionState) where
  pub transition_refused : is_valid_transition m.state to ≡ false → transition m to ≡ (m, false, [])
  unfolding transition
  transition_refused h = rw h

  pub transition_accepted :
      is_valid_transition m.state to ≡ true
      → transition m to
        ≡ (record m { state = to; reconnecting = (enter m to).0 }, true, (enter m to).1)
  unfolding transition
  transition_accepted h = rw h

  -- A transition succeeds exactly along an edge; then it is in the state asked for, and otherwise the
  -- machine is unchanged and no callback runs.
  pub transition_lem :
      let (m', accepted, ran) = transition m to in
      ((accepted ≡ true) × Edge m.state to × (m'.state ≡ to))
      ⊎ ((accepted ≡ false) × ¬ Edge m.state to × (m' ≡ m) × (ran ≡ []))
  transition_lem = elim (Bool-cases (is_valid_transition m.state to)) [
    | inl t ↦ rw (transition_accepted t) (inl (refl, Edge-of_test _ to t, refl))
    | inr f ↦
        rw (transition_refused f)
          (inr (refl, λ e. false≢true (sym f ∙ test-of_Edge _ to e), refl, refl))
  ]

-- A closed machine stays as it is, whatever moves are asked for, and runs no callback.
pub run_closed :
    {C : Type 0} (m : StateMachine C) (tos : List ConnectionState)
    → m.state ≡ ConnectionState.closed
    → run m tos ≡ (m, [])
unfolding run is_valid_transition
run_closed m [] h = refl
run_closed m (to ∷ tos) h = rw (transition_refused m to refused) (run_closed m tos h)
  where
    refused : is_valid_transition m.state to ≡ false
    refused = rw h
