-- ===== src/Transport/StateMachine/Interleaved.antt =====
-- The calls of the callbacks, with other transitions between them.
use mathlib.Core.Path.{subst}
use kubemq_cpp.Base.{
  ℕ, zero, suc, ◌+◌, ◌≡◌, refl, sym, ap, ◌∙◌, Bool, false, Option, none, some, List, [], ◌∷◌, ◌++◌,
  if◌then◌else◌, arith,
}
use kubemq_cpp.Transport.StateMachine.{
  ConnectionState, StateMachine, Act, Running, transition, run, with_first, take_call, call, act,
  play,
}
use kubemq_cpp.Transport.StateMachine.Callbacks.{
  Event, Phase, registered, Follows, at_idle, run-Follows,
}

-- The moves that a history asks for.
abbrev pub moves_of : List Act → List ConnectionState
moves_of [] = []
moves_of (Act.moves to ∷ rest) = to ∷ moves_of rest
moves_of (Act.calls k ∷ rest) = moves_of rest

-- No call is made yet.
abbrev pub at_start : {C : Type 0} → StateMachine C → Running C
at_start m = record { machine = m; pending = []; called = [] }

-- How many callbacks have a property.
abbrev pub count : {C : Type 0} → (C → Bool) → List C → ℕ
count p [] = 0
count p (c ∷ cs) = (if p c then 1 else 0) + count p cs

abbrev pub count_all : {C : Type 0} → (C → Bool) → List (List C) → ℕ
count_all p [] = 0
count_all p (cs ∷ rest) = count p cs + count_all p rest

module _ {C : Type 0} where
  call-machine : (r : Running C) (o : Option (C × List (List C))) → (call r o).machine ≡ r.machine
  unfolding call
  call-machine r none = refl
  call-machine r (some (c, rest)) = refl

  play-machine :
      (history : List Act) (r : Running C)
      → (play r history).machine ≡ (run r.machine (moves_of history)).0
  unfolding play act run
  play-machine [] r = refl
  play-machine (Act.moves to ∷ rest) r = play-machine rest (act r (Act.moves to))
  play-machine (Act.calls k ∷ rest) r =
      play-machine rest (act r (Act.calls k))
      ∙ ap (λ m. (run m (moves_of rest)).0) (call-machine r (take_call k r.pending))

module _ {C : Type 0} (p : C → Bool) where
  count-++ : (xs ys : List C) → count p (xs ++ ys) ≡ count p xs + count p ys
  count-++ [] ys = omega arith
  count-++ (x ∷ xs) ys = let h = count-++ xs ys in omega (arith, h)

  count_all_last :
      (css : List (List C)) (cs : List C)
      → count_all p (css ++ cs ∷ []) ≡ count_all p css + count p cs
  count_all_last [] cs = omega arith
  count_all_last (x ∷ css) cs = let h = count_all_last css cs in omega (arith, h)

  -- A call is taken from what is to be called.
  abbrev Takes : List (List C) → Option (C × List (List C)) → Type 0
  Takes css none = Unit
  Takes css (some (c, rest)) = count_all p css ≡ count p (c ∷ []) + count_all p rest

  with_first-Takes :
      (cs : List C) (css : List (List C)) (o : Option (C × List (List C)))
      → Takes css o
      → Takes (cs ∷ css) (with_first cs o)
  unfolding with_first
  with_first-Takes cs css none h = tt
  with_first-Takes cs css (some (c, rest)) h = omega (arith, h)

  take_call-Takes : (k : ℕ) (css : List (List C)) → Takes css (take_call k css)
  unfolding take_call
  take_call-Takes k [] = tt
  take_call-Takes zero ([] ∷ rest) = tt
  take_call-Takes zero ((c ∷ cs) ∷ rest) = omega arith
  take_call-Takes (suc k) (cs ∷ rest) =
      with_first-Takes cs rest (take_call k rest) (take_call-Takes k rest)

  -- The callbacks that were called or are to be.
  abbrev total : Running C → ℕ
  total r = count p r.called + count_all p r.pending

  call-total :
      (r : Running C) (o : Option (C × List (List C)))
      → Takes r.pending o
      → total (call r o) ≡ total r
  unfolding call
  call-total r none h = refl
  call-total r (some (c, rest)) h = let k = count-++ r.called (c ∷ []) in omega (arith, h, k)

  play-total :
      (history : List Act) (r : Running C)
      → total (play r history) ≡ total r + count p (run r.machine (moves_of history)).1
  unfolding play act run
  play-total [] r = omega arith
  play-total (Act.moves to ∷ rest) r =
      let (m, accepted, chosen) = transition r.machine to in
      let h = play-total rest (record r { machine = m; pending = r.pending ++ chosen ∷ [] }) in
      let k = count_all_last r.pending chosen in
      let l = count-++ chosen (run m (moves_of rest)).1 in omega (arith, h, k, l)
  play-total (Act.calls k ∷ rest) r =
      let o = take_call k r.pending in
      let h = play-total rest (call r o) in
      let t = call-total r o (take_call-Takes k r.pending) in
      let e = ap (λ m. count p (run m (moves_of rest)).1) (call-machine r o) in
      omega (arith, h, t, e)

-- On a new machine with all five callbacks registered, whatever moves are asked for, by any threads or by
-- the callbacks themselves, and however the calls of the callbacks fall between them: the callbacks are
-- chosen in an order that the protocol accepts, whose phase is the one of the machine's state and flag;
-- and each of the five events was called or is still to be called exactly as often as it was chosen.
pub interleaved_protocol :
    (history : List Act) (p : Event → Bool)
    → let r = play (at_start (registered ConnectionState.idle false)) history in
      let chosen = (run (registered ConnectionState.idle false) (moves_of history)).1 in
      Follows Phase.fresh (r.machine, chosen)
      × (count p r.called + count_all p r.pending ≡ count p chosen)
interleaved_protocol history p =
    let start = at_start (registered ConnectionState.idle false) in
    let h = play-total p history start in
    (
      subst
          (λ m.
            Follows Phase.fresh
              (m, (run (registered ConnectionState.idle false) (moves_of history)).1))
          (sym (play-machine history start)) (run-Follows (moves_of history) at_idle),
      omega (arith, h),
    )
