-- ===== src/Burnin/Control.antt =====
-- The state of the engine and its run.
use kubemq_cpp.Base.{
  ◌≡◌, refl, sym, ◌∙◌, ap, ◌⊎◌, inl, inr, Bool, true, false, not, ◌||◌, Option, none, some, List,
  [], ◌∷◌, if_lem, if◌then◌else◌, zero, suc, ℕ,
}
use mathlib.Core.Bool.{false≢true}
use kubemq_cpp.Burnin.{Config}
use kubemq_cpp.Burnin.Engine.{
  RunState, Thread, Starter, Engine, StartAction, StopAction, LoopAction, Action, Control,
  new_engine, can_start, can_stop, is_live, start_step, take_request, with_engine, with_thread,
  stop_step, loop_step, step, run,
}

-- Whether a starter, a thread that is live or not, and a state that a run can start in or not go
-- together.
fits : Starter → Bool → Bool → Bool
fits Starter.resting true s = not s
fits Starter.resting false s = s
fits (Starter.checked c) true s = false
fits (Starter.checked c) false s = s
fits _ true s = false
fits _ false s = not s

abbrev Sound : Option Control → Type 0
Sound none = Unit
Sound (some (s, t, e)) = fits s (is_live t) (can_start e.state) ≡ true

checks_fit :
    (c : Config) (l s : Bool)
    → fits Starter.resting l s ≡ true
    → fits (if s then Starter.checked c else Starter.resting) l s ≡ true
unfolding fits
checks_fit c true true h = absurd (false≢true h)
checks_fit c true false h = refl
checks_fit c false true h = refl
checks_fit c false false h = h

marks_fit :
    (c : Config) (l s : Bool)
    → fits (Starter.checked c) l s ≡ true
    → fits (Starter.marked c) l false ≡ true
unfolding fits
marks_fit c true s h = h
marks_fit c false s h = refl

fills_fit :
    (c : Config) (l s : Bool) → fits (Starter.marked c) l s ≡ true → fits Starter.filled l s ≡ true
unfolding fits
fills_fit c true s h = h
fills_fit c false s h = h

joins_fit : (l s : Bool) → fits Starter.filled l s ≡ true → fits Starter.joined false s ≡ true
unfolding fits
joins_fit true s h = absurd (false≢true h)
joins_fit false s h = h

launches_fit : (l s : Bool) → fits Starter.joined l s ≡ true → fits Starter.resting true s ≡ true
unfolding fits
launches_fit true s h = absurd (false≢true h)
launches_fit false s h = h

-- A thread that is live may set a busy state, or end in one that a run can start in.
live_fits :
    (r : Starter) (s : Bool)
    → fits r true s ≡ true
    → (fits r true false ≡ true) × (fits r false true ≡ true)
unfolding fits
live_fits Starter.resting s h = (refl, refl)
live_fits (Starter.checked c) s h = (h, refl)
live_fits (Starter.marked c) s h = absurd (false≢true h)
live_fits Starter.filled s h = absurd (false≢true h)
live_fits Starter.joined s h = absurd (false≢true h)

stoppable_busy : (st : RunState) → can_stop st ≡ true → can_start st ≡ false
unfolding can_stop can_start
stoppable_busy RunState.idle h = absurd (false≢true h)
stoppable_busy RunState.starting h = refl
stoppable_busy RunState.running h = refl
stoppable_busy RunState.stopping h = refl
stoppable_busy RunState.stopped h = absurd (false≢true h)
stoppable_busy RunState.error h = absurd (false≢true h)

start_step-Sound :
    (a : StartAction) (s : Starter) (t : Thread) (e : Engine)
    → fits s (is_live t) (can_start e.state) ≡ true
    → Sound (start_step a s t e)
unfolding start_step can_start is_live
start_step-Sound (StartAction.checks c) Starter.resting t e h =
    checks_fit c (is_live t) (can_start e.state) h
start_step-Sound StartAction.marks (Starter.checked c) t e h =
    marks_fit c (is_live t) (can_start e.state) h
start_step-Sound (StartAction.fills fresh) (Starter.marked c) t e h =
    fills_fit c (is_live t) (can_start e.state) h
start_step-Sound StartAction.joins Starter.filled t e h =
    if_lem Sound (is_live t) (λ _. tt) (λ _. joins_fit (is_live t) (can_start e.state) h)
start_step-Sound StartAction.launches Starter.joined t e h =
    launches_fit (is_live t) (can_start e.state) h
start_step-Sound _ _ t e h = tt

take_request-Sound :
    (n : ℕ) (s : Starter) (t : Thread) (e : Engine)
    → fits s (is_live t) (can_start e.state) ≡ true
    → Sound (with_engine s t (take_request n e))
unfolding take_request with_engine
take_request-Sound zero s t e h = tt
take_request-Sound (suc n) s t e h = h

stop_step-Sound :
    (a : StopAction) (s : Starter) (t : Thread) (e : Engine)
    → fits s (is_live t) (can_start e.state) ≡ true
    → Sound (step (Action.by_stop a) (s, t, e))
unfolding step stop_step with_engine
stop_step-Sound StopAction.checks s t e h =
    if_lem (λ (e' : Engine). fits s (is_live t) (can_start e'.state) ≡ true) (can_stop e.state)
      (λ yes. unfold can_start in (ap (fits s (is_live t)) (sym (stoppable_busy e.state yes)) ∙ h))
      (λ _. h)
stop_step-Sound StopAction.requests s t e h = take_request-Sound e.stops s t e h

loop_step-Sound :
    (a : LoopAction) (s : Starter) (t : Thread) (e : Engine)
    → fits s (is_live t) (can_start e.state) ≡ true
    → Sound (step (Action.by_loop a) (s, t, e))
unfolding step loop_step with_thread is_live can_start
loop_step-Sound (LoopAction.fails what) s t e h =
    if_lem (λ o. Sound (with_thread s o)) (is_live t)
      (λ live.
        (live_fits s (can_start e.state) (ap (λ l. fits s l (can_start e.state)) (sym live) ∙ h)).1)
      (λ _. tt)
loop_step-Sound LoopAction.creates s Thread.creating e h = h
loop_step-Sound LoopAction.announces s Thread.announcing e h = (live_fits s (can_start e.state) h).0
loop_step-Sound LoopAction.launches s Thread.launching e h = h
loop_step-Sound (LoopAction.polls elapsed) s Thread.polling e h =
    if_lem (λ (t : Thread). fits s (is_live t) (can_start e.state) ≡ true)
      (e.stop_requested || elapsed) (λ _. h) (λ _. h)
loop_step-Sound LoopAction.winds_down s Thread.winding_down e h = h
loop_step-Sound LoopAction.reports s Thread.reporting e h = h
loop_step-Sound LoopAction.finishes s Thread.finishing e h = (live_fits s (can_start e.state) h).1
loop_step-Sound _ s _ e h = tt

step-Sound : (a : Action) (c : Control) → Sound (some c) → Sound (step a c)
unfolding step
step-Sound (Action.by_start a) (s, t, e) h = start_step-Sound a s t e h
step-Sound (Action.by_stop a) (s, t, e) h = stop_step-Sound a s t e h
step-Sound (Action.by_loop a) (s, t, e) h = loop_step-Sound a s t e h

run-Sound : (history : List Action) (c : Option Control) → Sound c → Sound (run history c)
unfolding run
run-Sound [] c h = h
run-Sound (a ∷ rest) none h = tt
run-Sound (a ∷ rest) (some c) h = run-Sound rest (step a c) (step-Sound a c h)

-- The control of a new engine
abbrev pub at_rest : Control
at_rest = (Starter.resting, Thread.no_thread, new_engine)

-- Whether a `StartRun` is past its check.
abbrev pub in_start : Starter → Bool
in_start Starter.resting = false
in_start _ = true

-- Either no `StartRun` is under way, and the engine can start a run exactly when no run is going; or one
-- is under way, and no run is going.
abbrev pub InOrder : Option Control → Type 0
InOrder none = Unit
InOrder (some (s, t, e)) =
    ((in_start s ≡ false) × (can_start e.state ≡ not (is_live t)))
    ⊎ ((in_start s ≡ true) × (is_live t ≡ false))

fits-InOrder :
    (r : Starter) (l s : Bool)
    → fits r l s ≡ true
    → ((in_start r ≡ false) × (s ≡ not l)) ⊎ ((in_start r ≡ true) × (l ≡ false))
unfolding fits
fits-InOrder Starter.resting true true h = absurd (false≢true h)
fits-InOrder Starter.resting true false h = inl (refl, refl)
fits-InOrder Starter.resting false s h = inl (refl, h)
fits-InOrder (Starter.checked c) true s h = absurd (false≢true h)
fits-InOrder (Starter.checked c) false s h = inr (refl, refl)
fits-InOrder (Starter.marked c) true s h = absurd (false≢true h)
fits-InOrder (Starter.marked c) false s h = inr (refl, refl)
fits-InOrder Starter.filled true s h = absurd (false≢true h)
fits-InOrder Starter.filled false s h = inr (refl, refl)
fits-InOrder Starter.joined true s h = absurd (false≢true h)
fits-InOrder Starter.joined false s h = inr (refl, refl)

Sound-InOrder : (c : Option Control) → Sound c → InOrder c
Sound-InOrder none h = tt
Sound-InOrder (some (s, t, e)) h = fits-InOrder s (is_live t) (can_start e.state) h

-- Whatever the calls of `StartRun`, one after another, and of `StopRun`, and however the runs end: a run is
-- refused exactly while one is going, and a `StartRun` that was not refused has no run beside it, so that
-- its join does not wait for a run.
pub history-InOrder : (history : List Action) → InOrder (run history (some at_rest))
unfolding new_engine can_start fits is_live
history-InOrder history = Sound-InOrder _ (run-Sound history (some at_rest) refl)
