-- ===== src/Burnin/Engine.antt =====
-- burnin/engine/engine.cc: the control of a run. `StartRun`, `StopRun` and the thread of `RunLoop`
-- share the engine; each access under `mu_` or to one shared variable is one action, and a history is a
-- list of actions in the order in which they happen. Any number of `StopRun` may be under way; a second
-- `StartRun` is not called before the first has returned.
use kubemq_cpp.Base.{
  ℕ, zero, suc, Bool, true, false, ◌||◌, Option, none, some, List, [], ◌∷◌, Bytes, is_empty,
  if◌then◌else◌,
}
use kubemq_cpp.Burnin.{Config, PatternConfig, Worker, create_workers}

-- The states of the engine
pub data RunState : Type 0 where
  idle starting running stopping stopped error : RunState

-- Where the thread of `RunLoop` is. It is joinable unless it is `no_thread`.
pub data Thread : Type 0 where
  no_thread : Thread
  -- before `CreateWorkers`
  creating : Thread
  -- before `SetState(kStateRunning)`
  announcing : Thread
  -- before the workers are started
  launching : Thread
  -- in the loop that waits
  polling : Thread
  -- before `StopWorkers`
  winding_down : Thread
  -- before the report
  reporting : Thread
  -- before `SetState(kStateStopped)`
  finishing : Thread
  ended : Thread

-- Where a `StartRun` is.
pub data Starter : Type 0 where
  resting : Starter
  -- past its check
  checked : Config → Starter
  -- the state is set to starting
  marked : Config → Starter
  -- the fields of the run are filled in
  filled : Starter
  -- the old thread is joined
  joined : Starter

-- What the threads share. `stops` counts the calls of `StopRun` that have set the state and not yet the
-- request.
pub record Engine : Type 0 where
  pub state : RunState
  pub config : List (Bytes × PatternConfig)
  pub run_id : Bytes
  pub run_error : Bytes
  pub stop_requested : Bool
  pub stops : ℕ
  pub has_report : Bool
  pub workers : List Worker

unfoldable pub new_engine : Engine
new_engine = record {
  state = RunState.idle;
  config = [];
  run_id = [];
  run_error = [];
  stop_requested = false;
  stops = 0;
  has_report = false;
  workers = [];
}

-- The actions of `StartRun`, in their order. A new identifier is an argument.
pub data StartAction : Type 0 where
  checks : Config → StartAction
  marks : StartAction
  fills : Bytes → StartAction
  joins : StartAction
  launches : StartAction

-- The actions of `StopRun`
pub data StopAction : Type 0 where
  checks requests : StopAction

-- The actions of `RunLoop`. Whether the duration has passed is an argument; `fails` is an exception.
pub data LoopAction : Type 0 where
  creates announces launches : LoopAction
  polls : Bool → LoopAction
  winds_down reports finishes : LoopAction
  fails : Bytes → LoopAction

pub data Action : Type 0 where
  by_start : StartAction → Action
  by_stop : StopAction → Action
  by_loop : LoopAction → Action

-- The states in which `StartRun` goes on.
unfoldable pub can_start : RunState → Bool
can_start RunState.idle = true
can_start RunState.stopped = true
can_start RunState.error = true
can_start _ = false

-- The states in which `StopRun` goes on.
unfoldable pub can_stop : RunState → Bool
can_stop RunState.running = true
can_stop RunState.starting = true
can_stop _ = false

-- Whether the thread is running
unfoldable pub is_live : Thread → Bool
is_live Thread.no_thread = false
is_live Thread.ended = false
is_live _ = true

abbrev pub Control : Type 0
Control = Starter × Thread × Engine

-- An action of `StartRun`; `none` when it cannot happen here. A refused one returns its error and changes
-- nothing. Joining waits until the old thread has ended.
unfoldable pub start_step : StartAction → Starter → Thread → Engine → Option Control
start_step (StartAction.checks c) Starter.resting t e =
    some (if can_start e.state then Starter.checked c else Starter.resting, t, e)
start_step StartAction.marks (Starter.checked c) t e =
    some (Starter.marked c, t, record e { state = RunState.starting })
start_step (StartAction.fills fresh) (Starter.marked c) t e = some (
  Starter.filled,
  t,
  record e {
    config = c.patterns;
    run_id = (if is_empty c.run_id then fresh else c.run_id);
    run_error = [];
    stop_requested = false;
    has_report = false;
  },
)
start_step StartAction.joins Starter.filled t e =
    if is_live t then none else some (Starter.joined, Thread.no_thread, e)
start_step StartAction.launches Starter.joined t e = some (Starter.resting, Thread.creating, e)
start_step _ _ t e = none

-- The second action of a `StopRun`, of those that are under way.
unfoldable pub take_request : ℕ → Engine → Option Engine
take_request zero e = none
take_request (suc n) e = some (record e { stop_requested = true; stops = n })

-- An action of `StopRun`.
unfoldable pub stop_step : StopAction → Engine → Option Engine
stop_step StopAction.checks e =
    some
      (if can_stop e.state then record e { state = RunState.stopping; stops = suc e.stops } else e)
stop_step StopAction.requests e = take_request e.stops e

-- An action of `RunLoop`.
unfoldable pub loop_step : LoopAction → Thread → Engine → Option (Thread × Engine)
loop_step (LoopAction.fails what) t e =
    if is_live t
    then some (Thread.ended, record e { state = RunState.error; run_error = what })
    else none
loop_step LoopAction.creates Thread.creating e =
    some (Thread.announcing, record e { workers = create_workers e.run_id e.config })
loop_step LoopAction.announces Thread.announcing e =
    some (Thread.launching, record e { state = RunState.running })
loop_step LoopAction.launches Thread.launching e = some (Thread.polling, e)
loop_step (LoopAction.polls elapsed) Thread.polling e =
    some (if e.stop_requested || elapsed then Thread.winding_down else Thread.polling, e)
loop_step LoopAction.winds_down Thread.winding_down e =
    some (Thread.reporting, record e { workers = [] })
loop_step LoopAction.reports Thread.reporting e =
    some (Thread.finishing, record e { has_report = true })
loop_step LoopAction.finishes Thread.finishing e =
    some (Thread.ended, record e { state = RunState.stopped })
loop_step _ t e = none

unfoldable pub with_engine : Starter → Thread → Option Engine → Option Control
with_engine s t none = none
with_engine s t (some e) = some (s, t, e)

unfoldable pub with_thread : Starter → Option (Thread × Engine) → Option Control
with_thread s none = none
with_thread s (some (t, e)) = some (s, t, e)

-- One action of any of them
unfoldable pub step : Action → Control → Option Control
step (Action.by_start a) (s, t, e) = start_step a s t e
step (Action.by_stop a) (s, t, e) = with_engine s t (stop_step a e)
step (Action.by_loop a) (s, t, e) = with_thread s (loop_step a t e)

-- A history from a state; `none` when an action of it cannot happen.
unfoldable pub run : List Action → Option Control → Option Control
run [] s = s
run (a ∷ rest) none = none
run (a ∷ rest) (some s) = run rest (step a s)
