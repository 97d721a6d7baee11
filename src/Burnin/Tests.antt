-- ===== src/Burnin/Tests.antt =====
-- Runs of the engine.
use kubemq_cpp.Base.{◌≡◌, refl, true, false, none, some, List, [], ◌∷◌, bytes, map, ◌≤◌, length}
use kubemq_cpp.Base.Int.{pos}
use kubemq_cpp.Burnin.{
  Config, count_enabled, create_workers, has_worker, workers_from, channel_name,
}
use kubemq_cpp.Burnin.Engine.{
  RunState, Thread, Starter, Engine, StartAction, StopAction, LoopAction, Action, Control,
  new_engine, can_start, can_stop, is_live, start_step, take_request, stop_step, loop_step,
  with_engine, with_thread, step, run,
}
use kubemq_cpp.Burnin.Duration.{
  is_digit, as_int, seconds_in, read_digits, scale, parse_duration_to_seconds,
}
use kubemq_cpp.Burnin.Control.{at_rest, InOrder, history-InOrder}
use kubemq_cpp.Burnin.Stop.{BeforeReport, CanStop, stopped_run_ends}

abbrev settings : Config
settings = record {
  run_id = [];
  patterns =
      (bytes "events", record { enabled = true; channels = pos 2 })
      ∷ (bytes "other", record { enabled = true; channels = pos 1 })
      ∷ (bytes "queries", record { enabled = false; channels = pos 1 })
      ∷ [];
}

two_enabled : count_enabled (settings.patterns) ≡ 2
unfolding count_enabled
two_enabled = refl

two_workers :
    create_workers (bytes "r") (settings.patterns)
    ≡ record { pattern = bytes "events"; channel = bytes "burnin.cpp.r.events.0" }
      ∷ record { pattern = bytes "events"; channel = bytes "burnin.cpp.r.events.1" }
      ∷ []
unfolding create_workers has_worker workers_from channel_name bytes
    kubemq_cpp.Transport.Grpc.Connect.to_string kubemq_cpp.Transport.Grpc.Connect.digits
    kubemq_cpp.Base.str_eq
two_workers = refl

abbrev started : List Action
started =
    Action.by_start (StartAction.checks settings)
    ∷ Action.by_start StartAction.marks
    ∷ Action.by_start (StartAction.fills (bytes "r"))
    ∷ Action.by_start StartAction.joins
    ∷ Action.by_start StartAction.launches
    ∷ []

history-InOrder_example : InOrder (run started (some at_rest))
history-InOrder_example = history-InOrder started

-- A stop that comes after the state is set to starting and before the fields are filled in.
abbrev stopped_early : List Action
stopped_early =
    Action.by_start (StartAction.checks settings)
    ∷ Action.by_start StartAction.marks
    ∷ Action.by_stop StopAction.checks
    ∷ Action.by_stop StopAction.requests
    ∷ Action.by_start (StartAction.fills (bytes "r"))
    ∷ Action.by_start StartAction.joins
    ∷ Action.by_start StartAction.launches
    ∷ Action.by_loop LoopAction.creates
    ∷ Action.by_loop LoopAction.announces
    ∷ Action.by_loop LoopAction.launches
    ∷ Action.by_loop (LoopAction.polls false)
    ∷ []

-- The engine, with its workers to be made
abbrev engine_of_started : Engine
engine_of_started = record {
  state = RunState.starting;
  config = settings.patterns;
  run_id = bytes "r";
  run_error = [];
  stop_requested = true;
  stops = 0;
  has_report = false;
  workers = [];
}

is_before : BeforeReport Thread.polling
unfolding is_live
is_before = (refl, λ e. cc)

after_two :
    run
      (map Action.by_loop (LoopAction.polls false ∷ LoopAction.winds_down ∷ []))
      (some (Starter.resting, Thread.polling, engine_of_started))
    ≡ some (Starter.resting, Thread.reporting, engine_of_started)
unfolding run step loop_step with_thread
after_two = refl

stopped_run_ends_example :
    CanStop Starter.resting Thread.polling engine_of_started
    × (length (LoopAction.polls false ∷ LoopAction.winds_down ∷ []) ≤ 7)
stopped_run_ends_example =
    stopped_run_ends Starter.resting Thread.polling engine_of_started is_before refl
      (LoopAction.polls false ∷ LoopAction.winds_down ∷ [])
      (Starter.resting, Thread.reporting, engine_of_started) after_two

-- Such a stop is lost: the run goes on, and nobody has asked for its stop.
abbrev Goes : Control → Type 0
Goes (s, t, e) = (t ≡ Thread.polling) × ((e.state ≡ RunState.running) × (e.stop_requested ≡ false))

early_stop_lost : (c : Control) × ((run stopped_early (some at_rest) ≡ some c) × Goes c)
unfolding run step start_step stop_step take_request loop_step with_engine with_thread can_start
    can_stop is_live new_engine
early_stop_lost = (_, (refl, (refl, (refl, refl))))

five_minutes : parse_duration_to_seconds (bytes "5m") ≡ some 300
unfolding parse_duration_to_seconds scale read_digits as_int seconds_in is_digit bytes
    kubemq_cpp.Base.is_empty
five_minutes = refl

bare_number : parse_duration_to_seconds (bytes "90") ≡ some 90
unfolding parse_duration_to_seconds scale read_digits is_digit bytes kubemq_cpp.Base.is_empty
bare_number = refl

too_many_days : parse_duration_to_seconds (bytes "99999d") ≡ none
unfolding parse_duration_to_seconds scale read_digits as_int seconds_in is_digit bytes
    kubemq_cpp.Base.is_empty
too_many_days = refl
