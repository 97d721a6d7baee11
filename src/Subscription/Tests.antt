-- ===== src/Subscription/Tests.antt =====
-- A subscription whose stream breaks, and its `Cancel`.
use kubemq_cpp.Base.{
  ℕ, zero, suc, ◌≤◌, ◌≡◌, refl, true, false, Option, none, some, List, [], ◌∷◌, Bool,
}
use kubemq_cpp.Validation.Channel.{IsChannel}
use kubemq_cpp.Message.Content.{first_non_empty}
use kubemq_cpp.Transport.StateMachine.Callbacks as Machine
use kubemq_cpp.Transport.Grpc.Streams
use kubemq_cpp.Transport.Grpc.Tests.{open_transport}
use kubemq_cpp.Options.{new_options}
use kubemq_cpp.Client.{Client}
use kubemq_cpp.Subscription.{Phase, Shared, Action, started, run, step}
use kubemq_cpp.Subscription.Ends.{others, cancelled_reader_bound}
use kubemq_cpp.Subscription.Alone.{GoesOn, Uncancelled-GoesOn}
use kubemq_cpp.Wire
use kubemq_cpp.Wire.{RequestType, Request, new_request}

-- Every message but 0 is for the callback.
abbrev deliver : ℕ → Option ℕ
deliver zero = none
deliver (suc n) = some (suc n)

-- Two messages arrive, the stream breaks, and a reconnection succeeds after one that fails.
abbrev broken : List (Action ℕ)
broken =
    Action.test
    ∷ Action.read 3
    ∷ Action.read 0
    ∷ Action.read 4
    ∷ Action.stream_ends
    ∷ Action.test
    ∷ Action.test
    ∷ Action.wake
    ∷ Action.test
    ∷ Action.refused
    ∷ Action.test
    ∷ Action.wake
    ∷ Action.test
    ∷ Action.opened
    ∷ Action.test
    ∷ Action.read 5
    ∷ []

-- A command, a query and a command, of which the reader of commands hands over the first and the last.
abbrev asked : RequestType → Request
asked type = record new_request { request_type = type; channel = 97 ∷ [] }

abbrev requests : List (Action Request)
requests =
    Action.test
    ∷ Action.read (asked RequestType.command)
    ∷ Action.read (asked RequestType.query)
    ∷ Action.read (asked RequestType.command)
    ∷ []

abbrev events : List (Action Wire.EventReceive)
events = Action.test ∷ Action.stream_ends ∷ []

Uncancelled-GoesOn_example : GoesOn (run deliver broken (some (Phase.top, started)))
Uncancelled-GoesOn_example = Uncancelled-GoesOn deliver broken tt

-- `Cancel` while the reader sleeps.
abbrev cancelled : List (Action ℕ)
cancelled =
    Action.test ∷ Action.stream_ends ∷ Action.test ∷ Action.test ∷ Action.set_done
    ∷ Action.try_cancel ∷ []

abbrev cancelled_shared : Shared ℕ
cancelled_shared = record {
  done = true;
  cancelled = true;
  asked = true;
  client_closed = false;
  reported = false;
  delivered = [];
}

cancelled_run :
    run deliver cancelled (some (Phase.top, started)) ≡ some (Phase.sleeping 1, cancelled_shared)
unfolding run step
cancelled_run = refl

abbrev to_exit : List (Action ℕ)
to_exit = Action.wake ∷ Action.test ∷ Action.leave ∷ []

exit_run :
    run deliver to_exit (some (Phase.sleeping 1, cancelled_shared))
    ≡ some (Phase.exited, cancelled_shared)
unfolding run step
exit_run = refl

cancelled_reader_bound_example : others to_exit ≤ 3
cancelled_reader_bound_example =
    cancelled_reader_bound deliver cancelled (Phase.sleeping 1) cancelled_shared cancelled_run refl
      to_exit (Phase.exited, cancelled_shared) (tt, (tt, (tt, tt))) exit_run

abbrev client : Client ℕ Machine.Event ℕ
client = record {
  transport = open_transport;
  opts = new_options;
  closed = false;
  active_contexts = [];
}

abbrev Admits : Type 0
Admits = ◌≡◌ {A = Bool} false false × IsChannel (first_non_empty (97 ∷ []) [])
