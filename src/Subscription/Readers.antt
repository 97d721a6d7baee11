-- ===== src/Subscription/Readers.antt =====
-- The reader threads of the four kinds of subscription: one loop, which src/client_events.cc,
-- src/client_events_store.cc, src/client_commands.cc and src/client_queries.cc each have written out.
use kubemq_cpp.Base.{Option, List}
use kubemq_cpp.Convert.Requests.{CommandReceive, QueryReceive}
use kubemq_cpp.Subscription.{Phase, Shared, Action, run}
use kubemq_cpp.Subscription.Setup.{EventReceive, deliver_event, deliver_command, deliver_query}
use kubemq_cpp.Wire
use kubemq_cpp.Wire.{Request}

unfoldable pub read_events :
    List (Action Wire.EventReceive)
    → Option (Phase × Shared EventReceive)
    → Option (Phase × Shared EventReceive)
read_events history s = run deliver_event history s

unfoldable pub read_events_store :
    List (Action Wire.EventReceive)
    → Option (Phase × Shared EventReceive)
    → Option (Phase × Shared EventReceive)
read_events_store history s = run deliver_event history s

unfoldable pub read_commands :
    List (Action Request)
    → Option (Phase × Shared CommandReceive)
    → Option (Phase × Shared CommandReceive)
read_commands history s = run deliver_command history s

unfoldable pub read_queries :
    List (Action Request)
    → Option (Phase × Shared QueryReceive)
    → Option (Phase × Shared QueryReceive)
read_queries history s = run deliver_query history s
