-- ===== src/Transport/Reconnect/Thread.antt =====
-- `Start`, `Stop` and the destructor of `ReconnectLoop`, by the flag `running_`, the flag
-- `stop_requested_`, and whether `thread_` is joinable. The background thread is another party: its
-- last act, `running_.store(false)`, is the step `run_ends`.
use kubemq_cpp.Base.{Bool, true, false, ◌≡◌, List, [], ◌∷◌, arith, if◌then◌else◌}

pub record ReconnectLoop : Type 0 where
  pub running : Bool
  pub stop_requested : Bool
  pub joinable : Bool

-- `ReconnectLoop(policy)`
unfoldable pub create : ReconnectLoop
create = record { running = false; stop_requested = false; joinable = false }

-- `Start`: a leftover thread is joined, then a new one is started.
unfoldable pub start : ReconnectLoop → ReconnectLoop
start l =
    if l.running then l else record { running = true; stop_requested = false; joinable = true }

-- The end of `Run`, when the connection stands, the attempts are used up, or a stop was requested.
unfoldable pub run_ends : ReconnectLoop → ReconnectLoop
run_ends l = record l { running = false }

-- `Stop`: the join waits for the end of `Run`.
unfoldable pub stop : ReconnectLoop → ReconnectLoop
stop l =
    if l.running then record { running = false; stop_requested = true; joinable = false } else l

-- What becomes of the process: the destructor of a joinable `std::thread` calls `std::terminate`.
pub data Fate : Type 0 where
  goes_on terminates : Fate

-- `~ReconnectLoop`: `Stop`, then the destructors of the members.
unfoldable pub destroy : ReconnectLoop → Fate
unfolding stop
destroy l = if (stop l).joinable then Fate.terminates else Fate.goes_on

-- What happens to a loop before it is destroyed.
pub data Act : Type 0 where
  starts stops run_ending : Act

unfoldable pub act : ReconnectLoop → Act → ReconnectLoop
unfolding start stop run_ends
act l Act.starts = start l
act l Act.stops = stop l
act l Act.run_ending = run_ends l

unfoldable pub play : ReconnectLoop → List Act → ReconnectLoop
play l [] = l
play l (a ∷ as') = play (act l a) as'

-- A running thread is joinable.
abbrev IsSound : ReconnectLoop → Type 0
IsSound l = l.running ≡ true → l.joinable ≡ true

act-IsSound : (l : ReconnectLoop) (a : Act) → IsSound l → IsSound (act l a)
unfolding act
act-IsSound l Act.starts v h = ground arith
act-IsSound l Act.stops v h = ground arith
act-IsSound l Act.run_ending v h = cc

play-IsSound : (l : ReconnectLoop) (as' : List Act) → IsSound l → IsSound (play l as')
unfolding play
play-IsSound l [] v = v
play-IsSound l (a ∷ as') v = play-IsSound (act l a) as' (act-IsSound l a v)

-- Of a loop that `Start` was last called on, after any history: destroyed while it runs, or after a
-- `Stop` while it runs, it is joined. Once its thread has ended by itself, as it does when the connection
-- stands, destroying it takes the process down, also after a `Stop`, which returns before its join when
-- nothing runs; another `Start` makes it one that can be destroyed again.
pub destroy_after_run :
    (history : List Act)
    → let l = start (play create history) in
      (destroy l ≡ Fate.goes_on)
      × (destroy (stop l) ≡ Fate.goes_on)
      × (destroy (run_ends l) ≡ Fate.terminates)
      × (destroy (stop (run_ends l)) ≡ Fate.terminates)
      × (destroy (start (run_ends l)) ≡ Fate.goes_on)
unfolding destroy start run_ends create
destroy_after_run history =
    let v = play-IsSound create history (λ h. cc) in
    (ground arith, ground arith, ground arith, ground arith, ground arith)
