-- ===== src/Burnin.antt =====
-- burnin/engine/engine.cc and burnin/config/config.h: what the burn-in engine runs. Of the
-- settings the engine itself reads these.
pub mod Engine
pub mod Control
pub mod Stop
pub mod Duration
mod Tests
use kubemq_cpp.Base.{
  ℕ, zero, suc, ◌+◌, Bool, true, false, ◌||◌, [], ◌∷◌, ◌++◌, List, Bytes, bytes, str_eq,
  if◌then◌else◌,
}
use kubemq_cpp.Base.Int.{ℤ, pos, pos_part}
use kubemq_cpp.Transport.Grpc.Connect.{to_string}

pub record PatternConfig : Type 0 where
  pub enabled : Bool
  pub channels : ℤ

-- `patterns` has the entries of the map in its order.
pub record Config : Type 0 where
  pub run_id : Bytes
  pub patterns : List (Bytes × PatternConfig)

-- A worker, by the pattern that it runs and its channel
pub record Worker : Type 0 where
  pub pattern : Bytes
  pub channel : Bytes

-- The enabled patterns that `StartRun` counts.
unfoldable pub count_enabled : List (Bytes × PatternConfig) → ℕ
count_enabled [] = 0
count_enabled ((name, p) ∷ rest) = let n = count_enabled rest in if p.enabled then suc n else n

-- Whether there is a kind of worker of this name.
unfoldable pub has_worker : Bytes → Bool
has_worker name =
    str_eq name (bytes "events")
    || str_eq name (bytes "events_store")
    || str_eq name (bytes "queue_simple")
    || str_eq name (bytes "queue_stream")
    || str_eq name (bytes "commands")
    || str_eq name (bytes "queries")

unfoldable pub channel_name : Bytes → Bytes → ℕ → Bytes
channel_name run_id name ch =
    bytes "burnin.cpp." ++ run_id ++ bytes "." ++ name ++ bytes "." ++ to_string (pos ch)

-- The workers of one pattern, for `count` channels from `ch` on.
unfoldable pub workers_from : Bytes → Bytes → ℕ → ℕ → List Worker
workers_from run_id name zero ch = []
workers_from run_id name (suc count) ch =
    record { pattern = name; channel = channel_name run_id name ch }
    ∷ workers_from run_id name count (ch + 1)

-- `CreateWorkers`
unfoldable pub create_workers : Bytes → List (Bytes × PatternConfig) → List Worker
create_workers run_id [] = []
create_workers run_id ((name, p) ∷ rest) =
    let ws = create_workers run_id rest in
    if p.enabled
    then (if has_worker name then workers_from run_id name (pos_part p.channels) 0 ++ ws else ws)
    else ws
