-- ===== src/Transport/Reconnect.antt =====
-- src/internal/transport/reconnect.cc: the loop that connects again, and the life of its thread.
pub mod Outcome
pub mod Thread
mod Tests
use kubemq_cpp.Base.{ℕ, zero, suc, ◌+◌, Bool, true, false, ◌&&◌, List, [], ◌∷◌, leb, if◌then◌else◌}
use kubemq_cpp.Base.Int.{ℤ, is_pos, pos_part}
use kubemq_cpp.Status.{Status, is_ok}

-- How `Run` leaves its loop; `unfinished` is a loop that still runs when the fuel is used up.
pub data End : Type 0 where
  stop_requested exhausted connected unfinished : End

-- `policy_.max_attempts > 0 && attempt >= policy_.max_attempts`
unfoldable pub is_exhausted : ℤ → ℕ → Bool
is_exhausted max_attempts attempt = is_pos max_attempts && leb (pos_part max_attempts) attempt

-- `connect_fn` acts on a state `S`; `stopped k` is what `stop_requested_` holds when the loop's test
-- reads it before attempt `k`. A wait that is cut short by a stop does nothing else.
module _ {S : Type 0} (connect : S → S × Status) (stopped : ℕ → Bool) (backoff : ℕ → ℤ)
    (max_attempts : ℤ) where
  -- The loop of `Run` on fuel, with the waits, in order.
  unfoldable pub run : ℕ → ℕ → S → S × List ℤ × End
  unfolding is_exhausted
  run zero attempt s = (s, [], End.unfinished)
  run (suc fuel) attempt s =
      let (s', status) = connect s in
      let rest = run fuel (attempt + 1) s' in
      if stopped attempt
      then (s, [], End.stop_requested)
      else (if is_exhausted max_attempts attempt
          then (s, [], End.exhausted)
          else (if is_ok status
              then (s', [], End.connected)
              else (rest.0, backoff attempt ∷ rest.1, rest.2)))
