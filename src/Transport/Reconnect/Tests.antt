-- ===== src/Transport/Reconnect/Tests.antt =====
-- A server that answers at the third attempt, and one that never does.
use kubemq_cpp.Base.{
  ℕ, ◌+◌, ◌*◌, ◌≡◌, ◌≢◌, refl, Bool, false, List, [], ◌∷◌, ltb, if◌then◌else◌, bytes, arith,
}
use kubemq_cpp.Base.Int.{ℤ, pos}
use kubemq_cpp.Status.{ErrorCode, Status, ok_status, brief}
use kubemq_cpp.Transport.Reconnect.{End, run}
use kubemq_cpp.Transport.Reconnect.Outcome.{Outcome, run-Outcome, run_terminates}
use kubemq_cpp.Transport.Reconnect.Thread.{
  create, start, play, stop, run_ends, destroy, Fate, Act, destroy_after_run,
}

abbrev refused : Status
refused = brief ErrorCode.transient (bytes "refused")

abbrev third : ℕ → ℕ × Status
third s = (s + 1, if ltb s 2 then refused else ok_status)

abbrev never : ℕ → ℕ × Status
never s = (s + 1, refused)

abbrev go_on : ℕ → Bool
go_on k = false

abbrev wait : ℕ → ℤ
wait k = pos (100 * (k + 1))

connects : run third go_on wait (pos 0) 9 0 0 ≡ (3, pos 100 ∷ pos 200 ∷ [], End.connected)
unfolding run kubemq_cpp.Status.is_ok_code
connects = refl

run-Outcome_example : Outcome third go_on wait (pos 5) 9 0 0 (run third go_on wait (pos 5) 9 0 0)
run-Outcome_example = run-Outcome third go_on wait (pos 5) 9 0 0

run_terminates_example : (run never go_on wait (pos 4) 5 0 0).2 ≢ End.unfinished
run_terminates_example =
    run_terminates never go_on wait (pos 4) 4 5 0 refl (omega arith) (omega arith)

abbrev history : List Act
history = []

destroy_after_run_example :
    let l = start (play create history) in
    (destroy l ≡ Fate.goes_on)
    × (destroy (stop l) ≡ Fate.goes_on)
    × (destroy (run_ends l) ≡ Fate.terminates)
    × (destroy (stop (run_ends l)) ≡ Fate.terminates)
    × (destroy (start (run_ends l)) ≡ Fate.goes_on)
destroy_after_run_example = destroy_after_run history
