-- ===== src/Middleware/Retry/Tests.antt =====
-- An operation that fails twice.
use kubemq_cpp.Base.{ℕ, ◌+◌, ◌≡◌, refl, false, ltb, length, if◌then◌else◌, bytes, arith}
use kubemq_cpp.Base.Int.{pos_part}
use kubemq_cpp.Status.{
  ErrorCode, Status, StatusOr, value, failed, ok_status, brief, is_ok, has_value, status_of,
}
use kubemq_cpp.Backoff.{Draw}
use kubemq_cpp.Backoff.Tests.{naturals, policy, least}
use kubemq_cpp.Middleware.Retry.{retry_unary, retry_unary_or}
use kubemq_cpp.Middleware.Retry.Outcome.{Outcome, backoff_of, result_at, retry_unary-Outcome}
use kubemq_cpp.Middleware.Retry.Safety.{IsRejected, retry_unary_no_duplicate}

abbrev draws : ℕ → Draw
draws k = least

abbrev busy : Status
busy = brief ErrorCode.throttling (bytes "busy")

abbrev third : ℕ → ℕ × Status
third s = (s + 1, if ltb s 2 then busy else ok_status)

retry_unary-Outcome_example :
    Outcome is_ok
      (λ st. st.code)
      false
      (backoff_of naturals draws policy)
      third
      0
      (pos_part policy.max_retries)
      0
      (retry_unary naturals draws policy false third ok_status 0)
retry_unary-Outcome_example = retry_unary-Outcome naturals draws policy false third ok_status 0

sleeps_twice : length (retry_unary naturals draws policy false third ok_status 0).2 ≡ 2
unfolding retry_unary kubemq_cpp.Status.is_ok_code kubemq_cpp.Status.is_retryable
    kubemq_cpp.Middleware.Retry.should_retry
sleeps_twice = refl

retry_unary_no_duplicate_example : IsRejected (result_at third 1 0).code
retry_unary_no_duplicate_example =
    retry_unary_no_duplicate naturals draws policy third ok_status 0 1
      (rw sleeps_twice (omega arith))
