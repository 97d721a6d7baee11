-- ===== src/Middleware/Retry.antt =====
-- src/internal/middleware/retry.cc. An operation acts on a state `S` (the world that it talks to) and
-- returns a result; a run also returns the delays that the loop slept, in order.
pub mod Outcome
pub mod Safety
mod Tests
use kubemq_cpp.Base.{
  ℕ, zero, suc, ◌+◌, Bool, true, false, not, ◌&&◌, List, [], ◌∷◌, ltb, if◌then◌else◌,
}
use kubemq_cpp.Base.Int.{ℤ, is_pos, pos_part}
use kubemq_cpp.Status.{ErrorCode, Status, StatusOr, is_ok, is_retryable, has_value, status_of}
use kubemq_cpp.Backoff.{Draw, Double, RetryPolicy, retry_backoff}

-- `code == ErrorCode::kTimeout`
is_timeout : ErrorCode → Bool
is_timeout ErrorCode.timeout = true
is_timeout _ = false

-- `ShouldRetry`
unfoldable pub should_retry : ErrorCode → Bool → Bool
unfolding is_timeout is_retryable
should_retry code is_idempotent =
    if not (is_retryable code)
    then false
    else (if not is_idempotent && is_timeout code then false else true)

module _ {S R : Type 0} (done : R → Bool) (code : R → ErrorCode) (is_idempotent : Bool)
    (backoff : ℕ → ℤ) (max_retries : ℕ) (operation : S → S × R) where
  -- The loop `for (attempt = ...; attempt <= max_retries; ++attempt)` with the rounds that are left.
  -- `last` is `last_status`.
  unfoldable pub retry_rounds : ℕ → ℕ → S → R → S × R × List ℤ
  retry_rounds zero attempt s last = (s, last, [])
  retry_rounds (suc rounds) attempt s last =
      let (s', result) = operation s in
      let rest = retry_rounds rounds (attempt + 1) s' result in
      if done result
      then (s', result, [])
      else (if ltb attempt max_retries && should_retry (code result) is_idempotent
          then (rest.0, rest.1, backoff attempt ∷ rest.2)
          else (s', result, []))

module _ (d : Double) (draws : ℕ → Draw) {S : Type 0} where
  -- `RetryUnary`; `draws` is the random generator, by the attempt. The first `last_status` is OK.
  unfoldable pub retry_unary :
      RetryPolicy d → Bool → (S → S × Status) → Status → S → S × Status × List ℤ
  unfolding retry_rounds
  retry_unary policy is_idempotent operation unset s =
      let n = pos_part policy.max_retries in
      if is_pos policy.max_retries
      then retry_rounds is_ok (λ st. st.code) is_idempotent
          (λ a. retry_backoff d (draws a) policy a) n operation (suc n) 0 s unset
      else (let (s', result) = operation s in (s', result, []))

  -- `RetryUnaryOr`; the first `last_result` is an error that the loop replaces.
  unfoldable pub retry_unary_or :
      {T : Type 0}
      → RetryPolicy d
      → Bool
      → (S → S × StatusOr T)
      → StatusOr T
      → S
      → S × StatusOr T × List ℤ
  unfolding retry_rounds
  retry_unary_or policy is_idempotent operation unset s =
      let n = pos_part policy.max_retries in
      if is_pos policy.max_retries
      then retry_rounds has_value (λ r. (status_of r).code) is_idempotent
          (λ a. retry_backoff d (draws a) policy a) n operation (suc n) 0 s unset
      else (let (s', result) = operation s in (s', result, []))
