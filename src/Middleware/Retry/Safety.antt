-- ===== src/Middleware/Retry/Safety.antt =====
-- When an operation must not run twice.
use kubemq_cpp.Base.{ℕ, zero, suc, ◌+◌, ◌<◌, ◌≡◌, refl, ap, length, true, false, arith}
use kubemq_cpp.Base.Int.{ℤ}
use kubemq_cpp.Status.{ErrorCode, Status, is_ok}
use kubemq_cpp.Backoff.{Draw, Double, RetryPolicy}
use kubemq_cpp.Middleware.Retry.{should_retry, retry_unary}
use kubemq_cpp.Middleware.Retry.Outcome.{delays, result_at, goes_on, retry_unary-Outcome}

-- A code after which an operation that is not idempotent may run again: the request was not accepted.
pub data IsRejected : ErrorCode → Type 0 where
  transient : IsRejected ErrorCode.transient
  throttling : IsRejected ErrorCode.throttling

goes_on-IsRejected : (c : ErrorCode) → should_retry c false ≡ true → IsRejected c
unfolding should_retry
goes_on-IsRejected ErrorCode.transient h = transient
goes_on-IsRejected ErrorCode.throttling h = throttling
goes_on-IsRejected _ h = cc

goes_on-code :
    (st : Status) → goes_on is_ok (λ s. s.code) false st ≡ true → should_retry st.code false ≡ true
goes_on-code st h = ground arith

length-delays : (backoff : ℕ → ℤ) (a n : ℕ) → length (delays backoff a n) ≡ n
unfolding delays
length-delays backoff a zero = refl
length-delays backoff a (suc n) = ap suc (length-delays backoff (a + 1) n)

-- In a run of `RetryUnary` of an operation that is not idempotent, each call that was followed by a
-- sleep, and so by another call, ended with a transient or a throttling error: never with a success, a
-- timeout, or any other error.
pub retry_unary_no_duplicate :
    (d : Double) (draws : ℕ → Draw) {S : Type 0} (policy : RetryPolicy d)
    (operation : S → S × Status) (unset : Status) (s : S) (j : ℕ)
    → j < length (retry_unary d draws policy false operation unset s).2
    → IsRejected (result_at operation j s).code
retry_unary_no_duplicate d draws policy operation unset s j lt =
    let o = retry_unary-Outcome d draws policy false operation unset s in
    let few : j < o.retries = rw (o.slept, length-delays _ 0 o.retries) at lt in
    goes_on-IsRejected _ (goes_on-code (result_at operation j s) (o.earlier j few))
