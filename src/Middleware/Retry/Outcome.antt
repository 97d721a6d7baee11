-- ===== src/Middleware/Retry/Outcome.antt =====
-- What a retried operation returns: how often it was called, and the result of the last call.
use kubemq_cpp.Base.{
  ℕ, zero, suc, ◌+◌, ◌≤◌, ◌<◌, ◌≡◌, refl, ap, sym, inl, inr, ◌⊎◌, Bool, true, false, List, [], ◌∷◌,
  arith, Bool-cases, lt→ltb, if◌then◌else◌,
}
use kubemq_cpp.Base.Int.{ℤ, is_pos, pos_part}
use kubemq_cpp.Status.{ErrorCode, Status, StatusOr, is_ok, has_value, status_of}
use kubemq_cpp.Backoff.{Draw, Double, RetryPolicy, retry_backoff}
use kubemq_cpp.Middleware.Retry.{should_retry, retry_rounds, retry_unary, retry_unary_or}

-- The delays before the retries `a`, `a + 1`, ..., `a + n - 1`.
unfoldable pub delays : (ℕ → ℤ) → ℕ → ℕ → List ℤ
delays backoff a zero = []
delays backoff a (suc n) = backoff a ∷ delays backoff (a + 1) n

module _ {S R : Type 0} (operation : S → S × R) where
  -- The state after `n` calls, and the result of the call after them.
  unfoldable pub state_after : ℕ → S → S
  state_after zero s = s
  state_after (suc n) s = state_after n (operation s).0

  unfoldable pub result_at : ℕ → S → R
  unfolding state_after
  result_at n s = (operation (state_after n s)).1

-- The loop goes on after a result: it is no success, and its code may be retried.
abbrev pub goes_on : {R : Type 0} → (R → Bool) → (R → ErrorCode) → Bool → R → Bool
goes_on done code is_idempotent r = if done r then false else should_retry (code r) is_idempotent

-- The outcome of a retried operation with at most `max` retries, from attempt `a` on: it was called
-- `i + 1` times, `i` at most `max`; the result is that of the last call; after each earlier call the
-- loop went on, and after the last it had reached `max` or had to stop; it slept `i` times.
module _ {S R : Type 0} (done : R → Bool) (code : R → ErrorCode) (is_idempotent : Bool)
    (backoff : ℕ → ℤ) (operation : S → S × R) where
  pub record Outcome (a max : ℕ) (s : S) (out : S × R × List ℤ) : Type 0 where
    pub retries : ℕ
    pub few : retries ≤ max
    pub state : out.0 ≡ state_after operation (suc retries) s
    pub result : out.1 ≡ result_at operation retries s
    pub slept : out.2 ≡ delays backoff a retries
    pub earlier :
        (j : ℕ) → j < retries → goes_on done code is_idempotent (result_at operation j s) ≡ true
    pub last :
        (retries ≡ max) ⊎ (goes_on done code is_idempotent (result_at operation retries s) ≡ false)

  stops :
      (a max : ℕ) (s : S)
      → (max ≡ 0) ⊎ (goes_on done code is_idempotent (operation s).1 ≡ false)
      → Outcome a max s ((operation s).0, (operation s).1, [])
  unfolding delays state_after result_at
  stops a max s h = record {
    retries = 0;
    few = omega arith;
    state = refl;
    result = refl;
    slept = refl;
    earlier = λ j lt. absurd (omega arith);
    last = elim h [ inl e ↦ inl (sym e) | inr e ↦ inr e ];
  }

  continues :
      (a max : ℕ) (s : S) (out : S × R × List ℤ)
      → goes_on done code is_idempotent (operation s).1 ≡ true
      → Outcome (a + 1) max (operation s).0 out
      → Outcome a (suc max) s (out.0, out.1, backoff a ∷ out.2)
  unfolding delays state_after result_at
  continues a max s out on o = record {
    retries = suc o.retries;
    few = omega (arith, o.few);
    state = o.state;
    result = o.result;
    slept = ap (λ l. backoff a ∷ l) o.slept;
    earlier = elim [ zero ↦ λ lt. on | suc j ↦ λ lt. o.earlier j (omega arith) ];
    last = elim o.last [ inl e ↦ inl (ap suc e) | inr e ↦ inr e ];
  }

  goes_on-parts :
      (r : R)
      → goes_on done code is_idempotent r ≡ true
      → (done r ≡ false) × (should_retry (code r) is_idempotent ≡ true)
  goes_on-parts r h = ground arith

  module _ (n rounds a : ℕ) (s : S) (last : R) where
    loop : S × R × List ℤ
    loop = retry_rounds done code is_idempotent backoff n operation (suc rounds) a s last

    rest : S × R × List ℤ
    rest =
        retry_rounds done code is_idempotent backoff n operation rounds (a + 1) (operation s).0
          (operation s).1

    round_on :
        goes_on done code is_idempotent (operation s).1 ≡ true
        → a < n
        → loop ≡ (rest.0, rest.1, backoff a ∷ rest.2)
    unfolding loop rest retry_rounds
    round_on h lt = let p = goes_on-parts _ h in rw (p.0, lt→ltb a n lt, p.1)

    round_off :
        (goes_on done code is_idempotent (operation s).1 ≡ false) ⊎ (n ≤ a)
        → loop ≡ ((operation s).0, (operation s).1, [])
    unfolding loop rest retry_rounds
    round_off h = ground arith

  retry_rounds-Outcome :
      (rounds a max n : ℕ) (s : S) (last : R)
      → rounds ≡ suc max
      → a + max ≡ n
      → Outcome a max s (retry_rounds done code is_idempotent backoff n operation rounds a s last)
  unfolding loop rest
  retry_rounds-Outcome zero a max n s last e k = absurd (omega arith)
  retry_rounds-Outcome (suc rounds) a zero n s last e k =
      rw (round_off n rounds a s last (inr (omega arith))) (stops a 0 s (inl refl))
  retry_rounds-Outcome (suc rounds) a (suc max) n s last e k =
      elim (Bool-cases (goes_on done code is_idempotent (operation s).1)) [
        | inl on ↦ rw (round_on n rounds a s last on (omega arith)) (
            continues a max s _ on
              (retry_rounds-Outcome rounds (a + 1) max n _ _ (omega arith) (omega arith)))
        | inr off ↦ rw (round_off n rounds a s last (inl off)) (stops a (suc max) s (inr off))
      ]

-- The delay that is slept before a retry.
abbrev pub backoff_of : (d : Double) (draws : ℕ → Draw) (policy : RetryPolicy d) → ℕ → ℤ
backoff_of d draws policy a = retry_backoff d (draws a) policy a

module _ (d : Double) (draws : ℕ → Draw) {S : Type 0} (policy : RetryPolicy d)
    (is_idempotent : Bool) where
  -- `RetryUnary` calls the operation once more than it retries, at most `max_retries` times more (not at
  -- all if that is not positive); it returns the status of the last call and the state that this left;
  -- it retried exactly after statuses that are not OK and may be retried; it stopped at the limit or at
  -- the first other status; and it slept the delays of the attempts in order.
  pub retry_unary-Outcome :
      (operation : S → S × Status) (unset : Status) (s : S)
      → Outcome is_ok
          (λ st. st.code)
          is_idempotent
          (backoff_of d draws policy)
          operation
          0
          (pos_part policy.max_retries)
          s
          (retry_unary d draws policy is_idempotent operation unset s)
  unfolding retry_unary
  retry_unary-Outcome operation unset s = elim (Bool-cases (is_pos policy.max_retries)) [
    | inl some_retries ↦ rw some_retries (
        retry_rounds-Outcome is_ok (λ st. st.code) is_idempotent (backoff_of d draws policy)
          operation _ 0 _ _ s unset refl (omega arith))
    | inr no_retries ↦ rw no_retries (
        stops is_ok (λ st. st.code) is_idempotent (backoff_of d draws policy) operation 0 _ s
          (inl (ground arith)))
  ]

  -- `RetryUnaryOr` calls an operation that returns a value or a status once more than it retries, at
  -- most `max_retries` times more (not at all if that is not positive); it returns the result of the
  -- last call and the state that this left; it retried exactly after results without a value whose
  -- status may be retried; it stopped at the limit or at the first other result; and it slept the
  -- delays of the attempts in order.
  pub retry_unary_or-Outcome :
      {T : Type 0} (operation : S → S × StatusOr T) (unset : StatusOr T) (s : S)
      → Outcome has_value
          (λ r. (status_of r).code)
          is_idempotent
          (backoff_of d draws policy)
          operation
          0
          (pos_part policy.max_retries)
          s
          (retry_unary_or d draws policy is_idempotent operation unset s)
  unfolding retry_unary_or
  retry_unary_or-Outcome operation unset s = elim (Bool-cases (is_pos policy.max_retries)) [
    | inl some_retries ↦ rw some_retries (
        retry_rounds-Outcome has_value (λ r. (status_of r).code) is_idempotent
          (backoff_of d draws policy) operation _ 0 _ _ s unset refl (omega arith))
    | inr no_retries ↦ rw no_retries (
        stops has_value (λ r. (status_of r).code) is_idempotent (backoff_of d draws policy)
          operation 0 _ s (inl (ground arith)))
  ]
