-- ===== src/Transport/Reconnect/Outcome.antt =====
-- How the reconnection loop ends: after which attempts, with which waits, and for which reason.
use kubemq_cpp.Base.{
  ℕ, zero, suc, ◌+◌, ◌<◌, ◌≡◌, ◌≢◌, refl, ap, ◌∙◌, inl, inr, Bool, true, false, List, [], ◌∷◌,
  arith, Bool-cases,
}
use mathlib.Core.Path.{subst}
use kubemq_cpp.Base.Int.{ℤ, pos}
use kubemq_cpp.Status.{Status, is_ok}
use kubemq_cpp.Middleware.Retry.Outcome.{delays, state_after, result_at}
use kubemq_cpp.Transport.Reconnect.{End, is_exhausted, run}

clash : (limit : ℕ) → 0 < limit → is_exhausted (pos limit) (0 + limit) ≢ false
unfolding is_exhausted
clash limit lt h = ground arith

module _ {S : Type 0} (connect : S → S × Status) (stopped : ℕ → Bool) (backoff : ℕ → ℤ)
    (max_attempts : ℤ) where
  -- The reason for the end, after `k` failures from attempt `a` on, and the state that is left.
  abbrev pub Because : ℕ → ℕ → ℕ → S → S → End → Type 0
  Because fuel a k s s' End.stop_requested =
      (stopped (a + k) ≡ true) × (s' ≡ state_after connect k s)
  Because fuel a k s s' End.exhausted =
      (is_exhausted max_attempts (a + k) ≡ true) × (s' ≡ state_after connect k s)
  Because fuel a k s s' End.connected =
      (is_ok (result_at connect k s) ≡ true) × (s' ≡ state_after connect (suc k) s)
  Because fuel a k s s' End.unfinished = (k ≡ fuel) × (s' ≡ state_after connect k s)

  -- `failures` attempts were made in vain, each while no stop was requested and the limit was not
  -- reached, each followed by its wait; then the loop ended for the reason given.
  pub record Outcome (fuel a : ℕ) (s : S) (out : S × List ℤ × End) : Type 0 where
    pub failures : ℕ
    pub waits : out.1 ≡ delays backoff a failures
    pub failed :
        (j : ℕ)
        → j < failures
        → (is_ok (result_at connect j s) ≡ false)
          × (stopped (a + j) ≡ false)
          × (is_exhausted max_attempts (a + j) ≡ false)
    pub because : Because fuel a failures s out.0 out.2

  -- The loop ends at once.
  ends : (fuel a : ℕ) (s s' : S) (e : End) → Because fuel a 0 s s' e → Outcome fuel a s (s', [], e)
  unfolding delays
  ends fuel a s s' e b = record {
    failures = 0;
    waits = refl;
    failed = λ j lt. absurd (omega arith);
    because = b;
  }

  -- The reason for the end counts from the first attempt.
  Because-suc :
      (fuel a k : ℕ) (s s' : S) (e : End)
      → Because fuel (a + 1) k (connect s).0 s' e
      → Because (suc fuel) a (suc k) s s' e
  unfolding state_after result_at
  Because-suc fuel a k s s' End.stop_requested (h, e) = (ap stopped (omega arith) ∙ h, e)
  Because-suc fuel a k s s' End.exhausted (h, e) =
      (ap (is_exhausted max_attempts) (omega arith) ∙ h, e)
  Because-suc fuel a k s s' End.connected (h, e) = (h, e)
  Because-suc fuel a k s s' End.unfinished (h, e) = (ap suc h, e)

  goes_on :
      (fuel a : ℕ) (s : S) (out : S × List ℤ × End)
      → is_ok (connect s).1 ≡ false
      → stopped a ≡ false
      → is_exhausted max_attempts a ≡ false
      → Outcome fuel (a + 1) (connect s).0 out
      → Outcome (suc fuel) a s (out.0, backoff a ∷ out.1, out.2)
  unfolding delays state_after result_at
  goes_on fuel a s out bad run_on more o = record {
    failures = suc o.failures;
    waits = ap (λ l. backoff a ∷ l) o.waits;
    failed = elim [
      | zero ↦ λ lt. (
        bad,
        ap stopped (omega arith) ∙ run_on,
        ap (is_exhausted max_attempts) (omega arith) ∙ more,
      )
      | suc j ↦ λ lt.
          let (f, n, x) = o.failed j (omega arith) in
          (f, ap stopped (omega arith) ∙ n, ap (is_exhausted max_attempts) (omega arith) ∙ x)
    ];
    because = Because-suc fuel a o.failures s out.0 out.2 o.because;
  }

  -- `Run` makes its attempts one after another, and waits after each that fails for the delay of that
  -- attempt. It ends before an attempt if a stop was requested or the limit is reached, and after the
  -- first attempt that succeeds; with `fuel` rounds granted it is still running only after `fuel`
  -- failures.
  pub run-Outcome :
      (fuel a : ℕ) (s : S) → Outcome fuel a s (run connect stopped backoff max_attempts fuel a s)
  unfolding run
  run-Outcome zero a s = ends zero a s s End.unfinished (refl, unfold state_after in refl)
  run-Outcome (suc fuel) a s = elim (Bool-cases (stopped a)) [
    | inl st ↦ rw st (
        ends (suc fuel) a s s End.stop_requested
          (ap stopped {x = a + 0} {y = a} (omega arith) ∙ st, unfold state_after in refl))
    | inr run_on ↦ elim (Bool-cases (is_exhausted max_attempts a)) [
      | inl ex ↦
          rw (run_on, ex)
            (ends (suc fuel) a s s End.exhausted (
              ap (is_exhausted max_attempts) {x = a + 0} {y = a} (omega arith) ∙ ex,
              unfold state_after in refl,
            ))
      | inr more ↦ elim (Bool-cases (is_ok (connect s).1)) [
        | inl good ↦
            rw (run_on, more, good)
              (ends (suc fuel) a s (connect s).0 End.connected
                (unfold state_after in unfold result_at in (good, refl)))
        | inr bad ↦
            rw (run_on, more, bad)
              (goes_on fuel a s _ bad run_on more (run-Outcome fuel (a + 1) (connect s).0))
      ]
    ]
  ]

  -- With a limit of `limit` attempts, above zero, more than `limit` rounds are enough: the loop has
  -- ended by itself.
  pub run_terminates :
      (limit fuel : ℕ) (s : S)
      → max_attempts ≡ pos limit
      → 0 < limit
      → limit < fuel
      → (run connect stopped backoff max_attempts fuel 0 s).2 ≢ End.unfinished
  unfolding is_exhausted
  run_terminates limit fuel s e lt enough h =
      let o = run-Outcome fuel 0 s in
      let why : Because fuel 0 o.failures s (run connect stopped backoff max_attempts fuel 0 s).0
          End.unfinished =
        subst
          (λ end.
            Because fuel 0 o.failures s (run connect stopped backoff max_attempts fuel 0 s).0 end)
          h o.because in
      let more = (o.failed limit (rw (why.0) enough)).2 in absurd (clash limit lt (rw e at more))
