-- ===== src/Backoff/Bounds.antt =====
-- How long a delay can be.
use kubemq_cpp.Base.{ℕ, ◌+◌, ◌-◌, ◌/◌, ◌^◌, ◌≤◌, ◌<◌, ◌≡◌, refl, inl, inr, arith, Bool-cases, ◌==◌}
use kubemq_cpp.Base.Int.{ℤ, pos, negsuc, ◌≤ℤ◌}
use kubemq_cpp.Backoff.{
  JitterMode, Draw, IsUniform, apply_jitter, Double, RetryPolicy, ReconnectPolicy, computed, capped,
  retry_backoff, reconnect_backoff,
}

-- The range that each mode documents for a delay of `d`: the delay itself, `[0, d)`, and
-- `[d / 2, d)`; a delay of one millisecond cannot be halved, and stays.
abbrev pub InBand : JitterMode → ℕ → ℤ → Type 0
InBand JitterMode.none d r = r ≡ pos d
InBand JitterMode.full d r = (n : ℕ) × (r ≡ pos n) × (n < d)
InBand JitterMode.equal d r = (n : ℕ) × (r ≡ pos n) × (d / 2 ≤ n) × (n ≤ d) × (1 < d → n < d)

-- A positive delay is spread over the range of its jitter mode; a delay that is not positive stays.
pub apply_jitter-InBand :
    (draw : Draw)
    → IsUniform draw
    → (mode : JitterMode)
    → ((d : ℕ) → 0 < d → InBand mode d (apply_jitter draw (pos d) mode))
      × ((n : ℕ) → apply_jitter draw (negsuc n) mode ≡ negsuc n)
      × (apply_jitter draw (pos 0) mode ≡ pos 0)
unfolding apply_jitter
apply_jitter-InBand draw u JitterMode.none = (λ d h. ground arith, λ n. refl, refl)
apply_jitter-InBand draw u JitterMode.full =
    (λ d h. (draw 0 (d - 1), ground arith, omega (arith, u 0 (d - 1))), λ n. refl, refl)
apply_jitter-InBand draw u JitterMode.equal = (λ d h. equal_band d h, λ n. refl, refl)
  where
    equal_band :
        (d : ℕ) → 0 < d → InBand JitterMode.equal d (apply_jitter draw (pos d) JitterMode.equal)
    equal_band d h = elim (Bool-cases (d / 2 == 0)) [
      | inl small ↦ (d, ground arith, omega arith, omega arith, λ big. ground arith)
      | inr large ↦ (
        d / 2 + draw 0 (d / 2 - 1),
        ground arith,
        omega arith,
        ground (arith, u 0 (d / 2 - 1)),
        λ _. ground (arith, u 0 (d / 2 - 1)),
      )
    ]

-- Jitter never lengthens a delay.
pub apply_jitter-le :
    (draw : Draw)
    → IsUniform draw
    → (delay : ℤ) (mode : JitterMode) → apply_jitter draw delay mode ≤ℤ delay
unfolding apply_jitter
apply_jitter-le draw u (negsuc n) mode = ground arith
apply_jitter-le draw u (pos d) JitterMode.none = ground arith
apply_jitter-le draw u (pos d) JitterMode.full = ground (arith, u 0 (d - 1))
apply_jitter-le draw u (pos d) JitterMode.equal = ground (arith, u 0 (d / 2 - 1))

module _ (dbl : Double) (draw : Draw) (u : IsUniform draw) where
  open dbl use {D, less, of_int, to_int64, IsNumber, of_int-number, to_int64-of_int, to_int64_mono}

  capped-le : (c : D) (m : ℕ) → IsNumber c → m ≤ 2 ^ 53 → to_int64 (capped dbl c (pos m)) ≤ℤ pos m
  unfolding capped
  capped-le c m num small = elim (Bool-cases (less (of_int (pos m)) c)) [
    | inl over ↦ rw (over, to_int64-of_int m small) (omega arith)
    | inr under ↦ rw under (
        rw (to_int64-of_int m small) at
          (to_int64_mono c (of_int (pos m)) num (of_int-number m small) under))
  ]

  jittered-le :
      (c : D) (m : ℕ) (mode : JitterMode)
      → IsNumber c
      → m ≤ 2 ^ 53
      → apply_jitter draw (to_int64 (capped dbl c (pos m))) mode ≤ℤ pos m
  jittered-le c m mode num small =
      let below = apply_jitter-le draw u (to_int64 (capped dbl c (pos m))) mode in
      let cap = capped-le c m num small in omega (arith, below, cap)

  -- A delay before a retry is at most the policy's maximum, whatever the attempt, if the computed value
  -- is a number and the maximum is a count that a double holds exactly.
  pub retry_backoff-le :
      (policy : RetryPolicy dbl) (attempt m : ℕ)
      → policy.max_backoff ≡ pos m
      → m ≤ 2 ^ 53
      → IsNumber (computed dbl policy.initial_backoff policy.multiplier attempt)
      → retry_backoff dbl draw policy attempt ≤ℤ pos m
  unfolding retry_backoff
  retry_backoff-le policy attempt m e small num = rw e (jittered-le _ m policy.jitter num small)

  -- A delay before a reconnection is at most the policy's maximum, whatever the attempt, if the
  -- computed value is a number and the maximum is a count that a double holds exactly.
  pub reconnect_backoff-le :
      (policy : ReconnectPolicy dbl) (attempt m : ℕ)
      → policy.max_delay ≡ pos m
      → m ≤ 2 ^ 53
      → IsNumber (computed dbl policy.initial_delay policy.backoff_multiplier attempt)
      → reconnect_backoff dbl draw policy attempt ≤ℤ pos m
  unfolding reconnect_backoff
  reconnect_backoff-le policy attempt m e small num = rw e (jittered-le _ m policy.jitter num small)
