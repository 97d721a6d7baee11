-- ===== src/Backoff.antt =====
-- src/internal/types/jitter.cc, and the `CalculateBackoff` of src/internal/middleware/retry.cc and of
-- src/internal/transport/reconnect.cc; the policies of include/kubemq/retry_policy.h and
-- include/kubemq/reconnect_policy.h. Durations are counts of milliseconds.
pub mod Bounds
pub mod Tests
use kubemq_cpp.Base.{
  ℕ, suc, ◌+◌, ◌-◌, ◌/◌, ◌^◌, ◌≤◌, ◌≡◌, Bool, true, false, not, ◌||◌, ltb, ◌==◌, if◌then◌else◌,
}
use kubemq_cpp.Base.Int.{ℤ, pos, negsuc, is_pos, pos_part, ◌≤ℤ◌}

-- `enum class JitterMode`
pub data JitterMode : Type 0 where
  none full equal : JitterMode

-- `uniform_int_distribution(a, b)(gen)`: the number drawn, by the bounds. Random, so a parameter.
abbrev pub Draw : Type 0
Draw = ℕ → ℕ → ℕ

-- What the distribution documents: a drawn number lies between its bounds.
abbrev pub IsUniform : Draw → Type 0
IsUniform draw = (a b : ℕ) → a ≤ b → (a ≤ draw a b) × (draw a b ≤ b)

-- The random part, for a delay above zero.
jittered : Draw → ℕ → JitterMode → ℕ
jittered draw delay JitterMode.none = delay
jittered draw delay JitterMode.full = draw 0 (delay - 1)
jittered draw delay JitterMode.equal =
    let half = delay / 2 in if half == 0 then delay else half + draw 0 (half - 1)

is_none : JitterMode → Bool
is_none JitterMode.none = true
is_none _ = false

-- `ApplyJitter`
unfoldable pub apply_jitter : Draw → ℤ → JitterMode → ℤ
unfolding jittered is_none
apply_jitter draw delay mode =
    if is_none mode || not (is_pos delay) then delay else pos (jittered draw (pos_part delay) mode)

-- The C++ `double` and its library: the operations that the back-off uses, and what they document.
-- `2 ^ 53` bounds the integers that a `double` holds exactly.
pub record Double : Type 1 where
  pub D : Type 0
  pub of_int : ℤ → D
  pub times : D → D → D
  pub power : D → D → D
  pub less : D → D → Bool
  pub to_int64 : D → ℤ
  pub IsNumber : D → Type 0
  pub of_int-number : (n : ℕ) → n ≤ 2 ^ 53 → IsNumber (of_int (pos n))
  pub to_int64-of_int : (n : ℕ) → n ≤ 2 ^ 53 → to_int64 (of_int (pos n)) ≡ pos n
  pub to_int64_mono :
      (a b : D) → IsNumber a → IsNumber b → less b a ≡ false → to_int64 a ≤ℤ to_int64 b

module _ (d : Double) where
  open d use {D, of_int, times, power, less, to_int64}

  -- `struct RetryPolicy`
  pub record RetryPolicy : Type 0 where
    pub max_retries : ℤ
    pub initial_backoff : ℤ
    pub max_backoff : ℤ
    pub multiplier : D
    pub jitter : JitterMode

  -- `struct ReconnectPolicy`
  pub record ReconnectPolicy : Type 0 where
    pub max_attempts : ℤ
    pub initial_delay : ℤ
    pub max_delay : ℤ
    pub backoff_multiplier : D
    pub jitter : JitterMode
    pub buffer_size : ℤ

  -- `base_ms * pow(multiplier, attempt)`
  unfoldable pub computed : ℤ → D → ℕ → D
  computed initial multiplier attempt =
      times (of_int initial) (power multiplier (of_int (pos attempt)))

  -- `std::min(computed, max_ms)`, which is its second argument only where that is the less.
  unfoldable pub capped : D → ℤ → D
  capped c max_delay = if less (of_int max_delay) c then of_int max_delay else c

  -- `CalculateBackoff` of middleware/retry.cc
  unfoldable pub retry_backoff : Draw → RetryPolicy → ℕ → ℤ
  unfolding computed capped
  retry_backoff draw policy attempt =
      apply_jitter draw
        (to_int64
          (capped (computed policy.initial_backoff policy.multiplier attempt) policy.max_backoff))
        policy.jitter

  -- `CalculateBackoff` of transport/reconnect.cc, the member and the free function.
  unfoldable pub reconnect_backoff : Draw → ReconnectPolicy → ℕ → ℤ
  unfolding computed capped
  reconnect_backoff draw policy attempt =
      apply_jitter draw
        (to_int64 (
          capped (computed policy.initial_delay policy.backoff_multiplier attempt)
            policy.max_delay))
        policy.jitter
