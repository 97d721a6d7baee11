-- ===== src/Backoff/Tests.antt =====
-- Delays with whole numbers for doubles and the least number that may be drawn.
use kubemq_cpp.Base.{ℕ, ◌*◌, ◌^◌, ◌<◌, ◌≡◌, refl, false, ltb, arith}
use kubemq_cpp.Base.Int.{pos, negsuc, pos_part, ◌≤ℤ◌}
use kubemq_cpp.Backoff.{JitterMode, Draw, IsUniform, apply_jitter, Double, RetryPolicy}
use kubemq_cpp.Backoff.Bounds.{InBand, apply_jitter-InBand}

pub less_mono : (a b : ℕ) → ltb b a ≡ false → pos a ≤ℤ pos b
less_mono a b h = ground arith

abbrev pub naturals : Double
naturals = record {
  D = ℕ;
  of_int = pos_part;
  times = λ a b. a * b;
  power = λ a b. a ^ b;
  less = ltb;
  to_int64 = pos;
  IsNumber = λ a. a ≡ a;
  of_int-number = λ n h. refl;
  to_int64-of_int = λ n h. refl;
  to_int64_mono = λ a b p q. less_mono a b;
}

abbrev pub least : Draw
least a b = a

least-IsUniform : IsUniform least
least-IsUniform a b h = (omega arith, h)

abbrev pub policy : RetryPolicy naturals
policy = record {
  max_retries = pos 3;
  initial_backoff = pos 100;
  max_backoff = pos 10000;
  multiplier = 2;
  jitter = JitterMode.equal;
}

apply_jitter-InBand_example :
    ((d : ℕ) → 0 < d → InBand JitterMode.equal d (apply_jitter least (pos d) JitterMode.equal))
    × ((n : ℕ) → apply_jitter least (negsuc n) JitterMode.equal ≡ negsuc n)
    × (apply_jitter least (pos 0) JitterMode.equal ≡ pos 0)
apply_jitter-InBand_example = apply_jitter-InBand least least-IsUniform JitterMode.equal
