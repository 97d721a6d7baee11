-- ===== src/Base/Int.antt =====
-- Signed integers over the native numbers: `int`, `int64_t` and the counts of `std::chrono`.
use Prim.Native.Nat.{ℕ, zero, suc, ◌+◌, ◌-◌, ◌*◌, ◌/◌, ◌%◌, ◌^◌, ◌≤◌, ◌<◌}
use mathlib.Core.Path.{◌≡◌, refl}
use native.Mathlib.Omega.{arith}
use native.Mathlib.Nat.{mod-eq_of_lt}
use mathlib.Core.Bool.{Bool, false}
use kubemq_cpp.Base.Tests.{ltb, leb, if◌then◌else◌, lt→ltb}

-- `negsuc n` is -(n + 1).
pub data ℤ : Type 0 where
  pos : ℕ → ℤ
  negsuc : ℕ → ℤ

-- `0 < z`
abbrev pub is_pos : ℤ → Bool
is_pos (pos n) = ltb 0 n
is_pos (negsuc n) = false

-- The value of an integer that is not negative.
abbrev pub pos_part : ℤ → ℕ
pos_part (pos n) = n
pos_part (negsuc n) = 0

abbrev pub neg_part : ℤ → ℕ
neg_part (pos n) = 0
neg_part (negsuc n) = suc n

infix 50 ◌≤ℤ◌
abbrev pub ◌≤ℤ◌ : ℤ → ℤ → Type 0
a ≤ℤ b = pos_part a + neg_part b ≤ pos_part b + neg_part a

infix 50 ◌<ℤ◌
abbrev pub ◌<ℤ◌ : ℤ → ℤ → Type 0
a <ℤ b = pos_part a + neg_part b < pos_part b + neg_part a

abbrev pub ltb_ℤ : ℤ → ℤ → Bool
ltb_ℤ a b = ltb (pos_part a + neg_part b) (pos_part b + neg_part a)

abbrev pub leb_ℤ : ℤ → ℤ → Bool
leb_ℤ a b = leb (pos_part a + neg_part b) (pos_part b + neg_part a)

-- `static_cast<int32_t>`, which keeps the low 32 bits.
unfoldable pub as_int32 : ℤ → ℤ
as_int32 (pos n) =
    if ltb (n % 2 ^ 32) (2 ^ 31) then pos (n % 2 ^ 32) else negsuc (2 ^ 32 - 1 - n % 2 ^ 32)
as_int32 (negsuc n) =
    if ltb (n % 2 ^ 32) (2 ^ 31) then negsuc (n % 2 ^ 32) else pos (2 ^ 32 - 1 - n % 2 ^ 32)

-- `std::chrono::seconds` as milliseconds.
unfoldable pub of_seconds : ℤ → ℤ
of_seconds (pos n) = pos (1000 * n)
of_seconds (negsuc n) = negsuc (1000 * n + 999)

-- `duration_cast<std::chrono::seconds>`, which rounds towards zero.
unfoldable pub to_seconds : ℤ → ℤ
to_seconds (pos n) = pos (n / 1000)
to_seconds (negsuc n) = elim ((n + 1) / 1000) [ zero ↦ pos 0 | suc k ↦ negsuc k ]

abbrev pub FitsInt32 : ℤ → Type 0
FitsInt32 (pos n) = n < 2 ^ 31
FitsInt32 (negsuc n) = n < 2 ^ 31

pub as_int32-FitsInt32 : (z : ℤ) → FitsInt32 z → as_int32 z ≡ z
unfolding as_int32
as_int32-FitsInt32 (pos n) h =
    rw (mod-eq_of_lt {n = n} {m = 2 ^ 32} (omega arith), lt→ltb n (2 ^ 31) h) refl
as_int32-FitsInt32 (negsuc n) h =
    rw (mod-eq_of_lt {n = n} {m = 2 ^ 32} (omega arith), lt→ltb n (2 ^ 31) h) refl
