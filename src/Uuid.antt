-- ===== src/Uuid.antt =====
-- src/uuid.cc: the identifier that `GenerateUUID` makes of two random draws of 64 bits.
pub mod Format
mod Tests
use kubemq_cpp.Base.{
  ℕ, zero, suc, ◌+◌, ◌*◌, ◌/◌, ◌%◌, ◌^◌, ltb, [], ◌∷◌, ◌++◌, Bytes, if◌then◌else◌,
}

-- `(a & 0xFFFFFFFFFFFF0FFF) | 0x4000`: the bits from 12 to 15 become those of 4.
unfoldable pub set_version : ℕ → ℕ
set_version a = a / 2 ^ 16 * 2 ^ 16 + 4 * 2 ^ 12 + a % 2 ^ 12

-- `(b & 0x3FFFFFFFFFFFFFFF) | 0x8000000000000000`, for a number of 64 bits: the two highest bits become
-- those of 2.
unfoldable pub set_variant : ℕ → ℕ
set_variant b = 2 ^ 63 + b % 2 ^ 62

-- A digit of `%x`
unfoldable pub hex_digit : ℕ → ℕ
hex_digit d = if ltb d 10 then 48 + d else 87 + d

-- The lowest `k` hexadecimal digits before `rest`; `%0kx` prints a number of no more than `k` digits so.
unfoldable pub hex : ℕ → ℕ → Bytes → Bytes
hex zero n rest = rest
hex (suc k) n rest = hex k (n / 16) (hex_digit (n % 16) ∷ rest)

unfoldable pub generate_uuid : ℕ → ℕ → Bytes
generate_uuid draw_a draw_b =
    let a = set_version draw_a in
    let b = set_variant draw_b in
    hex 8 (a / 2 ^ 32) []
    ++ 45 ∷ hex 4 (a / 2 ^ 16 % 2 ^ 16) []
    ++ 45 ∷ hex 4 (a % 2 ^ 16) []
    ++ 45 ∷ hex 4 (b / 2 ^ 48) []
    ++ 45 ∷ hex 12 (b % 2 ^ 48) []
