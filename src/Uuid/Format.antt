-- ===== src/Uuid/Format.antt =====
-- The form of the identifiers.
use kubemq_cpp.Base.{
  ℕ, zero, suc, ◌+◌, ◌/◌, ◌%◌, ◌^◌, ◌≤◌, ◌≡◌, refl, ap, ◌∙◌, ◌⊎◌, [], ◌∷◌, ◌++◌, length, Bytes,
  arith,
}
use kubemq_cpp.Uuid.{set_version, set_variant, hex_digit, hex, generate_uuid}

-- A digit of `0` to `9` or `a` to `f`
abbrev pub IsHex : ℕ → Type 0
IsHex c = ((48 ≤ c) × (c ≤ 57)) ⊎ ((97 ≤ c) × (c ≤ 102))

abbrev pub AllHex : Bytes → Type 0
AllHex [] = Unit
AllHex (c ∷ s) = IsHex c × AllHex s

-- `k` hexadecimal digits
abbrev pub Digits : ℕ → Bytes → Type 0
Digits k s = (length s ≡ k) × AllHex s

-- The form `xxxxxxxx-xxxx-4xxx-yxxx-xxxxxxxxxxxx`, where `y` is one of `8`, `9`, `a` and `b`.
pub record IsUuid (text : Bytes) : Type 0 where
  pub time_low : Bytes
  pub time_mid : Bytes
  pub time_high : Bytes
  pub clock : Bytes
  pub node : Bytes
  pub variant : ℕ
  pub time_low_digits : Digits 8 time_low
  pub time_mid_digits : Digits 4 time_mid
  pub time_high_digits : Digits 3 time_high
  pub clock_digits : Digits 3 clock
  pub node_digits : Digits 12 node
  pub variant_kind : ((56 ≤ variant) × (variant ≤ 57)) ⊎ ((97 ≤ variant) × (variant ≤ 98))
  pub made_of :
      text ≡ time_low ++ 45 ∷ time_mid ++ 45 ∷ 52 ∷ time_high ++ 45 ∷ variant ∷ clock ++ 45 ∷ node

hex_digit-IsHex : (n : ℕ) → IsHex (hex_digit (n % 16))
unfolding hex_digit
hex_digit-IsHex n = ground arith

hex-Digits : (k n j : ℕ) (rest : Bytes) → Digits j rest → Digits (k + j) (hex k n rest)
unfolding hex
hex-Digits zero n j rest (l, h) = (omega (arith, l), h)
hex-Digits (suc k) n j rest (l, h) =
    let (e, all) =
      hex-Digits k (n / 16) (suc j) (hex_digit (n % 16) ∷ rest)
        (ap suc l, (hex_digit-IsHex n, h)) in
    (omega (arith, e), all)

none_yet : Digits 0 []
none_yet = (refl, tt)

-- The last three digits of four.
last_three : ℕ → Bytes
last_three n = hex_digit (n / 16 / 16 % 16) ∷ hex_digit (n / 16 % 16) ∷ hex_digit (n % 16) ∷ []

last_three-Digits : (n : ℕ) → Digits 3 (last_three n)
unfolding last_three
last_three-Digits n = (refl, (hex_digit-IsHex _, (hex_digit-IsHex _, (hex_digit-IsHex _, tt))))

four : (n : ℕ) → hex 4 n [] ≡ hex_digit (n / 16 / 16 / 16 % 16) ∷ last_three n
unfolding hex last_three
four n = refl

version_digit : (a : ℕ) → set_version a % 2 ^ 16 / 16 / 16 / 16 % 16 ≡ 4
unfolding set_version
version_digit a = omega arith

variant_digit :
    (b : ℕ)
    → (8 ≤ set_variant b / 2 ^ 48 / 16 / 16 / 16 % 16)
      × (set_variant b / 2 ^ 48 / 16 / 16 / 16 % 16 ≤ 11)
unfolding set_variant
variant_digit b = (omega arith, omega arith)

version_hex : (a : ℕ) → hex_digit (set_version a % 2 ^ 16 / 16 / 16 / 16 % 16) ≡ 52
unfolding hex_digit
version_hex a = ap hex_digit (version_digit a)

IsVariant : ℕ → Type 0
IsVariant c = ((56 ≤ c) × (c ≤ 57)) ⊎ ((97 ≤ c) × (c ≤ 98))

hex_digit-IsVariant : (d : ℕ) → 8 ≤ d → d ≤ 11 → IsVariant (hex_digit d)
unfolding hex_digit IsVariant
hex_digit-IsVariant d h k = ground arith

-- The text has five groups of hexadecimal digits, of 8, 4, 4, 4 and 12, with `-` between them; the third begins with `4` and the fourth with one of `8`, `9`, `a` and `b`, whatever the draws are.
pub generate_uuid-IsUuid : (draw_a draw_b : ℕ) → IsUuid (generate_uuid draw_a draw_b)
unfolding generate_uuid IsVariant hex last_three
generate_uuid-IsUuid draw_a draw_b =
    let a = set_version draw_a in
    let b = set_variant draw_b in
    record {
      time_low = hex 8 (a / 2 ^ 32) [];
      time_mid = hex 4 (a / 2 ^ 16 % 2 ^ 16) [];
      time_high = last_three (a % 2 ^ 16);
      clock = last_three (b / 2 ^ 48);
      node = hex 12 (b % 2 ^ 48) [];
      variant = hex_digit (b / 2 ^ 48 / 16 / 16 / 16 % 16);
      time_low_digits = hex-Digits 8 _ 0 [] none_yet;
      time_mid_digits = hex-Digits 4 _ 0 [] none_yet;
      time_high_digits = last_three-Digits _;
      clock_digits = last_three-Digits _;
      node_digits = hex-Digits 12 _ 0 [] none_yet;
      variant_kind = (let (l, u) = variant_digit draw_b in hex_digit-IsVariant _ l u);
      made_of =
          ap
            (λ t.
              hex 8 (a / 2 ^ 32) []
              ++ 45 ∷ hex 4 (a / 2 ^ 16 % 2 ^ 16) []
              ++ 45 ∷ t
              ++ 45 ∷ hex 4 (b / 2 ^ 48) []
              ++ 45 ∷ hex 12 (b % 2 ^ 48) [])
            (four _ ∙ ap (λ c. c ∷ last_three (a % 2 ^ 16)) (version_hex draw_a));
    }
