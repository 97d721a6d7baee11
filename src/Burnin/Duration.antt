-- ===== src/Burnin/Duration.antt =====
-- burnin/config/config.cc: `ParseDurationToSeconds`. The arithmetic is on `int`: `none` is an overflow,
-- which has no defined result.
use kubemq_cpp.Base.{
  ℕ, zero, suc, ◌+◌, ◌-◌, ◌*◌, ◌/◌, ◌%◌, ◌^◌, ◌<◌, ltb, leb, ◌==◌, ◌≡◌, refl, ap, ◌∙◌, inl, inr,
  Bool, true, false, ◌&&◌, Option, none, some, [], ◌∷◌, ◌++◌, Bytes, is_empty, if◌then◌else◌,
  Bool-cases, if_lem, arith,
}
use kubemq_cpp.Base.Int.{pos}
use kubemq_cpp.Transport.Grpc.Connect.{digits, to_string}

-- `std::isdigit`
unfoldable pub is_digit : ℕ → Bool
is_digit c = leb 48 c && leb c 57

-- A result of the arithmetic on `int` that is not negative.
unfoldable pub as_int : ℕ → Option ℕ
as_int n = if ltb n (2 ^ 31) then some n else none

-- The loop over the digits, from a value; the value and what is left of the text.
unfoldable pub read_digits : ℕ → Bytes → Option (ℕ × Bytes)
read_digits value [] = some (value, [])
read_digits value (c ∷ rest) =
    let next = value * 10 + (c - 48) in
    let after = read_digits next rest in
    if is_digit c then (if ltb next (2 ^ 31) then after else none) else some (value, c ∷ rest)

-- The seconds of a unit
unfoldable pub seconds_in : ℕ → ℕ
seconds_in c = if c == 109 then 60 else if c == 104 then 3600 else if c == 100 then 86400 else 1

unfoldable pub scale : Option (ℕ × Bytes) → Option ℕ
scale none = none
scale (some (value, [])) = some value
scale (some (value, c ∷ rest)) = as_int (value * seconds_in c)

-- `ParseDurationToSeconds`
unfoldable pub parse_duration_to_seconds : Bytes → Option ℕ
parse_duration_to_seconds s = if is_empty s then some 0 else scale (read_digits 0 s)

is_digit_lem : (n : ℕ) → is_digit (48 + n % 10) ≡ true
unfolding is_digit
is_digit_lem n = ground arith

next_value : (n : ℕ) → n / 10 * 10 + ((48 + n % 10) - 48) ≡ n
next_value n = omega arith

ltb-true : (m n : ℕ) → m < n → ltb m n ≡ true
ltb-true m n h = ground arith

read_one :
    (n : ℕ) (rest : Bytes)
    → n < 2 ^ 31
    → read_digits (n / 10) ((48 + n % 10) ∷ rest) ≡ read_digits n rest
unfolding read_digits
read_one n rest h = rw (is_digit_lem n, next_value n, ltb-true n (2 ^ 31) h) refl

no_tens : (n : ℕ) → ltb n 10 ≡ true → 0 ≡ n / 10
no_tens n small = ground arith

fewer_tens : (fuel n : ℕ) → ltb n 10 ≡ false → n < suc fuel → n / 10 < fuel
fewer_tens fuel n large l = ground arith

read_digits-digits :
    (fuel n : ℕ) (rest : Bytes)
    → n < fuel
    → n < 2 ^ 31
    → read_digits 0 (digits fuel n rest) ≡ read_digits n rest
unfolding digits
read_digits-digits zero n rest l h = absurd (omega (arith, l))
read_digits-digits (suc fuel) n rest l h =
    if_lem (λ s. read_digits 0 s ≡ read_digits n rest) (ltb n 10)
      (λ small.
        ap (λ k. read_digits k ((48 + n % 10) ∷ rest)) (no_tens n small) ∙ read_one n rest h)
      (λ large.
        read_digits-digits fuel (n / 10) ((48 + n % 10) ∷ rest) (fewer_tens fuel n large l)
          (omega (arith, h))
        ∙ read_one n rest h)

digits_append : (fuel n : ℕ) (s t : Bytes) → digits fuel n s ++ t ≡ digits fuel n (s ++ t)
unfolding digits
digits_append zero n s t = refl
digits_append (suc fuel) n s t = elim (Bool-cases (ltb n 10)) [
  | inl small ↦ rw small refl
  | inr large ↦ rw large (digits_append fuel (n / 10) ((48 + n % 10) ∷ s) t)
]

digits-is_empty : (fuel n c : ℕ) (rest : Bytes) → is_empty (digits fuel n (c ∷ rest)) ≡ false
unfolding digits is_empty
digits-is_empty zero n c rest = refl
digits-is_empty (suc fuel) n c rest =
    if_lem (λ s. is_empty s ≡ false) (ltb n 10) (λ _. refl)
      (λ _. digits-is_empty fuel (n / 10) _ (c ∷ rest))

module _ (n unit : ℕ) (rest : Bytes) (fits : n < 2 ^ 31) (other : is_digit unit ≡ false) where
  written : to_string (pos n) ++ unit ∷ rest ≡ digits (suc n) n (unit ∷ rest)
  unfolding to_string
  written = digits_append (suc n) n [] (unit ∷ rest)

  stops_at : read_digits n (unit ∷ rest) ≡ some (n, unit ∷ rest)
  unfolding read_digits
  stops_at = rw other refl

  -- A number that an `int` holds, written in decimal before a unit, is read as that number of the unit's
  -- seconds, if an `int` holds these; whatever follows the unit is not looked at. A letter that is no
  -- unit counts seconds.
  pub parse_duration_to_seconds-to_string :
      parse_duration_to_seconds (to_string (pos n) ++ unit ∷ rest) ≡ as_int (n * seconds_in unit)
  unfolding parse_duration_to_seconds scale
  parse_duration_to_seconds-to_string =
      ap parse_duration_to_seconds written
      ∙ rw (digits-is_empty (suc n) n unit rest)
          (ap scale (read_digits-digits (suc n) n (unit ∷ rest) (omega arith) fits ∙ stops_at))
