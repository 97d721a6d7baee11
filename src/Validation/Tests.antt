-- ===== src/Validation/Tests.antt =====
-- `a.b`, a channel.
use kubemq_cpp.Base.{ℕ, ◌==◌, ◌≡◌, ◌↔◌, refl, true, [], ◌∷◌, Bytes}
use kubemq_cpp.Status.{is_ok, is_ok_code}
use kubemq_cpp.Validation.{validate_channel, validate_channel_no_wildcard}

abbrev a_b : Bytes
a_b = 97 ∷ 46 ∷ 98 ∷ []

a_b_passes : is_ok (validate_channel_no_wildcard a_b []) ≡ true
unfolding validate_channel_no_wildcard validate_channel kubemq_cpp.Validation.is_ascii_space
    kubemq_cpp.Validation.back kubemq_cpp.Validation.has is_ok_code kubemq_cpp.Base.is_empty
a_b_passes = refl
