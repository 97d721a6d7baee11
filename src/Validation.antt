-- ===== src/Validation.antt =====
-- src/validation.cc: what the client asks of a channel, a body and a timeout before it sends.
pub mod Channel
mod Tests
use kubemq_cpp.Base.{
  ℕ, ◌==◌, Bool, true, false, not, ◌&&◌, ◌||◌, [], ◌∷◌, any, if◌then◌else◌, Bytes, bytes, is_empty,
}
use kubemq_cpp.Base.Int.{ℤ, is_pos}
use kubemq_cpp.Status.{ErrorCode, Status, ok_status, make_error, and_then}

unfoldable pub is_ascii_space : ℕ → Bool
is_ascii_space c = c == 32 || (c == 9 || (c == 10 || c == 13))

-- `back()` of a string that is not empty
unfoldable pub back : Bytes → ℕ
back [] = 0
back (c ∷ []) = c
back (c ∷ d ∷ s) = back (d ∷ s)

abbrev refused : Bytes → Bytes → Bytes → Status
refused message operation channel = make_error ErrorCode.validation message operation channel []

unfoldable pub validate_channel : Bytes → Bytes → Status
validate_channel channel operation =
    if is_empty channel
    then refused (bytes "channel is required") operation []
    else (if any is_ascii_space channel
        then refused (bytes "channel must not contain whitespace") operation channel
        else (if back channel == 46
            then refused (bytes "channel must not end with '.'") operation channel
            else ok_status))

-- `find(c) != npos`
unfoldable pub has : ℕ → Bytes → Bool
has c s = any (λ d. d == c) s

unfoldable pub validate_channel_no_wildcard : Bytes → Bytes → Status
validate_channel_no_wildcard channel operation = and_then (validate_channel channel operation) (
    if has 42 channel || has 62 channel
    then refused (bytes "wildcards not allowed for send operations") operation channel
    else ok_status)

unfoldable pub validate_body : Bytes → Bytes → Bytes → Status
validate_body body metadata operation =
    if is_empty body && is_empty metadata
    then refused (bytes "body or metadata is required") operation []
    else ok_status

unfoldable pub validate_timeout : ℤ → Bytes → Status
validate_timeout timeout operation =
    if not (is_pos timeout) then refused (bytes "timeout must be > 0") operation [] else ok_status
