-- ===== src/Status.antt =====
-- src/error_code.cc, src/status.cc and include/kubemq/status.h: error codes, `Status` and
-- `StatusOr`; src/internal/types/error.cc: the constructors of statuses.
pub mod Render
use kubemq_cpp.Base.{
  Bool, true, false, not, List, [], Bytes, bytes, is_empty, if◌then◌else◌, ◌≡◌, refl, arith,
}

-- `enum class ErrorCode`
pub data ErrorCode : Type 0 where
  ok transient timeout throttling authentication authorization validation not_found fatal
        cancellation backpressure :
      ErrorCode

unfoldable pub is_retryable : ErrorCode → Bool
is_retryable ErrorCode.transient = true
is_retryable ErrorCode.timeout = true
is_retryable ErrorCode.throttling = true
is_retryable _ = false

-- `code == ErrorCode::kOk`
unfoldable pub is_ok_code : ErrorCode → Bool
is_ok_code ErrorCode.ok = true
is_ok_code _ = false

pub record Status : Type 0 where
  pub code : ErrorCode
  pub message : Bytes
  pub operation : Bytes
  pub channel : Bytes
  pub request_id : Bytes

-- `Status()`
abbrev pub ok_status : Status
ok_status = record {
  code = ErrorCode.ok;
  message = [];
  operation = [];
  channel = [];
  request_id = [];
}

-- `Status(code, message)`
abbrev pub brief : ErrorCode → Bytes → Status
brief c m = record { code = c; message = m; operation = []; channel = []; request_id = [] }

-- `Status(code, message, operation, channel, request_id)`, and `MakeError`
abbrev pub make_error : ErrorCode → Bytes → Bytes → Bytes → Bytes → Status
make_error c m o ch r = record {
  code = c;
  message = m;
  operation = o;
  channel = ch;
  request_id = r;
}

-- `Status::ok()`
abbrev pub is_ok : Status → Bool
is_ok s = is_ok_code s.code

abbrev pub client_closed : Status
client_closed = brief ErrorCode.fatal (bytes "kubemq: client closed")

-- `FromServerError`
unfoldable pub from_server_error : Bytes → Bytes → Bytes → Status
from_server_error error operation channel =
    if is_empty error then ok_status else make_error ErrorCode.fatal error operation channel []

-- `ValidationError`
unfoldable pub validation_error : Bytes → Bytes → Bytes → Status
validation_error message operation channel =
    make_error ErrorCode.validation message operation channel []

-- `IsConnectionError` of types/error.cc
unfoldable pub is_connection_error : Status → Bool
unfolding is_ok_code
is_connection_error s =
    if is_ok s then false else elim s.code [ ErrorCode.transient ↦ true | _ ↦ false ]

-- `StatusOr<T>` is `std::variant<T, Status>`.
pub data StatusOr {ℓ} (A : Type ℓ) : Type ℓ where
  value : A → StatusOr A
  failed : Status → StatusOr A

-- `StatusOr<T>::ok()`
abbrev pub has_value {ℓ} : {A : Type ℓ} → StatusOr A → Bool
has_value (value a) = true
has_value (failed s) = false

-- `StatusOr<T>::status()`
abbrev pub status_of {ℓ} : {A : Type ℓ} → StatusOr A → Status
status_of (value a) = ok_status
status_of (failed s) = s

-- `auto x = f(); if (!x.ok()) return x.status();`
infixl 5 ◌>>=◌
abbrev pub ◌>>=◌ {ℓ κ} : {A : Type ℓ} {B : Type κ} → StatusOr A → (A → StatusOr B) → StatusOr B
value a >>= f = f a
failed s >>= f = failed s

-- `if (!s.ok()) return s;` in a function that returns a `StatusOr`
abbrev pub ensure {ℓ} : {A : Type ℓ} → Status → StatusOr A → StatusOr A
ensure s k = if is_ok s then k else failed s

-- The same in a function that returns a `Status`.
abbrev pub and_then : Status → Status → Status
and_then s k = if is_ok s then k else s

-- A connection error is a retryable status that is not OK.
pub is_connection_error-is_retryable :
    (s : Status) → is_connection_error s ≡ true → (is_retryable s.code ≡ true) × (is_ok s ≡ false)
unfolding is_connection_error is_retryable
is_connection_error-is_retryable s h = ground arith

-- An error text of the server makes a status that is OK exactly when the text is empty.
pub from_server_error-is_ok :
    (error operation channel : Bytes)
    → is_ok (from_server_error error operation channel) ≡ is_empty error
unfolding from_server_error is_ok_code
from_server_error-is_ok error operation channel = ground arith
