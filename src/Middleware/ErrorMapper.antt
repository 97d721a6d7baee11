-- ===== src/Middleware/ErrorMapper.antt =====
-- src/internal/middleware/error_mapper.cc: gRPC status codes as error codes. The codes of gRPC are its
-- documented enumeration; `other` stands for a number outside it.
mod Tests
use kubemq_cpp.Base.{
  ℕ, Bool, true, false, ◌≡◌, refl, ◌↔◌, ◌⊎◌, inl, inr, Bool-cases, List, [], Bytes, bytes, is_empty,
  if◌then◌else◌, arith,
}
use kubemq_cpp.Status.{
  ErrorCode, Status, ok_status, make_error, is_ok, is_ok_code, is_connection_error, is_retryable,
}

-- `grpc::StatusCode`
pub data StatusCode : Type 0 where
  ok cancelled invalid_argument deadline_exceeded not_found already_exists permission_denied
        resource_exhausted failed_precondition aborted out_of_range unimplemented internal
        unavailable data_loss unauthenticated unknown :
      StatusCode
  other : ℕ → StatusCode

-- `grpc::Status`
pub record GrpcStatus : Type 0 where
  pub error_code : StatusCode
  pub error_message : Bytes

-- `grpc::Status::ok()`
abbrev pub grpc_ok : StatusCode → Bool
grpc_ok StatusCode.ok = true
grpc_ok _ = false

-- `MapGrpcCode`
unfoldable pub map_grpc_code : StatusCode → ErrorCode
map_grpc_code StatusCode.ok = ErrorCode.ok
map_grpc_code StatusCode.cancelled = ErrorCode.cancellation
map_grpc_code StatusCode.invalid_argument = ErrorCode.validation
map_grpc_code StatusCode.deadline_exceeded = ErrorCode.timeout
map_grpc_code StatusCode.not_found = ErrorCode.not_found
map_grpc_code StatusCode.already_exists = ErrorCode.validation
map_grpc_code StatusCode.permission_denied = ErrorCode.authorization
map_grpc_code StatusCode.resource_exhausted = ErrorCode.throttling
map_grpc_code StatusCode.failed_precondition = ErrorCode.validation
map_grpc_code StatusCode.aborted = ErrorCode.transient
map_grpc_code StatusCode.out_of_range = ErrorCode.validation
map_grpc_code StatusCode.unimplemented = ErrorCode.fatal
map_grpc_code StatusCode.internal = ErrorCode.fatal
map_grpc_code StatusCode.unavailable = ErrorCode.transient
map_grpc_code StatusCode.data_loss = ErrorCode.fatal
map_grpc_code StatusCode.unauthenticated = ErrorCode.authentication
map_grpc_code _ = ErrorCode.fatal

-- `FromGrpcStatus`
unfoldable pub from_grpc_status : GrpcStatus → Bytes → Bytes → Bytes → Status
unfolding map_grpc_code
from_grpc_status st operation channel request_id =
    let message = if is_empty st.error_message then bytes "gRPC error" else st.error_message in
    if grpc_ok st.error_code
    then ok_status
    else make_error (map_grpc_code st.error_code) message operation channel request_id

-- `IsConnectionError` of middleware/error_mapper.cc
unfoldable pub is_grpc_connection_error : GrpcStatus → Bool
is_grpc_connection_error st = if grpc_ok st.error_code then false else elim st.error_code [
  | StatusCode.unavailable ↦ true
  | StatusCode.aborted ↦ true
  | _ ↦ false
]

module _ (operation channel request_id : Bytes) where
  from_grpc_status-is_ok :
      (code : StatusCode) (message : Bytes)
      → is_ok (
          from_grpc_status
            (record { error_code = code; error_message = message })
            operation
            channel
            request_id)
        ≡ grpc_ok code
  unfolding from_grpc_status is_ok_code
  from_grpc_status-is_ok StatusCode.ok message = refl
  from_grpc_status-is_ok _ message = refl

  connection_errors_agree :
      (code : StatusCode) (message : Bytes)
      → is_connection_error (
          from_grpc_status
            (record { error_code = code; error_message = message })
            operation
            channel
            request_id)
        ≡ is_grpc_connection_error (record { error_code = code; error_message = message })
  unfolding from_grpc_status is_connection_error is_grpc_connection_error
  connection_errors_agree StatusCode.ok message = refl
  connection_errors_agree _ message = refl

  keeps :
      (code : StatusCode) (message : Bytes)
      → let s =
          from_grpc_status
            (record { error_code = code; error_message = message })
            operation
            channel
            request_id in
        is_ok s ≡ false
        → (s.operation ≡ operation) × (s.channel ≡ channel) × (s.request_id ≡ request_id)
  unfolding from_grpc_status is_ok_code
  keeps StatusCode.ok message h = cc
  keeps _ message h = (refl, refl, refl)

  -- The mapped status is OK exactly when the gRPC status is; the two tests for a connection error, on
  -- the gRPC status and on the mapped one, agree; and a failure keeps the operation, the channel and
  -- the request that it is about.
  pub from_grpc_status_lem :
      (st : GrpcStatus)
      → let s = from_grpc_status st operation channel request_id in
        (is_ok s ≡ grpc_ok st.error_code)
        × (is_connection_error s ≡ is_grpc_connection_error st)
        × ((is_ok s ≡ true)
            ⊎ ((s.operation ≡ operation) × (s.channel ≡ channel) × (s.request_id ≡ request_id)))
  from_grpc_status_lem st = (
    from_grpc_status-is_ok st.error_code st.error_message,
    connection_errors_agree st.error_code st.error_message,
    elim (Bool-cases (is_ok (from_grpc_status st operation channel request_id))) [
      | inl h ↦ inl h
      | inr h ↦ inr (keeps st.error_code st.error_message h)
    ],
  )
