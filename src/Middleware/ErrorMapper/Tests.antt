-- ===== src/Middleware/ErrorMapper/Tests.antt =====
-- A server that is not available.
use kubemq_cpp.Base.{◌≡◌, refl, bytes, []}
use kubemq_cpp.Status.{ErrorCode}
use kubemq_cpp.Middleware.ErrorMapper.{StatusCode, GrpcStatus, from_grpc_status, map_grpc_code}

abbrev unavailable : GrpcStatus
unavailable = record { error_code = StatusCode.unavailable; error_message = bytes "no server" }

unavailable_is_transient : (from_grpc_status unavailable [] [] []).code ≡ ErrorCode.transient
unfolding from_grpc_status map_grpc_code
unavailable_is_transient = refl
