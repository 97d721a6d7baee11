-- ===== src/Status/Render.antt =====
-- src/error_code.cc `ErrorCodeToString`, src/status.cc `Status::ToString`.
use kubemq_cpp.Base.{[], ◌++◌, Bytes, bytes, is_empty, if◌then◌else◌}
use kubemq_cpp.Status.{ErrorCode, Status, is_ok}

unfoldable pub error_code_to_string : ErrorCode → Bytes
error_code_to_string ErrorCode.ok = bytes "OK"
error_code_to_string ErrorCode.transient = bytes "TRANSIENT"
error_code_to_string ErrorCode.timeout = bytes "TIMEOUT"
error_code_to_string ErrorCode.throttling = bytes "THROTTLING"
error_code_to_string ErrorCode.authentication = bytes "AUTHENTICATION"
error_code_to_string ErrorCode.authorization = bytes "AUTHORIZATION"
error_code_to_string ErrorCode.validation = bytes "VALIDATION"
error_code_to_string ErrorCode.not_found = bytes "NOT_FOUND"
error_code_to_string ErrorCode.fatal = bytes "FATAL"
error_code_to_string ErrorCode.cancellation = bytes "CANCELLATION"
error_code_to_string ErrorCode.backpressure = bytes "BACKPRESSURE"

-- `if (!field.empty()) ss << " [key=" << field << "]";`
labelled : Bytes → Bytes → Bytes
labelled key field =
    if is_empty field then [] else bytes " [" ++ (key ++ (bytes "=" ++ (field ++ bytes "]")))

unfoldable pub to_string : Status → Bytes
unfolding labelled
to_string s =
    if is_ok s
    then bytes "OK"
    else error_code_to_string s.code
      ++ (bytes ": "
          ++ (s.message
              ++ (labelled (bytes "op") s.operation
                  ++ (labelled (bytes "ch") s.channel ++ labelled (bytes "req") s.request_id))))
