-- ===== src/Transport/Grpc/Calls.antt =====
-- src/internal/transport/grpc_transport.cc: `Ping` and the unary calls on batches and queues.
use kubemq_cpp.Base.{[], Bytes, bytes, ◌+◌, ◌*◌, if◌then◌else◌}
use kubemq_cpp.Base.Int.{ℤ, pos, is_pos, pos_part}
use kubemq_cpp.Status.{StatusOr, value, failed}
use kubemq_cpp.Transport.Grpc.{Rpc, Transport, guarded, answer, default_send_timeout}
use kubemq_cpp.Wire.Simple.{
  PingResult, QueueMessagesBatchRequest, QueueMessagesBatchResponse, ReceiveQueueMessagesRequest,
  ReceiveQueueMessagesResponse, AckAllQueueMessagesRequest, AckAllQueueMessagesResponse,
}

pub record ServerInfo : Type 0 where
  pub host : Bytes
  pub version : Bytes
  pub server_start_time : ℤ
  pub server_up_time_seconds : ℤ

-- Five seconds more than the server is asked to wait, in milliseconds; half a minute without a wait.
-- In C++ the sum is undefined for a wait of 2 ^ 31 - 5 seconds or more.
unfoldable pub wait_timeout : ℤ → ℤ
wait_timeout seconds = if is_pos seconds then pos (1000 * (pos_part seconds + 5)) else pos 30000

unfoldable pub info_of : StatusOr PingResult → StatusOr ServerInfo
info_of (failed s) = failed s
info_of (value p) = value record {
  host = p.host;
  version = p.version;
  server_start_time = p.server_start_time;
  server_up_time_seconds = p.server_up_time_seconds;
}

module _ {W C : Type 0} where
  -- `connection_timeout` is the option of this name.
  unfoldable pub ping : Rpc W Unit PingResult → ℤ → Transport W C → W → W × StatusOr ServerInfo
  ping rpc connection_timeout t w = guarded failed t w (λ metadata v.
      let (v', r) =
        answer (bytes "GrpcTransport::Ping") [] (rpc connection_timeout metadata tt v) in
      (v', info_of r))

  unfoldable pub send_queue_messages_batch :
      Rpc W QueueMessagesBatchRequest QueueMessagesBatchResponse
      → Transport W C
      → QueueMessagesBatchRequest
      → W
      → W × StatusOr QueueMessagesBatchResponse
  send_queue_messages_batch rpc t req w = guarded failed t w (λ metadata v.
      answer (bytes "GrpcTransport::SendQueueMessagesBatch") []
        (rpc default_send_timeout metadata req v))

  unfoldable pub receive_queue_messages :
      Rpc W ReceiveQueueMessagesRequest ReceiveQueueMessagesResponse
      → Transport W C
      → ReceiveQueueMessagesRequest
      → W
      → W × StatusOr ReceiveQueueMessagesResponse
  receive_queue_messages rpc t req w = guarded failed t w (λ metadata v.
      answer (bytes "GrpcTransport::ReceiveQueueMessages") req.channel
        (rpc (wait_timeout req.wait_time_seconds) metadata req v))

  unfoldable pub ack_all_queue_messages :
      Rpc W AckAllQueueMessagesRequest AckAllQueueMessagesResponse
      → Transport W C
      → AckAllQueueMessagesRequest
      → W
      → W × StatusOr AckAllQueueMessagesResponse
  ack_all_queue_messages rpc t req w = guarded failed t w (λ metadata v.
      answer (bytes "GrpcTransport::AckAllQueueMessages") req.channel
        (rpc (wait_timeout req.wait_time_seconds) metadata req v))
