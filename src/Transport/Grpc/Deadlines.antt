-- ===== src/Transport/Grpc/Deadlines.antt =====
-- How long a queue call may take, against how long the server is asked to wait.
use kubemq_cpp.Base.{◌≡◌, false, some, bytes, arith, ltb, Bool-cases, inl, inr}
use kubemq_cpp.Base.Int.{ℤ, pos, negsuc, ◌<ℤ◌, of_seconds}
use kubemq_cpp.Status.{failed, ok_status}
use kubemq_cpp.Middleware.Auth.{Metadata}
use kubemq_cpp.Transport.Grpc.{Transport, answer, apply_auth}
use kubemq_cpp.Transport.Grpc.Calls.{wait_timeout, receive_queue_messages, ack_all_queue_messages}
use kubemq_cpp.Transport.Grpc.Sending.{guarded_open}
use kubemq_cpp.Transport.Grpc.Stub.{Stub}
use kubemq_cpp.Wire.Simple.{ReceiveQueueMessagesRequest, AckAllQueueMessagesRequest}

-- The time granted is more than the time that the server is asked to wait.
wait_timeout_lem : (seconds : ℤ) → of_seconds seconds <ℤ wait_timeout seconds
unfolding wait_timeout of_seconds
wait_timeout_lem (pos n) = elim (Bool-cases (ltb 0 n)) [
  | inl some_time ↦ rw some_time (omega arith)
  | inr no_time ↦ rw no_time (ground arith)
]
wait_timeout_lem (negsuc n) = omega arith

module _ {W C S : Type 0} (stub : Stub W S) (t : Transport W C) (w w' : W) (metadata : Metadata)
    (receive : ReceiveQueueMessagesRequest) (ack : AckAllQueueMessagesRequest) where
  -- On an open transport whose authorization succeeds, `ReceiveQueueMessages` and `AckAllQueueMessages`
  -- call the server once, with the request as it is, and grant the call more time than the server is
  -- asked to wait, so that an empty queue does not end the call.
  pub queue_calls_wait :
      t.closed ≡ false
      → apply_auth t w ≡ (w', some metadata, ok_status)
      → ((timeout : ℤ) × (of_seconds receive.wait_time_seconds <ℤ timeout)
          × (receive_queue_messages stub.receive_queue_messages t receive w
              ≡ answer
                  (bytes "GrpcTransport::ReceiveQueueMessages")
                  receive.channel
                  (stub.receive_queue_messages timeout metadata receive w')))
        × ((timeout : ℤ) × (of_seconds ack.wait_time_seconds <ℤ timeout)
            × (ack_all_queue_messages stub.ack_all_queue_messages t ack w
                ≡ answer
                    (bytes "GrpcTransport::AckAllQueueMessages")
                    ack.channel
                    (stub.ack_all_queue_messages timeout metadata ack w')))
  unfolding receive_queue_messages ack_all_queue_messages
  queue_calls_wait h auth = (
    (
      wait_timeout receive.wait_time_seconds,
      wait_timeout_lem receive.wait_time_seconds,
      guarded_open failed t w w' metadata _ h auth,
    ),
    (
      wait_timeout ack.wait_time_seconds,
      wait_timeout_lem ack.wait_time_seconds,
      guarded_open failed t w w' metadata _ h auth,
    ),
  )
