-- ===== src/Transport/Grpc/Streams.antt =====
-- src/internal/transport/grpc_transport.cc: the calls that open a stream. The stub's method is a function
-- of the call's metadata and of the request; it returns a stream, a value of `S`, or a null pointer.
use kubemq_cpp.Base.{Option, none, some, [], Bytes, bytes}
use kubemq_cpp.Status.{ErrorCode, StatusOr, value, failed, make_error}
use kubemq_cpp.Middleware.Auth.{Metadata}
use kubemq_cpp.Transport.Grpc.{Transport, guarded}
use kubemq_cpp.Wire.Simple.{Subscribe}

-- A method of the stub that opens a stream.
abbrev pub Open : Type 0 → Type 0 → Type 0 → Type 0
Open W A S = Metadata → A → W → W × Option S

-- The answer of a call that returns the stream of the stub.
unfoldable pub opened : {W S : Type 0} → Bytes → Bytes → Bytes → W × Option S → W × StatusOr S
opened message operation channel (w, some stream) = (w, value stream)
opened message operation channel (w, none) =
    (w, failed (make_error ErrorCode.transient message operation channel []))

module _ {W C S : Type 0} where
  unfoldable pub open_event_stream : Open W Unit S → Transport W C → W → W × StatusOr S
  open_event_stream stub t w = guarded failed t w (λ metadata v.
      opened (bytes "failed to open event stream") (bytes "GrpcTransport::OpenEventStream") []
        (stub metadata tt v))

  unfoldable pub subscribe_to_events :
      Open W Subscribe S → Transport W C → Subscribe → W → W × StatusOr S
  subscribe_to_events stub t sub w = guarded failed t w (λ metadata v.
      opened (bytes "failed to open event subscription stream")
        (bytes "GrpcTransport::SubscribeToEvents") sub.channel (stub metadata sub v))

  unfoldable pub subscribe_to_requests :
      Open W Subscribe S → Transport W C → Subscribe → W → W × StatusOr S
  subscribe_to_requests stub t sub w = guarded failed t w (λ metadata v.
      opened (bytes "failed to open request subscription stream")
        (bytes "GrpcTransport::SubscribeToRequests") sub.channel (stub metadata sub v))

  unfoldable pub open_queue_upstream : Open W Unit S → Transport W C → W → W × StatusOr S
  open_queue_upstream stub t w = guarded failed t w (λ metadata v.
      opened (bytes "failed to open queue upstream stream")
        (bytes "GrpcTransport::OpenQueueUpstream") [] (stub metadata tt v))

  unfoldable pub open_queue_downstream : Open W Unit S → Transport W C → W → W × StatusOr S
  open_queue_downstream stub t w = guarded failed t w (λ metadata v.
      opened (bytes "failed to open queue downstream stream")
        (bytes "GrpcTransport::OpenQueueDownstream") [] (stub metadata tt v))
