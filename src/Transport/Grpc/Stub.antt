-- ===== src/Transport/Grpc/Stub.antt =====
-- The stub of the service in src/proto/kubemq.proto: one field for each method that the transport calls.
-- The streams are values of `S`.
use kubemq_cpp.Transport.Grpc.{Rpc}
use kubemq_cpp.Transport.Grpc.Streams.{Open}
use kubemq_cpp.Wire
use kubemq_cpp.Wire.{Result, Request, Response, SendQueueMessageResult}
use kubemq_cpp.Wire.Simple.{
  PingResult, Subscribe, QueueMessagesBatchRequest, QueueMessagesBatchResponse,
  ReceiveQueueMessagesRequest, ReceiveQueueMessagesResponse, AckAllQueueMessagesRequest,
  AckAllQueueMessagesResponse,
}

pub record Stub (W S : Type 0) : Type 0 where
  pub ping : Rpc W Unit PingResult
  pub send_event : Rpc W Wire.Event Result
  pub send_request : Rpc W Request Response
  pub send_response : Rpc W Response Unit
  pub send_queue_message : Rpc W Wire.QueueMessage SendQueueMessageResult
  pub send_queue_messages_batch : Rpc W QueueMessagesBatchRequest QueueMessagesBatchResponse
  pub receive_queue_messages : Rpc W ReceiveQueueMessagesRequest ReceiveQueueMessagesResponse
  pub ack_all_queue_messages : Rpc W AckAllQueueMessagesRequest AckAllQueueMessagesResponse
  pub send_events_stream : Open W Unit S
  pub subscribe_to_events : Open W Subscribe S
  pub subscribe_to_requests : Open W Subscribe S
  pub queues_upstream : Open W Unit S
  pub queues_downstream : Open W Unit S
