-- ===== src/Transport/Grpc.antt =====
-- src/internal/transport/grpc_transport.cc: the guarded calls of the server. The server, the network
-- and a credential provider act on a world `W`; the stub's method is a function of the time that is
-- granted (in milliseconds), the call's metadata and the request.
pub mod Calls
pub mod Streams
pub mod Stub
pub mod Connect
pub mod Connected
pub mod Closed
pub mod Sending
pub mod Deadlines
pub mod Tests
use kubemq_cpp.Base.{
  ℕ, ◌+◌, ◌*◌, Bool, true, false, Option, none, some, List, [], Bytes, bytes, is_empty,
  if◌then◌else◌,
}
use kubemq_cpp.Base.Int.{ℤ, pos, is_pos, pos_part}
use kubemq_cpp.Status.{
  ErrorCode, Status, StatusOr, value, failed, ok_status, make_error, is_ok, client_closed,
  from_server_error,
}
use kubemq_cpp.Middleware.Auth.{Metadata, Provider, inject_auth_token}
use kubemq_cpp.Middleware.ErrorMapper.{GrpcStatus, grpc_ok, from_grpc_status}
use kubemq_cpp.Transport.StateMachine.{ConnectionState, StateMachine, transition}
use kubemq_cpp.Wire
use kubemq_cpp.Wire.{Result, Request, Response, SendQueueMessageResult}

-- A method of the stub.
abbrev pub Rpc : Type 0 → Type 0 → Type 0 → Type 0
Rpc W A B = ℤ → Metadata → A → W → W × GrpcStatus × B

-- `kDefaultSendTimeout` and `kDefaultRPCTimeout`
abbrev pub default_send_timeout : ℤ
default_send_timeout = pos 5000

abbrev pub default_rpc_timeout : ℤ
default_rpc_timeout = pos 10000

-- `kDefaultRPCTimeout.count()`: its seconds, which `SendRequest` takes as milliseconds.
abbrev pub default_rpc_count : ℤ
default_rpc_count = pos 10

-- The states of a gRPC channel, as `GetState` documents them.
pub data ChannelState : Type 0 where
  idle connecting ready transient_failure shutdown : ChannelState

-- The `switch` of `State`
unfoldable pub of_channel : ChannelState → ConnectionState
of_channel ChannelState.idle = ConnectionState.idle
of_channel ChannelState.connecting = ConnectionState.reconnecting
of_channel ChannelState.ready = ConnectionState.ready
of_channel ChannelState.transient_failure = ConnectionState.reconnecting
of_channel ChannelState.shutdown = ConnectionState.closed

pub record EventStoreResult : Type 0 where
  pub id : Bytes
  pub sent : Bool
  pub error : Bytes

-- The state machine is there once `Connect` has succeeded.
pub record Transport (W C : Type 0) : Type 0 where
  pub closed : Bool
  pub auth_token : Bytes
  pub credential_provider : Option (Provider W)
  pub state_machine : Option (StateMachine C)

unfoldable pub metadata_of : Option Metadata → Metadata
metadata_of none = []
metadata_of (some m) = m

-- The answer of a call that returns the response of the stub.
unfoldable pub answer : {W B : Type 0} → Bytes → Bytes → W × GrpcStatus × B → W × StatusOr B
answer operation channel (w, st, response) =
    if grpc_ok st.error_code
    then (w, value response)
    else (w, failed (from_grpc_status st operation channel []))

-- `timeout_ms` of `SendRequest`
unfoldable pub rpc_timeout : Request → ℤ
rpc_timeout request = if is_pos request.timeout then request.timeout else default_rpc_count

unfoldable pub close_machine :
    {C : Type 0} → Option (StateMachine C) → Option (StateMachine C) × List C
close_machine none = (none, [])
close_machine (some m) =
    let (m', _, callbacks) = transition m ConnectionState.closed in (some m', callbacks)

module _ {W C : Type 0} where
  unfoldable pub check_closed : Transport W C → Status
  check_closed t = if t.closed then client_closed else ok_status

  -- `ApplyAuth` on a new context
  unfoldable pub apply_auth : Transport W C → W → W × Option Metadata × Status
  apply_auth t w = inject_auth_token (some []) t.auth_token t.credential_provider w

  -- The first lines of every call: closed, then authorization, then the call itself.
  unfoldable pub guarded :
      {R : Type 0} → (Status → R) → Transport W C → W → (Metadata → W → W × R) → W × R
  unfolding metadata_of
  guarded refuse t w body =
      let s = check_closed t in
      let (w', metadata, auth) = apply_auth t w in
      if is_ok s
      then (if is_ok auth then body (metadata_of metadata) w' else (w', refuse auth))
      else (w, refuse s)

  unfoldable pub send_event : Rpc W Wire.Event Result → Transport W C → Wire.Event → W → W × Status
  send_event rpc t event w =
      guarded (λ s. s) t w
        (λ metadata v.
          let (v', st, result) = rpc default_send_timeout metadata event v in
          if grpc_ok st.error_code
          then (v', from_server_error result.error (bytes "GrpcTransport::SendEvent") event.channel)
          else (v', from_grpc_status st (bytes "GrpcTransport::SendEvent") event.channel []))

  unfoldable pub send_event_store :
      Rpc W Wire.Event Result → Transport W C → Wire.Event → W → W × StatusOr EventStoreResult
  send_event_store rpc t event w = guarded failed t w (λ metadata v.
      let (v', st, result) = rpc default_send_timeout metadata event v in
      if grpc_ok st.error_code
      then (if is_empty result.error
          then (v', value record { id = result.event_id; sent = result.sent; error = result.error })
          else (
            v',
            failed (
                make_error ErrorCode.fatal result.error (bytes "GrpcTransport::SendEventStore")
                  event.channel []),
          ))
      else (
        v',
        failed (from_grpc_status st (bytes "GrpcTransport::SendEventStore") event.channel []),
      ))

  unfoldable pub send_request :
      Rpc W Request Response → Transport W C → Request → W → W × StatusOr Response
  send_request rpc t request w = guarded failed t w (λ metadata v.
      answer (bytes "GrpcTransport::SendRequest") request.channel
        (rpc (rpc_timeout request) metadata request v))

  unfoldable pub send_response :
      {E : Type 0} → Rpc W Response E → Transport W C → Response → W → W × Status
  send_response rpc t response w =
      guarded (λ s. s) t w
        (λ metadata v.
          let (v', st, _) = rpc default_send_timeout metadata response v in
          if grpc_ok st.error_code then (v', ok_status) else (
            v',
            from_grpc_status st (bytes "GrpcTransport::SendResponse") response.reply_channel [],
          ))

  unfoldable pub send_queue_message :
      Rpc W Wire.QueueMessage SendQueueMessageResult
      → Transport W C
      → Wire.QueueMessage
      → W
      → W × StatusOr SendQueueMessageResult
  send_queue_message rpc t message w = guarded failed t w (λ metadata v.
      answer (bytes "GrpcTransport::SendQueueMessage") message.channel
        (rpc default_send_timeout metadata message v))

  -- `Close`, whose body runs once. It returns OK and the callbacks that it ran.
  unfoldable pub close : Transport W C → Transport W C × List C
  unfolding close_machine
  close t =
      let (machine, callbacks) = close_machine t.state_machine in
      if t.closed then (t, []) else (record t { closed = true; state_machine = machine }, callbacks)

  -- `State`; without a machine it asks the channel, if there is one.
  unfoldable pub state : Transport W C → Option ChannelState → ConnectionState
  state t channel = if t.closed then ConnectionState.closed else elim t.state_machine [
    | some m ↦ m.state
    | none ↦ elim channel [ some s ↦ of_channel s | none ↦ ConnectionState.idle ]
  ]
