-- ===== src/Transport/Grpc/Connect.antt =====
-- src/internal/transport/grpc_transport.cc: `Create` and `Connect`; and
-- src/internal/transport/keepalive.cc. What the gRPC library does is a parameter.
use kubemq_cpp.Base.{
  ℕ, zero, suc, ◌+◌, ◌/◌, ◌%◌, ltb, Bool, true, false, ◌&&◌, not, Option, none, some, [], ◌∷◌, ◌++◌,
  Bytes, bytes, is_empty, if◌then◌else◌,
}
use kubemq_cpp.Base.Int.{ℤ, pos, negsuc, as_int32}
use kubemq_cpp.Status.{ErrorCode, Status, StatusOr, value, failed, make_error}
use kubemq_cpp.Middleware.Auth.{Provider}
use kubemq_cpp.Options.{ClientOptions}
use kubemq_cpp.Tls.{Credentials, build_channel_credentials}
use kubemq_cpp.Transport.StateMachine.{ConnectionState, StateMachine, create, transition}
use kubemq_cpp.Transport.Grpc.{Transport}

-- The decimal digits of a number before `rest`; the fuel is above the number of digits.
unfoldable pub digits : ℕ → ℕ → Bytes → Bytes
digits zero n rest = rest
digits (suc fuel) n rest =
    let s = (48 + n % 10) ∷ rest in if ltb n 10 then s else digits fuel (n / 10) s

-- `std::to_string(int)`
unfoldable pub to_string : ℤ → Bytes
to_string (pos n) = digits (suc n) n []
to_string (negsuc n) = 45 ∷ digits (suc (suc n)) (suc n) []

-- What `Connect` sets of `grpc::ChannelArguments`.
pub record ChannelArguments : Type 0 where
  pub max_receive_message_size : ℤ
  pub max_send_message_size : ℤ
  pub keepalive_time_ms : ℤ
  pub keepalive_timeout_ms : ℤ
  pub keepalive_permit_without_calls : ℤ
  pub ssl_target_name_override : Option Bytes

-- `grpc::ChannelArguments()`, whose settings are the library's own until they are set.
abbrev pub KeepaliveArguments : Type 0
KeepaliveArguments = ℤ × ℤ × ℤ

-- `ApplyKeepalive`, which does what `Connect` has written out.
unfoldable pub apply_keepalive : ClientOptions → KeepaliveArguments
apply_keepalive opts = (
  as_int32 opts.keepalive_time,
  as_int32 opts.keepalive_timeout,
  if opts.permit_keepalive_without_stream then pos 1 else pos 0,
)

unfoldable pub channel_arguments : ClientOptions → ChannelArguments
channel_arguments opts = record {
  max_receive_message_size = opts.max_receive_message_size;
  max_send_message_size = opts.max_send_message_size;
  keepalive_time_ms = as_int32 opts.keepalive_time;
  keepalive_timeout_ms = as_int32 opts.keepalive_timeout;
  keepalive_permit_without_calls = if opts.permit_keepalive_without_stream then pos 1 else pos 0;
  ssl_target_name_override =
      if opts.tls_config.enabled && not (is_empty opts.tls_config.server_name_override)
      then some opts.tls_config.server_name_override
      else none;
}

-- The gRPC library: `CreateCustomChannel` and `NewStub` tell whether the pointer is not null, and
-- `WaitForConnected` whether the channel was ready in the time, in milliseconds.
pub record Network (W : Type 0) : Type 0 where
  pub create_channel : Bytes → Credentials → ChannelArguments → W → W × Bool
  pub new_stub : W → W × Bool
  pub wait_for_connected : ℤ → W → W × Bool

abbrev connect_error : ErrorCode → Bytes → Status
connect_error code message = make_error code message (bytes "GrpcTransport::Connect") [] []

-- The machine of a new connection: idle, connecting, ready.
unfoldable pub ready_machine : {C : Type 0} → StateMachine C
ready_machine =
    (transition (transition (create ConnectionState.idle) ConnectionState.connecting).0
      ConnectionState.ready).0

unfoldable pub new_transport : {W C : Type 0} → ClientOptions → Option (Provider W) → Transport W C
new_transport opts provider = record {
  closed = false;
  auth_token = opts.auth_token;
  credential_provider = provider;
  state_machine = some ready_machine;
}

-- The wait for the channel to be ready, if the options ask for it.
unfoldable pub wait : {W : Type 0} → Network W → ClientOptions → W → W × Bool
wait net opts w =
    if opts.wait_for_ready then net.wait_for_connected opts.connection_timeout w else (w, true)

-- The address that the channel is made for.
unfoldable pub target : ClientOptions → Bytes
target opts = opts.host ++ 58 ∷ to_string opts.port

module _ {W C : Type 0} (net : Network W) (opts : ClientOptions)
    (provider : Option (Provider W)) where
  -- `Connect` once there are credentials.
  unfoldable pub connect_with : Credentials → W → W × StatusOr (Transport W C)
  unfolding wait
  connect_with creds w =
      let (w1, channel) = net.create_channel (target opts) creds (channel_arguments opts) w in
      let (w2, stub) = net.new_stub w1 in
      let (w3, ready) = wait net opts w2 in
      if not channel
      then (w1, failed (connect_error ErrorCode.transient (bytes "failed to create gRPC channel")))
      else (if not stub
          then (w2, failed (connect_error ErrorCode.transient (bytes "failed to create gRPC stub")))
          else (if not ready
              then (
                w3,
                failed (
                    connect_error ErrorCode.timeout
                      (bytes "connection timeout waiting for channel to be ready")),
              )
              else (w3, value (new_transport opts provider))))

  -- `Connect` after `BuildChannelCredentials`
  unfoldable pub connect_or_fail : StatusOr Credentials → W → W × StatusOr (Transport W C)
  connect_or_fail (value creds) w = connect_with creds w
  connect_or_fail (failed s) w = (w, failed s)

  -- `Create`, which calls `Connect` on a new transport
  unfoldable pub connect : (Bytes → Option Bytes) → W → W × StatusOr (Transport W C)
  connect read w = connect_or_fail (build_channel_credentials read opts.tls_config) w
