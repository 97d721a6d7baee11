-- ===== src/Lib.antt =====
-- kubemq-cpp: the C++ client of the KubeMQ message broker, as functions that can be run and theorems
-- about them.
--
-- A client (src/client*.cc) checks what it is given (src/validation.cc, src/client_options.cc), builds
-- messages (src/event.cc, src/command.cc, src/query.cc, src/queue_message.cc), translates them to the
-- wire (src/internal/transport/converter.cc, src/proto/kubemq.proto) and calls the server through a
-- transport (src/internal/transport/grpc_transport.cc), which adds the authorization
-- (src/internal/middleware/auth.cc) and turns gRPC's errors into statuses
-- (src/internal/middleware/error_mapper.cc, src/status.cc). Beside it stand the parts for retries,
-- interceptors, reconnection and buffering (src/internal/middleware, src/internal/transport).
--
-- Files, each with the code it is about:
--   Base          helpers: tests on numbers, lists, texts as bytes, signed integers
--   Status        src/status.cc, src/error_code.cc, src/internal/types/error.cc: codes, Status, StatusOr
--   Backoff       src/internal/types/jitter.cc and both CalculateBackoff
--   Middleware    retry.cc, chain.cc, error_mapper.cc and auth.cc of src/internal/middleware
--   Transport     message_buffer.cc, state_machine.cc, reconnect.cc, grpc_transport.cc and
--                 keepalive.cc of src/internal/transport
--   Message       the messages and their builders: src/event.cc, event_store.cc, command.cc, query.cc,
--                 queue_message.cc
--   Wire          the messages of src/proto/kubemq.proto
--   Convert       src/internal/transport/converter.cc
--   Validation    src/validation.cc
--   Uuid          src/uuid.cc: the identifiers that the library makes
--   Tls           src/tls_config.cc and src/internal/transport/tls.cc: the credentials of the channel
--   Options       src/client_options.cc: the options, the address and the check
--   Downstream    src/client_queues_stream.cc and src/internal/queue_stream_impl.h: polls, settlements
--   Handles       the event and queue upstream handles: src/client_events.cc,
--                 src/client_queues_stream.cc and their Impl classes
--   Client        src/client.cc, src/internal/client_impl.h and the methods of the client in the
--                 other src/client_*.cc: creation, sends, queue calls, channels, streams
--   Subscription  src/internal/subscription_impl.h, src/internal/callback_guard.h,
--                 src/subscription_option.cc and the four SubscribeTo... of src/client_*.cc
--   Burnin        burnin/engine/engine.cc and burnin/config/config.cc: the control of the runs of the
--                 burn-in tool, and its durations
-- A module Tests holds runs on concrete inputs.
--
-- How the code is read. A method is a function that returns the object afterwards; names are those of
-- the source in snake case. A method that holds its mutex for its whole body is one step;
-- what it does after the lock is released is another. What the
-- code calls and does not define is a parameter: the stub's methods, the stream, a connection attempt
-- and an operation act on a state and return a result; a credential provider acts on the world; a
-- random draw, an identifier and `std::stoi` are functions; arithmetic on `double` is the record
-- `Double`, with what the language documents. A text is its bytes. `int` and `int64_t` are integers;
-- the casts to 32 and 64 bits wrap as they do in the source. A tag map is the entries in the order in
-- which it is read.
--
-- Loops. The retry loop recurses on the rounds left, at most one more than `max_retries`. The loop of
-- the ring recurses on the count. The reconnection loop runs on fuel: with a limit of attempts, more
-- rounds than the limit are enough; without one the loop may run for ever, as the source says.
--
-- The reader thread of a subscription runs until it is cancelled; it is a sequence of actions with
-- those of the other threads between them, so that it needs no fuel.
--
-- Not modelled: of the burn-in tool all but the control of its engine and the durations; the empty
-- OpenTelemetry hooks. The HTTP server, the files and the clock are input and output. TLS itself, the
-- channel and the network are the gRPC library's.
pub mod Base
pub mod Status
pub mod Backoff
pub mod Burnin
pub mod Middleware
pub mod Transport
pub mod Message
pub mod Wire
pub mod Convert
pub mod Validation
pub mod Uuid
pub mod Tls
pub mod Options
pub mod Downstream
pub mod Handles
pub mod Client
pub mod Subscription
