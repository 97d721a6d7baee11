-- ===== src/Options/Setters.antt =====
-- src/client_options.cc: the options that are set one by one.
use kubemq_cpp.Base.{Bool, Bytes}
use kubemq_cpp.Base.Int.{ℤ}
use kubemq_cpp.Tls.{TlsConfig}
use kubemq_cpp.Options.{ClientOptions}

unfoldable pub set_client_id : Bytes → ClientOptions → ClientOptions
set_client_id id o = record o { client_id = id }

unfoldable pub set_auth_token : Bytes → ClientOptions → ClientOptions
set_auth_token token o = record o { auth_token = token }

unfoldable pub set_tls_config : TlsConfig → ClientOptions → ClientOptions
set_tls_config config o = record o { tls_config = config }

unfoldable pub set_connection_timeout : ℤ → ClientOptions → ClientOptions
set_connection_timeout timeout o = record o { connection_timeout = timeout }

unfoldable pub set_max_receive_message_size : ℤ → ClientOptions → ClientOptions
set_max_receive_message_size bytes o = record o { max_receive_message_size = bytes }

unfoldable pub set_max_send_message_size : ℤ → ClientOptions → ClientOptions
set_max_send_message_size bytes o = record o { max_send_message_size = bytes }

unfoldable pub set_wait_for_ready : Bool → ClientOptions → ClientOptions
set_wait_for_ready wait o = record o { wait_for_ready = wait }

unfoldable pub set_check_connection : Bool → ClientOptions → ClientOptions
set_check_connection check o = record o { check_connection = check }

unfoldable pub set_keepalive_time : ℤ → ClientOptions → ClientOptions
set_keepalive_time time o = record o { keepalive_time = time }

unfoldable pub set_keepalive_timeout : ℤ → ClientOptions → ClientOptions
set_keepalive_timeout timeout o = record o { keepalive_timeout = timeout }

unfoldable pub set_permit_keepalive_without_stream : Bool → ClientOptions → ClientOptions
set_permit_keepalive_without_stream permit o = record o { permit_keepalive_without_stream = permit }

unfoldable pub set_drain_timeout : ℤ → ClientOptions → ClientOptions
set_drain_timeout timeout o = record o { drain_timeout = timeout }

unfoldable pub set_subscription_buffer_size : ℤ → ClientOptions → ClientOptions
set_subscription_buffer_size size o = record o { subscription_buffer_size = size }

unfoldable pub set_default_channel : Bytes → ClientOptions → ClientOptions
set_default_channel channel o = record o { default_channel = channel }

unfoldable pub set_default_cache_ttl : ℤ → ClientOptions → ClientOptions
set_default_cache_ttl ttl o = record o { default_cache_ttl = ttl }

unfoldable pub set_max_concurrent_callbacks : ℤ → ClientOptions → ClientOptions
set_max_concurrent_callbacks n o = record o { max_concurrent_callbacks = n }

unfoldable pub set_callback_timeout : ℤ → ClientOptions → ClientOptions
set_callback_timeout timeout o = record o { callback_timeout = timeout }

-- `set_retry_policy`, as far as `Validate` reads the policy.
unfoldable pub set_max_retries : ℤ → ClientOptions → ClientOptions
set_max_retries n o = record o { max_retries = n }
