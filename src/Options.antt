-- ===== src/Options.antt =====
-- src/client_options.cc: the address of the server and the check of the options.
pub mod Setters
pub mod Address
pub mod Check
mod Tests
use kubemq_cpp.Base.{
  ℕ, zero, suc, ◌+◌, ◌-◌, ◌==◌, Bool, true, false, not, ◌||◌, Option, none, some, List, [], ◌∷◌,
  length, ltb, if◌then◌else◌, Bytes, bytes, is_empty,
}
use kubemq_cpp.Base.Int.{ℤ, pos, is_pos, ltb_ℤ}
use kubemq_cpp.Status.{ErrorCode, Status, ok_status, make_error}
use kubemq_cpp.Tls.{TlsConfig, new_tls_config}

-- The options that are plain data; of the retry policy what `Validate` tests. Times are in
-- milliseconds. The credential provider and the callbacks are arguments of what uses them.
pub record ClientOptions : Type 0 where
  pub host : Bytes
  pub port : ℤ
  pub client_id : Bytes
  pub auth_token : Bytes
  pub connection_timeout : ℤ
  pub max_receive_message_size : ℤ
  pub max_send_message_size : ℤ
  pub wait_for_ready : Bool
  pub check_connection : Bool
  pub subscription_buffer_size : ℤ
  pub max_retries : ℤ
  pub default_channel : Bytes
  pub default_cache_ttl : ℤ
  pub max_concurrent_callbacks : ℤ
  pub tls_config : TlsConfig
  pub keepalive_time : ℤ
  pub keepalive_timeout : ℤ
  pub permit_keepalive_without_stream : Bool
  pub drain_timeout : ℤ
  pub callback_timeout : ℤ

-- `ClientOptions()`
abbrev pub new_options : ClientOptions
new_options = record {
  host = bytes "localhost";
  port = pos 50000;
  client_id = [];
  auth_token = [];
  connection_timeout = pos 10000;
  max_receive_message_size = pos 4194304;
  max_send_message_size = pos 104857600;
  wait_for_ready = true;
  check_connection = true;
  subscription_buffer_size = pos 10;
  max_retries = pos 3;
  default_channel = [];
  default_cache_ttl = pos 0;
  max_concurrent_callbacks = pos 1;
  tls_config = new_tls_config;
  keepalive_time = pos 10000;
  keepalive_timeout = pos 20000;
  permit_keepalive_without_stream = true;
  drain_timeout = pos 5000;
  callback_timeout = pos 30000;
}

-- `set_address(host, port)`
unfoldable pub set_host_port : Bytes → ℤ → ClientOptions → ClientOptions
set_host_port host port o = record o { host = host; port = port }

-- The text before and after the last `:`, if there is one: `rfind(':')` and the two `substr`.
unfoldable pub split_last : Bytes → Option (Bytes × Bytes)
split_last [] = none
split_last (c ∷ s) = elim (split_last s) [
  | some (host, port) ↦ some (c ∷ host, port)
  | none ↦ if c == 58 then some ([], s) else none
]

abbrev or_zero : Option ℤ → ℤ
or_zero (some p) = p
or_zero none = pos 0

-- `stoi` reads a number, or throws.
module _ (stoi : Bytes → Option ℤ) where
  -- The port that is read; 0 where `stoi` throws.
  unfoldable pub read_port : Bytes → ℤ
  read_port text = or_zero (stoi text)

  -- Without a `:`, or with one at the end, the whole text is the host.
  unfoldable pub assign : Bytes → Option (Bytes × Bytes) → ClientOptions → ClientOptions
  assign address none o = record o { host = address; port = pos 0 }
  assign address (some (host, port)) o =
      if is_empty port
      then record o { host = address; port = pos 0 }
      else record o { host = host; port = read_port port }

  unfoldable pub set_address : Bytes → ClientOptions → ClientOptions
  set_address address o = assign address (split_last address) o

abbrev rejected : Bytes → Status
rejected message = make_error ErrorCode.validation message (bytes "ClientOptions::Validate") [] []

unfoldable pub validate : ClientOptions → Status
validate o =
    if is_empty o.host
    then rejected (bytes "host is required")
    else (if not (is_pos o.port)
        then rejected (bytes "port must be > 0")
        else (if ltb_ℤ (pos 65535) o.port
            then rejected (bytes "port must be <= 65535")
            else (if not (is_pos o.subscription_buffer_size)
                then rejected (bytes "subscription_buffer_size must be > 0")
                else (if not (is_pos o.max_receive_message_size)
                    then rejected (bytes "max_receive_message_size must be > 0")
                    else (if not (is_pos o.max_send_message_size)
                        then rejected (bytes "max_send_message_size must be > 0")
                        else (if not (is_pos o.connection_timeout)
                            then rejected (bytes "connection_timeout must be > 0")
                            else (if not (is_pos o.max_concurrent_callbacks)
                                then rejected (bytes "max_concurrent_callbacks must be > 0")
                                else (if ltb_ℤ o.max_retries (pos 0) || ltb_ℤ (pos 10) o.max_retries
                                    then rejected (bytes "retry_policy max_retries must be 0-10")
                                    else ok_status))))))))
