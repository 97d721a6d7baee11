-- ===== src/Tls.antt =====
-- include/kubemq/tls_config.h, src/tls_config.cc and src/internal/transport/tls.cc: the TLS options and
-- the credentials of the channel. A file is what `read` gives for its path: `none` when it cannot be
-- opened.
pub mod Build
mod Tests
use kubemq_cpp.Base.{
  Bool, true, false, Option, none, some, [], ◌++◌, Bytes, bytes, is_empty, if◌then◌else◌,
}
use kubemq_cpp.Status.{ErrorCode, StatusOr, value, failed, make_error, ◌>>=◌}

pub record TlsConfig : Type 0 where
  pub ca_cert_file : Bytes
  pub cert_file : Bytes
  pub key_file : Bytes
  pub ca_pem : Bytes
  pub cert_pem : Bytes
  pub key_pem : Bytes
  pub server_name_override : Bytes
  pub insecure_skip_verify : Bool
  pub enabled : Bool
  pub mtls : Bool

-- `TlsConfig()`
abbrev pub new_tls_config : TlsConfig
new_tls_config = record {
  ca_cert_file = [];
  cert_file = [];
  key_file = [];
  ca_pem = [];
  cert_pem = [];
  key_pem = [];
  server_name_override = [];
  insecure_skip_verify = false;
  enabled = false;
  mtls = false;
}

unfoldable pub from_cert_file : Bytes → TlsConfig
from_cert_file ca_cert_file = record new_tls_config { ca_cert_file = ca_cert_file; enabled = true }

unfoldable pub from_pem : Bytes → TlsConfig
from_pem ca_pem = record new_tls_config { ca_pem = ca_pem; enabled = true }

unfoldable pub from_mtls : Bytes → Bytes → Bytes → TlsConfig
from_mtls cert_file key_file ca_file = record new_tls_config {
  cert_file = cert_file;
  key_file = key_file;
  ca_cert_file = ca_file;
  enabled = true;
  mtls = true;
}

unfoldable pub from_mtls_pem : Bytes → Bytes → Bytes → TlsConfig
from_mtls_pem cert_pem key_pem ca_pem = record new_tls_config {
  cert_pem = cert_pem;
  key_pem = key_pem;
  ca_pem = ca_pem;
  enabled = true;
  mtls = true;
}

unfoldable pub set_server_name_override : Bytes → TlsConfig → TlsConfig
set_server_name_override name config = record config { server_name_override = name }

unfoldable pub set_insecure_skip_verify : Bool → TlsConfig → TlsConfig
set_insecure_skip_verify skip config = record config { insecure_skip_verify = skip }

-- `grpc::SslCredentialsOptions`
pub record SslOptions : Type 0 where
  pub pem_root_certs : Bytes
  pub pem_private_key : Bytes
  pub pem_cert_chain : Bytes

-- `grpc::InsecureChannelCredentials()` and `grpc::SslCredentials(options)`
pub data Credentials : Type 0 where
  insecure : Credentials
  ssl : SslOptions → Credentials

-- The branches of `ReadFile` once the path is known not to be empty.
unfoldable pub file_content : Bytes → Option Bytes → StatusOr Bytes
file_content path none = failed (
    make_error ErrorCode.validation (bytes "failed to open TLS file: " ++ path) (bytes "ReadFile")
      [] [])
file_content path (some content) =
    if is_empty content
    then failed (
        make_error ErrorCode.validation (bytes "TLS file is empty: " ++ path) (bytes "ReadFile") []
          [])
    else value content

module _ (read : Bytes → Option Bytes) where
  unfoldable pub read_file : Bytes → StatusOr Bytes
  unfolding file_content
  read_file path =
      if is_empty path
      then failed (
          make_error ErrorCode.validation (bytes "TLS file path is empty") (bytes "ReadFile") [] [])
      else file_content path (read path)

  -- PEM text is preferred; without it and without a path the field stays empty.
  unfoldable pub pem_or_file : Bytes → Bytes → StatusOr Bytes
  pem_or_file pem path =
      if is_empty pem then (if is_empty path then value [] else read_file path) else value pem

  -- The client's certificate and key.
  unfoldable pub with_client_cert : TlsConfig → Bytes → StatusOr Credentials
  with_client_cert config root = pem_or_file config.cert_pem config.cert_file >>= λ cert.
      (pem_or_file config.key_pem config.key_file >>= λ key. value (
        Credentials.ssl
          record { pem_root_certs = root; pem_private_key = key; pem_cert_chain = cert }))

  unfoldable pub build_channel_credentials : TlsConfig → StatusOr Credentials
  build_channel_credentials config =
      if config.enabled
      then (if config.insecure_skip_verify
          then failed (
              make_error ErrorCode.validation
                (bytes
                  "insecure_skip_verify is not supported in the C++ SDK. Use a custom root CA certificate instead.")
                (bytes "TlsConfig::Validate") [] [])
          else (pem_or_file config.ca_pem config.ca_cert_file >>= λ root.
              (if config.mtls
                then with_client_cert config root
                else value (
                    Credentials.ssl record {
                      pem_root_certs = root;
                      pem_private_key = [];
                      pem_cert_chain = [];
                    }))))
      else value Credentials.insecure
