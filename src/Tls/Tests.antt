-- ===== src/Tls/Tests.antt =====
-- A configuration with a file that is there and one that is not.
use kubemq_cpp.Base.{Option, none, some, ◌==◌, [], ◌∷◌, Bytes, if◌then◌else◌}
use kubemq_cpp.Tls.{from_mtls, build_channel_credentials}
use kubemq_cpp.Tls.Build.{Valid, IsFor, build_channel_credentials_lem}

-- Only the paths that start with 1 are there.
abbrev read : Bytes → Option Bytes
read [] = none
read (c ∷ s) = if c == 1 then some (9 ∷ []) else none

build_channel_credentials_example :
    Valid
      (IsFor read (from_mtls (1 ∷ []) (1 ∷ 2 ∷ []) (1 ∷ 3 ∷ [])))
      (build_channel_credentials read (from_mtls (1 ∷ []) (1 ∷ 2 ∷ []) (1 ∷ 3 ∷ [])))
build_channel_credentials_example =
    build_channel_credentials_lem read (from_mtls (1 ∷ []) (1 ∷ 2 ∷ []) (1 ∷ 3 ∷ []))
