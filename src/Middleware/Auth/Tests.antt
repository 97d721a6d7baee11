-- ===== src/Middleware/Auth/Tests.antt =====
-- A provider that counts its calls.
use kubemq_cpp.Base.{ℕ, ◌+◌, ◌≡◌, refl, some, [], ◌∷◌, bytes, is_empty}
use kubemq_cpp.Status.{value, ok_status}
use kubemq_cpp.Middleware.Auth.{Provider, Metadata, inject_auth_token}

abbrev counting : Provider ℕ
counting n = (n + 1, value (bytes "token"))

abbrev no_metadata : Metadata
no_metadata = []

-- The provider is called once, and its token is what the call carries.
token_of_provider :
    inject_auth_token (some no_metadata) [] (some counting) 4
    ≡ (5, some ((bytes "authorization", bytes "token") ∷ []), ok_status)
unfolding inject_auth_token is_empty bytes
token_of_provider = refl
