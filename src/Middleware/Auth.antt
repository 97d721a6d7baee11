-- ===== src/Middleware/Auth.antt =====
-- src/internal/middleware/auth.cc and src/credential_provider.cc: the authorization token of a call. A provider is application code:
-- a call of `GetToken` acts on its state `P`. Metadata is what `AddMetadata` or `insert` was given.
mod Tests
use kubemq_cpp.Base.{
  Bool, true, false, not, ◌≡◌, refl, ◌⊎◌, inl, inr, Option, none, some, List, [], ◌∷◌, ◌++◌, Bytes,
  bytes, is_empty, if◌then◌else◌, arith, Bool-cases,
}
use kubemq_cpp.Status.{
  ErrorCode, Status, StatusOr, value, failed, ok_status, brief, is_ok, is_ok_code,
}

abbrev pub Metadata : Type 0
Metadata = List (Bytes × Bytes)

-- `CredentialProvider::GetToken`
abbrev pub Provider : Type 0 → Type 0
Provider P = P → P × StatusOr Bytes

authorization : Bytes → Bytes × Bytes
authorization token = (bytes "authorization", token)

-- The branch of `InjectAuthToken` on the provider's answer.
inject_answer : Metadata → StatusOr Bytes → Metadata × Status
unfolding authorization
inject_answer metadata (failed s) = (metadata, s)
inject_answer metadata (value token) =
    (if is_empty token then metadata else metadata ++ authorization token ∷ [], ok_status)

module _ {P : Type 0} where
  -- `InjectAuthToken`; the context is its metadata, `none` for a null pointer.
  unfoldable pub inject_auth_token :
      Option Metadata → Bytes → Option (Provider P) → P → P × Option Metadata × Status
  unfolding inject_answer authorization
  inject_auth_token none auth_token provider p =
      (p, none, brief ErrorCode.validation (bytes "ClientContext is null"))
  inject_auth_token (some metadata) auth_token none p =
      if is_empty auth_token
      then (p, some metadata, ok_status)
      else (p, some (metadata ++ authorization auth_token ∷ []), ok_status)
  inject_auth_token (some metadata) auth_token (some get_token) p =
      let (p', answer) = get_token p in
      let (metadata', s) = inject_answer metadata answer in
      if is_empty auth_token
      then (p', some metadata', s)
      else (p, some (metadata ++ authorization auth_token ∷ []), ok_status)

  -- The token of the plugin; a provider that fails gives none.
  plugin_token : Bytes → Option (Provider P) → P → P × Bytes
  plugin_token auth_token none p = (p, auth_token)
  plugin_token auth_token (some get_token) p =
      let (p', answer) = get_token p in
      if is_empty auth_token
      then (p', elim answer [ value token ↦ token | failed s ↦ [] ])
      else (p, auth_token)

  -- `AuthPlugin::GetMetadata`, which always returns OK; `none` for a null pointer.
  unfoldable pub get_metadata :
      Option Metadata → Bytes → Option (Provider P) → P → P × Option Metadata
  unfolding plugin_token authorization
  get_metadata metadata auth_token provider p =
      let (p', token) = plugin_token auth_token provider p in
      (
        p',
        elim metadata [
          | none ↦ none
          | some m ↦ if is_empty token then some m else some (m ++ authorization token ∷ [])
        ],
      )

  -- `AuthPlugin::IsBlocking`
  unfoldable pub is_blocking : Option (Provider P) → Bool
  is_blocking none = false
  is_blocking (some get_token) = true

  both_ways :
      (metadata : Metadata) (auth_token : Bytes) (provider : Option (Provider P)) (p : P)
      → let (p', m, s) = inject_auth_token (some metadata) auth_token provider p in
        (get_metadata (some metadata) auth_token provider p ≡ (p', m))
        × (is_ok s ≡ false → m ≡ some metadata)
  unfolding inject_auth_token get_metadata is_empty is_ok_code
  both_ways metadata [] none p = (refl, λ h. refl)
  both_ways metadata (c ∷ t) none p = (refl, λ h. cc)
  both_ways metadata [] (some get_token) p = (ground arith, λ h. ground arith)
  both_ways metadata (c ∷ t) (some get_token) p = (refl, λ h. cc)

  -- The plugin and the injection by hand add the same metadata and call the provider equally often:
  -- they leave the same state of the provider. They differ in the result only, since the plugin
  -- swallows a provider's error; and where the injection returns an error, it has added nothing.
  pub inject_auth_token-get_metadata :
      (metadata : Metadata) (auth_token : Bytes) (provider : Option (Provider P)) (p : P)
      → let (p', m, s) = inject_auth_token (some metadata) auth_token provider p in
        (get_metadata (some metadata) auth_token provider p ≡ (p', m))
        × ((is_ok s ≡ true) ⊎ (m ≡ some metadata))
  inject_auth_token-get_metadata metadata auth_token provider p =
      let (same, kept) = both_ways metadata auth_token provider p in
      (
        same,
        elim (Bool-cases (is_ok (inject_auth_token (some metadata) auth_token provider p).2)) [
          | inl h ↦ inl h
          | inr h ↦ inr (kept h)
        ],
      )

  -- With a static token the call carries exactly that token beside what it had, and the provider is
  -- not called, whether there is one or not.
  pub inject_auth_token_static :
      (metadata : Metadata) (auth_token : Bytes) (provider : Option (Provider P)) (p : P)
      → is_empty auth_token ≡ false
      → inject_auth_token (some metadata) auth_token provider p
        ≡ (p, some (metadata ++ (bytes "authorization", auth_token) ∷ []), ok_status)
  unfolding inject_auth_token
  inject_auth_token_static metadata auth_token none p h = rw h
  inject_auth_token_static metadata auth_token (some get_token) p h = rw h

-- `StaticTokenProvider`: its state is the token that it was made with, and `GetToken` returns it.
unfoldable pub static_get_token : Provider Bytes
static_get_token token = (token, value token)

-- A static provider of a token puts on the call what the token given directly puts there.
static_get_token_lem :
    (metadata : Option Metadata) (token : Bytes)
    → inject_auth_token metadata [] (some static_get_token) token
      ≡ inject_auth_token {P = Bytes} metadata token none token
unfolding static_get_token inject_auth_token is_empty
static_get_token_lem none token = refl
static_get_token_lem (some metadata) [] = refl
static_get_token_lem (some metadata) (c ∷ token) = refl
