-- ===== src/Tls/Build.antt =====
-- What the credentials of a channel are made of, and which failures there are.
use kubemq_cpp.Base.{
  ◌≡◌, ◌≢◌, refl, ◌⊎◌, inl, inr, Bool, true, false, Option, none, some, [], ◌∷◌, Bytes, is_empty,
  if◌then◌else◌,
}
use kubemq_cpp.Status.{ErrorCode, StatusOr, value, failed, ◌>>=◌}
use kubemq_cpp.Tls.{
  TlsConfig, SslOptions, Credentials, read_file, file_content, pem_or_file, with_client_cert,
  build_channel_credentials,
}

-- Where a certificate or a key comes from: the PEM text; without one the file, which then is there and
-- is not empty; without either it is empty.
abbrev pub IsPart : (Bytes → Option Bytes) → Bytes → Bytes → Bytes → Type 0
IsPart read pem path content =
    ((pem ≢ []) × (content ≡ pem))
    ⊎ (((pem ≡ []) × (path ≢ []) × (read path ≡ some content) × (content ≢ []))
        ⊎ ((pem ≡ []) × (path ≡ []) × (content ≡ [])))

-- A result is a value that `P` holds of, or an error of kind `kValidation`.
abbrev pub Valid : {A : Type 0} → (A → Type 0) → StatusOr A → Type 0
Valid P (value a) = P a
Valid P (failed s) = s.code ≡ ErrorCode.validation

-- The client's part: the certificate and the key with mTLS, and nothing without it.
abbrev pub IsClientPart : (Bytes → Option Bytes) → TlsConfig → SslOptions → Type 0
IsClientPart read config o =
    ((config.mtls ≡ true)
      × IsPart read config.cert_pem config.cert_file o.pem_cert_chain
      × IsPart read config.key_pem config.key_file o.pem_private_key)
    ⊎ ((config.mtls ≡ false) × (o.pem_cert_chain ≡ []) × (o.pem_private_key ≡ []))

-- The credentials that a configuration asks for.
abbrev pub IsFor : (Bytes → Option Bytes) → TlsConfig → Credentials → Type 0
IsFor read config Credentials.insecure = config.enabled ≡ false
IsFor read config (Credentials.ssl o) =
    (config.enabled ≡ true)
    × (config.insecure_skip_verify ≡ false)
    × IsPart read config.ca_pem config.ca_cert_file o.pem_root_certs
    × IsClientPart read config o

cons-ne_nil : {c : _} {s : Bytes} → ◌≢◌ {A = Bytes} (c ∷ s) []
cons-ne_nil e = cc

weaken :
    {A : Type 0} {P Q : A → Type 0}
    → ((a : A) → P a → Q a)
    → (r : StatusOr A) → Valid P r
    → Valid Q r
weaken k (value a) p = k a p
weaken k (failed s) p = p

bind-Valid :
    {A B : Type 0} {P : A → Type 0} (Q : B → Type 0) (r : StatusOr A) (f : A → StatusOr B)
    → Valid P r
    → ((a : A) → P a → Valid Q (f a))
    → Valid Q (r >>= f)
bind-Valid Q (value a) f p k = k a p
bind-Valid Q (failed s) f p k = p

if-Valid :
    {A : Type 0} (P : A → Type 0) (b : Bool) (x y : StatusOr A)
    → (b ≡ true → Valid P x)
    → (b ≡ false → Valid P y)
    → Valid P (if b then x else y)
if-Valid P true x y p q = p refl
if-Valid P false x y p q = q refl

module _ (read : Bytes → Option Bytes) where
  content-Valid :
      (path : Bytes) (found : Option Bytes)
      → Valid (λ content. (found ≡ some content) × (content ≢ [])) (file_content path found)
  unfolding file_content is_empty
  content-Valid path none = refl
  content-Valid path (some []) = refl
  content-Valid path (some (c ∷ s)) = (refl, cons-ne_nil)

  -- A part without PEM text is the content of its file, or empty when there is no path.
  unread-Valid :
      (path : Bytes)
      → Valid (IsPart read [] path) (if is_empty path then value [] else read_file read path)
  unfolding read_file is_empty
  unread-Valid [] = inr (inr (refl, refl, refl))
  unread-Valid (c ∷ p) =
      weaken (λ content (e, ne). inr (inl (refl, cons-ne_nil, e, ne))) (file_content _ (read _))
        (content-Valid (c ∷ p) (read (c ∷ p)))

  IsPart-Valid : (pem path : Bytes) → Valid (IsPart read pem path) (pem_or_file read pem path)
  unfolding pem_or_file is_empty
  IsPart-Valid [] path = unread-Valid path
  IsPart-Valid (c ∷ s) path = inl (cons-ne_nil, refl)

  module _ (config : TlsConfig) (enabled : config.enabled ≡ true)
      (verified : config.insecure_skip_verify ≡ false) where
    client-Valid :
        (root : Bytes)
        → config.mtls ≡ true
        → IsPart read config.ca_pem config.ca_cert_file root
        → Valid (IsFor read config) (with_client_cert read config root)
    unfolding with_client_cert
    client-Valid root mtls r =
        bind-Valid (IsFor read config) (pem_or_file read config.cert_pem config.cert_file) _
          (IsPart-Valid config.cert_pem config.cert_file)
          (λ cert c.
            bind-Valid (IsFor read config) (pem_or_file read config.key_pem config.key_file) _
              (IsPart-Valid config.key_pem config.key_file)
              (λ key k. (enabled, verified, r, inl (mtls, c, k))))

    enabled-Valid :
        (root : Bytes)
        → IsPart read config.ca_pem config.ca_cert_file root
        → Valid (IsFor read config) (
            if config.mtls
            then with_client_cert read config root
            else value (
                Credentials.ssl
                  record { pem_root_certs = root; pem_private_key = []; pem_cert_chain = [] }))
    enabled-Valid root r =
        if-Valid (IsFor read config) config.mtls _ _ (λ mtls. client-Valid root mtls r)
          (λ plain. (enabled, verified, r, inr (plain, refl, refl)))

  -- The credentials of a channel are what the configuration asks for, or there is an error of kind
  -- `kValidation`. Insecure credentials are made only when TLS is not enabled, TLS ones only when the
  -- server is verified; a certificate or a key is the PEM text if there is one and otherwise the content
  -- of the file, which is not empty, and a client certificate is there only with mTLS.
  pub build_channel_credentials_lem :
      (config : TlsConfig) → Valid (IsFor read config) (build_channel_credentials read config)
  unfolding build_channel_credentials
  build_channel_credentials_lem config =
      if-Valid (IsFor read config) config.enabled _ _
        (λ on.
          if-Valid (IsFor read config) config.insecure_skip_verify _ _ (λ skip. refl)
            (λ verified.
              bind-Valid (IsFor read config) (pem_or_file read config.ca_pem config.ca_cert_file) _
                (IsPart-Valid config.ca_pem config.ca_cert_file)
                (enabled-Valid config on verified)))
        (λ off. off)
