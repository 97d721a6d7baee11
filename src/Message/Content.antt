-- ===== src/Message/Content.antt =====
-- What every `Build` asks of a message, and the names it leaves out.
use kubemq_cpp.Base.{
  ◌≡◌, ◌≢◌, refl, ◌⊎◌, inl, inr, true, false, ◌&&◌, [], if◌then◌else◌, Bytes, is_empty,
  is_empty-nil, is_empty-ne_nil, Bool-cases, arith, bytes,
}
use kubemq_cpp.Status.{ErrorCode, Status, brief}

-- A channel, and a body or metadata.
abbrev pub IsComplete : Bytes → Bytes → Bytes → Type 0
IsComplete channel metadata body = (channel ≢ []) × ((body ≢ []) ⊎ (metadata ≢ []))

-- The test of the source decides `IsComplete`.
abbrev pub Check : Bytes → Bytes → Bytes → Type 0
Check channel metadata body =
    (is_empty channel ≡ false)
    × (is_empty body && is_empty metadata ≡ false)
    × IsComplete channel metadata body

abbrev pub Refusal : Bytes → Bytes → Bytes → Type 0
Refusal channel metadata body =
    ((is_empty channel ≡ true)
      ⊎ ((is_empty channel ≡ false) × (is_empty body && is_empty metadata ≡ true)))
    × ¬ (IsComplete channel metadata body)

ne_nil : (s : Bytes) → is_empty s ≡ false → s ≢ []
unfolding is_empty
ne_nil s h e = ground arith

pub content-cases :
    (channel metadata body : Bytes) → Check channel metadata body ⊎ Refusal channel metadata body
content-cases channel metadata body = elim (Bool-cases (is_empty channel)) [
  | inl c ↦ inr (inl c, λ complete. complete.0 (is_empty-nil channel c))
  | inr c ↦ elim (Bool-cases (is_empty body)) [
    | inr b ↦ inl (c, rw b refl, (ne_nil channel c, inl (ne_nil body b)))
    | inl b ↦ elim (Bool-cases (is_empty metadata)) [
      | inr m ↦ inl (c, rw (b, m) refl, (ne_nil channel c, inr (ne_nil metadata m)))
      | inl m ↦ inr (
        inr (c, rw (b, m) refl),
        λ complete. elim complete.1 [
          | inl h ↦ h (is_empty-nil body b)
          | inr h ↦ h (is_empty-nil metadata m)
        ],
      )
    ]
  ]
]

abbrev pub no_channel : Status
no_channel = brief ErrorCode.validation (bytes "channel is required")

abbrev pub no_content : Status
no_content = brief ErrorCode.validation (bytes "body or metadata is required")

abbrev pub no_time : Status
no_time = brief ErrorCode.validation (bytes "timeout must be > 0")

-- `id_.empty() ? internal::GenerateUUID() : id_`, and `FirstNonEmpty` with its arguments swapped
unfoldable pub first_non_empty : Bytes → Bytes → Bytes
first_non_empty a b = if is_empty a then b else a

pub first_non_empty-kept : (a b : Bytes) → a ≢ [] → first_non_empty a b ≡ a
unfolding first_non_empty
first_non_empty-kept a b h = rw (is_empty-ne_nil a h) refl

pub first_non_empty_lem :
    (a b : Bytes) → b ≢ [] → (first_non_empty a b ≢ []) × (a ≢ [] → first_non_empty a b ≡ a)
unfolding first_non_empty
first_non_empty_lem a b h = elim (Bool-cases (is_empty a)) [
  | inl e ↦ (rw e h, λ n. absurd (n (is_empty-nil a e)))
  | inr e ↦ (rw e (ne_nil a e), λ n. rw e refl)
]

-- Two names that a reply needs.
pub names-cases :
    (a b : Bytes)
    → ((is_empty a ≡ false) × (is_empty b ≡ false) × ((a ≢ []) × (b ≢ [])))
      ⊎ (((is_empty a ≡ true) ⊎ ((is_empty a ≡ false) × (is_empty b ≡ true)))
          × ¬ ((a ≢ []) × (b ≢ [])))
names-cases a b = elim (Bool-cases (is_empty a)) [
  | inl c ↦ inr (inl c, λ named. named.0 (is_empty-nil a c))
  | inr c ↦ elim (Bool-cases (is_empty b)) [
    | inl d ↦ inr (inr (c, d), λ named. named.1 (is_empty-nil b d))
    | inr d ↦ inl (c, d, (ne_nil a c, ne_nil b d))
  ]
]
