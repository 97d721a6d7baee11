-- ===== src/Message/QueueMessage.antt =====
-- include/kubemq/queue_message.h and src/queue_message.cc: `QueueMessage` and its builder.
use kubemq_cpp.Base.{
  ◌≡◌, ◌≢◌, refl, ◌⊎◌, inl, inr, Bool, false, ◌&&◌, [], if◌then◌else◌, Bytes, is_empty,
}
use kubemq_cpp.Base.Int.{ℤ, pos}
use kubemq_cpp.Status.{ErrorCode, Status, StatusOr, value, failed}
use kubemq_cpp.Message.Tags.{Tags, add_tag}
use kubemq_cpp.Message.Content.{
  IsComplete, content-cases, first_non_empty, first_non_empty_lem, no_channel, no_content,
}
use kubemq_cpp.Base.{ℕ}

pub record QueuePolicy : Type 0 where
  pub expiration_seconds : ℤ
  pub delay_seconds : ℤ
  pub max_receive_count : ℤ
  pub max_receive_queue : Bytes

-- `QueuePolicy()`
abbrev pub no_policy : QueuePolicy
no_policy = record {
  expiration_seconds = pos 0;
  delay_seconds = pos 0;
  max_receive_count = pos 0;
  max_receive_queue = [];
}

pub record QueueMessageAttributes : Type 0 where
  pub timestamp : ℤ
  pub sequence : ℕ
  pub md5_of_body : Bytes
  pub receive_count : ℤ
  pub re_routed : Bool
  pub re_routed_from_queue : Bytes
  pub expiration_at : ℤ
  pub delayed_to : ℤ

-- `QueueMessageAttributes()`
abbrev pub no_attributes : QueueMessageAttributes
no_attributes = record {
  timestamp = pos 0;
  sequence = 0;
  md5_of_body = [];
  receive_count = pos 0;
  re_routed = false;
  re_routed_from_queue = [];
  expiration_at = pos 0;
  delayed_to = pos 0;
}

pub record QueueMessage : Type 0 where
  pub id : Bytes
  pub channel : Bytes
  pub metadata : Bytes
  pub body : Bytes
  pub client_id : Bytes
  pub tags : Tags
  pub policy : QueuePolicy
  pub attributes : QueueMessageAttributes

pub record Builder : Type 0 where
  pub id : Bytes
  pub channel : Bytes
  pub metadata : Bytes
  pub body : Bytes
  pub client_id : Bytes
  pub tags : Tags
  pub policy : QueuePolicy

-- `Builder()`
abbrev pub new_builder : Builder
new_builder = record {
  id = [];
  channel = [];
  metadata = [];
  body = [];
  client_id = [];
  tags = [];
  policy = no_policy;
}

unfoldable pub set_id : Bytes → Builder → Builder
set_id x b = record b { id = x }

unfoldable pub set_channel : Bytes → Builder → Builder
set_channel x b = record b { channel = x }

unfoldable pub set_metadata : Bytes → Builder → Builder
set_metadata x b = record b { metadata = x }

unfoldable pub set_body : Bytes → Builder → Builder
set_body x b = record b { body = x }

unfoldable pub set_client_id : Bytes → Builder → Builder
set_client_id x b = record b { client_id = x }

unfoldable pub set_tags : Tags → Builder → Builder
set_tags x b = record b { tags = x }

unfoldable pub set_policy : QueuePolicy → Builder → Builder
set_policy x b = record b { policy = x }

-- `AddTag`
unfoldable pub tag : Bytes → Bytes → Builder → Builder
tag key x b = record b { tags = add_tag key x b.tags }

unfoldable pub set_expiration_seconds : ℤ → Builder → Builder
set_expiration_seconds x b = record b { policy = record b.policy { expiration_seconds = x } }

unfoldable pub set_delay_seconds : ℤ → Builder → Builder
set_delay_seconds x b = record b { policy = record b.policy { delay_seconds = x } }

unfoldable pub set_max_receive_count : ℤ → Builder → Builder
set_max_receive_count x b = record b { policy = record b.policy { max_receive_count = x } }

unfoldable pub set_max_receive_queue : Bytes → Builder → Builder
set_max_receive_queue x b = record b { policy = record b.policy { max_receive_queue = x } }

-- The second half of `Build`; `uuid` is the identifier that `GenerateUUID` makes.
abbrev pub assemble : Bytes → Builder → QueueMessage
assemble uuid b = record {
  id = first_non_empty b.id uuid;
  channel = b.channel;
  metadata = b.metadata;
  body = b.body;
  client_id = b.client_id;
  tags = b.tags;
  policy = b.policy;
  attributes = no_attributes;
}

-- The builder is not used again.
unfoldable pub build : Bytes → Builder → StatusOr QueueMessage
build uuid b =
    if is_empty b.channel
    then failed no_channel
    else (if is_empty b.body && is_empty b.metadata
        then failed no_content
        else value (assemble uuid b))

-- The message has what the builder had; it has an identifier, the builder's if it had one.
pub record IsFrom (b : Builder) (m : QueueMessage) : Type 0 where
  pub id_some : m.id ≢ []
  pub id_kept : b.id ≢ [] → m.id ≡ b.id
  pub channel : m.channel ≡ b.channel
  pub metadata : m.metadata ≡ b.metadata
  pub body : m.body ≡ b.body
  pub client_id : m.client_id ≡ b.client_id
  pub tags : m.tags ≡ b.tags
  pub policy : m.policy ≡ b.policy
  pub attributes : m.attributes ≡ no_attributes

abbrev pub Built : Bytes → Builder → Type 0
Built uuid b =
    (IsComplete b.channel b.metadata b.body
      × ((m : QueueMessage) × (build uuid b ≡ value m) × IsFrom b m))
    ⊎ (¬ (IsComplete b.channel b.metadata b.body)
        × ((s : Status) × (build uuid b ≡ failed s) × (s.code ≡ ErrorCode.validation)))

-- A builder with a channel and a body or metadata, gives a message with its content and an
-- identifier; any other gives a validation error.
pub queue_message_build_lem : (uuid : Bytes) (b : Builder) → uuid ≢ [] → Built uuid b
unfolding build
queue_message_build_lem uuid b made = elim (content-cases b.channel b.metadata b.body) [
  | inl (c, d, complete) ↦ inl (
    complete,
    (
      assemble uuid b,
      rw (c, d) refl,
      record {
        id_some = (first_non_empty_lem b.id uuid made).0;
        id_kept = (first_non_empty_lem b.id uuid made).1;
        channel = refl;
        metadata = refl;
        body = refl;
        client_id = refl;
        tags = refl;
        policy = refl;
        attributes = refl;
      },
    ),
  )
  | inr (inl c, bad) ↦ inr (bad, (no_channel, rw c refl, refl))
  | inr (inr (c, d), bad) ↦ inr (bad, (no_content, rw (c, d) refl, refl))
]

pub build-IsComplete :
    (uuid : Bytes) (b : Builder)
    → IsComplete b.channel b.metadata b.body
    → build uuid b ≡ value (assemble uuid b)
unfolding build
build-IsComplete uuid b complete = elim (content-cases b.channel b.metadata b.body) [
  | inl (c, d, _) ↦ rw (c, d) refl
  | inr (_, bad) ↦ absurd (bad complete)
]

pub build_refused :
    (uuid : Bytes) (b : Builder)
    → ¬ (IsComplete b.channel b.metadata b.body)
    → (s : Status) × (build uuid b ≡ failed s)
unfolding build
build_refused uuid b incomplete = elim (content-cases b.channel b.metadata b.body) [
  | inl (_, _, complete) ↦ absurd (incomplete complete)
  | inr (inl c, bad) ↦ (no_channel, rw c refl)
  | inr (inr (c, d), bad) ↦ (no_content, rw (c, d) refl)
]
