-- ===== src/Message/Command.antt =====
-- include/kubemq/command.h and src/command.cc: `Command` and its builder.
use kubemq_cpp.Base.{
  ◌≡◌, ◌≢◌, refl, ◌⊎◌, inl, inr, true, not, ◌&&◌, [], if◌then◌else◌, Bytes, is_empty, Bool-cases,
}
use kubemq_cpp.Base.Int.{ℤ, pos, is_pos}
use kubemq_cpp.Status.{ErrorCode, Status, StatusOr, value, failed}
use kubemq_cpp.Message.Tags.{Tags, add_tag}
use kubemq_cpp.Message.Content.{
  IsComplete, content-cases, first_non_empty, first_non_empty_lem, no_channel, no_content, no_time,
}

pub record Command : Type 0 where
  pub id : Bytes
  pub channel : Bytes
  pub metadata : Bytes
  pub body : Bytes
  pub timeout : ℤ
  pub client_id : Bytes
  pub tags : Tags

pub record Builder : Type 0 where
  pub id : Bytes
  pub channel : Bytes
  pub metadata : Bytes
  pub body : Bytes
  pub timeout : ℤ
  pub client_id : Bytes
  pub tags : Tags

-- `Builder()`
abbrev pub new_builder : Builder
new_builder = record {
  id = [];
  channel = [];
  metadata = [];
  body = [];
  timeout = pos 0;
  client_id = [];
  tags = [];
}

unfoldable pub set_id : Bytes → Builder → Builder
set_id x b = record b { id = x }

unfoldable pub set_channel : Bytes → Builder → Builder
set_channel x b = record b { channel = x }

unfoldable pub set_metadata : Bytes → Builder → Builder
set_metadata x b = record b { metadata = x }

unfoldable pub set_body : Bytes → Builder → Builder
set_body x b = record b { body = x }

unfoldable pub set_timeout : ℤ → Builder → Builder
set_timeout x b = record b { timeout = x }

unfoldable pub set_client_id : Bytes → Builder → Builder
set_client_id x b = record b { client_id = x }

unfoldable pub set_tags : Tags → Builder → Builder
set_tags x b = record b { tags = x }

-- `AddTag`
unfoldable pub tag : Bytes → Bytes → Builder → Builder
tag key x b = record b { tags = add_tag key x b.tags }

-- The second half of `Build`; `uuid` is the identifier that `GenerateUUID` makes.
abbrev assemble : Bytes → Builder → Command
assemble uuid b = record {
  id = first_non_empty b.id uuid;
  channel = b.channel;
  metadata = b.metadata;
  body = b.body;
  timeout = b.timeout;
  client_id = b.client_id;
  tags = b.tags;
}

-- The builder is not used again.
unfoldable pub build : Bytes → Builder → StatusOr Command
build uuid b =
    if is_empty b.channel
    then failed no_channel
    else (if is_empty b.body && is_empty b.metadata
        then failed no_content
        else (if not (is_pos b.timeout) then failed no_time else value (assemble uuid b)))

-- The message has what the builder had; it has an identifier, the builder's if it had one.
pub record IsFrom (b : Builder) (m : Command) : Type 0 where
  pub id_some : m.id ≢ []
  pub id_kept : b.id ≢ [] → m.id ≡ b.id
  pub channel : m.channel ≡ b.channel
  pub metadata : m.metadata ≡ b.metadata
  pub body : m.body ≡ b.body
  pub timeout : m.timeout ≡ b.timeout
  pub client_id : m.client_id ≡ b.client_id
  pub tags : m.tags ≡ b.tags

abbrev pub CanBuild : Builder → Type 0
CanBuild b = IsComplete b.channel b.metadata b.body × (is_pos b.timeout ≡ true)

abbrev pub Built : Bytes → Builder → Type 0
Built uuid b =
    (CanBuild b × ((m : Command) × (build uuid b ≡ value m) × IsFrom b m))
    ⊎ (¬ (CanBuild b)
        × ((s : Status) × (build uuid b ≡ failed s) × (s.code ≡ ErrorCode.validation)))

-- A builder with a channel and a body or metadata, and a timeout above zero, gives a message with its content and an
-- identifier; any other gives a validation error.
pub command_build_lem : (uuid : Bytes) (b : Builder) → uuid ≢ [] → Built uuid b
unfolding build
command_build_lem uuid b made = elim (content-cases b.channel b.metadata b.body) [
  | inl (c, d, complete) ↦ elim (Bool-cases (is_pos b.timeout)) [
    | inl t ↦ inl (
      (complete, t),
      (
        assemble uuid b,
        rw (c, d, t) refl,
        record {
          id_some = (first_non_empty_lem b.id uuid made).0;
          id_kept = (first_non_empty_lem b.id uuid made).1;
          channel = refl;
          metadata = refl;
          body = refl;
          timeout = refl;
          client_id = refl;
          tags = refl;
        },
      ),
    )
    | inr t ↦ inr ((λ p. cc), (no_time, rw (c, d, t) refl, refl))
  ]
  | inr (inl c, bad) ↦ inr ((λ p. bad p.0), (no_channel, rw c refl, refl))
  | inr (inr (c, d), bad) ↦ inr ((λ p. bad p.0), (no_content, rw (c, d) refl, refl))
]
