-- ===== src/Message/CommandReply.antt =====
-- include/kubemq/command.h and src/command.cc: `CommandReply` and its builder.
use kubemq_cpp.Base.{
  ◌≡◌, ◌≢◌, refl, ◌⊎◌, inl, inr, Bool, true, [], if◌then◌else◌, Bytes, bytes, is_empty,
}
use kubemq_cpp.Base.Int.{ℤ, pos}
use kubemq_cpp.Status.{ErrorCode, Status, StatusOr, value, failed, make_error}
use kubemq_cpp.Message.Tags.{Tags}
use kubemq_cpp.Message.Content.{names-cases}

pub record CommandReply : Type 0 where
  pub request_id : Bytes
  pub response_to : Bytes
  pub metadata : Bytes
  pub body : Bytes
  pub client_id : Bytes
  pub tags : Tags
  pub error : Bytes
  pub executed_at : ℤ
  pub executed : Bool

pub record Builder : Type 0 where
  pub request_id : Bytes
  pub response_to : Bytes
  pub metadata : Bytes
  pub body : Bytes
  pub client_id : Bytes
  pub tags : Tags
  pub error : Bytes
  pub executed_at : ℤ
  pub executed : Bool

-- `Builder()`; a reply says that it was executed unless it is told otherwise.
abbrev pub new_builder : Builder
new_builder = record {
  request_id = [];
  response_to = [];
  metadata = [];
  body = [];
  client_id = [];
  tags = [];
  error = [];
  executed_at = pos 0;
  executed = true;
}

unfoldable pub set_request_id : Bytes → Builder → Builder
set_request_id x b = record b { request_id = x }

unfoldable pub set_response_to : Bytes → Builder → Builder
set_response_to x b = record b { response_to = x }

unfoldable pub set_metadata : Bytes → Builder → Builder
set_metadata x b = record b { metadata = x }

unfoldable pub set_body : Bytes → Builder → Builder
set_body x b = record b { body = x }

unfoldable pub set_client_id : Bytes → Builder → Builder
set_client_id x b = record b { client_id = x }

unfoldable pub set_tags : Tags → Builder → Builder
set_tags x b = record b { tags = x }

unfoldable pub set_error : Bytes → Builder → Builder
set_error x b = record b { error = x }

unfoldable pub set_executed_at : ℤ → Builder → Builder
set_executed_at x b = record b { executed_at = x }

unfoldable pub set_executed : Bool → Builder → Builder
set_executed x b = record b { executed = x }

abbrev no_request_id : Status
no_request_id =
    make_error ErrorCode.validation (bytes "request_id is required") (bytes "CommandReply::Build")
      [] []

abbrev no_response_to : Status
no_response_to =
    make_error ErrorCode.validation (bytes "response_to is required") (bytes "CommandReply::Build")
      [] []

-- The second half of `Build`
abbrev assemble : Builder → CommandReply
assemble b = record {
  request_id = b.request_id;
  response_to = b.response_to;
  metadata = b.metadata;
  body = b.body;
  client_id = b.client_id;
  tags = b.tags;
  error = b.error;
  executed_at = b.executed_at;
  executed = b.executed;
}

unfoldable pub build : Builder → StatusOr CommandReply
build b =
    if is_empty b.request_id
    then failed no_request_id
    else (if is_empty b.response_to then failed no_response_to else value (assemble b))

-- The reply has what the builder had.
pub record IsFrom (b : Builder) (m : CommandReply) : Type 0 where
  pub request_id : m.request_id ≡ b.request_id
  pub response_to : m.response_to ≡ b.response_to
  pub metadata : m.metadata ≡ b.metadata
  pub body : m.body ≡ b.body
  pub client_id : m.client_id ≡ b.client_id
  pub tags : m.tags ≡ b.tags
  pub error : m.error ≡ b.error
  pub executed_at : m.executed_at ≡ b.executed_at
  pub executed : m.executed ≡ b.executed

abbrev pub CanBuild : Builder → Type 0
CanBuild b = (b.request_id ≢ []) × (b.response_to ≢ [])

abbrev pub Built : Builder → Type 0
Built b =
    (CanBuild b × ((m : CommandReply) × (build b ≡ value m) × IsFrom b m))
    ⊎ (¬ (CanBuild b) × ((s : Status) × (build b ≡ failed s) × (s.code ≡ ErrorCode.validation)))

-- A builder with the identifier of a request and a channel to answer on gives a reply with its content;
-- any other gives a validation error.
pub command_reply_build_lem : (b : Builder) → Built b
unfolding build
command_reply_build_lem b = elim (names-cases b.request_id b.response_to) [
  | inl (c, d, named) ↦ inl (
    named,
    (
      assemble b,
      rw (c, d) refl,
      record {
        request_id = refl;
        response_to = refl;
        metadata = refl;
        body = refl;
        client_id = refl;
        tags = refl;
        error = refl;
        executed_at = refl;
        executed = refl;
      },
    ),
  )
  | inr (inl c, bad) ↦ inr (bad, (no_request_id, rw c refl, refl))
  | inr (inr (c, d), bad) ↦ inr (bad, (no_response_to, rw (c, d) refl, refl))
]
