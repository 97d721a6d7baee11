-- ===== src/Message/Tests.antt =====
-- A command that is built, and one without a timeout.
use kubemq_cpp.Base.{◌≢◌, [], ◌∷◌, bytes, Bytes}
use kubemq_cpp.Message.Command.{
  Builder, Built, new_builder, set_channel, set_body, command_build_lem,
}

abbrev no_timeout : Builder
no_timeout = set_body (bytes "go") (set_channel (bytes "orders") new_builder)

some_uuid : ◌≢◌ {A = Bytes} (1 ∷ []) []
some_uuid e = cc

command_build_example : Built (1 ∷ []) no_timeout
command_build_example = command_build_lem (1 ∷ []) no_timeout some_uuid
