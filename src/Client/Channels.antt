-- ===== src/Client/Channels.antt =====
-- src/client_channels.cc and src/client_convenience.cc: creating, deleting and listing channels.
pub mod Kinds
use kubemq_cpp.Base.{Bool, not, ◌||◌, [], Bytes, bytes, is_empty, str_eq, if◌then◌else◌, List}
use kubemq_cpp.Status.{
  ErrorCode, Status, StatusOr, value, failed, ok_status, make_error, is_ok, and_then, ◌>>=◌,
}
use kubemq_cpp.Message.Tags.{add_tag}
use kubemq_cpp.Convert.Simple.{channel_management_request}
use kubemq_cpp.Convert.ChannelList.{JsonLibrary, ChannelInfo, parse_channel_list_response}
use kubemq_cpp.Transport.Grpc
use kubemq_cpp.Transport.Grpc.{Rpc}
use kubemq_cpp.Client.{Client, check_closed}
use kubemq_cpp.Wire.{Request, Response}

-- `kChannelTypeEvents` and the others
abbrev pub events_type : Bytes
events_type = bytes "events"

abbrev pub events_store_type : Bytes
events_store_type = bytes "events_store"

abbrev pub commands_type : Bytes
commands_type = bytes "commands"

abbrev pub queries_type : Bytes
queries_type = bytes "queries"

abbrev pub queues_type : Bytes
queues_type = bytes "queues"

unfoldable pub is_valid_channel_type : Bytes → Bool
is_valid_channel_type channel_type =
    str_eq channel_type events_type
    || (str_eq channel_type events_store_type
        || (str_eq channel_type commands_type
            || (str_eq channel_type queries_type || str_eq channel_type queues_type)))

-- `kValidChannelTypeError`
abbrev pub type_error : Bytes → Status
type_error operation =
    make_error ErrorCode.validation
      (bytes
        "invalid channel type; must be one of: events, events_store, commands, queries, queues")
      operation [] []

unfoldable pub validate_channel_management : Bytes → Bytes → Bytes → Status
validate_channel_management channel_name channel_type operation =
    if is_empty channel_name
    then make_error ErrorCode.validation (bytes "channel name is required") operation [] []
    else (if not (is_valid_channel_type channel_type) then type_error operation else ok_status)

-- An error text of the server is an error.
unfoldable pub management_result : Bytes → Bytes → Bytes → StatusOr Response → Status
management_result operation channel request_id (failed s) = s
management_result operation channel request_id (value r) =
    if is_empty r.error
    then ok_status
    else make_error ErrorCode.fatal r.error operation channel request_id

-- The tag of a search, if there is one.
unfoldable pub with_search : Bytes → Request → Request
with_search search request =
    if is_empty search
    then request
    else record request { tags = add_tag (bytes "search") search request.tags }

module _ {W C X : Type 0} (rpc : Rpc W Request Response) (uuid : Bytes) (c : Client W C X) where
  -- What `CreateChannel` and `DeleteChannel` have in common.
  unfoldable pub manage : Bytes → Bytes → Bytes → Bytes → W → W × Status
  manage operation request_name channel_name channel_type w =
      let s =
        and_then (check_closed c)
          (validate_channel_management channel_name channel_type operation) in
      let (w', r) =
        Grpc.send_request rpc c.transport
          (channel_management_request c.opts.client_id channel_name channel_type request_name uuid)
          w in
      if is_ok s then (w', management_result operation channel_name uuid r) else (w, s)

  unfoldable pub create_channel : Bytes → Bytes → W → W × Status
  create_channel channel_name channel_type w =
      manage (bytes "CreateChannel") (bytes "create-channel") channel_name channel_type w

  unfoldable pub delete_channel : Bytes → Bytes → W → W × Status
  delete_channel channel_name channel_type w =
      manage (bytes "DeleteChannel") (bytes "delete-channel") channel_name channel_type w

  -- The answer of `ListChannels`
  unfoldable pub list_result :
      {J : Type 0} → JsonLibrary J → StatusOr Response → StatusOr (List ChannelInfo)
  list_result lib r = r >>= λ response.
      (if is_empty response.error
        then parse_channel_list_response lib response.body
        else failed (make_error ErrorCode.fatal response.error (bytes "ListChannels") [] uuid))

  unfoldable pub list_channels :
      {J : Type 0} → JsonLibrary J → Bytes → Bytes → W → W × StatusOr (List ChannelInfo)
  unfolding list_result
  list_channels lib channel_type search w =
      let s = check_closed c in
      let (w', r) =
        Grpc.send_request rpc c.transport
          (with_search search (
            channel_management_request c.opts.client_id [] channel_type (bytes "list-channels")
              uuid))
          w in
      if is_ok s
      then (if is_valid_channel_type channel_type
          then (w', list_result lib r)
          else (w, failed (type_error (bytes "ListChannels"))))
      else (w, failed s)

  unfoldable pub create_events_channel : Bytes → W → W × Status
  create_events_channel name w = create_channel name events_type w

  unfoldable pub delete_events_channel : Bytes → W → W × Status
  delete_events_channel name w = delete_channel name events_type w

  unfoldable pub list_events_channels :
      {J : Type 0} → JsonLibrary J → Bytes → W → W × StatusOr (List ChannelInfo)
  list_events_channels lib search w = list_channels lib events_type search w

  unfoldable pub create_events_store_channel : Bytes → W → W × Status
  create_events_store_channel name w = create_channel name events_store_type w

  unfoldable pub delete_events_store_channel : Bytes → W → W × Status
  delete_events_store_channel name w = delete_channel name events_store_type w

  unfoldable pub list_events_store_channels :
      {J : Type 0} → JsonLibrary J → Bytes → W → W × StatusOr (List ChannelInfo)
  list_events_store_channels lib search w = list_channels lib events_store_type search w

  unfoldable pub create_commands_channel : Bytes → W → W × Status
  create_commands_channel name w = create_channel name commands_type w

  unfoldable pub delete_commands_channel : Bytes → W → W × Status
  delete_commands_channel name w = delete_channel name commands_type w

  unfoldable pub list_commands_channels :
      {J : Type 0} → JsonLibrary J → Bytes → W → W × StatusOr (List ChannelInfo)
  list_commands_channels lib search w = list_channels lib commands_type search w

  unfoldable pub create_queries_channel : Bytes → W → W × Status
  create_queries_channel name w = create_channel name queries_type w

  unfoldable pub delete_queries_channel : Bytes → W → W × Status
  delete_queries_channel name w = delete_channel name queries_type w

  unfoldable pub list_queries_channels :
      {J : Type 0} → JsonLibrary J → Bytes → W → W × StatusOr (List ChannelInfo)
  list_queries_channels lib search w = list_channels lib queries_type search w

  unfoldable pub create_queues_channel : Bytes → W → W × Status
  create_queues_channel name w = create_channel name queues_type w

  unfoldable pub delete_queues_channel : Bytes → W → W × Status
  delete_queues_channel name w = delete_channel name queues_type w

  unfoldable pub list_queues_channels :
      {J : Type 0} → JsonLibrary J → Bytes → W → W × StatusOr (List ChannelInfo)
  list_queues_channels lib search w = list_channels lib queues_type search w
