-- ===== src/Convert/ChannelList.antt =====
-- src/internal/transport/converter.cc: `ParseChannelListResponse`. The JSON library is a parameter: an
-- operation gives its value, or the text of the exception that it throws.
use kubemq_cpp.Base.{
  Bool, false, ◌⊎◌, inl, inr, Option, none, some, List, [], ◌∷◌, ◌++◌, Bytes, bytes, is_empty,
  if◌then◌else◌,
}
use kubemq_cpp.Base.Int.{ℤ, pos}
use kubemq_cpp.Status.{ErrorCode, StatusOr, value, failed, brief, ◌>>=◌}

pub record ChannelStats : Type 0 where
  pub messages : ℤ
  pub volume : ℤ
  pub responses : ℤ
  pub waiting : ℤ
  pub expired : ℤ
  pub delayed : ℤ

-- `ChannelStats()`
abbrev pub no_stats : ChannelStats
no_stats = record {
  messages = pos 0;
  volume = pos 0;
  responses = pos 0;
  waiting = pos 0;
  expired = pos 0;
  delayed = pos 0;
}

pub record ChannelInfo : Type 0 where
  pub name : Bytes
  pub type_name : Bytes
  pub last_activity : ℤ
  pub is_active : Bool
  pub incoming : ChannelStats
  pub outgoing : ChannelStats

-- `nlohmann::json`: `parse` may throw a `parse_error`; `value` with a default of three types may throw a
-- `type_error`; `items` gives the elements if `is_array`; `member` is `contains` and `[]`.
pub record JsonLibrary (J : Type 0) : Type 0 where
  pub parse : Bytes → Bytes ⊎ J
  pub items : J → Option (List J)
  pub text : J → Bytes → Bytes → Bytes ⊎ Bytes
  pub int : J → Bytes → ℤ → Bytes ⊎ ℤ
  pub flag : J → Bytes → Bool → Bytes ⊎ Bool
  pub member : J → Bytes → Option J

-- The two `catch` clauses.
unfoldable pub parsed : {A : Type 0} → Bytes ⊎ A → StatusOr A
parsed (inl what) =
    failed (brief ErrorCode.fatal (bytes "failed to parse channel list JSON: " ++ what))
parsed (inr a) = value a

unfoldable pub typed : {A : Type 0} → Bytes ⊎ A → StatusOr A
typed (inl what) =
    failed (brief ErrorCode.fatal (bytes "unexpected type in channel list JSON: " ++ what))
typed (inr a) = value a

module _ {J : Type 0} (lib : JsonLibrary J) where
  unfoldable pub read_stats : Option J → StatusOr ChannelStats
  read_stats none = value no_stats
  read_stats (some j) = typed (lib.int j (bytes "messages") (pos 0)) >>= λ messages.
      (typed (lib.int j (bytes "volume") (pos 0)) >>= λ volume.
      (typed (lib.int j (bytes "responses") (pos 0)) >>= λ responses.
      (typed (lib.int j (bytes "waiting") (pos 0)) >>= λ waiting.
      (typed (lib.int j (bytes "expired") (pos 0)) >>= λ expired.
      (typed (lib.int j (bytes "delayed") (pos 0)) >>= λ delayed. value record {
        messages = messages;
        volume = volume;
        responses = responses;
        waiting = waiting;
        expired = expired;
        delayed = delayed;
      })))))

  unfoldable pub read_info : J → StatusOr ChannelInfo
  read_info j = typed (lib.text j (bytes "name") []) >>= λ name.
      (typed (lib.text j (bytes "type") []) >>= λ type_name.
      (typed (lib.int j (bytes "lastActivity") (pos 0)) >>= λ last_activity.
      (typed (lib.flag j (bytes "isActive") false) >>= λ is_active.
      (read_stats (lib.member j (bytes "incoming")) >>= λ incoming.
      (read_stats (lib.member j (bytes "outgoing")) >>= λ outgoing. value record {
        name = name;
        type_name = type_name;
        last_activity = last_activity;
        is_active = is_active;
        incoming = incoming;
        outgoing = outgoing;
      })))))

  unfoldable pub read_infos : List J → StatusOr (List ChannelInfo)
  read_infos [] = value []
  read_infos (j ∷ js) = read_info j >>= λ info. (read_infos js >>= λ infos. value (info ∷ infos))

  unfoldable pub read_array : Option (List J) → StatusOr (List ChannelInfo)
  read_array none =
      failed (brief ErrorCode.fatal (bytes "expected JSON array in channel list response"))
  read_array (some js) = read_infos js

  unfoldable pub parse_channel_list_response : Bytes → StatusOr (List ChannelInfo)
  parse_channel_list_response json_body =
      if is_empty json_body
      then value []
      else parsed (lib.parse json_body) >>= λ j. read_array (lib.items j)
