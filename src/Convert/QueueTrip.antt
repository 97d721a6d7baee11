-- ===== src/Convert/QueueTrip.antt =====
-- What comes back of a queue message that was sent.
use kubemq_cpp.Base.{◌≡◌, ◌≢◌, refl, ap, ◌∙◌, [], Option, none, some, Bytes}
use kubemq_cpp.Base.Int.{FitsInt32, as_int32-FitsInt32}
use kubemq_cpp.Message.Tags.{IsMap, copy_tags-IsMap}
use kubemq_cpp.Message.Content.{IsComplete, first_non_empty, first_non_empty-kept}
use kubemq_cpp.Message.QueueMessage.{
  QueueMessage, Builder, no_attributes, build-IsComplete, build_refused, set_id, set_channel,
  set_client_id, set_metadata, set_body, set_tags, set_policy,
}
use kubemq_cpp.Wire
use kubemq_cpp.Convert.Queues.{
  queue_message_to_proto, queue_message_from_proto, copy_policy, copy_attributes, builder_of,
  empty_message, or_empty,
}

-- A message that `Build` can have made, with a policy whose numbers are 32-bit integers.
pub record IsSendable (m : QueueMessage) : Type 0 where
  pub id_some : m.id ≢ []
  pub complete : IsComplete m.channel m.metadata m.body
  pub tags_map : IsMap m.tags
  pub expiration : FitsInt32 m.policy.expiration_seconds
  pub delay : FitsInt32 m.policy.delay_seconds
  pub receive_count : FitsInt32 m.policy.max_receive_count

keeps :
    (o : Option Wire.QueueMessagePolicy) (b : Builder)
    → ¬ (IsComplete b.channel b.metadata b.body)
    → ¬ (IsComplete (copy_policy o b).channel (copy_policy o b).metadata (copy_policy o b).body)
unfolding copy_policy set_policy
keeps none b bad = bad
keeps (some q) b bad = bad

refused :
    (p : Wire.QueueMessage)
    → ¬ (IsComplete p.channel p.metadata p.body)
    → ¬ (IsComplete (builder_of p).channel (builder_of p).metadata (builder_of p).body)
unfolding builder_of set_id set_channel set_client_id set_metadata set_body set_tags set_policy
refused p bad = keeps p.policy _ bad

-- A message that `Build` can have made, with 32-bit numbers in its policy and tags that are a map, sent
-- and read back unchanged, is the message, with the client's name where it had
-- none and without attributes.
pub queue_message_round_trip :
    (m : QueueMessage) (client uuid : Bytes)
    → IsSendable m
    → queue_message_from_proto uuid (queue_message_to_proto m client)
      ≡ record m { client_id = first_non_empty m.client_id client; attributes = no_attributes }
unfolding queue_message_from_proto queue_message_to_proto copy_attributes builder_of copy_policy
    or_empty set_id set_channel set_client_id set_metadata set_body set_tags set_policy
queue_message_round_trip m client uuid ok =
    let p = queue_message_to_proto m client in
    ap (or_empty none) (build-IsComplete uuid (builder_of p) ok.complete)
    ∙ rw
        (
          first_non_empty-kept m.id uuid ok.id_some,
          as_int32-FitsInt32 m.policy.expiration_seconds ok.expiration,
          as_int32-FitsInt32 m.policy.delay_seconds ok.delay,
          as_int32-FitsInt32 m.policy.max_receive_count ok.receive_count,
          copy_tags-IsMap m.tags ok.tags_map,
          copy_tags-IsMap m.tags ok.tags_map,
        )
        refl

-- A message of the server that has neither body nor metadata, or no channel, is read as an empty
-- message: its identifier, its policy and its attributes are lost.
pub queue_message_lost :
    (p : Wire.QueueMessage) (uuid : Bytes)
    → ¬ (IsComplete p.channel p.metadata p.body)
    → queue_message_from_proto uuid p ≡ empty_message
unfolding queue_message_from_proto or_empty
queue_message_lost p uuid bad =
    ap (or_empty p.attributes) (build_refused uuid (builder_of p) (refused p bad)).1
