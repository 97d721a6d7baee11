-- ===== src/Subscription/Told.antt =====
-- What the callback of each kind of subscription is given, by the messages that its streams gave.
use kubemq_cpp.Base.{◌≡◌, ◌≢◌, Option, none, some, List, [], ◌∷◌}
use kubemq_cpp.Message.Tags.{copy_tags}
use kubemq_cpp.Convert.Requests.{
  CommandReceive, QueryReceive, command_receive_from_proto, query_receive_from_proto,
}
use kubemq_cpp.Subscription.{Phase, Shared, Action}
use kubemq_cpp.Subscription.Setup.{EventReceive}
use kubemq_cpp.Wire
use kubemq_cpp.Wire.{RequestType, Request}

-- The actions that are no reads.
abbrev pub IsOther : {E : Type 0} → Action E → Type 0
IsOther (Action.read e) = ⊥
IsOther a = Unit

-- The reads of a history, in their order, each either handed over as `Is` says or passed over, which
-- `Not` allows.
pub data Told {E D : Type 0} (Is : E → D → Type 0) (Not : E → Type 0)
    : List (Action E) → List D → Type 0 where
  over : Told Is Not [] []
  told :
      {e : E} {d : D} {rest : List (Action E)} {ds : List D}
      → Is e d
      → Told Is Not rest ds
      → Told Is Not (Action.read e ∷ rest) (d ∷ ds)
  passed :
      {e : E} {rest : List (Action E)} {ds : List D}
      → Not e
      → Told Is Not rest ds
      → Told Is Not (Action.read e ∷ rest) ds
  other :
      {a : Action E} {rest : List (Action E)} {ds : List D}
      → IsOther a
      → Told Is Not rest ds
      → Told Is Not (a ∷ rest) ds

-- The same of what the callback has been given in a state, if there is one.
abbrev pub Given :
    {E D : Type 0}
    → (E → D → Type 0)
    → (E → Type 0)
    → List (Action E)
    → Option (Phase × Shared D)
    → Type 0
Given Is Not history none = Unit
Given Is Not history (some (p, v)) = Told Is Not history v.delivered

-- What one message is for the callback.
abbrev Fits : {E D : Type 0} → (E → D → Type 0) → (E → Type 0) → E → Option D → Type 0
Fits Is Not e none = Not e
Fits Is Not e (some d) = Is e d

-- A message of an event stream, field by field.
pub record IsEvent (p : Wire.EventReceive) (e : EventReceive) : Type 0 where
  pub id : e.id ≡ p.event_id
  pub channel : e.channel ≡ p.channel
  pub metadata : e.metadata ≡ p.metadata
  pub body : e.body ≡ p.body
  pub timestamp : e.timestamp ≡ p.timestamp
  pub sequence : e.sequence ≡ p.sequence
  pub tags : e.tags ≡ copy_tags p.tags

-- No event is passed over.
abbrev pub Never : Wire.EventReceive → Type 0
Never p = ⊥

abbrev pub NotOf : RequestType → Request → Type 0
NotOf type p = p.request_type ≢ type

abbrev pub IsCommand : Request → CommandReceive → Type 0
IsCommand p c = (p.request_type ≡ RequestType.command) × (c ≡ command_receive_from_proto p)

abbrev pub IsQuery : Request → QueryReceive → Type 0
IsQuery p q = (p.request_type ≡ RequestType.query) × (q ≡ query_receive_from_proto p)
