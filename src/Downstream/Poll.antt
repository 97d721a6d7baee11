-- ===== src/Downstream/Poll.antt =====
-- What a poll gives, and when it asks the server.
use kubemq_cpp.Base.{ℕ, suc, ◌≡◌, ◌⊎◌, Bool, true, false, Option, none, some, List, [], ◌∷◌, Bytes}
use kubemq_cpp.Status.{ErrorCode, Status, StatusOr, value, failed, is_ok}
use kubemq_cpp.Convert.Queues.{queue_message_from_proto}
use kubemq_cpp.Validation.Channel.{IsChannel}
use kubemq_cpp.Wire
use kubemq_cpp.Wire.{QueuesDownstreamRequest, QueuesDownstreamResponse}
use kubemq_cpp.Downstream.{DownstreamMessage, PollResponse, PollRequest}

-- A sequence number is that of the attributes, or 0 where there are none.
abbrev pub IsSequence : Option Wire.QueueMessageAttributes → ℕ → Type 0
IsSequence none n = n ≡ 0
IsSequence (some a) n = n ≡ a.sequence

-- A message that was polled: what the converter makes of the answer's message, with the identifier that
-- it makes for one without; of the transaction, with its sequence number, and with the poll's choice.
pub record IsMessageOf (uuid transaction_id : Bytes) (auto_ack : Bool) (p : Wire.QueueMessage)
    (m : DownstreamMessage) : Type 0 where
  pub content : m.message ≡ queue_message_from_proto uuid p
  pub transaction : m.transaction_id ≡ transaction_id
  pub sequence : IsSequence p.attributes m.sequence
  pub choice : m.auto_ack ≡ auto_ack

-- The messages are those of the answer, each once and in their order.
abbrev pub AreOf :
    (ℕ → Bytes) → Bytes → Bool → List Wire.QueueMessage → List DownstreamMessage → Type 0
AreOf fresh transaction_id auto_ack [] [] = Unit
AreOf fresh transaction_id auto_ack (p ∷ ps) (m ∷ ms) =
    IsMessageOf (fresh 0) transaction_id auto_ack p m
    × AreOf (λ i. fresh (suc i)) transaction_id auto_ack ps ms
AreOf fresh transaction_id auto_ack _ _ = ⊥

-- What a response says of the poll `r`.
pub record IsPollOf (fresh : ℕ → Bytes) (r : PollRequest) (p : QueuesDownstreamResponse)
    (out : PollResponse) : Type 0 where
  pub transaction_id : out.transaction_id ≡ p.transaction_id
  pub transaction_complete : out.transaction_complete ≡ p.transaction_complete
  pub auto_ack : out.auto_ack ≡ r.auto_ack
  pub fine : (out.is_error ≡ false) × (out.error ≡ p.error)
  pub messages : AreOf fresh p.transaction_id r.auto_ack p.messages out.messages

-- What the server is asked for: the poll's channel, number, time and choice, under the client's name.
abbrev pub asked : Bytes → Bytes → PollRequest → QueuesDownstreamRequest
asked uuid client_id r = record {
  request_id = uuid;
  client_id = client_id;
  request_type = 1;
  channel = r.channel;
  max_items = r.max_items;
  wait_timeout = r.wait_timeout_seconds;
  auto_ack = r.auto_ack;
  requeue_channel = [];
  sequence_range = [];
  ref_transaction_id = [];
}

module _ {V : Type 0} (write : QueuesDownstreamRequest → V → V × Bool)
    (read : V → V × Option QueuesDownstreamResponse) (fresh : ℕ → Bytes) (uuid client_id : Bytes)
    (r : PollRequest) (v : V) where
  -- The result of a poll by the server's answer, if there was one.
  abbrev pub IsAnswer : Option QueuesDownstreamResponse → StatusOr PollResponse → Type 0
  IsAnswer none (failed s) = s.code ≡ ErrorCode.transient
  IsAnswer (some p) (failed s) =
      (p.is_error ≡ true) × ((s.code ≡ ErrorCode.fatal) × (s.message ≡ p.error))
  IsAnswer (some p) (value out) = (p.is_error ≡ false) × IsPollOf fresh r p out
  IsAnswer none (value out) = ⊥

  -- The outcome of a poll, by what it did: nothing, or a write that failed, or a write and a read.
  pub data IsPolled (closed : Bool) : V × StatusOr PollResponse → Type 0 where
    refused :
        (s : Status)
        → (closed ≡ true) ⊎ ¬ (IsChannel r.channel)
        → is_ok s ≡ false
        → IsPolled closed (v, failed s)
    not_written :
        (s : Status)
        → closed ≡ false
        → IsChannel r.channel
        → (write (asked uuid client_id r) v).1 ≡ false
        → s.code ≡ ErrorCode.transient
        → IsPolled closed ((write (asked uuid client_id r) v).0, failed s)
    answered :
        (a : StatusOr PollResponse)
        → closed ≡ false
        → IsChannel r.channel
        → (write (asked uuid client_id r) v).1 ≡ true
        → IsAnswer (read (write (asked uuid client_id r) v).0).1 a
        → IsPolled closed ((read (write (asked uuid client_id r) v).0).0, a)
