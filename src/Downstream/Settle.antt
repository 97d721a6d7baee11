-- ===== src/Downstream/Settle.antt =====
-- When a settlement is written, and which.
use kubemq_cpp.Base.{
  is_empty-nil, ne_nil-is_empty, ℕ, ◌-◌, ◌^◌, ltb, ◌≡◌, ◌≢◌, ◌⊎◌, refl, sym, if_lem, inl, inr, Bool,
  true, false, [], ◌∷◌, if◌then◌else◌, Bytes, is_empty, is_empty-ne_nil, Bool-cases, arith,
}
use kubemq_cpp.Base.Int.{pos, negsuc}
use kubemq_cpp.Status.{Status, ok_status, is_ok, is_ok_code}
use kubemq_cpp.Wire.{QueuesDownstreamRequest}
use kubemq_cpp.Downstream.{
  DownstreamMessage, PollResponse, settlement, as_int64, write_settlement, send_settle,
  send_settle_all, ack, nack, requeue, ack_all, nack_all, requeue_all, is_nil, one, all,
}

-- The poll did not acknowledge by itself, the receiver is there, and there is a transaction.
abbrev pub CanSettle : Bool → Bool → Bytes → Type 0
CanSettle auto_ack alive transaction_id =
    (auto_ack ≡ false) × (alive ≡ true) × (transaction_id ≢ [])

CanSettle-dec :
    (auto_ack alive : Bool) (transaction_id : Bytes)
    → CanSettle auto_ack alive transaction_id ⊎ ¬ (CanSettle auto_ack alive transaction_id)
CanSettle-dec true alive t = inr (λ (h, a, n). cc)
CanSettle-dec false false t = inr (λ (h, a, n). cc)
CanSettle-dec false true [] = inr (λ (h, a, n). n refl)
CanSettle-dec false true (c ∷ t) = inl (refl, refl, λ e. cc)

module _ {V : Type 0} (write : QueuesDownstreamRequest → V → V × Bool) (uuid : Bytes) (alive : Bool)
    (v : V) where
  settles :
      (m : DownstreamMessage) (request_type : ℕ) (channel : Bytes)
      → CanSettle m.auto_ack alive m.transaction_id
      → send_settle write uuid alive m request_type channel v
        ≡ write_settlement write one
            (settlement uuid request_type m.transaction_id (as_int64 m.sequence ∷ []) channel)
            v
  unfolding send_settle
  settles m request_type channel (auto, there, named) =
      rw (auto, there, is_empty-ne_nil m.transaction_id named) refl

  pub refuses :
      (m : DownstreamMessage) (request_type : ℕ) (channel : Bytes)
      → ¬ (CanSettle m.auto_ack alive m.transaction_id)
      → ((send_settle write uuid alive m request_type channel v).0 ≡ v)
        × (is_ok (send_settle write uuid alive m request_type channel v).1 ≡ false)
  unfolding send_settle is_ok_code is_empty
  refuses m request_type channel cannot = elim (Bool-cases m.auto_ack) [
    | inl auto ↦ rw auto (refl, refl)
    | inr manual ↦ elim (Bool-cases alive) [
      | inr gone ↦ rw (manual, gone) (refl, refl)
      | inl there ↦ elim (Bool-cases (is_empty m.transaction_id)) [
        | inl unnamed ↦ rw (manual, there, unnamed) (refl, refl)
        | inr named ↦ absurd (cannot (manual, there, λ e. ground arith))
      ]
    ]
  ]

  -- The settlement was tried once, with this request, and OK means that it was written.
  abbrev pub IsWritten : QueuesDownstreamRequest → V × Status → Type 0
  IsWritten request (v', s) = (v' ≡ (write request v).0) × (is_ok s ≡ (write request v).1)

  -- Nothing was written.
  abbrev pub IsRefused : V × Status → Type 0
  IsRefused (v', s) = (v' ≡ v) × (is_ok s ≡ false)

  write_settlement-IsWritten :
      (request : QueuesDownstreamRequest) → IsWritten request (write_settlement write one request v)
  unfolding write_settlement is_ok_code
  write_settlement-IsWritten request =
      if_lem (IsWritten request) (write request v).1 (λ h. (refl, sym h)) (λ h. (refl, sym h))

  -- The request that settles one message: its type, the transaction, the one sequence number, as the
  -- signed number of the same 64 bits, and the channel to put it on; nothing else is set.
  abbrev pub request_for : ℕ → DownstreamMessage → Bytes → QueuesDownstreamRequest
  request_for request_type m channel = record {
    request_id = uuid;
    client_id = [];
    request_type = request_type;
    channel = [];
    max_items = pos 0;
    wait_timeout = pos 0;
    auto_ack = false;
    requeue_channel = channel;
    sequence_range =
        (if ltb m.sequence (2 ^ 63) then pos m.sequence else negsuc (2 ^ 64 - 1 - m.sequence)) ∷ [];
    ref_transaction_id = m.transaction_id;
  }

  settle_either :
      (m : DownstreamMessage) (request_type : ℕ) (channel : Bytes)
      → (CanSettle m.auto_ack alive m.transaction_id
          × IsWritten
              (request_for request_type m channel)
              (send_settle write uuid alive m request_type channel v))
        ⊎ (¬ (CanSettle m.auto_ack alive m.transaction_id)
            × IsRefused (send_settle write uuid alive m request_type channel v))
  unfolding as_int64
  settle_either m request_type channel = elim (CanSettle-dec m.auto_ack alive m.transaction_id) [
    | inl can ↦ inl (can, rw (settles m request_type channel can) (write_settlement-IsWritten _))
    | inr cannot ↦ inr (cannot, refuses m request_type channel cannot)
  ]

  -- `Ack`, `Nack` and `ReQueue` of a message, the last with a channel, write one request, of their own
  -- type, that names the message's transaction, its sequence number alone and the channel to put it on,
  -- exactly when the poll did not acknowledge by itself, the receiver is there and there is a
  -- transaction; they return OK when the write succeeded. Otherwise they write nothing and return an
  -- error.
  pub settle_one :
      (m : DownstreamMessage) (channel : Bytes)
      → let can = CanSettle m.auto_ack alive m.transaction_id in
        ((can × IsWritten (request_for 3 m []) (ack write uuid alive m v))
          ⊎ (¬ can × IsRefused (ack write uuid alive m v)))
        × ((can × IsWritten (request_for 5 m []) (nack write uuid alive m v))
            ⊎ (¬ can × IsRefused (nack write uuid alive m v)))
        × (((channel ≢ [])
              × (can × IsWritten (request_for 7 m channel) (requeue write uuid alive m channel v)))
            ⊎ (¬ ((channel ≢ []) × can) × IsRefused (requeue write uuid alive m channel v)))
  unfolding ack nack requeue is_ok_code
  settle_one m channel = (
    settle_either m 3 [],
    settle_either m 5 [],
    elim (Bool-cases (is_empty channel)) [
      | inl none_given ↦
          inr ((λ (f, can). f (is_empty-nil channel none_given)), rw none_given (refl, refl))
      | inr filled ↦ rw filled (elim (settle_either m 7 channel) [
        | inl (can, w) ↦ inl (ne_nil-is_empty channel filled, (can, w))
        | inr (cannot, r) ↦ inr ((λ (f, can). cannot can), r)
      ])
    ],
  )

  settles_all :
      (r : PollResponse) (request_type : ℕ) (channel : Bytes)
      → CanSettle r.auto_ack alive r.transaction_id
      → send_settle_all write uuid alive r request_type channel v ≡ (
          if is_nil r.messages
          then (v, ok_status)
          else write_settlement write all
              (settlement uuid request_type r.transaction_id [] channel)
              v)
  unfolding send_settle_all
  settles_all r request_type channel (auto, there, named) =
      rw (auto, there, is_empty-ne_nil r.transaction_id named) refl

  -- `AckAll`, `NackAll` and `ReQueueAll` of a poll that can be settled write one request, of their own
  -- type, for the poll's transaction as a whole, unless the poll gave no message: then they write
  -- nothing and return OK.
  pub settle_all :
      (r : PollResponse) (channel : Bytes)
      → CanSettle r.auto_ack alive r.transaction_id
      → channel ≢ []
      → let settled = λ (n : ℕ) (to : Bytes).
        if is_nil r.messages
        then (v, ok_status)
        else write_settlement write all (settlement uuid n r.transaction_id [] to) v in
        (ack_all write uuid alive r v ≡ settled 2 [])
        × (nack_all write uuid alive r v ≡ settled 4 [])
        × (requeue_all write uuid alive r channel v ≡ settled 6 channel)
  unfolding ack_all nack_all requeue_all
  settle_all r channel can filled = (
    settles_all r 2 [] can,
    settles_all r 4 [] can,
    rw (is_empty-ne_nil channel filled) (settles_all r 6 channel can),
  )
