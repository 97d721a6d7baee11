-- ===== src/Downstream/Tests.antt =====
-- A stream that keeps the requests that were written.
use kubemq_cpp.Base.{ℕ, ◌≢◌, ◌⊎◌, Bool, true, false, Option, some, List, [], ◌∷◌, Bytes}
use kubemq_cpp.Base.Int.{pos}
use kubemq_cpp.Wire
use kubemq_cpp.Wire.{QueuesDownstreamRequest, QueuesDownstreamResponse}
use kubemq_cpp.Convert.Queues.{empty_message}
use kubemq_cpp.Downstream.{DownstreamMessage, PollRequest, ack, nack, requeue}
use kubemq_cpp.Downstream.Settle.{CanSettle, IsWritten, IsRefused, request_for, settle_one}

abbrev Log : Type 0
Log = List QueuesDownstreamRequest

abbrev keep : QueuesDownstreamRequest → Log → Log × Bool
keep r log = (r ∷ log, true)

abbrev nothing_yet : Log
nothing_yet = []

abbrev message : DownstreamMessage
message = record {
  message = empty_message;
  transaction_id = 1 ∷ [];
  sequence = 42;
  auto_ack = false;
}

named : (c : ℕ) (s : Bytes) → c ∷ s ≢ []
named c s e = cc

abbrev two : Bytes
two = 2 ∷ []

settle_one_example :
    let can = CanSettle false true (1 ∷ []) in
    let asked = λ (n : ℕ) (to : Bytes). request_for keep (9 ∷ []) true nothing_yet n message to in
    ((can
        × IsWritten keep
            (9 ∷ [])
            true
            nothing_yet
            (asked 3 [])
            (ack keep (9 ∷ []) true message nothing_yet))
      ⊎ (¬ can
          × IsRefused keep (9 ∷ []) true nothing_yet (ack keep (9 ∷ []) true message nothing_yet)))
    × ((can
          × IsWritten keep
              (9 ∷ [])
              true
              nothing_yet
              (asked 5 [])
              (nack keep (9 ∷ []) true message nothing_yet))
        ⊎ (¬ can
            × IsRefused keep
                (9 ∷ [])
                true
                nothing_yet
                (nack keep (9 ∷ []) true message nothing_yet)))
    × (((two ≢ [])
          × (can
              × IsWritten keep
                  (9 ∷ [])
                  true
                  nothing_yet
                  (asked 7 (2 ∷ []))
                  (requeue keep (9 ∷ []) true message (2 ∷ []) nothing_yet)))
        ⊎ (¬ ((two ≢ []) × can)
            × IsRefused keep
                (9 ∷ [])
                true
                nothing_yet
                (requeue keep (9 ∷ []) true message (2 ∷ []) nothing_yet)))
settle_one_example = settle_one keep (9 ∷ []) true nothing_yet message (2 ∷ [])

abbrev request : PollRequest
request = record {
  channel = 97 ∷ [];
  max_items = pos 10;
  wait_timeout_seconds = pos 5;
  auto_ack = false;
}

abbrev response : QueuesDownstreamResponse
response = record {
  transaction_id = 1 ∷ [];
  messages = kubemq_cpp.Wire.new_queue_message ∷ [];
  is_error = false;
  error = [];
  transaction_complete = false;
}

abbrev reply : Log → Log × Option QueuesDownstreamResponse
reply log = (log, some response)

abbrev fresh : ℕ → Bytes
fresh i = i ∷ []
