-- ===== src/Handles/Tests.antt =====
-- Two events on a stream that takes all of them, and the readers of the handles.
use kubemq_cpp.Base.{
  ◌≡◌, refl, Bool, true, false, List, [], ◌∷◌, inl, inr, some, bytes, ℕ, if◌then◌else◌,
}
use kubemq_cpp.Wire.{Result}
use kubemq_cpp.Middleware.ErrorMapper.{StatusCode, GrpcStatus, from_grpc_status}
use kubemq_cpp.Transport.Grpc.{EventStoreResult}
use kubemq_cpp.Subscription.Callback.{Ending, safe_invoke, report, reported_as}
use kubemq_cpp.Handles.Readers.{
  Turn, EventTurn, hand_on, read_loop, report_finish, read_stream, read_event_results, store_result,
  read_store_results,
}
use kubemq_cpp.Handles.Reported.{Log, note_result, note_error}
use kubemq_cpp.Status.{ErrorCode, Status, brief, make_error}
use kubemq_cpp.Handles.{Call, start_reader, send, close, reader_ends, wait, destroy_terminates}
use kubemq_cpp.Handles.Protocol.{Act, InOrder, play, handle_protocol}
use kubemq_cpp.Handles.Life.{destroy_handle}

abbrev all : List (Call ℕ) → Bool
all calls = true

abbrev is_closed : Status
is_closed = brief ErrorCode.fatal (bytes "closed")

abbrev is_broken : Status
is_broken = brief ErrorCode.transient (bytes "broken")

abbrev life : List (Act ℕ)
life = Act.sends 1 ∷ Act.sends 2 ∷ []

handle_protocol_example :
    let h = play all is_closed is_broken start_reader life in
    InOrder h.stream
    × InOrder (send all is_closed is_broken 3 h).0.stream
    × (send all is_closed is_broken 3 (close h) ≡ (close h, is_closed))
handle_protocol_example = handle_protocol all is_closed is_broken life 3

life_open : (play all is_closed is_broken start_reader life).done ≡ false
unfolding play kubemq_cpp.Handles.Protocol.act send start_reader
life_open = refl

destroy_handle_example :
    let h = play all is_closed is_broken start_reader life in
    (destroy_terminates h ≡ false)
    × (destroy_terminates (reader_ends h) ≡ true)
    × (destroy_terminates (wait (reader_ends h)) ≡ false)
destroy_handle_example = destroy_handle all is_closed is_broken life life_open

-- The second stored event is refused, and the callback throws at it.
abbrev accepted : Result
accepted = record { event_id = bytes "a"; sent = true; error = [] }

abbrev refused : Result
refused = record { event_id = bytes "b"; sent = false; error = bytes "full" }

abbrev throws_refused : EventStoreResult → Ending
throws_refused r = if r.sent then Ending.returned else Ending.threw (r.error)

abbrev throws_never : Status → Ending
throws_never s = Ending.returned

abbrev lost : GrpcStatus
lost = record { error_code = StatusCode.unavailable; error_message = bytes "gone" }

-- What the store handle's reader tells then.
store_reader_tells :
    read_store_results {P = Log EventStoreResult}
      (Turn.got accepted ∷ Turn.got refused ∷ [])
      lost
      (record {
        on_result = some (note_result throws_refused);
        on_error = some (note_error throws_never);
      })
      []
    ≡ inl (store_result accepted)
      ∷ inl (store_result refused)
      ∷ inr (
          make_error ErrorCode.fatal
            (bytes "callback threw: full")
            (bytes "EventStoreStreamHandle::OnResult")
            []
            [])
      ∷ inr (from_grpc_status lost (bytes "EventStoreStreamHandle::Finish") [] [])
      ∷ []
unfolding read_store_results read_stream read_loop hand_on safe_invoke report reported_as
    report_finish bytes store_result
store_reader_tells = refl

-- The event stream's reader tells of a lost stream only.
event_reader_tells :
    (read_event_results
        (EventTurn.got accepted ∷ [])
        lost
        (some (note_error {R = Unit} throws_never))
        []
      ≡ inr (from_grpc_status lost (bytes "EventStreamHandle::Finish") [] []) ∷ [])
unfolding read_event_results report_finish safe_invoke report reported_as
event_reader_tells = refl
