-- ===== src/Client/QuerySent.antt =====
-- What `SendQuery` asks of the server, and what it makes of the answer.
use mathlib.Core.Bool.{false≢true}
use kubemq_cpp.Base.{
  sym, ◌∙◌, is_empty-nil, ne_nil-is_empty, ◌≡◌, ◌≢◌, refl, ◌⊎◌, inl, inr, true, false, [], ◌∷◌,
  Bytes, is_empty, Bool-cases, if_lem,
}
use kubemq_cpp.Base.Int.{ℤ, pos, is_pos, as_int32, to_seconds}
use kubemq_cpp.Status.{ErrorCode, StatusOr, value, failed, has_value, is_ok}
use kubemq_cpp.Message.Tags.{copy_tags}
use kubemq_cpp.Message.Content.{first_non_empty}
use kubemq_cpp.Message.Query.{Query}
use kubemq_cpp.Convert.Requests.{QueryResponse, query_response_from_proto}
use kubemq_cpp.Transport.Grpc
use kubemq_cpp.Transport.Grpc.{Rpc}
use kubemq_cpp.Client.{Client, effective_timeout}
use kubemq_cpp.Client.Admission.{IsAdmitted}
use kubemq_cpp.Client.Sends.{
  send_query, admit_query, wire_query, query_result, effective_ttl, wire_ttl,
}
use kubemq_cpp.Client.Sent.{admit_query_lem}
use kubemq_cpp.Wire.{RequestType, Request, Response}

-- A text that the query has, or else another.
abbrev pub IsFilled : Bytes → Bytes → Bytes → Type 0
IsFilled own other x = ((own ≢ []) × (x ≡ own)) ⊎ ((own ≡ []) × (x ≡ other))

-- The time in milliseconds, in 32 bits: the query's, or ten seconds where it has none.
abbrev pub IsTimeout : ℤ → ℤ → Type 0
IsTimeout own x =
    ((is_pos own ≡ true) × (x ≡ as_int32 own)) ⊎ ((is_pos own ≡ false) × (x ≡ pos 10000))

-- The life in the cache, in whole seconds of 32 bits: the query's, or else the options', or none.
abbrev pub IsLife : ℤ → ℤ → ℤ → Type 0
IsLife own other x =
    ((is_pos own ≡ true) × (x ≡ as_int32 (to_seconds own)))
    ⊎ (((is_pos own ≡ false) × ((is_pos other ≡ true) × (x ≡ as_int32 (to_seconds other))))
        ⊎ ((is_pos own ≡ false) × ((is_pos other ≡ false) × (x ≡ pos 0))))

-- The request of a query.
pub record IsQueryRequest (uuid client_id channel : Bytes) (life : ℤ) (q : Query) (r : Request)
    : Type 0 where
  pub kind : r.request_type ≡ RequestType.query
  pub request_id : IsFilled q.id uuid r.request_id
  pub client_id_filled : IsFilled q.client_id client_id r.client_id
  pub channel_filled : IsFilled q.channel channel r.channel
  pub content : (r.metadata ≡ q.metadata) × (r.body ≡ q.body)
  pub timeout : IsTimeout q.timeout r.timeout
  pub cache_key : r.cache_key ≡ q.cache_key
  pub cache_ttl : IsLife q.cache_ttl life r.cache_ttl
  pub reply_channel : r.reply_channel ≡ []
  pub tags : r.tags ≡ copy_tags q.tags

-- A response as the answer of the server has it.
pub record IsResponse (r : Response) (q : QueryResponse) : Type 0 where
  pub query_id : q.query_id ≡ r.request_id
  pub reply_channel : q.reply_channel ≡ r.reply_channel
  pub executed : (q.executed ≡ r.executed) × (q.executed_at ≡ r.timestamp)
  pub content : (q.metadata ≡ r.metadata) × (q.body ≡ r.body)
  pub response_client_id : q.response_client_id ≡ r.client_id
  pub cache_hit : q.cache_hit ≡ r.cache_hit
  pub error : q.error ≡ r.error
  pub tags : q.tags ≡ copy_tags r.tags

-- The result by the transport's answer: its error is passed on, and an error text of the server is a fatal
-- error with that text, for the request's channel and identifier.
abbrev pub IsResult : Request → StatusOr Response → StatusOr QueryResponse → Type 0
IsResult request (failed s) out = out ≡ failed s
IsResult request (value r) (value q) = (r.error ≡ []) × IsResponse r q
IsResult request (value r) (failed s) =
    (r.error ≢ [])
    × ((s.code ≡ ErrorCode.fatal)
        × ((s.message ≡ r.error)
            × ((s.channel ≡ request.channel) × (s.request_id ≡ request.request_id))))

first_non_empty-IsFilled : (own other : Bytes) → IsFilled own other (first_non_empty own other)
unfolding first_non_empty is_empty
first_non_empty-IsFilled [] other = inr (refl, refl)
first_non_empty-IsFilled (c ∷ s) other = inl ((λ e. cc), refl)

effective_timeout-IsTimeout : (t : ℤ) → IsTimeout t (as_int32 (effective_timeout t))
unfolding effective_timeout as_int32
effective_timeout-IsTimeout t =
    if_lem (λ x. IsTimeout t (as_int32 x)) (is_pos t) (λ h. inl (h, refl)) (λ h. inr (h, refl))

wire_ttl-IsLife : (own other : ℤ) → IsLife own other (wire_ttl (effective_ttl own other))
unfolding wire_ttl effective_ttl
wire_ttl-IsLife own other = elim (Bool-cases (is_pos own)) [
  | inl h ↦ inl (h, rw (h, h) refl)
  | inr h ↦ elim (Bool-cases (is_pos other)) [
    | inl o ↦ inr (inl (h, (o, rw (h, o, o) refl)))
    | inr o ↦ inr (inr (h, (o, rw (h, o, h) refl)))
  ]
]

query_result-IsResult :
    (request : Request) (a : StatusOr Response)
    → IsResult request a (query_result request.channel request.request_id a)
unfolding query_result query_response_from_proto
query_result-IsResult request (failed s) = refl
query_result-IsResult request (value r) =
    if_lem (IsResult request (value r)) (is_empty r.error)
      (λ none_given. (
        is_empty-nil r.error none_given,
        record {
          query_id = refl;
          reply_channel = refl;
          executed = (refl, refl);
          content = (refl, refl);
          response_client_id = refl;
          cache_hit = refl;
          error = refl;
          tags = refl;
        },
      ))
      (λ given. (ne_nil-is_empty r.error given, (refl, (refl, (refl, refl)))))

module _ {W C X : Type 0} (c : Client W C X) (w : W) where
  wire_query-IsQueryRequest :
      (uuid : Bytes) (q : Query)
      → IsQueryRequest uuid c.opts.client_id c.opts.default_channel c.opts.default_cache_ttl q
          (wire_query uuid c q)
  unfolding wire_query
  wire_query-IsQueryRequest uuid q = record {
    kind = refl;
    request_id = first_non_empty-IsFilled q.id uuid;
    client_id_filled = first_non_empty-IsFilled q.client_id c.opts.client_id;
    channel_filled = first_non_empty-IsFilled q.channel c.opts.default_channel;
    content = (refl, refl);
    timeout = effective_timeout-IsTimeout q.timeout;
    cache_key = refl;
    cache_ttl = wire_ttl-IsLife q.cache_ttl c.opts.default_cache_ttl;
    reply_channel = refl;
    tags = refl;
  }

  -- A request that has what the query says was handed to the transport, and the result is by its answer.
  abbrev pub IsAsked : Rpc W Request Response → Bytes → Query → W × StatusOr QueryResponse → Type 0
  IsAsked rpc uuid q (w', out) =
      (request : Request) × (IsQueryRequest uuid c.opts.client_id c.opts.default_channel
          c.opts.default_cache_ttl q request
        × ((w' ≡ (Grpc.send_request rpc c.transport request w).0)
            × IsResult request (Grpc.send_request rpc c.transport request w).1 out))

  -- `SendQuery` hands one request to the transport exactly when the client is open, the channel (or the
  -- default one) is one to send to, and there is a body or metadata: a query with the content, the
  -- identifier, the client's name, the channel, the time and the life in the cache that the query has or
  -- that stand in for them. The answer is given field by field; an error of the transport is passed on,
  -- and an error text of the server is a fatal error. Any other query is refused: the result is an error
  -- and the world is as before.
  pub send_query_lem :
      (rpc : Rpc W Request Response) (uuid : Bytes) (q : Query)
      → let admitted =
          IsAdmitted c.closed
            (first_non_empty q.channel c.opts.default_channel)
            q.metadata
            q.body in
        let out = send_query rpc uuid c q w in
        (admitted × IsAsked rpc uuid q out)
        ⊎ (¬ admitted × ((out.0 ≡ w) × (has_value out.1 ≡ false)))
  unfolding send_query
  send_query_lem rpc uuid q =
      let (to, of) = admit_query_lem c w q in
      let request = wire_query uuid c q in
      let admitted =
        IsAdmitted c.closed (first_non_empty q.channel c.opts.default_channel) q.metadata q.body in
      if_lem
        (λ (out : W × StatusOr QueryResponse).
          (admitted × IsAsked rpc uuid q out)
          ⊎ (¬ admitted × ((out.0 ≡ w) × (has_value out.1 ≡ false))))
        (is_ok (admit_query c q))
        (λ good. inl (
          to good,
          (request, (wire_query-IsQueryRequest uuid q, (refl, query_result-IsResult request _))),
        ))
        (λ bad. inr ((λ a. false≢true (sym bad ∙ of a)), (refl, refl)))
