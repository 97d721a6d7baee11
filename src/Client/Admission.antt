-- ===== src/Client/Admission.antt =====
-- When a message is sent, and that nothing else happens when it is not.
use mathlib.Core.Bool.{false≢true}
use kubemq_cpp.Base.{
  ◌≡◌, ◌≢◌, ◌↔◌, refl, sym, ◌∙◌, ◌⊎◌, inl, inr, Bool, true, false, ◌==◌, [], ◌∷◌, if◌then◌else◌,
  Bytes, is_empty, Bool-cases, bytes, arith,
}
use kubemq_cpp.Base.Int.{ℤ, is_pos}
use kubemq_cpp.Status.{Status, failed, has_value, is_ok, is_ok_code, and_then}
use kubemq_cpp.Validation.{validate_channel_no_wildcard, validate_body, validate_timeout}
use kubemq_cpp.Validation.Channel.{IsChannel, Without, validate_channel_no_wildcard_lem}
use kubemq_cpp.Message.Content.{first_non_empty}
use kubemq_cpp.Message.Event.{Event}
use kubemq_cpp.Message.Command.{Command}
use kubemq_cpp.Message.QueueMessage.{QueueMessage}
use kubemq_cpp.Transport.Grpc
use kubemq_cpp.Transport.Grpc.{Rpc}
use kubemq_cpp.Client.{
  Client, check_closed, admit, admit_command, effective_timeout, send_command, send_queue_message,
  wire_command, wire_queue_message, command_result, queue_result,
}
use kubemq_cpp.Wire
use kubemq_cpp.Wire.{Request, Response, SendQueueMessageResult}

-- The client is open, the channel is one to send to, and there is a body or metadata.
pub record IsAdmitted (closed : Bool) (channel metadata body : Bytes) : Type 0 where
  pub is_open : closed ≡ false
  pub is_channel : IsChannel channel
  pub no_star : Without (λ d. d == 42) channel
  pub no_greater : Without (λ d. d == 62) channel
  pub content : (body ≢ []) ⊎ (metadata ≢ [])

-- The second step is taken when the first has passed.
pub and_then_iff :
    {P Q : Type 0} (s t : Status)
    → (is_ok s ≡ true) ↔ P
    → (is_ok t ≡ true) ↔ Q
    → (is_ok (and_then s t) ≡ true) ↔ (P × Q)
unfolding is_ok_code
and_then_iff s t (to_p, of_p) (to_q, of_q) = elim (Bool-cases (is_ok s)) [
  | inl h ↦ (λ g. (to_p h, to_q (ground arith)), λ (p, q). rw h (of_q q))
  | inr h ↦ (λ g. ground arith, λ (p, q). absurd (false≢true (sym h ∙ of_p p)))
]

pub validate_body-is_ok :
    (body metadata operation : Bytes)
    → (is_ok (validate_body body metadata operation) ≡ true) ↔ ((body ≢ []) ⊎ (metadata ≢ []))
unfolding validate_body is_ok_code is_empty
validate_body-is_ok [] [] operation =
    (λ h. cc, λ h. absurd (elim h [ inl e ↦ e refl | inr e ↦ e refl ]))
validate_body-is_ok [] (c ∷ m) operation = (λ h. inr (λ e. cc), λ h. refl)
validate_body-is_ok (c ∷ b) metadata operation = (λ h. inl (λ e. cc), λ h. refl)

module _ {W C X : Type 0} (c : Client W C X) where
  pub open_lem : (is_ok (check_closed c) ≡ true) ↔ (c.closed ≡ false)
  unfolding check_closed is_ok_code
  open_lem = elim (Bool-cases c.closed) [
    | inl h ↦ (λ g. ground arith, λ g. ground arith)
    | inr h ↦ (λ g. h, λ g. rw h refl)
  ]

module _ {W C X : Type 0} (c : Client W C X) (channel metadata body operation : Bytes) where
  -- The steps before a message is sent let it through exactly when it is admitted.
  pub admit_lem :
      (is_ok (admit c channel metadata body operation) ≡ true)
      ↔ IsAdmitted c.closed channel metadata body
  unfolding admit
  admit_lem =
      let (to, of) = and_then_iff (check_closed c) _ (open_lem c) (
        and_then_iff (validate_channel_no_wildcard channel operation) _
          (validate_channel_no_wildcard_lem channel operation)
          (validate_body-is_ok body metadata operation)) in
      (
        λ h.
            let (a, ((name, star, greater), d)) = to h in
            record {
              is_open = a;
              is_channel = name;
              no_star = star;
              no_greater = greater;
              content = d;
            },
        λ r. of (r.is_open, ((r.is_channel, r.no_star, r.no_greater), r.content)),
      )

-- A timeout that is not above zero is replaced, so that the test of the timeout never fails.
timeout_iff :
    (timeout : ℤ) (operation : Bytes)
    → (is_ok (validate_timeout (effective_timeout timeout) operation) ≡ true) ↔ (true ≡ true)
unfolding validate_timeout effective_timeout is_ok_code
timeout_iff timeout operation = (
  λ h. refl,
  λ h. elim (Bool-cases (is_pos timeout)) [ inl p ↦ rw (p, p) refl | inr p ↦ rw p refl ],
)

module _ {W C X : Type 0} (c : Client W C X) (channel metadata body operation : Bytes)
    (timeout : ℤ) where
  -- A request passes exactly when a message with its content would, whatever its timeout.
  pub admit_request_lem :
      (is_ok (
          and_then (check_closed c) (
            and_then (validate_channel_no_wildcard channel operation) (
              and_then
                (validate_timeout (effective_timeout timeout) operation)
                (validate_body body metadata operation))))
        ≡ true)
      ↔ IsAdmitted c.closed channel metadata body
  admit_request_lem =
      let (to, of) = and_then_iff (check_closed c) _ (open_lem c) (
        and_then_iff _ _ (validate_channel_no_wildcard_lem channel operation) (
          and_then_iff _ _ (timeout_iff timeout operation)
            (validate_body-is_ok body metadata operation))) in
      (
        λ h.
            let (a, ((name, star, greater), (_, d))) = to h in
            record {
              is_open = a;
              is_channel = name;
              no_star = star;
              no_greater = greater;
              content = d;
            },
        λ r. of (r.is_open, ((r.is_channel, r.no_star, r.no_greater), (refl, r.content))),
      )

module _ {W C X : Type 0} (c : Client W C X) (m : Command) where
  pub admit_command_lem :
      (is_ok (admit_command c m) ≡ true)
      ↔ IsAdmitted c.closed (first_non_empty m.channel c.opts.default_channel) m.metadata m.body
  unfolding admit_command
  admit_command_lem =
      admit_request_lem c (first_non_empty m.channel c.opts.default_channel) m.metadata m.body _
        m.timeout

-- The two outcomes of a send: the message is admitted and handed to the transport, or it is not, the
-- result is an error and the world is as before.
abbrev pub Handed : {W R : Type 0} → (R → Bool) → Type 0 → W → W × R → W × R → Type 0
Handed good admitted w sent out =
    (admitted × (out ≡ sent)) ⊎ (¬ admitted × (out.0 ≡ w) × (good out.1 ≡ false))

pub handed :
    {W R A : Type 0} (good : R → Bool) (b : Bool) (w : W) (sent : W × R) (refused : R)
    → (b ≡ true) ↔ A
    → good refused ≡ false ⊎ (b ≡ true)
    → Handed good A w sent (if b then sent else (w, refused))
handed good true w sent refused (to, of) bad = inl (to refl, refl)
handed good false w sent refused (to, of) (inl bad) = inr (λ a. false≢true (of a), refl, bad)
handed good false w sent refused (to, of) (inr h) = absurd (false≢true h)

pub either : (b : Bool) → (b ≡ false) ⊎ (b ≡ true)
either true = inr refl
either false = inl refl

module _ {W C X : Type 0} (c : Client W C X) (w : W) where
  -- `SendCommand` hands a command to the transport, with the channel, the client's name, the
  -- identifier and the timeout filled in, and converts the server's answer, exactly when the client is
  -- open, the channel (or the default one) is one to send to, and there is a body or metadata; any
  -- timeout will do. Any other command is refused: the result is an error and the world is as before.
  pub send_command_lem :
      (rpc : Rpc W Request Response) (uuid : Bytes) (m : Command)
      → let request = wire_command uuid c m in
        let (w', r) = Grpc.send_request rpc c.transport request w in
        Handed has_value
          (IsAdmitted c.closed (first_non_empty m.channel c.opts.default_channel) m.metadata m.body)
          w
          (w', command_result request.channel request.request_id r)
          (send_command rpc uuid c m w)
  unfolding send_command
  send_command_lem rpc uuid m =
      let s = admit_command c m in
      handed has_value (is_ok s) w _ (failed s) (admit_command_lem c m) (inl refl)

  -- `SendQueueMessage` hands a message to the transport, with the channel and the client's name filled
  -- in, and converts the server's answer, exactly when the client is open, the channel (or the default
  -- one) is one to send to, and there is a body or metadata. Any other message is refused: the result
  -- is an error and the world is as before.
  pub send_queue_message_lem :
      (rpc : Rpc W Wire.QueueMessage SendQueueMessageResult) (m : QueueMessage)
      → let channel = first_non_empty m.channel c.opts.default_channel in
        let (w', r) = Grpc.send_queue_message rpc c.transport (wire_queue_message c m) w in
        Handed has_value
          (IsAdmitted c.closed channel m.metadata m.body)
          w
          (w', queue_result channel r)
          (send_queue_message rpc c m w)
  unfolding send_queue_message
  send_queue_message_lem rpc m =
      let ch = first_non_empty m.channel c.opts.default_channel in
      let s = admit c ch m.metadata m.body (bytes "SendQueueMessage") in
      handed has_value (is_ok s) w _ (failed s) (admit_lem c ch m.metadata m.body _) (inl refl)
