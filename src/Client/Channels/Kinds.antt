-- ===== src/Client/Channels/Kinds.antt =====
-- Which requests on channels reach the server.
use kubemq_cpp.Base.{
  ◌≡◌, ◌≢◌, ◌↔◌, refl, ◌⊎◌, inl, inr, Bool, true, false, ◌||◌, [], ◌∷◌, Bytes, bytes, is_empty,
  str_eq, str_eq_refl, str_eq-eq, arith, Bool-cases,
}
use kubemq_cpp.Status.{Status, is_ok, is_ok_code, and_then}
use kubemq_cpp.Convert.Simple.{channel_management_request}
use kubemq_cpp.Transport.Grpc
use kubemq_cpp.Transport.Grpc.{Rpc}
use kubemq_cpp.Client.{Client, check_closed}
use kubemq_cpp.Client.Admission.{Handed, handed, either, and_then_iff, open_lem}
use kubemq_cpp.Client.Channels.{
  events_type, events_store_type, commands_type, queries_type, queues_type, is_valid_channel_type,
  validate_channel_management, management_result, manage, create_channel, delete_channel,
}
use kubemq_cpp.Wire.{Request, Response}

-- The five kinds of channel.
abbrev pub IsKind : Bytes → Type 0
IsKind t =
    (t ≡ events_type)
    ⊎ ((t ≡ events_store_type) ⊎ ((t ≡ commands_type) ⊎ ((t ≡ queries_type) ⊎ (t ≡ queues_type))))

str_eq_iff : (s t : Bytes) → (str_eq s t ≡ true) ↔ (s ≡ t)
str_eq_iff s t = (str_eq-eq s t, λ e. rw e (str_eq_refl t))

or_iff : {P Q : Type 0} (a b : Bool) → (a ≡ true) ↔ P → (b ≡ true) ↔ Q → (a || b ≡ true) ↔ (P ⊎ Q)
or_iff true b (to, of) (to', of') = (λ h. inl (to refl), λ h. refl)
or_iff false b (to, of) (to', of') =
    (λ h. inr (to' h), λ h. elim h [ inl p ↦ absurd (ground arith) | inr q ↦ of' q ])

IsKind-iff : (t : Bytes) → (is_valid_channel_type t ≡ true) ↔ IsKind t
unfolding is_valid_channel_type
IsKind-iff t = or_iff _ _ (str_eq_iff t _) (
    or_iff _ _ (str_eq_iff t _)
      (or_iff _ _ (str_eq_iff t _) (or_iff _ _ (str_eq_iff t _) (str_eq_iff t _))))

validate_iff :
    (name kind operation : Bytes)
    → (is_ok (validate_channel_management name kind operation) ≡ true) ↔ ((name ≢ []) × IsKind kind)
unfolding validate_channel_management is_ok_code is_empty
validate_iff [] kind operation = (λ h. cc, λ (ne, k). absurd (ne refl))
validate_iff (c ∷ s) kind operation = elim (Bool-cases (is_valid_channel_type kind)) [
  | inl good ↦ (λ h. ((λ e. cc), (IsKind-iff kind).0 good), λ h. rw good refl)
  | inr bad ↦ (λ h. ground arith, λ (ne, k). ground (arith, (IsKind-iff kind).1 k))
]

module _ {W C X : Type 0} (rpc : Rpc W Request Response) (uuid : Bytes) (c : Client W C X)
    (name kind : Bytes) (w : W) where
  -- A request on a channel, with the result that the server's answer gives.
  abbrev pub asked : Bytes → Bytes → W × Status
  asked operation request_name =
      let (w', r) =
        Grpc.send_request rpc c.transport
          (channel_management_request c.opts.client_id name kind request_name uuid) w in
      (w', management_result operation name uuid r)

  manage_lem :
      (operation request_name : Bytes)
      → Handed is_ok
          ((c.closed ≡ false) × ((name ≢ []) × IsKind kind))
          w
          (asked operation request_name)
          (manage rpc uuid c operation request_name name kind w)
  unfolding manage
  manage_lem operation request_name =
      let s = and_then (check_closed c) (validate_channel_management name kind operation) in
      handed is_ok (is_ok s) w _ s
        (and_then_iff (check_closed c) _ (open_lem c) (validate_iff name kind operation))
        (either (is_ok s))

  -- `CreateChannel` and `DeleteChannel` ask the server exactly when the client is open, the name is not
  -- empty and the kind is one of the five; the result is then the server's. Otherwise the result is an
  -- error and the world is as before.
  pub manage_channel_lem :
      Handed is_ok
        ((c.closed ≡ false) × ((name ≢ []) × IsKind kind))
        w
        (asked (bytes "CreateChannel") (bytes "create-channel"))
        (create_channel rpc uuid c name kind w)
      × Handed is_ok
          ((c.closed ≡ false) × ((name ≢ []) × IsKind kind))
          w
          (asked (bytes "DeleteChannel") (bytes "delete-channel"))
          (delete_channel rpc uuid c name kind w)
  unfolding create_channel delete_channel
  manage_channel_lem = (manage_lem _ _, manage_lem _ _)
