-- ===== src/Transport/Grpc/Sending.antt =====
-- What the result of a send tells of the server's answer.
use kubemq_cpp.Base.{
  ◌≡◌, refl, ◌∙◌, inl, inr, false, ◌&&◌, some, [], if◌then◌else◌, bytes, is_empty, Bool-cases,
}
use kubemq_cpp.Status.{
  Status, ok_status, is_ok, is_ok_code, from_server_error, from_server_error-is_ok,
}
use kubemq_cpp.Middleware.Auth.{Metadata}
use kubemq_cpp.Middleware.ErrorMapper.{grpc_ok, from_grpc_status, from_grpc_status_lem}
use kubemq_cpp.Transport.Grpc.{
  Transport, Rpc, check_closed, apply_auth, guarded, metadata_of, send_event, default_send_timeout,
}
use kubemq_cpp.Wire
use kubemq_cpp.Wire.{Result}

module _ {W C R : Type 0} (refuse : Status → R) (t : Transport W C) (w w' : W) (metadata : Metadata)
    (body : Metadata → W → W × R) where
  pub guarded_open :
      t.closed ≡ false
      → apply_auth t w ≡ (w', some metadata, ok_status)
      → guarded refuse t w body ≡ body metadata w'
  unfolding guarded check_closed is_ok_code metadata_of
  guarded_open h auth = rw (auth, h) refl

module _ {W C : Type 0} (rpc : Rpc W Wire.Event Result) (t : Transport W C) (event : Wire.Event)
    (w w' : W) (metadata : Metadata) where
  -- On an open transport whose authorization succeeds, `SendEvent` calls the server once, with the
  -- event as it is, the metadata and five seconds; it returns OK exactly when the call succeeded and
  -- the server's error text is empty.
  pub send_event_answer :
      t.closed ≡ false
      → apply_auth t w ≡ (w', some metadata, ok_status)
      → let (v, st, result) = rpc default_send_timeout metadata event w' in
        ((send_event rpc t event w).0 ≡ v)
        × (is_ok (send_event rpc t event w).1 ≡ (grpc_ok st.error_code && is_empty result.error))
  unfolding send_event
  send_event_answer h auth =
      let (v, st, result) = rpc default_send_timeout metadata event w' in
      rw
        (guarded_open (λ s. s) t w w' metadata
          (λ metadata v.
            let (v', st, result) = rpc default_send_timeout metadata event v in
            if grpc_ok st.error_code
            then (
              v',
              from_server_error result.error (bytes "GrpcTransport::SendEvent") event.channel,
            )
            else (v', from_grpc_status st (bytes "GrpcTransport::SendEvent") event.channel []))
          h auth)
        (elim (Bool-cases (grpc_ok st.error_code)) [
          | inl good ↦ rw good (refl, from_server_error-is_ok result.error _ event.channel)
          | inr bad ↦ rw bad (refl, (from_grpc_status_lem _ event.channel [] st).0 ∙ bad)
        ])
