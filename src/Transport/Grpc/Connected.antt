-- ===== src/Transport/Grpc/Connected.antt =====
-- What a new connection is, why there is none, and the address that it is made for.
use kubemq_cpp.Base.{
  ℕ, zero, suc, ltb, ◌+◌, ◌/◌, ◌%◌, ◌==◌, ◌≡◌, ◌≢◌, refl, ◌⊎◌, inl, inr, true, false, not, Bool,
  Option, some, [], ◌∷◌, Bytes, Bool-cases, if_lem, arith,
}
use kubemq_cpp.Base.Int.{ℤ, pos, negsuc}
use kubemq_cpp.Status.{ErrorCode, StatusOr, value, failed}
use kubemq_cpp.Middleware.Auth.{Provider}
use kubemq_cpp.Validation.{has}
use kubemq_cpp.Options.{ClientOptions, set_address, set_host_port}
use kubemq_cpp.Options.Address.{set_address-set_host_port}
use kubemq_cpp.Tls.{Credentials, build_channel_credentials}
use kubemq_cpp.Tls.Build.{Valid, IsFor, build_channel_credentials_lem}
use kubemq_cpp.Transport.Grpc.{Transport}
use kubemq_cpp.Transport.Grpc.Connect.{
  Network, new_transport, digits, to_string, target, connect, connect_with, connect_or_fail, wait,
  channel_arguments,
}

wait-cases :
    {W : Type 0} (net : Network W) (opts : ClientOptions) (w : W)
    → ((wait net opts w).1 ≡ true) ⊎ (opts.wait_for_ready ≡ true)
unfolding wait
wait-cases net opts w = elim (Bool-cases opts.wait_for_ready) [
  | inl asked ↦ inr asked
  | inr other ↦ inl (rw other refl)
]

undo_negation : (b : Bool) → not b ≡ false → b ≡ true
undo_negation true h = refl
undo_negation false h = cc

module _ {W : Type 0} (C : Type 0) (net : Network W) (read : Bytes → Option Bytes)
    (opts : ClientOptions) (provider : Option (Provider W)) (w : W) where
  -- With these credentials, in this order, the library made the channel and the stub, and waited if it
  -- was asked to; `w'` is the world after that.
  abbrev pub IsReached : Credentials → W → Type 0
  IsReached creds w' =
      let (w1, channel) = net.create_channel (target opts) creds (channel_arguments opts) w in
      let (w2, stub) = net.new_stub w1 in
      let (w3, ready) = wait net opts w2 in
      (channel ≡ true) × ((stub ≡ true) × ((ready ≡ true) × (w' ≡ w3)))

  -- A connection has credentials that the TLS options ask for, and is the new transport. Without one the
  -- error tells what failed: the credentials, and then the network was not used; the channel or the
  -- stub; or the wait, which the options asked for.
  abbrev pub IsConnection : W × StatusOr (Transport W C) → Type 0
  IsConnection (w', value t) =
      (t ≡ new_transport opts provider)
      × ((creds : Credentials) × (IsFor read opts.tls_config creds × IsReached creds w'))
  IsConnection (w', failed s) =
      ((s.code ≡ ErrorCode.validation) × (w' ≡ w))
      ⊎ ((s.code ≡ ErrorCode.transient)
          ⊎ ((s.code ≡ ErrorCode.timeout) × (opts.wait_for_ready ≡ true)))

  connect_with-IsConnection :
      (creds : Credentials)
      → IsFor read opts.tls_config creds
      → IsConnection (connect_with net opts provider creds w)
  unfolding connect_with
  connect_with-IsConnection creds c =
      let (w1, channel) = net.create_channel (target opts) creds (channel_arguments opts) w in
      let (w2, stub) = net.new_stub w1 in
      if_lem IsConnection (not channel) (λ no_channel. inr (inl refl))
        (λ made.
          if_lem IsConnection (not stub) (λ no_stub. inr (inl refl))
            (λ called.
              if_lem IsConnection (not (wait net opts w2).1)
                (λ late. elim (wait-cases net opts w2) [
                  | inl ready ↦ absurd (ground arith)
                  | inr asked ↦ inr (inr (refl, asked))
                ])
                (λ in_time. (
                  refl,
                  (
                    creds,
                    (
                      c,
                      (
                        undo_negation _ made,
                        (undo_negation _ called, (undo_negation _ in_time, refl)),
                      ),
                    ),
                  ),
                ))))

  connect_or_fail-IsConnection :
      (r : StatusOr Credentials)
      → Valid (IsFor read opts.tls_config) r
      → IsConnection (connect_or_fail net opts provider r w)
  unfolding connect_or_fail
  connect_or_fail-IsConnection (value creds) c = connect_with-IsConnection creds c
  connect_or_fail-IsConnection (failed s) e = inl (e, refl)

  pub connect-IsConnection : IsConnection (connect net opts provider read w)
  unfolding connect
  connect-IsConnection =
      connect_or_fail-IsConnection (build_channel_credentials read opts.tls_config)
        (build_channel_credentials_lem read opts.tls_config)

digit_ne_colon : (n : ℕ) → (48 + n % 10) == 58 ≡ false
digit_ne_colon n = ground arith

digits-no_colon :
    (fuel n : ℕ) (rest : Bytes) → has 58 rest ≡ false → has 58 (digits fuel n rest) ≡ false
unfolding digits has
digits-no_colon zero n rest h = h
digits-no_colon (suc fuel) n rest h = elim (Bool-cases (ltb n 10)) [
  | inl small ↦ rw (small, digit_ne_colon n) h
  | inr large ↦ rw large (digits-no_colon fuel (n / 10) _ (rw (digit_ne_colon n) h))
]

digits-ne_nil : (fuel n c : ℕ) (rest : Bytes) → digits fuel n (c ∷ rest) ≢ []
unfolding digits
digits-ne_nil zero n c rest = λ e. cc
digits-ne_nil (suc fuel) n c rest =
    if_lem (λ s. s ≢ []) (ltb n 10) (λ _ e. cc) (λ _. digits-ne_nil fuel (n / 10) _ (c ∷ rest))

to_string-ne_nil : (z : ℤ) → to_string z ≢ []
unfolding to_string digits
to_string-ne_nil (pos n) =
    if_lem (λ s. s ≢ []) (ltb n 10) (λ _ e. cc) (λ _. digits-ne_nil n (n / 10) _ [])
to_string-ne_nil (negsuc n) = λ e. cc

to_string-no_colon : (z : ℤ) → has 58 (to_string z) ≡ false
unfolding to_string has
to_string-no_colon (pos n) = digits-no_colon (suc n) n [] refl
to_string-no_colon (negsuc n) = digits-no_colon (suc (suc n)) (suc n) [] refl

-- The address that `Connect` makes of the host and the port is read back by `set_address` as this host
-- and this port, also when the host has a `:` itself, given that `stoi` reads the number that
-- `to_string` wrote.
pub target-set_address :
    (stoi : Bytes → Option ℤ) (opts o : ClientOptions)
    → stoi (to_string opts.port) ≡ some opts.port
    → set_address stoi (target opts) o ≡ set_host_port opts.host opts.port o
unfolding target
target-set_address stoi opts o h =
    set_address-set_host_port stoi opts.host (to_string opts.port) opts.port o
      (to_string-no_colon opts.port) (to_string-ne_nil opts.port) h
