-- ===== src/Options/Address.antt =====
-- How an address in one text is read.
use kubemq_cpp.Base.{
  ◌≡◌, ◌≢◌, refl, false, Option, none, some, [], ◌∷◌, ◌++◌, Bytes, is_empty-ne_nil, arith,
}
use kubemq_cpp.Base.Int.{ℤ}
use kubemq_cpp.Options.{ClientOptions, split_last, read_port, set_address, assign, set_host_port}
use kubemq_cpp.Validation.{has}

-- A text without `:` is not split.
split_last-none : (s : Bytes) → has 58 s ≡ false → split_last s ≡ none
unfolding split_last has
split_last-none [] h = refl
split_last-none (c ∷ s) h = rw (split_last-none s (ground arith)) (ground arith)

-- A text is split at its last `:`.
split_last-some :
    (host port : Bytes) → has 58 port ≡ false → split_last (host ++ 58 ∷ port) ≡ some (host, port)
unfolding split_last
split_last-some [] port h = rw (split_last-none port h) refl
split_last-some (c ∷ host) port h = rw (split_last-some host port h) refl

module _ (stoi : Bytes → Option ℤ) where
  -- An address `host:port` whose port is a number, and not empty, sets the same options as the host
  -- and the number, also where the host has a `:` itself.
  pub set_address-set_host_port :
      (host port : Bytes) (n : ℤ) (o : ClientOptions)
      → has 58 port ≡ false
      → port ≢ []
      → stoi port ≡ some n
      → set_address stoi (host ++ 58 ∷ port) o ≡ set_host_port host n o
  unfolding set_address assign set_host_port read_port
  set_address-set_host_port host port n o h filled number =
      rw (split_last-some host port h, is_empty-ne_nil port filled, number) refl
