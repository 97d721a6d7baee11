-- ===== src/Subscription/Admitted.antt =====
-- When a subscription is opened.
use kubemq_cpp.Base.{◌≡◌, false, Bytes}
use kubemq_cpp.Validation.Channel.{IsChannel}
use kubemq_cpp.Message.Content.{first_non_empty}
use kubemq_cpp.Transport.Grpc.Streams
use kubemq_cpp.Transport.Grpc.Stub.{Stub}
use kubemq_cpp.Client.{Client}

module _ {W C X S : Type 0} (stub : Stub W S) (c : Client W C X) (uuid channel group : Bytes)
    (w : W) where
  -- The client is open, and there is a channel, that may have wildcards.
  abbrev Admits : Type 0
  Admits = (c.closed ≡ false) × IsChannel (first_non_empty channel c.opts.default_channel)
