-- ===== src/Streaming/SubscriptionStream.antt =====
-- client.rs: `SubscriptionStream`, the client's end of a subscription.
use zel.Prelude.{String, Bytes, Option, none, some, Result, ok, err, map_err}
use zel.Types.Protocol.{SubscriptionMsg}
use zel.Wire.{Codec}
use zel.Client.Errors.{ClientError, serialization, connection}
use zel.Client.Transport.{Transport}

module _ (codec : Codec) where
  unfoldable pub decode : Option (Result Bytes String) → Option (Result SubscriptionMsg ClientError)
  decode none = none
  decode (some (err e)) = some (err (connection e))
  decode (some (ok b)) = some (map_err serialization (codec.subscription.from_slice b))

  -- `poll_next` where it is ready.
  unfoldable pub poll_next :
      (net : Transport)
      → net.RecvStream
      → net.World
      → Option (Result SubscriptionMsg ClientError) × net.World
  unfolding decode
  poll_next net rx w = let (f, w') = net.next rx w in (decode f, w')
