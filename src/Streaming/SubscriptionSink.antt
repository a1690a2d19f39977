-- ===== src/Streaming/SubscriptionSink.antt =====
-- streaming.rs: `SubscriptionSink`, which the server writes subscription data to. The data that a
-- caller passes is already serialized, or has failed to.
use zel.Prelude.{String, Bytes, Result, Exec, map_err, with_err, ◌>>=◌}
use zel.Types.Protocol.{SubscriptionMsg}
use zel.Wire.{Codec}
use zel.Client.Transport.{Transport}

pub data SubscriptionError : Type 0 where
  serialization : String → SubscriptionError
  sending : String → SubscriptionError

module _ (net : Transport) (codec : Codec) (sink : net.SendStream) where
  abbrev pub converting : {A : Type 0} → Result A String → Exec net.World SubscriptionError A
  converting r w = (map_err serialization r, w)

  abbrev pub sending_frame : Bytes → Exec net.World SubscriptionError (Unit {0})
  sending_frame b w = with_err sending (net.send sink b w)

  unfoldable pub send : Result Bytes String → Exec net.World SubscriptionError (Unit {0})
  send value = converting value >>= λ v.
      converting (codec.subscription.to_vec (SubscriptionMsg.payload v)) >>= λ b. sending_frame b

  unfoldable pub close : Exec net.World SubscriptionError (Unit {0})
  close = converting (codec.subscription.to_vec SubscriptionMsg.stopped) >>= λ b. sending_frame b
