-- ===== src/Streaming/NotificationSink.antt =====
-- streaming.rs: `NotificationSink`, with which the server acknowledges notifications.
use zel.Prelude.{String, Result, Exec, with_err}
use zel.Types.Protocol.{NotificationMsg}
use zel.Wire.{Codec}
use zel.Client.Transport.{Transport}

pub data NotificationError : Type 0 where
  serialization : String → NotificationError
  deserialization : String → NotificationError
  sending : String → NotificationError
  receiving : String → NotificationError
  protocol : String → NotificationError

module _ (net : Transport) (codec : Codec) (sink : net.SendStream) where
  abbrev pub send_message : NotificationMsg → Exec net.World NotificationError (Unit {0})
  send_message m w = elim (codec.notification.to_vec m) [
    | Result.ok b ↦ with_err sending (net.send sink b w)
    | Result.err e ↦ (Result.err (serialization e), w)
  ]

  unfoldable pub ack : Exec net.World NotificationError (Unit {0})
  ack = send_message NotificationMsg.ack

  unfoldable pub error : String → Exec net.World NotificationError (Unit {0})
  error text = send_message (NotificationMsg.error text)
