-- ===== src/Streaming/NotificationSender.antt =====
-- client.rs: `NotificationSender`, the client's end of a notification stream. The data that a caller
-- passes is already serialized, or has failed to.
use zel.Prelude.{String, Bytes, concat, Result, ok, err, lift, ◌>>=◌, ◌>>◌}
use zel.Types.Protocol.{NotificationMsg}
use zel.Wire.{Codec}
use zel.Client.Errors.{ClientError, protocol}
use zel.Client.Transport.{Transport}
use zel.Client.Operations.{Client, connecting, converting, next_frame}

unfoldable pub check_reply : NotificationMsg → Result (Unit {0}) ClientError
check_reply NotificationMsg.ack = ok tt
check_reply (NotificationMsg.error e) = err (protocol (concat "Server error: " e))
check_reply _ = err (protocol "Unexpected message type")

module _ (net : Transport) (codec : Codec) (tx : net.SendStream) where
  unfoldable pub send : net.RecvStream → Result Bytes String → Client net codec (Unit {0})
  unfolding check_reply
  send rx value = converting net codec value >>= λ v.
      converting net codec (codec.notification.to_vec (NotificationMsg.payload v)) >>= λ b.
      connecting net codec (net.send tx b)
      >> next_frame net codec "No acknowledgment received" rx
      >>= λ f. converting net codec (codec.notification.from_slice f) >>= λ m. lift (check_reply m)

  unfoldable pub complete : Client net codec (Unit {0})
  complete = converting net codec (codec.notification.to_vec NotificationMsg.completed) >>= λ b.
      connecting net codec (net.send tx b)
