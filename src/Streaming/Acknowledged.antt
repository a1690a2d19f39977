-- ===== src/Streaming/Acknowledged.antt =====
-- client.rs against streaming.rs: a notification and the server's answer to it.
use zel.Prelude.{◌≡◌, ◌↔◌, refl, ap, Bytes, some, ok, is_ok, Bool, true, false, lift}
use mathlib.Core.Bool.{false≢true}
use zel.Types.Protocol.{NotificationMsg}
use zel.Wire.{Codec}
use zel.Client.Transport.{Transport}
use zel.Streaming.NotificationSender.{send, check_reply}

abbrev is_ack : NotificationMsg → Bool
is_ack NotificationMsg.ack = true
is_ack _ = false

refused : {P Q : Type 0} → (P → false ≡ true) → (Q → false ≡ true) → P ↔ Q
refused f g = ((λ p. absurd (false≢true (f p))), (λ q. absurd (false≢true (g q))))

check_reply_ok_iff :
    {W : Type 0} (m : NotificationMsg) (w : W)
    → (lift {W = W} (check_reply m) w ≡ (ok tt, w)) ↔ (m ≡ NotificationMsg.ack)
unfolding check_reply
check_reply_ok_iff NotificationMsg.ack w = ((λ _. refl), (λ _. refl))
check_reply_ok_iff (NotificationMsg.error e) w =
    refused (λ h. ap (λ p. is_ok p.0) h) (λ h. ap is_ack h)
check_reply_ok_iff (NotificationMsg.established s r) w =
    refused (λ h. ap (λ p. is_ok p.0) h) (λ h. ap is_ack h)
check_reply_ok_iff (NotificationMsg.payload b) w =
    refused (λ h. ap (λ p. is_ok p.0) h) (λ h. ap is_ack h)
check_reply_ok_iff NotificationMsg.completed w =
    refused (λ h. ap (λ p. is_ok p.0) h) (λ h. ap is_ack h)
check_reply_ok_iff NotificationMsg.server_shutdown w =
    refused (λ h. ap (λ p. is_ok p.0) h) (λ h. ap is_ack h)

module _ (net : Transport) (codec : Codec) where
  -- A notification that is sent, and answered by a frame that decodes to a message: `send` succeeds
  -- exactly if the message is an acknowledgment.
  pub send_ok_iff_ack :
      (tx : net.SendStream) (rx : net.RecvStream) (value b f : Bytes) (answer : NotificationMsg)
      (before mid after : net.World)
      → codec.notification.to_vec (NotificationMsg.payload value) ≡ ok b
      → net.send tx b before ≡ (ok tt, mid)
      → net.next rx mid ≡ (some (ok f), after)
      → codec.notification.from_slice f ≡ ok answer
      → (send net codec tx rx (ok value) before ≡ (ok tt, after)) ↔ (answer ≡ NotificationMsg.ack)
  unfolding send check_reply
  send_ok_iff_ack tx rx value b f answer before mid after e s n d =
      rw (e, s, n, d) (check_reply_ok_iff answer after)
