-- ===== src/Macros/Typed.antt =====
-- zel_macros/src/render/types.rs: the typed ends of subscriptions and notifications, over the untyped
-- ones of streaming.rs and client.rs. Each is given by the stream that it holds as `inner`.
pub mod Items
pub mod Receiving
pub mod Exchange
pub mod Session
use zel.Prelude.{ℕ, zero, suc, String, Bytes, Option, none, some, Result, ok, err, map_err, Exec}
use zel.Types.Protocol.{SubscriptionMsg, NotificationMsg}
use zel.Wire.{Codec}
use zel.Client.Errors.{ClientError, serialization}
use zel.Client.Transport.{Transport}
use zel.Client.Operations.{Client}
use zel.Streaming.SubscriptionSink.{SubscriptionError}
use zel.Streaming.SubscriptionSink
use zel.Streaming.SubscriptionStream
use zel.Streaming.NotificationSink.{NotificationError, deserialization, receiving}
use zel.Streaming.NotificationSink
use zel.Streaming.NotificationSender
use zel.Macros.Values.{Values}

-- `std::task::Poll`
pub data Poll (A : Type 0) : Type 0 where
  ready : A → Poll A
  pending : Poll A

module _ (net : Transport) (codec : Codec) {Ty : Type 0} (vals : Values Ty) where
  open vals use {Value, to_vec, from_slice}

  -- `render_typed_sink`
  unfoldable pub sink_send : net.SendStream → Value → Exec net.World SubscriptionError (Unit {0})
  unfolding SubscriptionSink.send
  sink_send tx v = SubscriptionSink.send net codec tx (to_vec v)

  unfoldable pub sink_close : net.SendStream → Exec net.World SubscriptionError (Unit {0})
  unfolding SubscriptionSink.close
  sink_close tx = SubscriptionSink.close net codec tx

  -- `render_subscription_stream`: an `Established` message is passed over, and the task woken.
  abbrev pub item_of :
      Ty → Option (Result SubscriptionMsg ClientError) → Poll (Option (Result Value ClientError))
  item_of ty none = ready none
  item_of ty (some (err e)) = ready (some (err e))
  item_of ty (some (ok (SubscriptionMsg.payload b))) =
      ready (some (map_err serialization (from_slice ty b)))
  item_of ty (some (ok SubscriptionMsg.stopped)) = ready none
  item_of ty (some (ok SubscriptionMsg.server_shutdown)) = ready none
  item_of ty (some (ok (SubscriptionMsg.established s r))) = pending

  -- Where `inner` is ready.
  unfoldable pub stream_poll_next :
      Ty → net.RecvStream → net.World → Poll (Option (Result Value ClientError)) × net.World
  unfolding SubscriptionStream.poll_next
  stream_poll_next ty rx w =
      let (m, w') = SubscriptionStream.poll_next codec net rx w in (item_of ty m, w')

  -- `render_notification_sender`
  unfoldable pub sender_send : net.SendStream → net.RecvStream → Value → Client net codec (Unit {0})
  unfolding NotificationSender.send
  sender_send tx rx v = NotificationSender.send net codec tx rx (to_vec v)

  unfoldable pub sender_complete : net.SendStream → Client net codec (Unit {0})
  unfolding NotificationSender.complete
  sender_complete tx = NotificationSender.complete net codec tx

  -- `render_typed_receiver`
  abbrev pub Item : Type 0
  Item = Option (Result Value NotificationError)

  abbrev pub acknowledged :
      Value → Result (Unit {0}) NotificationError × net.World → Item × net.World
  acknowledged v (ok _, w) = (some (ok v), w)
  acknowledged v (err e, w) = (some (err e), w)

  -- A payload is acknowledged once it has been read.
  abbrev pub payload_item : net.SendStream → Result Value String → net.World → Item × net.World
  payload_item tx (ok v) w = acknowledged v (NotificationSink.ack net codec tx w)
  payload_item tx (err e) w = (some (err (deserialization e)), w)

  -- What a message makes of one turn of the loop: the item, or another turn.
  abbrev pub on_message :
      Ty
      → net.SendStream
      → (net.World → Option Item × net.World)
      → Result NotificationMsg String
      → net.World
      → Option Item × net.World
  on_message ty tx again (err e) w = (some (some (err (deserialization e))), w)
  on_message ty tx again (ok (NotificationMsg.payload b)) w =
      let (item, w') = payload_item tx (from_slice ty b) w in (some item, w')
  on_message ty tx again (ok NotificationMsg.completed) w = (some none, w)
  on_message ty tx again (ok NotificationMsg.server_shutdown) w = (some none, w)
  on_message ty tx again (ok _) w = again w

  abbrev pub on_frame :
      Ty
      → net.SendStream
      → (net.World → Option Item × net.World)
      → Option (Result Bytes String) × net.World
      → Option Item × net.World
  on_frame ty tx again (none, w) = (some none, w)
  on_frame ty tx again (some (err e), w) = (some (some (err (receiving e))), w)
  on_frame ty tx again (some (ok b), w) = on_message ty tx again (codec.notification.from_slice b) w

  -- So many turns of the loop at most; `none` where they do not suffice.
  unfoldable pub receiver_next :
      ℕ → Ty → net.SendStream → net.RecvStream → net.World → Option Item × net.World
  unfolding NotificationSink.ack
  receiver_next zero ty tx rx w = (none, w)
  receiver_next (suc turns) ty tx rx w =
      on_frame ty tx (receiver_next turns ty tx rx) (net.next rx w)
