-- ===== src/Streaming/Delivery.antt =====
-- streaming.rs against client.rs: what goes into a `SubscriptionSink` comes out of the
-- `SubscriptionStream`.
use zel.Prelude.{◌≡◌, refl, subst, Bytes, some, ok, Exec, ◌>>◌, List, [], ◌∷◌, ◌++◌}
use mathlib.Core.List.{append_assoc}
use zel.Types.Protocol.{SubscriptionMsg}
use zel.Wire.{Codec}
use zel.Client.Transport.{Transport}
use zel.Streaming.SubscriptionSink.{SubscriptionError, send, close}
use zel.Streaming.SubscriptionStream.{poll_next, decode}
use zel.Streaming.Pipe.{Pipe}

module _ (net : Transport) (codec : Codec) where
  -- A server callback that sends some values and closes its sink.
  abbrev pub publish : net.SendStream → List Bytes → Exec net.World SubscriptionError (Unit {0})
  publish tx [] = close net codec tx
  publish tx (v ∷ vs) = send net codec tx (ok v) >> publish tx vs

  -- `poll_next` gives these messages, one after the other.
  pub data Reads (rx : net.RecvStream) : net.World → List SubscriptionMsg → net.World → Type 0 where
    done : (w : net.World) → Reads rx w [] w
    read :
        (w u v : net.World) (m : SubscriptionMsg) (ms : List SubscriptionMsg)
        → poll_next codec net rx w ≡ (some (ok m), u)
        → Reads rx u ms v
        → Reads rx w (m ∷ ms) v

  abbrev pub messages : List Bytes → List SubscriptionMsg
  messages [] = SubscriptionMsg.stopped ∷ []
  messages (v ∷ vs) = SubscriptionMsg.payload v ∷ messages vs

  module _ (tx : net.SendStream) (rx : net.RecvStream) (pipe : Pipe net tx rx)
      (encoded : (m : SubscriptionMsg) → (b : Bytes) × (codec.subscription.to_vec m ≡ ok b)) where
    open pipe use {Holds}

    abbrev frame : SubscriptionMsg → Bytes
    frame m = (encoded m).0

    abbrev frames : List SubscriptionMsg → List Bytes
    frames [] = []
    frames (m ∷ ms) = frame m ∷ frames ms

    publish-Holds :
        (vs : List Bytes) (w : net.World) (q : List Bytes)
        → Holds w q
        → (u : net.World) × (publish tx vs w ≡ (ok tt, u)) × Holds u (q ++ frames (messages vs))
    unfolding send close
    publish-Holds [] w q h =
        let (u, e, k) = pipe.push w q (frame SubscriptionMsg.stopped) h in
        (u, rw ((encoded SubscriptionMsg.stopped).1, e) refl, k)
    publish-Holds (v ∷ vs) w q h =
        let m : SubscriptionMsg = SubscriptionMsg.payload v in
        let (u, e, k) = pipe.push w q (frame m) h in
        let (t, f, l) = publish-Holds vs u (q ++ frame m ∷ []) k in
        (
          t,
          rw ((encoded m).1, e, f) refl,
          subst (Holds t) (append_assoc q (frame m ∷ []) (frames (messages vs))) l,
        )

    drain :
        (ms : List SubscriptionMsg) (w : net.World)
        → Holds w (frames ms)
        → (u : net.World) × Reads rx w ms u × Holds u []
    unfolding poll_next decode
    drain [] w h = (w, done w, h)
    drain (m ∷ ms) w h =
        let (u, e, k) = pipe.pop w (frames ms) (frame m) h in
        let (t, r, l) = drain ms u k in
        let back = codec.subscription.round_trip m (frame m) tt (encoded m).1 in
        (t, read w u t m ms (rw (e, back) refl) r, l)

    -- Over a stream that keeps the order of its frames, with an encoder that fails on no message:
    -- when a server sends any values and closes its sink, each of these steps succeeds, and the
    -- client then reads exactly these values, in this order, and then the stop, which leaves nothing
    -- on the way.
    pub publish-Reads :
        (values : List Bytes) (before : net.World)
        → Holds before []
        → (sent after : net.World) × (publish tx values before ≡ (ok tt, sent))
          × Reads rx sent (messages values) after
          × Holds after []
    publish-Reads values before h =
        let (sent, e, k) = publish-Holds values before [] h in
        let (after, r, l) = drain (messages values) sent k in (sent, after, e, r, l)
