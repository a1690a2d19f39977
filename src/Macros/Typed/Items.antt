-- ===== src/Macros/Typed/Items.antt =====
-- What goes into a typed sink comes out of the typed stream.
use zel.Prelude.{
  ◌≡◌, refl, ap, ◌∙◌, Bytes, Option, none, some, Result, ok, Exec, ◌>>◌, List, [], ◌∷◌,
}
use zel.Types.Protocol.{SubscriptionMsg}
use zel.Wire.{Codec}
use zel.Client.Errors.{ClientError}
use zel.Client.Transport.{Transport}
use zel.Streaming.SubscriptionSink.{SubscriptionError}
use zel.Streaming.SubscriptionStream.{poll_next}
use zel.Streaming.Delivery.{publish, Reads, done, read, messages, publish-Reads}
use zel.Streaming.Pipe.{Pipe}
use zel.Macros.Values.{Values}
use zel.Macros.Typed.{item_of, ready, sink_send, sink_close, stream_poll_next}

module _ (net : Transport) (codec : Codec) {Ty : Type 0} (vals : Values Ty) where
  open vals use {Value, to_vec, from_slice, IsFaithful}

  -- A subscription method that sends some items and closes its sink.
  abbrev pub publish_items :
      net.SendStream → List Value → Exec net.World SubscriptionError (Unit {0})
  publish_items tx [] = sink_close net codec vals tx
  publish_items tx (v ∷ vs) = sink_send net codec vals tx v >> publish_items tx vs

  -- The stream gives these items, one after the other, and then ends.
  pub data ReadsItems (ty : Ty) (rx : net.RecvStream)
      : net.World → List Value → net.World → Type 0 where
    ended :
        (w u : net.World)
        → stream_poll_next net codec vals ty rx w ≡ (ready none, u)
        → ReadsItems ty rx w [] u
    item :
        (w u z : net.World) (v : Value) (vs : List Value)
        → stream_poll_next net codec vals ty rx w ≡ (ready (some (ok v)), u)
        → ReadsItems ty rx u vs z
        → ReadsItems ty rx w (v ∷ vs) z

  -- Items of the type that JSON takes and keeps.
  abbrev pub AreItems : Ty → List Value → Type 0
  AreItems ty [] = Unit
  AreItems ty (v ∷ vs) = (IsFaithful ty v × (b : Bytes) × (to_vec v ≡ ok b)) × AreItems ty vs

  written : (ty : Ty) (vs : List Value) → AreItems ty vs → List Bytes
  written ty [] a = []
  written ty (v ∷ vs) ((f, b, e), a) = b ∷ written ty vs a

  publish_items-written :
      (ty : Ty) (vs : List Value) (a : AreItems ty vs) (tx : net.SendStream)
      → publish_items tx vs ≡ publish net codec tx (written ty vs a)
  unfolding written sink_send sink_close
  publish_items-written ty [] a tx = refl
  publish_items-written ty (v ∷ vs) ((f, b, e), a) tx =
      rw (e, publish_items-written ty vs a tx) refl

  -- The first message that is read, and what is read after it.
  abbrev Front : net.RecvStream → net.World → List SubscriptionMsg → net.World → Type 0
  Front rx w [] u = Unit
  Front rx w (m ∷ ms) u =
      (v : net.World) × (poll_next codec net rx w ≡ (some (ok m), v)) × Reads net codec rx v ms u

  front :
      (rx : net.RecvStream) (w u : net.World) (ms : List SubscriptionMsg)
      → Reads net codec rx w ms u
      → Front rx w ms u
  front rx w u [] (done _) = tt
  front rx w u (m ∷ ms) (read _ v _ _ _ e r) = (v, e, r)

  Front-end : (rx : net.RecvStream) (w u : net.World) → Reads net codec rx w [] u → w ≡ u
  Front-end rx w u (done _) = refl

  polled :
      (ty : Ty) (rx : net.RecvStream) (w v : net.World)
      (m : Option (Result SubscriptionMsg ClientError))
      → poll_next codec net rx w ≡ (m, v)
      → stream_poll_next net codec vals ty rx w ≡ (item_of net codec vals ty m, v)
  unfolding stream_poll_next
  polled ty rx w v m e = ap (λ p. (item_of net codec vals ty p.0, p.1)) e

  ReadsItems-Reads :
      (ty : Ty) (vs : List Value) (a : AreItems ty vs) (rx : net.RecvStream) (w u : net.World)
      → Reads net codec rx w (messages net codec (written ty vs a)) u
      → ReadsItems ty rx w vs u
  unfolding written
  ReadsItems-Reads ty [] a rx w u r =
      let (v, e, rest) = front rx w u (SubscriptionMsg.stopped ∷ []) r in
      ended w u (polled ty rx w v _ e ∙ ap (λ z. (ready none, z)) (Front-end rx v u rest))
  ReadsItems-Reads ty (x ∷ vs) ((f, b, k), a) rx w u r =
      let (v, e, rest) =
        front rx w u (SubscriptionMsg.payload b ∷ messages net codec (written ty vs a)) r in
      item w v u x vs (polled ty rx w v _ e ∙ rw (vals.round_trip ty x b f k) refl)
        (ReadsItems-Reads ty vs a rx v u rest)

  -- Over a stream that keeps the order of its frames and takes a frame of any size at any time, with
  -- an encoder that fails on no message: when a subscription method sends any items of its type that
  -- JSON takes and keeps, and closes its typed sink, each of these steps succeeds; the typed stream of
  -- the client then gives exactly these items, in this order, and ends, which leaves nothing on the
  -- way.
  pub publish_items-ReadsItems :
      (tx : net.SendStream) (rx : net.RecvStream) (pipe : Pipe net tx rx)
      (encoded : (m : SubscriptionMsg) → (b : Bytes) × (codec.subscription.to_vec m ≡ ok b))
      (ty : Ty) (items : List Value) (before : net.World)
      → AreItems ty items
      → pipe.Holds before []
      → (sent after : net.World) × (publish_items tx items before ≡ (ok tt, sent))
        × ReadsItems ty rx sent items after
        × pipe.Holds after []
  publish_items-ReadsItems tx rx pipe encoded ty items before a h =
      let (sent, after, e, r, k) =
        publish-Reads net codec tx rx pipe encoded (written ty items a) before h in
      (
        sent,
        after,
        ap (λ f. f before) (publish_items-written ty items a tx) ∙ e,
        ReadsItems-Reads ty items a rx sent after r,
        k,
      )
