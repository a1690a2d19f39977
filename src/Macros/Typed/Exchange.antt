-- ===== src/Macros/Typed/Exchange.antt =====
-- A typed notification sender against a typed receiver, each at its end of a stream.
use zel.Prelude.{ℕ, suc, ◌≡◌, refl, ap, String, Bytes, Option, some, ok, err, List, [], ◌∷◌, ◌++◌}
use zel.Types.Protocol.{NotificationMsg}
use zel.Wire.{Codec}
use zel.Client.Transport.{Transport}
use zel.Streaming.NotificationSender.{send, check_reply}
use zel.Streaming.NotificationSink.{send_message, ack, deserialization}
use zel.Macros.Values.{Values}
use zel.Macros.Typed.{Item, acknowledged, sender_send, receiver_next}

-- Both directions of one stream, with the frames on the way out and on the way back.
pub record Duplex (net : Transport) (client_tx : net.SendStream) (client_rx : net.RecvStream)
    (server_tx : net.SendStream) (server_rx : net.RecvStream) : Type 1 where
  pub Holds : net.World → (out back : List Bytes) → Type 0
  pub push_out :
      (w : net.World) (out back : List Bytes) (b : Bytes)
      → Holds w out back
      → (u : net.World) × (net.send client_tx b w ≡ (ok tt, u)) × Holds u (out ++ b ∷ []) back
  pub pop_out :
      (w : net.World) (out back : List Bytes) (b : Bytes)
      → Holds w (b ∷ out) back
      → (u : net.World) × (net.next server_rx w ≡ (some (ok b), u)) × Holds u out back
  pub push_back :
      (w : net.World) (out back : List Bytes) (b : Bytes)
      → Holds w out back
      → (u : net.World) × (net.send server_tx b w ≡ (ok tt, u)) × Holds u out (back ++ b ∷ [])
  pub pop_back :
      (w : net.World) (out back : List Bytes) (b : Bytes)
      → Holds w out (b ∷ back)
      → (u : net.World) × (net.next client_rx w ≡ (some (ok b), u)) × Holds u out back

-- The transport as one end sees it whose peer takes a turn whenever this end waits for a frame.
abbrev pub with_peer : (net : Transport) → (net.World → net.World) → Transport
with_peer net turn = record net { next = λ rx w. net.next rx (turn w) }

module _ (net : Transport) (codec : Codec) {Ty : Type 0} (vals : Values Ty) (ty : Ty)
    (client_tx : net.SendStream) (client_rx : net.RecvStream) (server_tx : net.SendStream)
    (server_rx : net.RecvStream) (duplex : Duplex net client_tx client_rx server_tx server_rx)
    (encoded : (m : NotificationMsg) → (b : Bytes) × (codec.notification.to_vec m ≡ ok b))
    (spare : ℕ) where
  open vals use {Value, to_vec, from_slice, IsFaithful}
  open duplex use {Holds}

  -- One call of the receiver's `next`.
  abbrev pub server_turn : net.World → Option (Item net codec vals) × net.World
  server_turn w = receiver_next net codec vals (suc spare) ty server_tx server_rx w

  abbrev pub answering : Transport
  answering = with_peer net (λ w. (server_turn w).1)

  -- A payload on the way out, and nothing else: the receiver hands the item over, and its
  -- acknowledgment is on the way back.
  pub server_turn-acks :
      (d : Bytes) (v : Value) (w : net.World)
      → from_slice ty d ≡ ok v
      → Holds w ((encoded (NotificationMsg.payload d)).0 ∷ []) []
      → (u : net.World) × (server_turn w ≡ (some (some (ok v)), u))
        × Holds u [] ((encoded NotificationMsg.ack).0 ∷ [])
  unfolding receiver_next ack
  server_turn-acks d v w e h =
      let (m, p) = encoded (NotificationMsg.payload d) in
      let (a, q) = encoded NotificationMsg.ack in
      let (u, n, k) = duplex.pop_out w [] [] m h in
      let (z, s, l) = duplex.push_back u [] [] a k in
      let back = codec.notification.round_trip (NotificationMsg.payload d) m tt p in
      let acked : ack net codec server_tx u ≡ (ok tt, z) = rw (ack, send_message, q, s) refl in
      (
        z,
        rw (n, back, e)
            (ap
              (λ r. (some (acknowledged net codec vals v r).0, (acknowledged net codec vals v r).1))
              acked),
        l,
      )

  -- Over a stream that keeps the order of its frames, with an encoder that fails on no message: a
  -- value that JSON takes and keeps, sent through the typed sender while the server waits for the
  -- next item, is what the typed receiver hands over; the sender succeeds, as it gets the
  -- acknowledgment; and nothing is left on the way.
  pub sender_send-receiver_next :
      (v : Value) (d : Bytes) (before : net.World)
      → IsFaithful ty v
      → to_vec v ≡ ok d
      → Holds before [] []
      → (sent after : net.World) × (net.send client_tx
            (encoded (NotificationMsg.payload d)).0
            before
          ≡ (ok tt, sent))
        × ((server_turn sent).0 ≡ some (some (ok v)))
        × (sender_send answering codec vals client_tx client_rx v before ≡ (ok tt, after))
        × Holds after [] []
  unfolding sender_send send check_reply
  sender_send-receiver_next v d before f e h =
      let (m, p) = encoded (NotificationMsg.payload d) in
      let (a, q) = encoded NotificationMsg.ack in
      let (sent, s, k) = duplex.push_out before [] [] m h in
      let (u, turn, l) = server_turn-acks d v sent (vals.round_trip ty v d f e) k in
      let (after, n, r) = duplex.pop_back u [] [] a l in
      let back = codec.notification.round_trip NotificationMsg.ack a tt q in
      (sent, after, s, ap (λ t. t.0) turn, rw (e, p, s, turn, n, back) refl, r)

  -- A payload that the receiver cannot read as an item gets no answer: from a stream with this frame
  -- only, the receiver takes it and returns an error to the user, and leaves nothing on the way back
  -- for the sender, which waits there for the acknowledgment.
  pub receiver_next-unread :
      (d : Bytes) (e : String) (before : net.World)
      → from_slice ty d ≡ err e
      → Holds before ((encoded (NotificationMsg.payload d)).0 ∷ []) []
      → (after : net.World) × (server_turn before ≡ (some (some (err (deserialization e))), after))
        × Holds after [] []
  unfolding receiver_next
  receiver_next-unread d e before unread h =
      let (m, p) = encoded (NotificationMsg.payload d) in
      let (u, n, k) = duplex.pop_out before [] [] m h in
      let back = codec.notification.round_trip (NotificationMsg.payload d) m tt p in
      (u, rw (n, back, unread) refl, k)
