-- ===== src/Macros/Typed/Session.antt =====
-- A whole notification session: a typed sender that sends some items and completes, against a typed
-- receiver that takes a turn for each.
use zel.Prelude.{
  ℕ, ◌≡◌, refl, sym, ap, ◌∙◌, Bytes, Option, none, some, ok, ◌>>◌, List, [], ◌∷◌, ◌++◌, map,
}
use mathlib.Core.List.{append-nil, append_assoc}
use zel.Types.Protocol.{NotificationMsg}
use zel.Wire.{Codec}
use zel.Client.Transport.{Transport}
use zel.Client.Operations.{Client}
use zel.Streaming.NotificationSender.{send, complete, check_reply}
use zel.Macros.Values.{Values}
use zel.Macros.Typed.{Item, sender_send, sender_complete, receiver_next}
use zel.Macros.Typed.Items.{AreItems}
use zel.Macros.Typed.Exchange.{Duplex, server_turn, server_turn-acks}

-- The transport as one end sees it whose peer takes a turn, with an outcome, whenever this end waits
-- for a frame; the outcomes are kept in their order.
abbrev pub recording : (net : Transport) {A : Type 0} (turn : net.World → A × net.World) → Transport
recording net {A} turn = record {
  World = net.World × List A;
  SendStream = net.SendStream;
  RecvStream = net.RecvStream;
  open_bi = λ w. let (r, u) = net.open_bi w.0 in (r, (u, w.1));
  accept_bi = λ w. let (r, u) = net.accept_bi w.0 in (r, (u, w.1));
  accept_uni = λ w. let (r, u) = net.accept_uni w.0 in (r, (u, w.1));
  send = λ tx b w. let (r, u) = net.send tx b w.0 in (r, (u, w.1));
  next = λ rx w. let (a, u) = turn w.0 in let (f, z) = net.next rx u in (f, (z, w.1 ++ a ∷ []));
  read_exact = λ rx n w. let (r, u) = net.read_exact rx n w.0 in (r, (u, w.1));
}

module _ (net : Transport) (codec : Codec) {Ty : Type 0} (vals : Values Ty) (ty : Ty)
    (client_tx : net.SendStream) (client_rx : net.RecvStream) (server_tx : net.SendStream)
    (server_rx : net.RecvStream) (duplex : Duplex net client_tx client_rx server_tx server_rx)
    (encoded : (m : NotificationMsg) → (b : Bytes) × (codec.notification.to_vec m ≡ ok b))
    (spare : ℕ) where
  open vals use {Value, to_vec, from_slice, IsFaithful}
  open duplex use {Holds}

  abbrev pub turn : net.World → Option (Item net codec vals) × net.World
  turn w =
      server_turn net codec vals ty client_tx client_rx server_tx server_rx duplex encoded spare w

  abbrev pub recorded : Transport
  recorded = recording net turn

  -- The user's code: each item in turn, and then the end.
  abbrev pub send_items : List Value → Client recorded codec (Unit {0})
  send_items [] = sender_complete recorded codec vals client_tx
  send_items (v ∷ vs) = sender_send recorded codec vals client_tx client_rx v >> send_items vs

  -- The item is handed over.
  abbrev pub got : Value → Option (Item net codec vals)
  got v = some (some (ok v))

  send_one :
      (v : Value) (d : Bytes) (before : net.World) (taken : List (Option (Item net codec vals)))
      → IsFaithful ty v
      → to_vec v ≡ ok d
      → Holds before [] []
      → (after : net.World) × (sender_send recorded codec vals client_tx client_rx v (before, taken)
          ≡ (ok tt, (after, taken ++ got v ∷ [])))
        × Holds after [] []
  unfolding sender_send send check_reply
  send_one v d before taken f e h =
      let (m, p) = encoded (NotificationMsg.payload d) in
      let (a, q) = encoded NotificationMsg.ack in
      let (sent, s, k) = duplex.push_out before [] [] m h in
      let (u, t, l) =
        server_turn-acks net codec vals ty client_tx client_rx server_tx server_rx duplex encoded
          spare d v sent (vals.round_trip ty v d f e) k in
      let (after, n, r) = duplex.pop_back u [] [] a l in
      let back = codec.notification.round_trip NotificationMsg.ack a tt q in
      (after, rw (e, p, s, t, n, back) refl, r)

  -- The receiver takes the end, and tells its user that there are no more items.
  send_end :
      (before : net.World) (taken : List (Option (Item net codec vals)))
      → Holds before [] []
      → (after done : net.World) × (sender_complete recorded codec vals client_tx (before, taken)
          ≡ (ok tt, (after, taken)))
        × (turn after ≡ (some none, done))
        × Holds done [] []
  unfolding sender_complete complete receiver_next
  send_end before taken h =
      let (m, p) = encoded NotificationMsg.completed in
      let (after, s, k) = duplex.push_out before [] [] m h in
      let (done, n, l) = duplex.pop_out after [] [] m k in
      let back = codec.notification.round_trip NotificationMsg.completed m tt p in
      (after, done, rw (p, s) refl, rw (n, back) refl, l)

  -- A whole notification session. Over a stream that keeps the order of its frames and takes a frame
  -- of any size at any time, with an encoder that fails on no message: when the client sends any items that JSON takes and keeps through the
  -- typed sender, and completes, while the server waits for the next item each time, every step of
  -- the client succeeds, the turns of the typed receiver hand over exactly these items, in this order,
  -- its next turn says that there are no more, and nothing is left on the way.
  pub send_items-session :
      (items : List Value) (before : net.World) (taken : List (Option (Item net codec vals)))
      → AreItems net codec vals ty items
      → Holds before [] []
      → (after done : net.World) × (send_items items (before, taken)
          ≡ (ok tt, (after, taken ++ map got items)))
        × (turn after ≡ (some none, done))
        × Holds done [] []
  send_items-session [] before taken a h =
      let (after, done, e, t, k) = send_end before taken h in
      (after, done, e ∙ ap (λ l. (ok tt, (after, l))) (sym (append-nil taken)), t, k)
  send_items-session (v ∷ items) before taken ((f, d, e), a) h =
      let (next, s, k) = send_one v d before taken f e h in
      let (after, done, r, t, l) = send_items-session items next (taken ++ got v ∷ []) a k in
      (
        after,
        done,
        rw s (r ∙ ap (λ l. (ok tt, (after, l))) (append_assoc taken (got v ∷ []) (map got items))),
        t,
        l,
      )
