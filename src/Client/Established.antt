-- ===== src/Client/Established.antt =====
-- client.rs: which stream an operation ends up with.
use zel.Prelude.{
  ◌≡◌, ◌↔◌, refl, ap, String, Bytes, Bool, true, false, Option, some, ok, err, string_key, [], ◌∷◌,
  ◌==◌, ◌&&◌, arith, nat_beq_iff, is_ok, continue, pure, if◌then◌else◌,
}
use mathlib.Core.Bool.{false≢true}
use zel.Types.Protocol.{Response, Body, SubscriptionMsg, NotificationMsg}
use zel.Wire.{Codec}
use zel.Server.Streams.{ok_bytes}
use zel.Client.Errors.{ClientError, protocol}
use zel.Client.Transport.{Transport}
use zel.Client.Operations.{
  exchange, subscribe, subscribe_body, notify, open_stream, or_default, check_subscription,
  check_notification, check_names, mismatch, bytes_beq,
}

names_iff :
    (service name s r : String)
    → (((s == service) && (r == name)) ≡ true) ↔ ((s ≡ service) × (r ≡ name))
names_iff service name s r =
    ground (arith, string_key.same_iff s service, string_key.same_iff r name)

gate_iff :
    {A W : Type 0} (b : Bool) (a : A) (e : ClientError) (w : W)
    → (continue {W = W} (λ _. pure a) (if b then ok tt else err e, w) ≡ (ok a, w)) ↔ (b ≡ true)
gate_iff true a e w = ((λ _. refl), (λ _. refl))
gate_iff false a e w = ((λ h. ap (λ p. is_ok p.0) h), (λ h. absurd (false≢true h)))

-- The check lets a result through exactly if both names are the requested ones.
check_names_iff :
    {A W : Type 0} (service name s r : String) (a : A) (w : W)
    → (continue {W = W} (λ _. pure a) (check_names service name s r, w) ≡ (ok a, w))
      ↔ ((s ≡ service) × (r ≡ name))
unfolding check_names
check_names_iff service name s r a w =
    let (f, g) =
      gate_iff ((s == service) && (r == name)) a (protocol (mismatch service name s r)) w in
    let (p, q) = names_iff service name s r in ((λ h. p (f h)), (λ h. g (q h)))

bytes_beq_iff : (a b : Bytes) → (bytes_beq a b ≡ true) ↔ (a ≡ b)
bytes_beq_iff [] [] = ((λ _. refl), (λ _. refl))
bytes_beq_iff [] (y ∷ ys) = ground arith
bytes_beq_iff (x ∷ xs) [] = ground arith
bytes_beq_iff (x ∷ xs) (y ∷ ys) = ground (arith, bytes_beq_iff xs ys, nat_beq_iff x y)

module _ (net : Transport) (codec : Codec) (service name : String) (params : Option Bytes)
    (before mid opened after : net.World) (resp : Response) (frame : Bytes) (s r : String) where
  -- Once the request is accepted and the server's stream gives a frame that names a service and a
  -- resource, `subscribe` returns that stream exactly if both names are the requested ones.
  pub subscribe_ok_iff :
      (rx : net.RecvStream)
      → exchange net codec
          (record { service = service; resource = name; body = subscribe_body params })
          before
        ≡ (ok (ok resp), mid)
      → net.accept_uni mid ≡ (ok rx, opened)
      → net.next rx opened ≡ (some (ok frame), after)
      → codec.subscription.from_slice frame ≡ ok (SubscriptionMsg.established s r)
      → (subscribe net codec service name params before ≡ (ok rx, after))
        ↔ ((s ≡ service) × (r ≡ name))
  unfolding subscribe check_subscription
  subscribe_ok_iff rx e h n d =
      rw (e, h, n, d, check_subscription) (check_names_iff service name s r rx after)

  -- The same of `notify` and the two halves of the accepted stream.
  pub notify_ok_iff :
      (ends : net.SendStream × net.RecvStream)
      → exchange net codec
          (record { service = service; resource = name; body = Body.notify (or_default params) })
          before
        ≡ (ok (ok resp), mid)
      → net.accept_bi mid ≡ (ok ends, opened)
      → net.next ends.1 opened ≡ (some (ok frame), after)
      → codec.notification.from_slice frame ≡ ok (NotificationMsg.established s r)
      → (notify net codec service name params before ≡ (ok ends, after))
        ↔ ((s ≡ service) × (r ≡ name))
  unfolding notify check_notification
  notify_ok_iff ends e h n d =
      rw (e, h, n, d, check_notification) (check_names_iff service name s r ends after)

module _ (net : Transport) (codec : Codec) where
  -- Whatever service and resource were requested: once the request is accepted, `open_stream`
  -- returns the next stream of the connection exactly if its first two bytes are `OK`.
  pub open_stream_ok_iff :
      (service name : String) (params : Option Bytes) (before mid opened after : net.World)
      (resp : Response) (ends : net.SendStream × net.RecvStream) (bytes : Bytes)
      → exchange net codec
          (record { service = service; resource = name; body = Body.stream (or_default params) })
          before
        ≡ (ok (ok resp), mid)
      → net.accept_bi mid ≡ (ok ends, opened)
      → net.read_exact ends.1 2 opened ≡ (ok bytes, after)
      → (open_stream net codec service name params before ≡ (ok ends, after)) ↔ (bytes ≡ ok_bytes)
  unfolding open_stream
  open_stream_ok_iff service name params before mid opened after resp ends bytes e h n =
      let (f, g) = gate_iff (bytes_beq bytes ok_bytes) ends (protocol "Invalid stream ACK") after in
      let (p, q) = bytes_beq_iff bytes ok_bytes in rw (e, h, n) ((λ x. p (f x)), (λ x. g (q x)))
