-- ===== src/Client/Crossing.antt =====
-- client.rs: two operations at once that go on in the other order than that of their requests.
use zel.Prelude.{
  ◌≡◌, refl, String, Bytes, true, false, Option, some, ok, err, ◌>>=◌, string_key, ◌==◌, ◌&&◌,
  if◌then◌else◌, beq_self, Bool-cases, inl, inr, arith,
}
use zel.Types.Protocol.{Response, NotificationMsg}
use zel.Wire.{Codec}
use zel.Server.Streams.{ok_bytes}
use zel.Client.Errors.{protocol}
use zel.Client.Transport.{Transport}
use zel.Client.Operations.{
  exchange, receive_stream, open_stream, receive_notifier, notify, check_notification, check_names,
  mismatch,
}
use zel.Client.AtOnce.{
  at_once, stream_request, notify_request, stream_parts, notify_parts, open_stream-parts,
  notify-parts,
}

-- The tests of the names fail, whichever request they are made for.
other :
    (service1 name1 service2 name2 : String)
    → ¬ ((service1 ≡ service2) × (name1 ≡ name2))
    → (((service1 == service2) && (name1 == name2)) ≡ false)
      × (((service2 == service1) && (name2 == name1)) ≡ false)
other service1 name1 service2 name2 differ = (
  ground (arith, differ, string_key.same_iff service1 service2, string_key.same_iff name1 name2),
  ground (arith, differ, string_key.same_iff service2 service1, string_key.same_iff name2 name1),
)

module _ (net : Transport) (codec : Codec) where
  open net use {World, SendStream, RecvStream}

  -- What the second part of `notify` makes of a stream whose first message names an endpoint.
  module _ (service name s r : String) (ends : SendStream × RecvStream) (frame : Bytes)
      (w opened after : World) where
    receive_notifier-established :
        net.accept_bi w ≡ (ok ends, opened)
        → net.next ends.1 opened ≡ (some (ok frame), after)
        → codec.notification.from_slice frame ≡ ok (NotificationMsg.established s r)
        → receive_notifier net codec service name w ≡ (
          if (s == service) && (r == name)
              then ok ends
              else err (protocol (mismatch service name s r)),
          after,
        )
    unfolding receive_notifier check_notification check_names
    receive_notifier-established a n d = elim (Bool-cases ((s == service) && (r == name))) [
      | inl same ↦ rw (a, n, d, check_notification, check_names, same) refl
      | inr different ↦ rw (a, n, d, check_notification, check_names, different) refl
    ]

  -- Two operations whose requests are both accepted, and the streams that come after.
  module _ (service1 name1 service2 name2 : String) (params1 params2 : Option Bytes)
      (before between requested opened1 read1 opened2 after : World) (r1 r2 : Response)
      (s1 s2 : SendStream × RecvStream) where
    -- Two `open_stream` operations at once, whose requests are both accepted, and two streams that
    -- begin with `OK`: each operation returns the stream that comes first when it goes on, whatever
    -- was requested. If they go on in the order of their requests, the first one returns the first
    -- stream; if in the other order, it returns the second stream, and the second one the first. An
    -- operation is its two parts, one right after the other.
    pub open_stream-swapped :
        exchange net codec (stream_request net codec service1 name1 params1) before
          ≡ (ok (ok r1), between)
        → exchange net codec (stream_request net codec service2 name2 params2) between
          ≡ (ok (ok r2), requested)
        → net.accept_bi requested ≡ (ok s1, opened1)
        → net.read_exact s1.1 2 opened1 ≡ (ok ok_bytes, read1)
        → net.accept_bi read1 ≡ (ok s2, opened2)
        → net.read_exact s2.1 2 opened2 ≡ (ok ok_bytes, after)
        → (at_once net codec false
              (stream_parts net codec service1 name1 params1)
              (stream_parts net codec service2 name2 params2)
              before
            ≡ (ok s1, ok s2, after))
          × (at_once net codec true
                (stream_parts net codec service1 name1 params1)
                (stream_parts net codec service2 name2 params2)
                before
              ≡ (ok s2, ok s1, after))
          × ((service name : String) (params : Option Bytes) (w : World)
              → (stream_parts net codec service name params >>= λ m. m) w
                ≡ open_stream net codec service name params w)
    unfolding receive_stream
    open_stream-swapped e1 e2 a1 b1 a2 b2 = (
      rw (e1, e2, a1, b1, a2, b2) refl,
      rw (e1, e2, a1, b1, a2, b2) refl,
      open_stream-parts net codec,
    )

    -- Two `notify` operations at once, for endpoints that differ in the service or in the resource,
    -- whose requests are both accepted, and two streams whose first messages name the requested
    -- endpoints in the order of the requests: if the operations go on in this order, each returns its
    -- stream; if in the other order, both fail, each with a mismatch of the names. An operation
    -- is its two parts, one right after the other.
    pub notify-swapped :
        (f1 f2 : Bytes)
        → exchange net codec (notify_request net codec service1 name1 params1) before
          ≡ (ok (ok r1), between)
        → exchange net codec (notify_request net codec service2 name2 params2) between
          ≡ (ok (ok r2), requested)
        → net.accept_bi requested ≡ (ok s1, opened1)
        → net.next s1.1 opened1 ≡ (some (ok f1), read1)
        → codec.notification.from_slice f1 ≡ ok (NotificationMsg.established service1 name1)
        → net.accept_bi read1 ≡ (ok s2, opened2)
        → net.next s2.1 opened2 ≡ (some (ok f2), after)
        → codec.notification.from_slice f2 ≡ ok (NotificationMsg.established service2 name2)
        → ¬ ((service1 ≡ service2) × (name1 ≡ name2))
        → (at_once net codec false
              (notify_parts net codec service1 name1 params1)
              (notify_parts net codec service2 name2 params2)
              before
            ≡ (ok s1, ok s2, after))
          × (at_once net codec true
                (notify_parts net codec service1 name1 params1)
                (notify_parts net codec service2 name2 params2)
                before
              ≡ (
                err (protocol (mismatch service1 name1 service2 name2)),
                err (protocol (mismatch service2 name2 service1 name1)),
                after,
              ))
          × ((service name : String) (params : Option Bytes) (w : World)
              → (notify_parts net codec service name params >>= λ m. m) w
                ≡ notify net codec service name params w)
    notify-swapped f1 f2 e1 e2 a1 b1 d1 a2 b2 d2 differ =
        let (n1, n2) = other service1 name1 service2 name2 differ in
        let first1 =
          receive_notifier-established service1 name1 service1 name1 s1 f1 requested opened1 read1
            a1 b1 d1 in
        let second2 =
          receive_notifier-established service2 name2 service2 name2 s2 f2 read1 opened2 after a2 b2
            d2 in
        let first2 =
          receive_notifier-established service2 name2 service1 name1 s1 f1 requested opened1 read1
            a1 b1 d1 in
        let second1 =
          receive_notifier-established service1 name1 service2 name2 s2 f2 read1 opened2 after a2 b2
            d2 in
        (
          rw
              (
                e1,
                e2,
                first1,
                second2,
                beq_self service1,
                beq_self name1,
                beq_self service2,
                beq_self name2,
              )
              refl,
          rw (e1, e2, first2, second1, n1, n2) refl,
          notify-parts net codec,
        )
