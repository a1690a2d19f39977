-- ===== src/Client/AtOnce.antt =====
-- client.rs: two operations at once on one connection. Each is in two parts, up to the response to its
-- request and from the stream of the server on; in between, the other one may run.
use zel.Prelude.{
  ◌≡◌, refl, String, Bytes, Bool, true, false, Option, Result, ok, err, map_err, pure, continue,
  lift, ◌>>=◌, ◌>>◌, string_key,
}
use zel.Types.Protocol.{Request, Body}
use zel.Wire.{Codec}
use zel.Handlers.Guard.{ResourceResponse}
use zel.Client.Errors.{ClientError, resource}
use zel.Client.Transport.{Transport}
use zel.Client.Operations.{
  Client, exchange, receive_stream, open_stream, receive_notifier, notify, or_default,
}

module _ (net : Transport) (codec : Codec) where
  open net use {World, SendStream, RecvStream}

  -- The first part of an operation: what is left to do once the request is accepted.
  abbrev pub accepted :
      {A : Type 0} → Request → Client net codec A → Client net codec (Client net codec A)
  accepted request rest = exchange net codec request >>= λ r. lift (map_err resource r) >> pure rest

  -- An error ends an operation.
  abbrev pub go_on : {A : Type 0} → Result (Client net codec A) ClientError → Client net codec A
  go_on (ok rest) = rest
  go_on (err e) = lift (err e)

  -- The second parts, that of the first operation first, or the other way round.
  abbrev pub receive_both :
      {A : Type 0}
      → (crossed : Bool) → (m n : Client net codec A) → World
      → Result A ClientError × Result A ClientError × World
  receive_both false m n w = let (a, w1) = m w in let (b, w2) = n w1 in (a, b, w2)
  receive_both true m n w = let (b, w1) = n w in let (a, w2) = m w1 in (a, b, w2)

  -- Both requests, one after the other, and then both second parts.
  abbrev pub at_once :
      {A : Type 0}
      → (crossed : Bool) → (m n : Client net codec (Client net codec A)) → World
      → Result A ClientError × Result A ClientError × World
  at_once crossed m n w =
      let (r, w1) = m w in let (q, w2) = n w1 in receive_both crossed (go_on r) (go_on q) w2

  abbrev pub stream_request : (service name : String) → Option Bytes → Request
  stream_request service name params = record {
    service = service;
    resource = name;
    body = Body.stream (or_default params);
  }

  abbrev pub notify_request : (service name : String) → Option Bytes → Request
  notify_request service name params = record {
    service = service;
    resource = name;
    body = Body.notify (or_default params);
  }

  join_parts :
      {A : Type 0} (rest : Client net codec A) (x : Result ResourceResponse ClientError × World)
      → continue (λ m. m) (continue (λ r. lift (map_err resource r) >> pure rest) x)
        ≡ continue (λ r. lift (map_err resource r) >> rest) x
  join_parts rest (ok (ok r), w) = refl
  join_parts rest (ok (err e), w) = refl
  join_parts rest (err e, w) = refl

  abbrev pub stream_parts :
      (service name : String)
      → Option Bytes
      → Client net codec (Client net codec (SendStream × RecvStream))
  stream_parts service name params =
      accepted (stream_request service name params) (receive_stream net codec)

  abbrev pub notify_parts :
      (service name : String)
      → Option Bytes
      → Client net codec (Client net codec (SendStream × RecvStream))
  notify_parts service name params =
      accepted (notify_request service name params) (receive_notifier net codec service name)

  -- The parts, one right after the other, are the operation.
  pub open_stream-parts :
      (service name : String) (params : Option Bytes) (w : World)
      → (stream_parts service name params >>= λ m. m) w
        ≡ open_stream net codec service name params w
  unfolding open_stream
  open_stream-parts service name params w =
      join_parts (receive_stream net codec)
        (exchange net codec (stream_request service name params) w)

  pub notify-parts :
      (service name : String) (params : Option Bytes) (w : World)
      → (notify_parts service name params >>= λ m. m) w ≡ notify net codec service name params w
  unfolding notify
  notify-parts service name params w =
      join_parts (receive_notifier net codec service name)
        (exchange net codec (notify_request service name params) w)
