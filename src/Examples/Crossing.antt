-- ===== src/Examples/Crossing.antt =====
-- Two operations at once, on a connection whose server has accepted both requests and opened a stream
-- for each.
use zel.Prelude.{
  ◌>>=◌, ℕ, ◌≡◌, refl, String, string_key, Bytes, true, false, Option, none, some, Result, ok, err,
  List, [], ◌∷◌, length, arith,
}
use zel.Types.Protocol.{NotificationMsg, Request}
use zel.Server.Streams.{ok_bytes, empty_response}
use zel.Client.Errors.{protocol}
use zel.Client.Transport.{Transport}
use zel.Client.Calls.{first}
use zel.Client.Operations.{exchange, mismatch, open_stream, notify}
use zel.Client.AtOnce.{at_once, stream_parts, notify_parts, stream_request, notify_request}
use zel.Client.Crossing.{open_stream-swapped, notify-swapped}
use zel.Examples.Codec.{codec, put_response, put_notification}
use zel.Examples.Network.{rest_of}

-- The responses to come, and what is on the streams that the server has opened.
abbrev State : Type 0
State = List Bytes × List Bytes

-- A stream of the server is the number of those behind it, with what is on it.
abbrev Stream : Type 0
Stream = Option Bytes

abbrev accept : State → Result (ℕ × Stream) String × State
accept (q, []) = (err "closed", (q, []))
accept (q, b ∷ a) = (ok (length a, some b), (q, a))

abbrev next : Stream → State → Option (Result Bytes String) × State
next none (q, a) = (first q, (rest_of q, a))
next (some b) w = (some (ok b), w)

abbrev read : Stream → State → Result Bytes String × State
read none w = (err "closed", w)
read (some b) w = (ok b, w)

abbrev net : Transport
net = record {
  World = State;
  SendStream = ℕ;
  RecvStream = Stream;
  open_bi = λ w. (ok (0, none), w);
  accept_bi = accept;
  accept_uni = λ w. (err "none", w);
  send = λ _ _ w. (ok tt, w);
  next = next;
  read_exact = λ s _ w. read s w;
}

abbrev granted : Bytes
granted = put_response (ok empty_response)

exchange-granted :
    (request : Request) (q a : List Bytes)
    → exchange net codec request (granted ∷ q, a) ≡ (ok (ok empty_response), (q, a))
unfolding exchange
exchange-granted request q a = refl

abbrev two_streams : List Bytes
two_streams = ok_bytes ∷ ok_bytes ∷ []

open_stream-swapped_example :
    (at_once net codec false
        (stream_parts net codec "media" "audio" none)
        (stream_parts net codec "media" "video" none)
        (granted ∷ granted ∷ [], two_streams)
      ≡ (ok (1, some ok_bytes), ok (0, some ok_bytes), ([], [])))
    × (at_once net codec true
          (stream_parts net codec "media" "audio" none)
          (stream_parts net codec "media" "video" none)
          (granted ∷ granted ∷ [], two_streams)
        ≡ (ok (0, some ok_bytes), ok (1, some ok_bytes), ([], [])))
    × ((service name : String) (params : Option Bytes) (w : State)
        → (stream_parts net codec service name params >>= λ m. m) w
          ≡ open_stream net codec service name params w)
open_stream-swapped_example =
    open_stream-swapped net codec "media" "audio" "media" "video" none none
      (granted ∷ granted ∷ [], two_streams) (granted ∷ [], two_streams) ([], two_streams)
      ([], ok_bytes ∷ []) ([], ok_bytes ∷ []) ([], []) ([], []) empty_response empty_response
      (1, some ok_bytes) (0, some ok_bytes)
      (exchange-granted (stream_request net codec "media" "audio" none) (granted ∷ []) two_streams)
      (exchange-granted (stream_request net codec "media" "video" none) [] two_streams) refl refl
      refl refl

abbrev chat : String
chat = "chat"

abbrev left : String
left = "left"

abbrev right : String
right = "right"

abbrev named : String → Bytes
named name = put_notification (NotificationMsg.established chat name)

abbrev two_named : List Bytes
two_named = named left ∷ named right ∷ []

read_back :
    (name : String)
    → codec.notification.from_slice (named name) ≡ ok (NotificationMsg.established chat name)
read_back name =
    codec.notification.round_trip (NotificationMsg.established chat name) (named name) tt refl

not_same : ¬ ((chat ≡ chat) × (left ≡ right))
not_same h = ground (arith, (string_key.same_iff left right).1 h.1)

notify-swapped_example :
    (at_once net codec false
        (notify_parts net codec chat left none)
        (notify_parts net codec chat right none)
        (granted ∷ granted ∷ [], two_named)
      ≡ (ok (1, some (named left)), ok (0, some (named right)), ([], [])))
    × (at_once net codec true
          (notify_parts net codec chat left none)
          (notify_parts net codec chat right none)
          (granted ∷ granted ∷ [], two_named)
        ≡ (
          err (protocol (mismatch chat left chat right)),
          err (protocol (mismatch chat right chat left)),
          ([], []),
        ))
    × ((service name : String) (params : Option Bytes) (w : State)
        → (notify_parts net codec service name params >>= λ m. m) w
          ≡ notify net codec service name params w)
notify-swapped_example =
    notify-swapped net codec chat left chat right none none (granted ∷ granted ∷ [], two_named)
      (granted ∷ [], two_named) ([], two_named) ([], named right ∷ []) ([], named right ∷ [])
      ([], []) ([], []) empty_response empty_response (1, some (named left)) (0, some (named right))
      (named left) (named right)
      (exchange-granted (notify_request net codec chat left none) (granted ∷ []) two_named)
      (exchange-granted (notify_request net codec chat right none) [] two_named) refl refl
      (read_back left) refl refl (read_back right) not_same
