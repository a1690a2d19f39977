-- ===== src/Client/Bidirectional.antt =====
-- client.rs against the handlers of the two bidirectional kinds: `notify` against
-- `handle_notification`, and `open_stream` against `handle_stream_handler`.
use zel.Prelude.{
  ℕ, ◌≡◌, refl, subst, String, Bytes, true, none, some, Option, Result, ok, err, string_key, List,
  [], ◌∷◌, lookup,
}
use zel.Types.Protocol.{Request, Body, NotificationMsg}
use zel.Wire.{Codec}
use zel.Platform.{Platform}
use zel.Breaker.Library.{BreakerLib}
use zel.Breaker.Peers.{PeerCircuitBreakers}
use zel.Server.Registry.{notification_consumer, stream_handler, RpcService, ServiceMap}
use zel.Server.Streams.{
  Action, Link, Env, handle_notification, establish, confirm, send_notification_ack,
  handle_stream_handler, send_stream_ack, write_raw, ok_bytes, empty_response, start_task, open_bi,
  reply, ack,
}
use zel.Server.Dispatch.{
  dispatch, route_resource, route, handle_stream, read_and_deserialize_request,
}
use zel.Client.Transport.{Transport}
use zel.Client.Operations.{notify, open_stream, or_default}
use zel.Client.Calls.{Carries, reply_frames, ack_frames, first, exchange-Carries}
use zel.Client.Subscribed.{served}
use zel.Client.Established.{notify_ok_iff, open_stream_ok_iff}

-- The bytes that are written first on the stream that the server opens.
abbrev pub raw_bytes : {io : Platform} {Task : Type 0} → List (Action io Task) → Result Bytes String
raw_bytes [] = err "the end of the stream"
raw_bytes (write_raw b ∷ rest) = ok b
raw_bytes (_ ∷ rest) = raw_bytes rest

module _ (io : Platform) {F : Type 0} (lib : BreakerLib F) (Task : Type 0) (env : Env io)
    (services : ServiceMap io lib Task) (cbs : Option (PeerCircuitBreakers lib)) (now : ℕ)
    (codec : Codec) (link : Link) where
  -- What the server does for a notification where nothing fails.
  pub served-notification :
      (sent f a : Bytes) (request : Request) (service : RpcService io lib Task) (task : Task)
      → codec.request.from_slice sent ≡ ok request
      → lookup request.service services ≡ some service
      → lookup request.resource service.resources ≡ some (notification_consumer task)
      → link.opened ≡ true
      → link.ack_error ≡ none
      → link.reply_error ≡ none
      → codec.response.to_vec (ok empty_response) ≡ ok f
      → codec.notification.to_vec (NotificationMsg.established request.service request.resource)
        ≡ ok a
      → served io lib Task env services cbs now codec link sent
        ≡ open_bi ∷ ack a ∷ reply f ∷ start_task io Task codec env task request ∷ []
  unfolding handle_stream read_and_deserialize_request route route_resource dispatch
      handle_notification establish send_notification_ack confirm
  served-notification sent f a request service task d h k o x y e g =
      rw
        (
          served, handle_stream, read_and_deserialize_request, d, route, h, k, route_resource,
          dispatch, handle_notification, establish, o, send_notification_ack, g, x, confirm, e, y,
        )
        refl

  -- A notification to a resource that the server has: where the request reaches `handle_stream`, its
  -- reply frame is carried back, the next accepted stream gives its acknowledgment frame, and no
  -- step of the server fails, `notify` returns the two halves of the accepted stream.
  pub notify-served :
      (net : Transport) (service_name name : String) (body : Option Bytes) (sent f a : Bytes)
      (service : RpcService io lib Task) (task : Task) (ends : net.SendStream × net.RecvStream)
      (before mid opened after : net.World)
      → codec.request.to_vec
          (record { service = service_name; resource = name; body = Body.notify (or_default body) })
        ≡ ok sent
      → lookup service_name services ≡ some service
      → lookup name service.resources ≡ some (notification_consumer task)
      → link.opened ≡ true
      → link.ack_error ≡ none
      → link.reply_error ≡ none
      → codec.response.to_vec (ok empty_response) ≡ ok f
      → codec.notification.to_vec (NotificationMsg.established service_name name) ≡ ok a
      → Carries net sent
          (reply_frames (served io lib Task env services cbs now codec link sent))
          before
          mid
      → net.accept_bi mid ≡ (ok ends, opened)
      → net.next ends.1 opened
        ≡ (first (ack_frames (served io lib Task env services cbs now codec link sent)), after)
      → notify net codec service_name name body before ≡ (ok ends, after)
  unfolding start_task
  notify-served net sn name body sent f a service task ends before mid opened after e h k o x y d g
        c u n =
      let request : Request = record {
        service = sn;
        resource = name;
        body = Body.notify (or_default body);
      } in
      let acts =
        served-notification sent f a request service task
          (codec.request.round_trip request sent tt e) h k o x y d g in
      let answered =
        exchange-Carries net codec request sent f [] (ok empty_response) before mid e d tt
          (subst (λ acts. Carries net sent (reply_frames acts) before mid) acts c) in
      let named =
        subst (λ acts. net.next ends.1 opened ≡ (first (ack_frames acts), after)) acts n in
      (notify_ok_iff net codec sn name body before mid opened after empty_response a sn name ends
          answered u named
          (codec.notification.round_trip (NotificationMsg.established sn name) a tt g)).1
        (refl, refl)

  -- What the server does for a raw stream where nothing fails.
  pub served-stream :
      (sent f : Bytes) (request : Request) (service : RpcService io lib Task) (task : Task)
      → codec.request.from_slice sent ≡ ok request
      → lookup request.service services ≡ some service
      → lookup request.resource service.resources ≡ some (stream_handler task)
      → link.opened ≡ true
      → link.ack_error ≡ none
      → link.reply_error ≡ none
      → codec.response.to_vec (ok empty_response) ≡ ok f
      → served io lib Task env services cbs now codec link sent
        ≡ open_bi ∷ write_raw ok_bytes ∷ reply f ∷ start_task io Task codec env task request ∷ []
  unfolding handle_stream read_and_deserialize_request route route_resource dispatch
      handle_stream_handler establish send_stream_ack confirm
  served-stream sent f request service task d h k o x y e =
      rw
        (
          served, handle_stream, read_and_deserialize_request, d, route, h, k, route_resource,
          dispatch, handle_stream_handler, establish, o, send_stream_ack, x, confirm, e, y,
        )
        refl

  -- A raw stream to a resource that the server has: where the request reaches `handle_stream`, its
  -- reply frame is carried back, the next accepted stream gives the bytes that were written on it, and no
  -- step of the server fails, `open_stream` returns the two halves of the accepted stream.
  pub open_stream-served :
      (net : Transport) (service_name name : String) (body : Option Bytes) (sent f : Bytes)
      (service : RpcService io lib Task) (task : Task) (ends : net.SendStream × net.RecvStream)
      (before mid opened after : net.World)
      → codec.request.to_vec
          (record { service = service_name; resource = name; body = Body.stream (or_default body) })
        ≡ ok sent
      → lookup service_name services ≡ some service
      → lookup name service.resources ≡ some (stream_handler task)
      → link.opened ≡ true
      → link.ack_error ≡ none
      → link.reply_error ≡ none
      → codec.response.to_vec (ok empty_response) ≡ ok f
      → Carries net sent
          (reply_frames (served io lib Task env services cbs now codec link sent))
          before
          mid
      → net.accept_bi mid ≡ (ok ends, opened)
      → net.read_exact ends.1 2 opened
        ≡ (raw_bytes (served io lib Task env services cbs now codec link sent), after)
      → open_stream net codec service_name name body before ≡ (ok ends, after)
  unfolding start_task
  open_stream-served net sn name body sent f service task ends before mid opened after e h k o x y d
        c u n =
      let request : Request = record {
        service = sn;
        resource = name;
        body = Body.stream (or_default body);
      } in
      let acts =
        served-stream sent f request service task (codec.request.round_trip request sent tt e) h k o
          x y d in
      let answered =
        exchange-Carries net codec request sent f [] (ok empty_response) before mid e d tt
          (subst (λ acts. Carries net sent (reply_frames acts) before mid) acts c) in
      let named = subst (λ acts. net.read_exact ends.1 2 opened ≡ (raw_bytes acts, after)) acts n in
      (open_stream_ok_iff net codec sn name body before mid opened after empty_response ends
          ok_bytes answered u named).1
        refl
