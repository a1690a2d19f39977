-- ===== src/Macros/Client/Bidirectional.antt =====
-- A notification and a raw stream of the generated client against a server that runs the generated
-- service.
use zel.Prelude.{ℕ, ◌≡◌, Bytes, Option, none, true, Result, ok, List, [], ◌∷◌, string_key}
use mathlib.Core.List.{Memᴰ}
use zel.Prelude.Maps.{HasUniqueKeys}
use zel.Types.Protocol.{Request, Body, NotificationMsg}
use zel.Types.Errors.{ResourceError}
use zel.Wire.{Codec}
use zel.Platform.{Platform}
use zel.Context.{RequestContext}
use zel.Breaker.Library.{BreakerLib}
use zel.Breaker.Peers.{PeerCircuitBreakers}
use zel.Server.Registry.{notification_consumer, stream_handler, ServiceMap, RpcServerBuilder}
use zel.Server.Streams.{
  Action, Link, Env, empty_response, start_task, open_bi, ack, write_raw, ok_bytes, reply, spawn,
}
use zel.Client.Transport.{Transport}
use zel.Client.Operations.{or_default}
use zel.Client.Calls.{Carries, reply_frames, ack_frames, first}
use zel.Client.Bidirectional.{
  raw_bytes, served-notification, notify-served, served-stream, open_stream-served,
}
use zel.Macros.Service.{Description, ServiceDescription}
use zel.Macros.Values.{Values, AreFaithful}
use zel.Macros.Codegen.{types_of, generate_param_serialization_optional}
use zel.Macros.Server.{
  Invocation, Task, invocation, notification_data, stream_data, render_notification_registration,
  render_stream_registration,
}
use zel.Macros.Server.Lookups.{notification, stream, registered, find_resource-Declares}
use zel.Macros.Client.{render_client_notification, render_client_stream}
use zel.Macros.Client.Bodies.{call_of, invocation-serialization}
use zel.Macros.Client.Remote.{find_resource-some}
use zel.Macros.Client.Subscribed.{services, server_actions, context}

module _ (net : Transport) (codec : Codec) (io : Platform) {F : Type 0} (lib : BreakerLib F)
    {Ty : Type 0} (vals : Values Ty)
    (local : Invocation io lib vals → Result vals.Value ResourceError) (env : Env io)
    (cbs : Option (PeerCircuitBreakers lib)) (now : ℕ) (link : Link) (s : ServiceDescription Ty)
    (builder : RpcServerBuilder io lib (Task io lib vals)) where
  open vals use {Value, IsFaithful}

  abbrev pub notify_request : Description Ty → Option Bytes → Request
  notify_request d body = record {
    service = s.service_name;
    resource = d.rpc_name;
    body = Body.notify (or_default body);
  }

  abbrev pub stream_request : Description Ty → Option Bytes → Request
  stream_request d body = record {
    service = s.service_name;
    resource = d.rpc_name;
    body = Body.stream (or_default body);
  }

  abbrev running : ServiceMap io lib (Task io lib vals)
  running = services net codec io lib vals local env cbs now link s builder

  abbrev acted : Bytes → List (Action io (Task io lib vals))
  acted sent = server_actions net codec io lib vals local env cbs now link s builder sent

  abbrev in_context : Request → RequestContext io
  in_context request = context net codec io lib vals local env cbs now link s builder request

  -- A notification through the generated client, to a service that the generated code has registered
  -- under different names: where the request reaches the server, its frames are carried back, no step
  -- of the server fails, and JSON takes and keeps the arguments, the client gets the two halves of
  -- the stream that the server has opened, and the last thing that the server does is to start a
  -- task, in the context of the request, that calls the user's method with the client's arguments.
  pub render_client_notification-served :
      (d : Description Ty) (args : List Value) (body : Option Bytes) (sent f a : Bytes)
      (ends : net.SendStream × net.RecvStream) (before mid opened after : net.World)
      → Memᴰ d s.described.notifications
      → HasUniqueKeys (registered io lib vals local s.described)
      → AreFaithful IsFaithful (types_of d.params) args
      → generate_param_serialization_optional vals args ≡ ok body
      → codec.request.to_vec (notify_request d body) ≡ ok sent
      → link.opened ≡ true
      → link.ack_error ≡ none
      → link.reply_error ≡ none
      → codec.response.to_vec (ok empty_response) ≡ ok f
      → codec.notification.to_vec (NotificationMsg.established s.service_name d.rpc_name) ≡ ok a
      → Carries net sent (reply_frames (acted sent)) before mid
      → net.accept_bi mid ≡ (ok ends, opened)
      → net.next ends.1 opened ≡ (first (ack_frames (acted sent)), after)
      → (render_client_notification net codec vals s.service_name d args before ≡ (ok ends, after))
        × (task : Task io lib vals) × (acted sent
            ≡ open_bi
              ∷ ack a
              ∷ reply f
              ∷ spawn task (in_context (notify_request d body)) (notify_request d body)
              ∷ [])
        × (task (in_context (notify_request d body)) (notify_request d body)
            ≡ ok (call_of vals io lib d (in_context (notify_request d body)) args))
  unfolding render_client_notification render_notification_registration start_task
  render_client_notification-served d args body sent f a ends before mid opened after i u g w e o x
        y r k c p n =
      let task : Task io lib vals =
        λ ctx request. invocation io lib vals d ctx (notification_data request.body) in
      let found =
        (find_resource-Declares io lib vals local s builder d.rpc_name (notification_consumer task)
            u).1
          (notification d i) in
      let (service, h, l) =
        find_resource-some io lib (Task io lib vals) running s.service_name d.rpc_name
          (notification_consumer task) found in
      let opens =
        notify-served io lib (Task io lib vals) env running cbs now codec link net s.service_name
          d.rpc_name body sent f a service task ends before mid opened after e h l o x y r k c p
          n in
      let acts =
        served-notification io lib (Task io lib vals) env running cbs now codec link sent f a
          (notify_request d body) service task
          (codec.request.round_trip (notify_request d body) sent tt e) h l o x y r k in
      (
        rw w opens,
        task,
        acts,
        (invocation-serialization vals io lib d (in_context (notify_request d body)) args body g
            w).1,
      )

  -- A raw stream through the generated client, to a service that the generated code has registered
  -- under different names: where the request reaches the server, its reply frame and the bytes that
  -- it writes on the new stream are carried back, no step of the server fails, and JSON takes and
  -- keeps the arguments, the client gets the two halves of the stream that the server has opened, and
  -- the last thing that the server does is to start a task, in the context of the request, that calls
  -- the user's method with the client's arguments.
  pub render_client_stream-served :
      (d : Description Ty) (args : List Value) (body : Option Bytes) (sent f : Bytes)
      (ends : net.SendStream × net.RecvStream) (before mid opened after : net.World)
      → Memᴰ d s.described.streams
      → HasUniqueKeys (registered io lib vals local s.described)
      → AreFaithful IsFaithful (types_of d.params) args
      → generate_param_serialization_optional vals args ≡ ok body
      → codec.request.to_vec (stream_request d body) ≡ ok sent
      → link.opened ≡ true
      → link.ack_error ≡ none
      → link.reply_error ≡ none
      → codec.response.to_vec (ok empty_response) ≡ ok f
      → Carries net sent (reply_frames (acted sent)) before mid
      → net.accept_bi mid ≡ (ok ends, opened)
      → net.read_exact ends.1 2 opened ≡ (raw_bytes (acted sent), after)
      → (render_client_stream net codec vals s.service_name d args before ≡ (ok ends, after))
        × (task : Task io lib vals) × (acted sent
            ≡ open_bi
              ∷ write_raw ok_bytes
              ∷ reply f
              ∷ spawn task (in_context (stream_request d body)) (stream_request d body)
              ∷ [])
        × (task (in_context (stream_request d body)) (stream_request d body)
            ≡ ok (call_of vals io lib d (in_context (stream_request d body)) args))
  unfolding render_client_stream render_stream_registration start_task
  render_client_stream-served d args body sent f ends before mid opened after i u g w e o x y r c p
        n =
      let task : Task io lib vals =
        λ ctx request. invocation io lib vals d ctx (stream_data request.body) in
      let found =
        (find_resource-Declares io lib vals local s builder d.rpc_name (stream_handler task) u).1
          (stream d i) in
      let (service, h, l) =
        find_resource-some io lib (Task io lib vals) running s.service_name d.rpc_name
          (stream_handler task) found in
      let opens =
        open_stream-served io lib (Task io lib vals) env running cbs now codec link net
          s.service_name d.rpc_name body sent f service task ends before mid opened after e h l o x
          y r c p n in
      let acts =
        served-stream io lib (Task io lib vals) env running cbs now codec link sent f
          (stream_request d body) service task
          (codec.request.round_trip (stream_request d body) sent tt e) h l o x y r in
      (
        rw w opens,
        task,
        acts,
        (invocation-serialization vals io lib d (in_context (stream_request d body)) args body g
            w).2,
      )
