-- ===== src/Macros/Client/Subscribed.antt =====
-- A subscription of the generated client against a server that runs the generated service.
use zel.Prelude.{ℕ, ◌≡◌, Bytes, Option, none, true, Result, ok, List, [], ◌∷◌, string_key}
use mathlib.Core.List.{Memᴰ}
use zel.Prelude.Maps.{HasUniqueKeys}
use zel.Types.Protocol.{Request, SubscriptionMsg}
use zel.Types.Errors.{ResourceError}
use zel.Wire.{Codec}
use zel.Platform.{Platform}
use zel.Context.{RequestContext}
use zel.Breaker.Library.{BreakerLib}
use zel.Breaker.Peers.{PeerCircuitBreakers}
use zel.Server.Registry.{subscription_producer, ServiceMap, RpcServerBuilder}
use zel.Server.Streams.{Action, Link, Env, empty_response, start_task, open_uni, ack, reply, spawn}
use zel.Client.Transport.{Transport}
use zel.Client.Operations.{subscribe_body}
use zel.Client.Calls.{Carries, reply_frames, ack_frames, first, context_of}
use zel.Client.Subscribed.{served, served-subscription, subscribe-served}
use zel.Macros.Service.{Description, ServiceDescription}
use zel.Macros.Values.{Values, AreFaithful}
use zel.Macros.Codegen.{types_of, generate_param_serialization_optional}
use zel.Macros.Server.{
  Invocation, Task, invocation, subscription_data, render_subscription_registration,
  render_register_service_body,
}
use zel.Macros.Server.Lookups.{subscription, registered, find_resource-Declares}
use zel.Macros.Client.{render_client_subscription}
use zel.Macros.Client.Bodies.{call_of, invocation-serialization}
use zel.Macros.Client.Remote.{find_resource-some}

module _ (net : Transport) (codec : Codec) (io : Platform) {F : Type 0} (lib : BreakerLib F)
    {Ty : Type 0} (vals : Values Ty)
    (local : Invocation io lib vals → Result vals.Value ResourceError) (env : Env io)
    (cbs : Option (PeerCircuitBreakers lib)) (now : ℕ) (link : Link) (s : ServiceDescription Ty)
    (builder : RpcServerBuilder io lib (Task io lib vals)) where
  open vals use {Value, IsFaithful}

  abbrev pub services : ServiceMap io lib (Task io lib vals)
  services = (render_register_service_body io lib vals local s builder).services

  abbrev pub request_of : Description Ty → Option Bytes → Request
  request_of d body = record {
    service = s.service_name;
    resource = d.rpc_name;
    body = subscribe_body body;
  }

  abbrev pub server_actions : Bytes → List (Action io (Task io lib vals))
  server_actions sent = served io lib (Task io lib vals) env services cbs now codec link sent

  abbrev pub context : Request → RequestContext io
  context request = context_of io lib (Task io lib vals) env services cbs now request

  -- A subscription through the generated client, to a service that the generated code has registered
  -- under different names: where the request reaches the server, its frames are carried back, no step
  -- of the server fails, and JSON takes and keeps the arguments, the client gets the stream that the
  -- server has opened, and the last thing that the server does is to start a task, in the context of
  -- the request, that calls the user's method with the client's arguments.
  pub render_client_subscription-served :
      (d : Description Ty) (args : List Value) (body : Option Bytes) (sent f a : Bytes)
      (rx : net.RecvStream) (before mid opened after : net.World)
      → Memᴰ d s.described.subscriptions
      → HasUniqueKeys (registered io lib vals local s.described)
      → AreFaithful IsFaithful (types_of d.params) args
      → generate_param_serialization_optional vals args ≡ ok body
      → codec.request.to_vec (request_of d body) ≡ ok sent
      → link.opened ≡ true
      → link.ack_error ≡ none
      → link.reply_error ≡ none
      → codec.response.to_vec (ok empty_response) ≡ ok f
      → codec.subscription.to_vec (SubscriptionMsg.established s.service_name d.rpc_name) ≡ ok a
      → Carries net sent (reply_frames (server_actions sent)) before mid
      → net.accept_uni mid ≡ (ok rx, opened)
      → net.next rx opened ≡ (first (ack_frames (server_actions sent)), after)
      → (render_client_subscription net codec vals s.service_name d args before ≡ (ok rx, after))
        × (task : Task io lib vals) × (server_actions sent
            ≡ open_uni
              ∷ ack a
              ∷ reply f
              ∷ spawn task (context (request_of d body)) (request_of d body)
              ∷ [])
        × (task (context (request_of d body)) (request_of d body)
            ≡ ok (call_of vals io lib d (context (request_of d body)) args))
  unfolding render_client_subscription render_subscription_registration start_task
  render_client_subscription-served d args body sent f a rx before mid opened after i u g w e o x y
        r k c p n =
      let task : Task io lib vals =
        λ ctx request. invocation io lib vals d ctx (subscription_data request.body) in
      let found =
        (find_resource-Declares io lib vals local s builder d.rpc_name (subscription_producer task)
            u).1
          (subscription d i) in
      let (service, h, l) =
        find_resource-some io lib (Task io lib vals) services s.service_name d.rpc_name
          (subscription_producer task) found in
      let subscribed =
        subscribe-served io lib (Task io lib vals) env services cbs now codec link net
          s.service_name d.rpc_name body sent f a service task rx before mid opened after e h l o x
          y r k c p n in
      let acts =
        served-subscription io lib (Task io lib vals) env services cbs now codec link sent f a
          (request_of d body) service task (codec.request.round_trip (request_of d body) sent tt e)
          h l o x y r k in
      (
        rw w subscribed,
        task,
        acts,
        (invocation-serialization vals io lib d (context (request_of d body)) args body g w).0,
      )
