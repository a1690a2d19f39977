-- ===== src/Client/Subscribed.antt =====
-- client.rs against the handlers: `subscribe` on one side of a connection, `handle_subscription` on
-- the other.
use zel.Prelude.{
  ℕ, ◌≡◌, refl, subst, String, Bytes, true, none, some, Option, ok, string_key, List, [], ◌∷◌,
  lookup,
}
use zel.Types.Protocol.{Request, SubscriptionMsg}
use zel.Wire.{Codec}
use zel.Platform.{Platform}
use zel.Breaker.Library.{BreakerLib}
use zel.Breaker.Peers.{PeerCircuitBreakers}
use zel.Server.Registry.{subscription_producer, RpcService, ServiceMap}
use zel.Server.Streams.{
  Action, Link, Env, handle_subscription, establish, confirm, send_subscription_ack, empty_response,
  start_task, open_uni, reply, ack,
}
use zel.Server.Dispatch.{
  dispatch, route_resource, route, handle_stream, read_and_deserialize_request,
}
use zel.Client.Transport.{Transport}
use zel.Client.Operations.{subscribe, subscribe_body}
use zel.Client.Calls.{Carries, reply_frames, ack_frames, first, exchange-Carries}
use zel.Client.Established.{subscribe_ok_iff}

module _ (io : Platform) {F : Type 0} (lib : BreakerLib F) (Task : Type 0) (env : Env io)
    (services : ServiceMap io lib Task) (cbs : Option (PeerCircuitBreakers lib)) (now : ℕ)
    (codec : Codec) (link : Link) where
  abbrev pub served : Bytes → List (Action io Task)
  served sent = (handle_stream io lib Task codec env link services (some (ok sent)) cbs now).0.1

  -- What the server does for a subscription where nothing fails.
  pub served-subscription :
      (sent f a : Bytes) (request : Request) (service : RpcService io lib Task) (task : Task)
      → codec.request.from_slice sent ≡ ok request
      → lookup request.service services ≡ some service
      → lookup request.resource service.resources ≡ some (subscription_producer task)
      → link.opened ≡ true
      → link.ack_error ≡ none
      → link.reply_error ≡ none
      → codec.response.to_vec (ok empty_response) ≡ ok f
      → codec.subscription.to_vec (SubscriptionMsg.established request.service request.resource)
        ≡ ok a
      → served sent ≡ open_uni ∷ ack a ∷ reply f ∷ start_task io Task codec env task request ∷ []
  unfolding handle_stream read_and_deserialize_request route route_resource dispatch
      handle_subscription establish send_subscription_ack confirm
  served-subscription sent f a request service task d h k o x y e g =
      rw
        (
          served, handle_stream, read_and_deserialize_request, d, route, h, k, route_resource,
          dispatch, handle_subscription, establish, o, send_subscription_ack, g, x, confirm, e, y,
        )
        refl

  -- A subscription to a resource that the server has: where the request reaches `handle_stream`, its
  -- reply frame is carried back, the next accepted stream gives its acknowledgment frame, and no
  -- step of the server fails, `subscribe` returns the accepted stream.
  pub subscribe-served :
      (net : Transport) (service_name name : String) (body : Option Bytes) (sent f a : Bytes)
      (service : RpcService io lib Task) (task : Task) (rx : net.RecvStream)
      (before mid opened after : net.World)
      → codec.request.to_vec
          (record { service = service_name; resource = name; body = subscribe_body body })
        ≡ ok sent
      → lookup service_name services ≡ some service
      → lookup name service.resources ≡ some (subscription_producer task)
      → link.opened ≡ true
      → link.ack_error ≡ none
      → link.reply_error ≡ none
      → codec.response.to_vec (ok empty_response) ≡ ok f
      → codec.subscription.to_vec (SubscriptionMsg.established service_name name) ≡ ok a
      → Carries net sent (reply_frames (served sent)) before mid
      → net.accept_uni mid ≡ (ok rx, opened)
      → net.next rx opened ≡ (first (ack_frames (served sent)), after)
      → subscribe net codec service_name name body before ≡ (ok rx, after)
  unfolding start_task
  subscribe-served net sn name body sent f a service task rx before mid opened after e h k o x y d g
        c u n =
      let request : Request = record {
        service = sn;
        resource = name;
        body = subscribe_body body;
      } in
      let acts =
        served-subscription sent f a request service task
          (codec.request.round_trip request sent tt e) h k o x y d g in
      let answered =
        exchange-Carries net codec request sent f [] (ok empty_response) before mid e d tt
          (subst (λ acts. Carries net sent (reply_frames acts) before mid) acts c) in
      let named = subst (λ acts. net.next rx opened ≡ (first (ack_frames acts), after)) acts n in
      (subscribe_ok_iff net codec sn name body before mid opened after empty_response a sn name rx
          answered u named
          (codec.subscription.round_trip (SubscriptionMsg.established sn name) a tt g)).1
        (refl, refl)
