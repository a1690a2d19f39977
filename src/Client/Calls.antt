-- ===== src/Client/Calls.antt =====
-- client.rs against server.rs: `call_internal` on one side of a connection, `handle_stream` on the
-- other.
use zel.Prelude.{
  ℕ, ◌≡◌, refl, String, Bytes, Option, none, some, Result, ok, err, map_err, string_key, subst,
  List, [], ◌∷◌, lookup,
}
use zel.Types.Protocol.{Request, Body}
use zel.Types.Errors.{service_not_found, resource_not_found}
use zel.Wire.{Codec, HasPlainContext}
use zel.Platform.{Platform}
use zel.Breaker.Library.{BreakerLib}
use zel.Breaker.Peers.{PeerCircuitBreakers}
use zel.Context.{RequestContext, build_request_context, apply_middleware}
use zel.Handlers.Guard.{ResourceResponse, Rpc, execute_rpc_with_circuit_breaker}
use zel.Server.Registry.{rpc, RpcService, ServiceMap}
use zel.Server.Streams.{Action, reply, ack, Link, Env, send_response, send_error_response}
use zel.Server.Dispatch.{
  handle_rpc, dispatch, route_resource, route, handle_stream, read_and_deserialize_request,
}
use zel.Client.Errors.{resource}
use zel.Client.Transport.{Transport}
use zel.Client.Operations.{call_internal, exchange}

module _ {io : Platform} {Task : Type 0} where
  -- The frames of the request's stream.
  abbrev pub reply_frames : List (Action io Task) → List Bytes
  reply_frames [] = []
  reply_frames (reply b ∷ rest) = b ∷ reply_frames rest
  reply_frames (_ ∷ rest) = reply_frames rest

  -- The frames of the stream that the server opens.
  abbrev pub ack_frames : List (Action io Task) → List Bytes
  ack_frames [] = []
  ack_frames (ack b ∷ rest) = b ∷ ack_frames rest
  ack_frames (_ ∷ rest) = ack_frames rest

-- The first frame, as `next` gives it.
abbrev pub first : List Bytes → Option (Result Bytes String)
first [] = none
first (f ∷ _) = some (ok f)

-- The transport opens a stream in `before`, takes the frame `sent` on it, and gives the first of
-- `frames` back, which leaves `after`.
pub record Carries (net : Transport) (sent : Bytes) (frames : List Bytes) (before after : net.World)
    : Type 0 where
  pub stream : net.SendStream × net.RecvStream
  pub world_opened : net.World
  pub world_sent : net.World
  pub opens : net.open_bi before ≡ (ok stream, world_opened)
  pub sends : net.send stream.0 sent world_opened ≡ (ok tt, world_sent)
  pub gives : net.next stream.1 world_sent ≡ (first frames, after)

module _ (net : Transport) (codec : Codec) where
  -- A response that is carried back is the response that `exchange` returns.
  pub exchange-Carries :
      (request : Request) (sent f : Bytes) (rest : List Bytes) (r : ResourceResponse)
      (before after : net.World)
      → codec.request.to_vec request ≡ ok sent
      → codec.response.to_vec r ≡ ok f
      → HasPlainContext r
      → Carries net sent (f ∷ rest) before after
      → exchange net codec request before ≡ (ok r, after)
  unfolding exchange
  exchange-Carries request sent f rest r before after e d p c =
      rw (c.opens, e, c.sends, c.gives, codec.response.round_trip r f p d) refl

module _ (io : Platform) {F : Type 0} (lib : BreakerLib F) (Task : Type 0) (env : Env io)
    (services : ServiceMap io lib Task) (cbs : Option (PeerCircuitBreakers lib)) (now : ℕ) where
  -- The context that a callback is run with.
  abbrev pub context_of : Request → RequestContext io
  context_of request =
      apply_middleware io
        (build_request_context io env.connection env.endpoint request env.server_extensions
          env.connection_extensions env.shutdown_signal)
        env.request_middleware

  -- What a server promises to answer to a call.
  pub data Answers (request : Request) : ResourceResponse → Type 0 where
    unknown_service :
        lookup request.service services ≡ none
        → Answers request (err (service_not_found request.service))
    unknown_resource :
        (service : RpcService io lib Task)
        → lookup request.service services ≡ some service
        → lookup request.resource service.resources ≡ none
        → Answers request (err (resource_not_found request.service request.resource))
    called :
        (service : RpcService io lib Task) (callback : Rpc io lib)
        → lookup request.service services ≡ some service
        → lookup request.resource service.resources ≡ some (rpc callback)
        → Answers request
            (execute_rpc_with_circuit_breaker io lib callback
              (context_of request)
              request
              cbs
              now
              (io.remote_id env.connection)).0

  module _ (codec : Codec) (link : Link) where
    -- The server puts the promised answer in its only frame.
    pub handle_stream-Answers :
        (sent f : Bytes) (request : Request) (r : ResourceResponse)
        → codec.request.from_slice sent ≡ ok request
        → Answers request r
        → codec.response.to_vec r ≡ ok f
        → (handle_stream io lib Task codec env link services (some (ok sent)) cbs now).0.1
          ≡ reply f ∷ []
    unfolding handle_stream read_and_deserialize_request route route_resource dispatch handle_rpc
        send_response send_error_response
    handle_stream-Answers sent f request r d (unknown_service h) e =
        rw (handle_stream, read_and_deserialize_request, d, route, h, send_error_response, e) refl
    handle_stream-Answers sent f request r d (unknown_resource s h k) e =
        rw
          (
            handle_stream, read_and_deserialize_request, d, route, h, k, route_resource,
            send_error_response, e,
          )
          refl
    handle_stream-Answers sent f request r d (called s c h k) e =
        rw
          (
            handle_stream, read_and_deserialize_request, d, route, h, k, route_resource, dispatch,
            handle_rpc, send_response, e,
          )
          refl

    -- A call whose request reaches `handle_stream`, and whose reply frame is carried back, returns
    -- what the server promises: the error for an unknown service or resource, or else the result of
    -- `execute_rpc_with_circuit_breaker` on the callback, with or without breakers. The encoder has
    -- to take the request and the answer, and the answer has to be one that JSON keeps (no context
    -- that is `null`).
    pub call_internal-Answers :
        (net : Transport) (service name : String) (body sent f : Bytes) (r : ResourceResponse)
        (before after : net.World)
        → codec.request.to_vec (record { service = service; resource = name; body = Body.rpc body })
          ≡ ok sent
        → Answers (record { service = service; resource = name; body = Body.rpc body }) r
        → codec.response.to_vec r ≡ ok f
        → HasPlainContext r
        → Carries net sent
            (reply_frames
              (handle_stream io lib Task codec env link services (some (ok sent)) cbs now).0.1)
            before
            after
        → call_internal net codec service name body before ≡ (map_err resource r, after)
    unfolding call_internal
    call_internal-Answers net service name body sent f r before after e a d p c =
        let request : Request = record {
          service = service;
          resource = name;
          body = Body.rpc body;
        } in
        let served =
          handle_stream-Answers sent f request r (codec.request.round_trip request sent tt e) a d in
        rw
          (exchange-Carries net codec request sent f [] r before after e d p
            (subst (λ actions. Carries net sent (reply_frames actions) before after) served c))
          refl
