-- ===== src/Server/Replies.antt =====
-- Every request is answered once, whatever branch it takes.
use zel.Prelude.{
  ℕ, ◌≡◌, refl, String, Bytes, Bool, true, false, Option, none, some, ok, err, List, lookup,
  string_key, count, count-append, arith, concat,
}
use zel.Types.Protocol.{Request}
use zel.Types.Errors.{ResourceError, service_not_found, resource_not_found}
use zel.Wire.{Codec}
use zel.Platform.{Platform}
use zel.Breaker.Library.{BreakerLib}
use zel.Breaker.Peers.{PeerCircuitBreakers}
use zel.Handlers.Guard.{ResourceResponse}
use zel.Server.Registry.{
  ResourceCallback, rpc, subscription_producer, notification_consumer, stream_handler, RpcService,
  ServiceMap,
}
use zel.Server.Streams.{
  Link, Env, Action, reply, send_response, send_error_response, send_subscription_ack,
  send_notification_ack, send_stream_ack, confirm, establish, handle_subscription,
  handle_notification, handle_stream_handler, Handled, start_task, callback_failure, empty_response,
}
use zel.Server.Dispatch.{
  handle_rpc, dispatch, route_resource, route, handle_stream, read_and_deserialize_request,
}

module _ (io : Platform) (Task : Type 0) (codec : Codec) where
  open codec use {response}

  abbrev pub is_reply : Action io Task → Bool
  is_reply (reply b) = true
  is_reply _ = false

  -- The encoder never fails on a response.
  abbrev pub Encodes : Type 0
  Encodes = (r : ResourceResponse) → (b : Bytes) × (response.to_vec r ≡ ok b)

  abbrev pub replies : List (Action io Task) → ℕ
  replies = count is_reply

  error_replies : Encodes → (e : ResourceError) → replies (send_error_response io Task codec e) ≡ 1
  unfolding send_error_response
  error_replies total e = let (b, h) = total (err e) in rw (h, count) refl

  pub response_replies :
      Encodes → (r : ResourceResponse) → replies (send_response io Task codec r).1 ≡ 1
  unfolding send_response
  response_replies total r = let (b, h) = total r in rw (h, count) refl

  replies-confirm :
      Encodes
      → (link : Link) (failure : String) (task : Action io Task) → is_reply task ≡ false
      → replies (confirm io Task codec link failure task).1 ≡ 1
  unfolding confirm
  replies-confirm total link failure task h =
      let (b, e) = total (ok empty_response) in rw (e, count) (ground arith)

  replies-establish :
      Encodes
      → (link : Link) (refused prefix : String) (acked confirmed : Handled io Task)
      → replies acked.1 ≡ 0
      → replies confirmed.1 ≡ 1
      → replies (establish io Task codec link refused prefix acked confirmed).1 ≡ 1
  unfolding establish
  replies-establish total link refused prefix (ok _, done) (r, rest) a c = ground (
    arith,
    count-append is_reply done rest,
    error_replies total (callback_failure io Task codec refused),
  )
  replies-establish total link refused prefix (err e, done) (r, rest) a c = ground (
    arith,
    error_replies total (callback_failure io Task codec refused),
    error_replies total (callback_failure io Task codec (concat prefix e)),
    count-append is_reply done
        (send_error_response io Task codec (callback_failure io Task codec (concat prefix e))),
  )

  subscription_ack_replies :
      (link : Link) (request : Request)
      → replies (send_subscription_ack io Task codec link request).1 ≡ 0
  unfolding send_subscription_ack
  subscription_ack_replies link request = ground arith

  notification_ack_replies :
      (link : Link) (request : Request)
      → replies (send_notification_ack io Task codec link request).1 ≡ 0
  unfolding send_notification_ack
  notification_ack_replies link request = ground arith

  -- A task that is started is not a reply.
  start_task_replies :
      (env : Env io) (task : Task) (request : Request)
      → is_reply (start_task io Task codec env task request) ≡ false
  unfolding start_task
  start_task_replies env task request = refl

  module _ (total : Encodes) (env : Env io) (link : Link) (task : Task) (request : Request) where
    subscription_replies : replies (handle_subscription io Task codec env link task request).1 ≡ 1
    unfolding handle_subscription
    subscription_replies =
        let start = start_task io Task codec env task request in
        let failure : String = "failed to serialize response something really bad is happening" in
        replies-establish total link "Failed to establish stream" "Failed to send ack: "
          (send_subscription_ack io Task codec link request)
          (confirm io Task codec link failure start) (subscription_ack_replies link request)
          (replies-confirm total link failure start (start_task_replies env task request))

    notification_replies : replies (handle_notification io Task codec env link task request).1 ≡ 1
    unfolding handle_notification
    notification_replies =
        let start = start_task io Task codec env task request in
        let failure : String = "failed to serialize notification response" in
        replies-establish total link "Failed to establish notification stream"
          "Failed to send ack: " (send_notification_ack io Task codec link request)
          (confirm io Task codec link failure start) (notification_ack_replies link request)
          (replies-confirm total link failure start (start_task_replies env task request))

    stream_replies : replies (handle_stream_handler io Task codec env link task request).1 ≡ 1
    unfolding handle_stream_handler send_stream_ack
    stream_replies =
        let start = start_task io Task codec env task request in
        let failure : String = "failed to serialize response something really bad is happening" in
        replies-establish total link "Failed to open bidi stream" "Failed to send stream ACK: "
          (send_stream_ack io Task codec link) (confirm io Task codec link failure start) refl
          (replies-confirm total link failure start (start_task_replies env task request))

  module _ {F : Type 0} (lib : BreakerLib F) (total : Encodes) (env : Env io) (link : Link) where
    replies-dispatch :
        (resource : ResourceCallback io lib Task) (request : Request)
        (cbs : Option (PeerCircuitBreakers lib)) (now : ℕ)
        → replies (dispatch io lib Task codec env link resource request cbs now).0.1 ≡ 1
    unfolding dispatch handle_rpc
    replies-dispatch (rpc callback) request cbs now = response_replies total _
    replies-dispatch (subscription_producer task) request cbs now =
        subscription_replies total env link task request
    replies-dispatch (notification_consumer task) request cbs now =
        notification_replies total env link task request
    replies-dispatch (stream_handler task) request cbs now =
        stream_replies total env link task request

    replies-route_resource :
        (r : Option (ResourceCallback io lib Task)) (request : Request)
        (cbs : Option (PeerCircuitBreakers lib)) (now : ℕ)
        → replies (route_resource io lib Task codec env link r request cbs now).0.1 ≡ 1
    unfolding route_resource
    replies-route_resource none request cbs now =
        error_replies total (resource_not_found request.service request.resource)
    replies-route_resource (some resource) request cbs now =
        replies-dispatch resource request cbs now

    replies-route :
        (s : Option (RpcService io lib Task)) (request : Request)
        (cbs : Option (PeerCircuitBreakers lib)) (now : ℕ)
        → replies (route io lib Task codec env link s request cbs now).0.1 ≡ 1
    unfolding route
    replies-route none request cbs now = error_replies total (service_not_found request.service)
    replies-route (some service) request cbs now =
        replies-route_resource (lookup request.resource service.resources) request cbs now

    -- Where the encoder fails on no response, a stream whose first frame decodes to a request is
    -- answered by sending exactly one reply frame: for an unknown service or resource, for an RPC with
    -- or without a circuit breaker, and for the three streaming handlers whether or not the new stream
    -- opens, the acknowledgment on it can be encoded and sent, and the sending of the reply succeeds.
    pub handle_stream-replies_once :
        (services : ServiceMap io lib Task) (bytes : Bytes) (request : Request)
        (cbs : Option (PeerCircuitBreakers lib)) (now : ℕ)
        → codec.request.from_slice bytes ≡ ok request
        → replies (handle_stream io lib Task codec env link services (some (ok bytes)) cbs now).0.1
          ≡ 1
    unfolding handle_stream read_and_deserialize_request
    handle_stream-replies_once services bytes request cbs now h =
        rw (handle_stream, read_and_deserialize_request, h)
          (replies-route (lookup request.service services) request cbs now)
