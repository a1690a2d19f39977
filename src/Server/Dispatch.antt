-- ===== src/Server/Dispatch.antt =====
-- server.rs and handlers/rpc.rs: one incoming stream from its first frame to its handler, and the
-- loop that accepts the streams of a connection.
use zel.Prelude.{
  ℕ, String, Bytes, Bool, true, false, Option, none, some, Result, ok, err, List, [], ◌∷◌, lookup,
  string_key,
}
use zel.Types.Protocol.{Request}
use zel.Types.Errors.{service_not_found, resource_not_found}
use zel.Wire.{Codec}
use zel.Platform.{Platform}
use zel.Extensions.{Extensions}
use zel.Extensions
use zel.Context.{build_request_context, apply_middleware}
use zel.Breaker.Library.{BreakerLib}
use zel.Breaker.Peers.{PeerCircuitBreakers}
use zel.Handlers.Guard.{Rpc, execute_rpc_with_circuit_breaker}
use zel.Server.Registry.{
  ResourceCallback, rpc, subscription_producer, notification_consumer, stream_handler, RpcService,
  ServiceMap,
}
use zel.Server.Streams.{
  Link, Env, Handled, send_response, send_error_response, handle_subscription, handle_notification,
  handle_stream_handler,
}

-- `Ok(None)` for a stream that closes before its request.
unfoldable pub read_and_deserialize_request :
    Codec → Option (Result Bytes String) → Result (Option Request) String
read_and_deserialize_request codec none = ok none
read_and_deserialize_request codec (some (err e)) = err e
read_and_deserialize_request codec (some (ok bytes)) = elim (codec.request.from_slice bytes) [
  | ok request ↦ ok (some request)
  | err e ↦ err e
]

module _ (io : Platform) {F : Type 0} (lib : BreakerLib F) (Task : Type 0) where
  -- What a handler does, and the breakers that it leaves.
  abbrev pub Served : Type 0
  Served = Handled io Task × Option (PeerCircuitBreakers lib)

  module _ (codec : Codec) (env : Env io) where
    unfoldable pub handle_rpc :
        Rpc io lib → Request → Option (PeerCircuitBreakers lib) → (now : ℕ) → Served
    handle_rpc callback request cbs now =
        let ctx =
          apply_middleware io
            (build_request_context io env.connection env.endpoint request env.server_extensions
              env.connection_extensions env.shutdown_signal)
            env.request_middleware in
        let (r, cbs') =
          execute_rpc_with_circuit_breaker io lib callback ctx request cbs now
            (io.remote_id env.connection) in
        (send_response io Task codec r, cbs')

    -- The `match resource` of `handle_stream`.
    unfoldable pub dispatch :
        Link
        → ResourceCallback io lib Task
        → Request
        → Option (PeerCircuitBreakers lib)
        → (now : ℕ) → Served
    unfolding handle_rpc
    dispatch link (rpc callback) request cbs now = handle_rpc callback request cbs now
    dispatch link (subscription_producer task) request cbs now =
        (handle_subscription io Task codec env link task request, cbs)
    dispatch link (notification_consumer task) request cbs now =
        (handle_notification io Task codec env link task request, cbs)
    dispatch link (stream_handler task) request cbs now =
        (handle_stream_handler io Task codec env link task request, cbs)

    unfoldable pub route_resource :
        Link
        → Option (ResourceCallback io lib Task)
        → Request
        → Option (PeerCircuitBreakers lib)
        → (now : ℕ) → Served
    unfolding dispatch
    route_resource link none request cbs now = (
      (
        ok tt,
        send_error_response io Task codec (resource_not_found request.service request.resource),
      ),
      cbs,
    )
    route_resource link (some resource) request cbs now = dispatch link resource request cbs now

    unfoldable pub route :
        Link
        → Option (RpcService io lib Task)
        → Request
        → Option (PeerCircuitBreakers lib)
        → (now : ℕ) → Served
    unfolding route_resource
    route link none request cbs now =
        ((ok tt, send_error_response io Task codec (service_not_found request.service)), cbs)
    route link (some service) request cbs now =
        route_resource link (lookup request.resource service.resources) request cbs now

    unfoldable pub handle_stream :
        Link
        → ServiceMap io lib Task
        → Option (Result Bytes String)
        → Option (PeerCircuitBreakers lib)
        → (now : ℕ) → Served
    unfolding read_and_deserialize_request route
    handle_stream link services frame cbs now = elim (read_and_deserialize_request codec frame) [
      | err e ↦ ((err e, []), cbs)
      | ok none ↦ ((ok tt, []), cbs)
      | ok (some request) ↦ route link (lookup request.service services) request cbs now
    ]

-- What the accept loop of a connection sees: the shutdown signal, or the result of `accept_bi`
-- beside the shutdown flag at that moment.
pub data Arrival (S : Type 0) : Type 0 where
  shutdown_signalled : Arrival S
  accepted : (is_shutting_down : Bool) → Result S String → Arrival S

-- The streams for which `connection_handler` spawns a handler, each with a task guard.
unfoldable pub accept_streams : {S : Type 0} → List (Arrival S) → List S
accept_streams [] = []
accept_streams (shutdown_signalled ∷ rest) = []
accept_streams (accepted true r ∷ rest) = []
accept_streams (accepted false (err e) ∷ rest) = []
accept_streams (accepted false (ok s) ∷ rest) = s ∷ accept_streams rest

-- The extensions of a connection: empty where there is no hook, and where the hook fails.
unfoldable pub connection_extensions :
    {V C : Type 0}
    → Option (C → Extensions V → Result (Extensions V) String)
    → C
    → Extensions V
    → Extensions V
connection_extensions none c server_ext = Extensions.new
connection_extensions (some hook) c server_ext = elim (hook c server_ext) [
  | ok ext ↦ ext
  | err e ↦ Extensions.new
]
