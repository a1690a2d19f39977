-- ===== src/Context.antt =====
-- zel_core/src/protocol/context.rs, and the helpers of handlers/helpers.rs that build a context.
pub mod Layers
use zel.Prelude.{ℕ, ◌≡◌, refl, String, List, [], ◌∷◌, ◌++◌}
use zel.Types.Protocol.{Request}
use zel.Extensions.{Extensions, with_value}
use zel.Extensions
use zel.Platform.{Platform}

module _ (io : Platform) where
  pub record RequestContext : Type 0 where
    pub connection : io.Connection
    pub endpoint : io.Endpoint
    pub service : String
    pub resource : String
    pub server_extensions : Extensions io.Value
    pub connection_extensions : Extensions io.Value
    pub request_extensions : Extensions io.Value
    pub shutdown_signal : io.Notify

  unfoldable pub new :
      io.Connection
      → io.Endpoint
      → String
      → String
      → Extensions io.Value
      → Extensions io.Value
      → io.Notify
      → RequestContext
  new connection endpoint service resource server_ext conn_ext signal = record {
    connection = connection;
    endpoint = endpoint;
    service = service;
    resource = resource;
    server_extensions = server_ext;
    connection_extensions = conn_ext;
    request_extensions = Extensions.new;
    shutdown_signal = signal;
  }

  unfoldable pub remote_id : RequestContext → ℕ
  remote_id c = io.remote_id c.connection

  unfoldable pub with_extension : ℕ → io.Value → RequestContext → RequestContext
  with_extension t v c = record c { request_extensions = with_value t v c.request_extensions }

  unfoldable pub build_request_context :
      io.Connection
      → io.Endpoint
      → Request
      → Extensions io.Value
      → Extensions io.Value
      → io.Notify
      → RequestContext
  unfolding new
  build_request_context connection endpoint request server_ext conn_ext signal =
      new connection endpoint request.service request.resource server_ext conn_ext signal

  abbrev pub Middleware : Type 0
  Middleware = RequestContext → RequestContext

  -- `for middleware in &request_middleware { ctx = middleware(ctx).await; }`
  unfoldable pub apply_middleware : RequestContext → List Middleware → RequestContext
  apply_middleware ctx [] = ctx
  apply_middleware ctx (m ∷ ms) = apply_middleware (m ctx) ms

  -- The middleware runs in the order in which it was added: what was added later receives the
  -- context that all that was added before made.
  pub apply_middleware-append :
      (ctx : RequestContext) (ms ns : List Middleware)
      → apply_middleware ctx (ms ++ ns) ≡ apply_middleware (apply_middleware ctx ms) ns
  unfolding apply_middleware
  apply_middleware-append ctx [] ns = refl
  apply_middleware-append ctx (m ∷ ms) ns = apply_middleware-append (m ctx) ms ns
