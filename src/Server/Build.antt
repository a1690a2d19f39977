-- ===== src/Server/Build.antt =====
-- builder.rs and protocol/mod.rs: the server that a builder makes, and the handle that shuts it down.
-- `record_stats` puts a `CircuitBreakerStats` under its type.
use zel.Prelude.{
  ℕ, ◌≡◌, refl, Bytes, false, Option, none, some, List, nat_beq, if◌then◌else◌, Bool-cases, inl,
  inr,
}
use zel.Platform.{Platform}
use zel.Context.{Middleware}
use zel.Extensions.{Extensions, with_value, get, get-with_value}
use zel.Breaker.Library.{BreakerLib}
use zel.Breaker.Peers.{PeerCircuitBreakers}
use zel.Breaker.Peers
use zel.Breaker.Config.{CircuitBreakerConfig}
use zel.Server.Registry.{ServiceMap, ConnectionHook, RpcServerBuilder}
use zel.Shutdown.{NotifyLib}
use zel.Shutdown.Tracker
use zel.Shutdown.Handle.{ShutdownHandle}

module _ (io : Platform) {F : Type 0} (lib : BreakerLib F) (Task : Type 0) (notifier : NotifyLib)
    (stats_type : ℕ) (stats_value : PeerCircuitBreakers lib → io.Value) where
  -- The signal, the flag and the tracker are shared with every handle: `shutdown` is all three.
  pub record RpcServer : Type 0 where
    pub alpn : Bytes
    pub endpoint : io.Endpoint
    pub services : ServiceMap io lib Task
    pub server_extensions : Extensions io.Value
    pub connection_hook : Option (ConnectionHook io lib Task)
    pub request_middleware : List (Middleware io)
    pub circuit_breakers : Option (PeerCircuitBreakers lib)
    pub shutdown : ShutdownHandle notifier

  abbrev pub breakers_and_extensions :
      Option (CircuitBreakerConfig F)
      → Extensions io.Value
      → Option (PeerCircuitBreakers lib) × Extensions io.Value
  breakers_and_extensions none x = (none, x)
  breakers_and_extensions (some config) x =
      let breakers = Peers.new lib config in
      (some breakers, with_value stats_type (stats_value breakers) x)

  unfoldable pub initialize_circuit_breakers :
      RpcServerBuilder io lib Task → Option (PeerCircuitBreakers lib) × Extensions io.Value
  initialize_circuit_breakers b =
      breakers_and_extensions b.circuit_breaker_config b.server_extensions

  unfoldable pub new_shutdown : ShutdownHandle notifier
  new_shutdown = record {
    shutdown_signal = notifier.fresh;
    is_shutting_down = false;
    task_tracker = Tracker.new notifier;
  }

  -- The handle is the server's own `shutdown`, so `build_with_shutdown` returns this beside it.
  unfoldable pub build : RpcServerBuilder io lib Task → RpcServer
  unfolding initialize_circuit_breakers new_shutdown
  build b =
      let (breakers, extensions) = initialize_circuit_breakers b in
      record {
        alpn = b.alpn;
        endpoint = b.endpoint;
        services = b.services;
        server_extensions = extensions;
        connection_hook = b.connection_hook;
        request_middleware = b.request_middleware;
        circuit_breakers = breakers;
        shutdown = new_shutdown;
      }

  unfoldable pub build_with_shutdown :
      RpcServerBuilder io lib Task → RpcServer × ShutdownHandle notifier
  unfolding build
  build_with_shutdown b = (build b, (build b).shutdown)

  -- What a handler finds under the type of the statistics.
  abbrev pub found_stats : Option (PeerCircuitBreakers lib) → Option io.Value → Option io.Value
  found_stats none found = found
  found_stats (some breakers) found = some (stats_value breakers)

  get-extensions :
      (c : Option (CircuitBreakerConfig F)) (x : Extensions io.Value) (t : ℕ)
      → get t (breakers_and_extensions c x).1 ≡ (
          if nat_beq stats_type t
          then found_stats (breakers_and_extensions c x).0 (get t x)
          else get t x)
  get-extensions none x t = elim (Bool-cases (nat_beq stats_type t)) [
    | inl same ↦ rw same refl
    | inr other ↦ rw other refl
  ]
  get-extensions (some config) x t =
      get-with_value stats_type t (stats_value (Peers.new lib config)) x

  -- A built server has circuit breakers exactly as they are configured; handlers find under the type
  -- of the statistics those of the server's own breakers, and under every other type, or without
  -- breakers, what the user's extensions hold.
  pub get-build :
      (b : RpcServerBuilder io lib Task) (t : ℕ)
      → get t (build b).server_extensions ≡ (
          if nat_beq stats_type t
          then found_stats (build b).circuit_breakers (get t b.server_extensions)
          else get t b.server_extensions)
  unfolding build initialize_circuit_breakers
  get-build b t = get-extensions b.circuit_breaker_config b.server_extensions t
