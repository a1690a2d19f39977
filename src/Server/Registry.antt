-- ===== src/Server/Registry.antt =====
-- builder.rs and protocol/mod.rs: the services of a server, their resources, and the builders that
-- register them. What a streaming callback does with its streams is user code: `Task` stands for it.
use zel.Prelude.{
  ◌≡◌, refl, ap, ◌∙◌, String, Option, none, some, List, [], ◌∷◌, ◌++◌, HashMap, lookup, insert,
  string_key, lookup-insert, ◌==◌, if◌then◌else◌, Result, Bool-cases, inl, inr, Bytes,
}
use zel.Platform.{Platform}
use zel.Context.{Middleware}
use zel.Extensions.{Extensions}
use zel.Breaker.Config.{CircuitBreakerConfig}
use zel.Breaker.Library.{BreakerLib}
use zel.Extensions
use zel.Handlers.Guard.{Rpc}

module _ (io : Platform) {F : Type 0} (lib : BreakerLib F) (Task : Type 0) where
  pub data ResourceCallback : Type 0 where
    rpc : Rpc io lib → ResourceCallback
    subscription_producer : Task → ResourceCallback
    notification_consumer : Task → ResourceCallback
    stream_handler : Task → ResourceCallback

  pub record RpcService : Type 0 where
    pub service : String
    pub resources : HashMap String ResourceCallback

  abbrev pub ServiceMap : Type 0
  ServiceMap = HashMap String RpcService

  -- A hook that fails leaves its error as a text.
  abbrev pub ConnectionHook : Type 0
  ConnectionHook = io.Connection → Extensions io.Value → Result (Extensions io.Value) String

  pub record RpcServerBuilder : Type 0 where
    pub alpn : Bytes
    pub endpoint : io.Endpoint
    pub services : ServiceMap
    pub server_extensions : Extensions io.Value
    pub connection_hook : Option ConnectionHook
    pub request_middleware : List (Middleware io)
    pub circuit_breaker_config : Option (CircuitBreakerConfig F)

  unfoldable pub new : Bytes → io.Endpoint → RpcServerBuilder
  new alpn endpoint = record {
    alpn = alpn;
    endpoint = endpoint;
    services = [];
    server_extensions = Extensions.new;
    connection_hook = none;
    request_middleware = [];
    circuit_breaker_config = none;
  }

  unfoldable pub with_extensions : RpcServerBuilder → Extensions io.Value → RpcServerBuilder
  with_extensions b x = record b { server_extensions = x }

  unfoldable pub with_connection_hook : RpcServerBuilder → ConnectionHook → RpcServerBuilder
  with_connection_hook b hook = record b { connection_hook = some hook }

  unfoldable pub with_request_middleware : RpcServerBuilder → Middleware io → RpcServerBuilder
  with_request_middleware b m = record b { request_middleware = b.request_middleware ++ m ∷ [] }

  unfoldable pub with_circuit_breaker : RpcServerBuilder → CircuitBreakerConfig F → RpcServerBuilder
  with_circuit_breaker b c = record b { circuit_breaker_config = some c }

  pub record ServiceBuilder : Type 0 where
    pub name : String
    pub resources : HashMap String ResourceCallback
    pub server_builder : RpcServerBuilder

  unfoldable pub service : RpcServerBuilder → String → ServiceBuilder
  service b name = record { name = name; resources = []; server_builder = b }

  -- `rpc_resource`, `subscription_resource`, `notification_resource` and `stream_resource`.
  unfoldable pub add_resource : ServiceBuilder → String × ResourceCallback → ServiceBuilder
  add_resource s (name, callback) = record s { resources = insert name callback s.resources }

  unfoldable pub build_service : ServiceBuilder → RpcServerBuilder
  build_service s =
      let b = s.server_builder in
      record b {
        services = insert s.name (record { service = s.name; resources = s.resources }) b.services;
      }

  -- `services.get(service)`, then `resources.get(resource)`.
  abbrev pub resource_in : Option RpcService → String → Option ResourceCallback
  resource_in none r = none
  resource_in (some s) r = lookup r s.resources

  unfoldable pub find_resource : ServiceMap → String → String → Option ResourceCallback
  find_resource services s r = resource_in (lookup s services) r

  unfoldable pub add_all : ServiceBuilder → List (String × ResourceCallback) → ServiceBuilder
  unfolding add_resource
  add_all s [] = s
  add_all s (r ∷ rest) = add_all (add_resource s r) rest

  -- A service registered with these resources, in this order.
  unfoldable pub register :
      RpcServerBuilder → String → List (String × ResourceCallback) → RpcServerBuilder
  unfolding service add_all build_service
  register b name rs = build_service (add_all (service b name) rs)

  -- The callback that was registered last under a name, if any was.
  abbrev pub last_callback :
      String → Option ResourceCallback → List (String × ResourceCallback) → Option ResourceCallback
  last_callback r found [] = found
  last_callback r found ((name, callback) ∷ rest) =
      last_callback r (if name == r then some callback else found) rest

  lookup-add_all :
      (s : ServiceBuilder) (rs : List (String × ResourceCallback)) (r : String)
      → lookup r (add_all s rs).resources ≡ last_callback r (lookup r s.resources) rs
  unfolding add_all
  lookup-add_all s [] r = refl
  lookup-add_all s ((name, callback) ∷ rest) r =
      lookup-add_all (add_resource s (name, callback)) rest r
      ∙ ap (λ o. last_callback r o rest) (lookup-insert name r callback s.resources)

  add_all_keeps :
      (s : ServiceBuilder) (rs : List (String × ResourceCallback))
      → ((add_all s rs).name ≡ s.name) × ((add_all s rs).server_builder ≡ s.server_builder)
  unfolding add_all
  add_all_keeps s [] = (refl, refl)
  add_all_keeps s (r ∷ rest) = add_all_keeps (add_resource s r) rest

  find_resource-insert :
      (name : String) (v : RpcService) (m : ServiceMap) (s r : String)
      → find_resource (insert name v m) s r
        ≡ (if name == s then lookup r v.resources else find_resource m s r)
  unfolding find_resource
  find_resource-insert name v m s r =
      rw lookup-insert
        (elim (Bool-cases (name == s)) [ inl same ↦ rw same refl | inr other ↦ rw other refl ])

  -- After a service has been registered, its name finds exactly the callbacks that were given then,
  -- the last one where a name was given twice, and nothing of an earlier service of that name; every
  -- other service finds what it found before.
  pub find_resource-register :
      (b : RpcServerBuilder) (name : String) (rs : List (String × ResourceCallback)) (s r : String)
      → find_resource (register b name rs).services s r
        ≡ (if name == s then last_callback r none rs else find_resource b.services s r)
  unfolding find_resource register lookup
  find_resource-register b name rs s r =
      let same = add_all_keeps (service b name) rs in
      find_resource-insert _ _ _ s r ∙ (λ i.
        if same.0 i == s
        then lookup-add_all (service b name) rs r i
        else find_resource (same.1 i).services s r)
