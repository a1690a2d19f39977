-- ===== src/Examples/Contexts.antt =====
-- The context that a callback gets behind two middlewares.
use zel.Prelude.{ℕ, ◌≡◌, refl, none, List, [], ◌∷◌, map}
use zel.Types.Protocol.{Request, Body}
use zel.Extensions.{get, last_for}
use zel.Context.{RequestContext, remote_id}
use zel.Context.Layers.{Additions, adding, added_by, at_first, at_last, middleware-layers}
use zel.Server.Streams.{Env}
use zel.Examples.Instances.{platform}
use zel.Examples.Connections.{env}

-- The second one replaces what the first has added under 3.
abbrev additions : List (RequestContext platform → Additions platform)
additions = (λ ctx. (3, 7) ∷ []) ∷ (λ ctx. (4, 1) ∷ (3, 8) ∷ []) ∷ []

abbrev layered : Env platform
layered = record env { request_middleware = map (adding platform) additions }

abbrev request : Request
request = record { service = "math"; resource = "add"; body = Body.rpc [] }

abbrev ctx : RequestContext platform
ctx = at_last platform layered request

middleware-layers_example :
    ((t : ℕ)
      → get t ctx.request_extensions
        ≡ last_for t none (added_by platform additions (at_first platform layered request)))
    × (ctx.server_extensions ≡ layered.server_extensions)
    × (ctx.connection_extensions ≡ layered.connection_extensions)
    × (ctx.service ≡ "math")
    × (ctx.resource ≡ "add")
    × (remote_id platform ctx ≡ 1)
middleware-layers_example = middleware-layers platform layered request additions refl
