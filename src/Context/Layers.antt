-- ===== src/Context/Layers.antt =====
-- What a callback finds in the context of its request.
use zel.Prelude.{ℕ, ◌≡◌, refl, ap, ◌∙◌, none, List, [], ◌∷◌, ◌++◌, map}
use zel.Types.Protocol.{Request}
use zel.Platform.{Platform}
use zel.Extensions.{get, with_all, last_for, get-with_all}
use zel.Extensions
use zel.Context.{
  RequestContext, Middleware, with_extension, build_request_context, apply_middleware, remote_id,
}
use zel.Server.Streams.{Env}

module _ (io : Platform) where
  abbrev pub Additions : Type 0
  Additions = List (ℕ × io.Value)

  -- `with_extension` called for each of the values in turn.
  abbrev pub extended : Additions → RequestContext io → RequestContext io
  extended [] ctx = ctx
  extended ((t, v) ∷ rest) ctx = extended rest (with_extension io t v ctx)

  -- A middleware that adds extensions, which may depend on the context that it gets.
  abbrev pub adding : (RequestContext io → Additions) → Middleware io
  adding adds ctx = extended (adds ctx) ctx

  -- All that the middleware adds, each on the context that those before it made.
  abbrev pub added_by : List (RequestContext io → Additions) → RequestContext io → Additions
  added_by [] ctx = []
  added_by (adds ∷ rest) ctx = adds ctx ++ added_by rest (adding adds ctx)

  extended-append :
      (xs ys : Additions) (ctx : RequestContext io)
      → extended ys (extended xs ctx) ≡ extended (xs ++ ys) ctx
  extended-append [] ys ctx = refl
  extended-append ((t, v) ∷ xs) ys ctx = extended-append xs ys (with_extension io t v ctx)

  apply_middleware-adding :
      (all : List (RequestContext io → Additions)) (ctx : RequestContext io)
      → apply_middleware io ctx (map adding all) ≡ extended (added_by all ctx) ctx
  unfolding apply_middleware
  apply_middleware-adding [] ctx = refl
  apply_middleware-adding (adds ∷ rest) ctx =
      apply_middleware-adding rest (adding adds ctx)
      ∙ extended-append (adds ctx) (added_by rest (adding adds ctx)) ctx

  extended-fields :
      (added : Additions) (ctx : RequestContext io)
      → extended added ctx
        ≡ record ctx { request_extensions = with_all added ctx.request_extensions }
  unfolding with_all with_extension
  extended-fields [] ctx = refl
  extended-fields ((t, v) ∷ rest) ctx = extended-fields rest (with_extension io t v ctx)

  module _ (env : Env io) (request : Request) where
    abbrev pub at_first : RequestContext io
    at_first =
        build_request_context io env.connection env.endpoint request env.server_extensions
          env.connection_extensions env.shutdown_signal

    -- The context that a callback is run with.
    abbrev pub at_last : RequestContext io
    at_last = apply_middleware io at_first env.request_middleware

    -- Where all middleware of the server adds extensions to the request, which may depend on the
    -- context: the callback reads from the request's extensions, under every type, the value that was
    -- added last for it, and nothing if none was; and it finds the server's and the connection's
    -- extensions, the names of the request and the peer unchanged.
    pub middleware-layers :
        (all : List (RequestContext io → Additions))
        → env.request_middleware ≡ map adding all
        → ((t : ℕ) → get t at_last.request_extensions ≡ last_for t none (added_by all at_first))
          × (at_last.server_extensions ≡ env.server_extensions)
          × (at_last.connection_extensions ≡ env.connection_extensions)
          × (at_last.service ≡ request.service)
          × (at_last.resource ≡ request.resource)
          × (remote_id io at_last ≡ io.remote_id env.connection)
    unfolding build_request_context remote_id
    middleware-layers all e =
        let made : at_last ≡ record at_first {
          request_extensions = with_all (added_by all at_first) Extensions.new;
        } =
          ap (apply_middleware io at_first) e
          ∙ apply_middleware-adding all at_first
          ∙ extended-fields (added_by all at_first) at_first in
        rw made ((λ t. get-with_all (added_by all at_first) t), refl, refl, refl, refl, refl)
