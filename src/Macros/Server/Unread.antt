-- ===== src/Macros/Server/Unread.antt =====
-- zel_macros/src/render/server.rs and handlers/rpc.rs: a request for a method of the generated service
-- that its callback cannot read.
use zel.Prelude.{
  ℕ, ◌≡◌, refl, sym, ap, ◌∙◌, concat, Bytes, Option, none, some, Option-cases, Result, ok, err,
  map_err, inl, inr, [], ◌∷◌, string_key, subst, String,
}
use mathlib.Core.List.{Memᴰ}
use zel.Prelude.Maps.{HasUniqueKeys}
use zel.Types.Protocol.{Request, Response, Body}
use zel.Types.Errors.{ResourceError, callback_error, application, severity, display, app}
use zel.Classify.{default, classify}
use zel.Wire.{Codec}
use zel.Platform.{Platform}
use zel.Context.{RequestContext}
use zel.Breaker.Library.{Refusal, BreakerLib}
use zel.Breaker.Peers.{PeerCircuitBreakers, breaker_of, call_async}
use zel.Breaker.Calls.{application_error_as_success}
use zel.Handlers.Guard.{ResourceResponse, Rpc, to_error, execute_rpc_with_circuit_breaker}
use zel.Handlers.Guard.Severity.{
  guarded_text, through_breaker, refusal_answer, execute-admitted, execute-refused,
  classify-to_error,
}
use zel.Server.Registry.{rpc, ServiceMap, RpcServerBuilder}
use zel.Server.Streams.{reply, Link, Env}
use zel.Server.Dispatch.{
  handle_stream, read_and_deserialize_request, route, route_resource, dispatch, handle_rpc,
}
use zel.Client.Calls.{called, context_of, handle_stream-Answers, Answers}
use zel.Macros.Service.{Description, ServiceDescription}
use zel.Macros.Values.{Values}
use zel.Macros.Codegen.{generate_param_deserialization}
use zel.Macros.Server.{
  Task, Invocation, invocation, method_callback, render_method_registration,
  render_register_service_body,
}
use zel.Macros.Server.Lookups.{method, registered, find_resource-Declares}
use zel.Macros.Client.Remote.{find_resource-some}
use zel.Macros.Codegen.Unread.{error_in-err, unread, IsOfApplication, unread-IsOfApplication}

module _ (io : Platform) {F : Type 0} (lib : BreakerLib F) {Ty : Type 0} (vals : Values Ty)
    (local : Invocation io lib vals → Result vals.Value ResourceError) where
  method_callback-unread :
      (m : Description Ty) (ctx : RequestContext io) (service name : String) (body : Body)
      (e : ResourceError)
      → unread vals m body ≡ some e
      → method_callback io lib vals local m ctx
          (record { service = service; resource = name; body = body })
        ≡ err e
  unfolding method_callback invocation
  method_callback-unread m ctx service name (Body.rpc b) e h =
      rw (error_in-err vals (generate_param_deserialization vals m.params b) e h) refl
  method_callback-unread m ctx service name Body.subscribe e h =
      error_in-err vals {A = Response} (err (app "Expected RPC body")) e h
  method_callback-unread m ctx service name (Body.stream b) e h =
      error_in-err vals {A = Response} (err (app "Expected RPC body")) e h
  method_callback-unread m ctx service name (Body.notify b) e h =
      error_in-err vals {A = Response} (err (app "Expected RPC body")) e h

  module _ (codec : Codec) (env : Env io) (link : Link) (now : ℕ) (s : ServiceDescription Ty)
      (builder : RpcServerBuilder io lib (Task io lib vals)) (cb : PeerCircuitBreakers lib)
      (rules : cb.classifier ≡ default) where
    abbrev peer : ℕ
    peer = io.remote_id env.connection

    -- The answer: where the breaker lets the call through, an application error.
    abbrev pub answer_to : Option Refusal → ResourceError → ResourceResponse
    answer_to none e =
        err (callback_error (concat "Application error: " (display e)) application none)
    answer_to (some x) e = refusal_answer io lib peer x

    abbrev pub refusal_now : Option Refusal
    refusal_now = lib.refusal now (breaker_of lib cb peer)

    abbrev running : ServiceMap io lib (Task io lib vals)
    running = (render_register_service_body io lib vals local s builder).services

    module _ (m : Description Ty) (body : Body) (e : ResourceError)
        (unreadable_body : unread vals m body ≡ some e) where
      abbrev pub request : Request
      request = record { service = s.service_name; resource = m.rpc_name; body = body }

      abbrev ctx : RequestContext io
      ctx = context_of io lib (Task io lib vals) env running (some cb) now request

      abbrev callback : Rpc io lib
      callback = method_callback io lib vals local m

      refused_to_read : callback ctx request ≡ err e
      refused_to_read =
          method_callback-unread m ctx s.service_name m.rpc_name body e unreadable_body

      of_application : severity e ≡ application
      of_application =
          subst (IsOfApplication vals) unreadable_body (unread-IsOfApplication vals m body)

      execute-unread :
          (execute_rpc_with_circuit_breaker io lib callback ctx request (some cb) now peer).0
          ≡ answer_to refusal_now e
      execute-unread = elim (Option-cases refusal_now) [
        | inl a ↦
            execute-admitted io lib callback ctx request cb now peer rules a
            ∙ ap (through_breaker io lib) refused_to_read
            ∙ ap (λ v. err (callback_error (guarded_text v (display e)) v none)) of_application
            ∙ ap (λ x. answer_to x e) (sym a)
        | inr (x, a) ↦
            execute-refused io lib callback ctx request cb now peer x a
            ∙ ap (λ x. answer_to x e) (sym a)
      ]

      breakers-unread :
          (resp : Response)
          → (execute_rpc_with_circuit_breaker io lib callback ctx request (some cb) now peer).1
            ≡ some (call_async lib cb now peer (ok resp)).1
      unfolding execute_rpc_with_circuit_breaker
      breakers-unread resp =
          ap (λ r. some (call_async lib cb now peer (map_err to_error r)).1) refused_to_read
          ∙ ap some (
              application_error_as_success lib cb now peer resp (to_error e)
                (ap (λ k. classify k (to_error e)) rules ∙ classify-to_error e ∙ of_application))

      -- A request for a method that its callback cannot read, since the body is not that of a call or
      -- the parameters are not decoded from it, to a server that runs the generated service behind
      -- circuit breakers with the default rules: whatever the user's methods do, the only frame of the
      -- answer is an application error with the reason, or, where the breaker of the peer refuses, the
      -- error for that; and the breakers are afterwards what they are after a call that succeeds, with
      -- whatever response.
      -- The entries of the service have different names, and the encoder takes the answer.
      pub handle_stream-unread :
          (sent f : Bytes) (resp : Response)
          → Memᴰ m s.described.methods
          → HasUniqueKeys (registered io lib vals local s.described)
          → codec.request.from_slice sent ≡ ok request
          → codec.response.to_vec (answer_to refusal_now e) ≡ ok f
          → let served =
              handle_stream io lib
                (Task io lib vals)
                codec
                env
                link
                running
                (some (ok sent))
                (some cb)
                now in
            (served.0.1 ≡ reply f ∷ []) × (served.1 ≡ some (call_async lib cb now peer (ok resp)).1)
      unfolding render_method_registration handle_stream read_and_deserialize_request route
          route_resource dispatch handle_rpc
      handle_stream-unread sent f resp i u d c =
          let found =
            (find_resource-Declares io lib vals local s builder m.rpc_name (rpc callback) u).1
              (method m i) in
          let (service, k, l) =
            find_resource-some io lib (Task io lib vals) running s.service_name m.rpc_name
              (rpc callback) found in
          (
            handle_stream-Answers io lib (Task io lib vals) env running (some cb) now codec link
                sent f request (answer_to refusal_now e) d
                (subst (Answers io lib (Task io lib vals) env running (some cb) now request)
                  execute-unread (called service callback k l))
                c,
            rw
                (
                  handle_stream, read_and_deserialize_request, d, route, k, l, route_resource,
                  dispatch, handle_rpc,
                )
                (breakers-unread resp),
          )
