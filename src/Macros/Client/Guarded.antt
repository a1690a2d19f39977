-- ===== src/Macros/Client/Guarded.antt =====
-- A generated client against a server that runs the generated service behind circuit breakers.
use zel.Prelude.{
  subst, ℕ, ◌≡◌, refl, sym, ap, ◌∙◌, Bytes, Option, none, some, Option-cases, inl, inr, Result, ok,
  err, map_err, and_then, List, string_key,
}
use mathlib.Core.List.{Memᴰ}
use zel.Prelude.Maps.{HasUniqueKeys}
use zel.Types.Protocol.{Request}
use zel.Context.{RequestContext}
use zel.Types.Errors.{
  ResourceError, callback_error, circuit_breaker_open, application, severity, display,
}
use zel.Classify.{default}
use zel.Wire.{Codec, HasPlainContext}
use zel.Platform.{Platform}
use zel.Breaker.Library.{Refusal, BreakerLib}
use zel.Breaker.Peers.{PeerCircuitBreakers, breaker_of}
use zel.Handlers.Guard.{ResourceResponse, Rpc, execute_rpc_with_circuit_breaker}
use zel.Handlers.Guard.Severity.{
  guarded_text, through_breaker, refusal_answer, execute-admitted, execute-refused,
}
use zel.Server.Registry.{rpc, ServiceMap, RpcServerBuilder}
use zel.Server.Streams.{Link, Env}
use zel.Server.Dispatch.{handle_stream}
use zel.Client.Errors.{resource}
use zel.Client.Transport.{Transport}
use zel.Client.Operations.{RpcClient, call}
use zel.Client.Calls.{Answers, called, reply_frames, Carries, context_of, call_internal-Answers}
use zel.Retry.Backon.{Backon}
use zel.Macros.Service.{Description, ServiceDescription}
use zel.Macros.Values.{Values, AreFaithful, or_unit}
use zel.Macros.Codegen.{types_of, generate_param_serialization}
use zel.Macros.Server.{Task, Invocation, method_callback, render_method_registration}
use zel.Macros.Server.Lookups.{method, registered, find_resource-Declares}
use zel.Macros.Client.{result_of, render_client_method}
use zel.Macros.Client.Remote.{
  find_resource-some, answer_of, services, request_of, run_locally, method_callback-args,
}

module _ (net : Transport) (codec : Codec) (io : Platform) {F : Type 0} (lib : BreakerLib F)
    {Ty : Type 0} (vals : Values Ty)
    (local : Invocation io lib vals → Result vals.Value ResourceError) where
  open vals use {Value, to_vec, IsFaithful}

  -- What a call gives where the breaker of the peer says so: it refuses, or passes a value on, and an
  -- error as one of the same severity.
  abbrev pub gate : ℕ → Option Refusal → Result Value ResourceError → Result Value ResourceError
  gate peer none (ok v) = ok v
  gate peer none (err e) =
      err (callback_error (guarded_text (severity e) (display e)) (severity e) none)
  gate peer (some Refusal.opened) r = err (circuit_breaker_open (io.show_key peer))
  gate peer (some (Refusal.other text)) r = err (callback_error text application none)

  -- JSON takes and keeps a value.
  abbrev pub IsKept : Description Ty → Result Value ResourceError → Type 0
  IsKept m (ok v) = IsFaithful (or_unit vals m.return_type) v × (b : Bytes) × (to_vec v ≡ ok b)
  IsKept m (err e) = Unit

  -- The answer that the server sends for it.
  abbrev gated : ℕ → Option Refusal → ResourceResponse → ResourceResponse
  gated peer none r = through_breaker io lib r
  gated peer (some x) r = refusal_answer io lib peer x

  gated-IsPlain :
      (m : Description Ty) (peer : ℕ) (x : Option Refusal) (r : Result Value ResourceError)
      → IsKept m r
      → HasPlainContext (gated peer x (answer_of net codec io lib vals local r))
  gated-IsPlain m peer none (ok v) (f, b, e) = rw e tt
  gated-IsPlain m peer none (err e) k = tt
  gated-IsPlain m peer (some Refusal.opened) r k = tt
  gated-IsPlain m peer (some (Refusal.other text)) r k = tt

  result_of-gated :
      (m : Description Ty) (peer : ℕ) (x : Option Refusal) (r : Result Value ResourceError)
      → IsKept m r
      → and_then
          (map_err resource (gated peer x (answer_of net codec io lib vals local r)))
          (result_of net codec vals m.return_type)
        ≡ map_err resource (gate peer x r)
  result_of-gated m peer none (ok v) (f, b, e) =
      rw (e, vals.round_trip (or_unit vals m.return_type) v b f e) refl
  result_of-gated m peer none (err e) k = refl
  result_of-gated m peer (some Refusal.opened) r k = refl
  result_of-gated m peer (some (Refusal.other text)) r k = refl

  module _ (env : Env io) (link : Link) (now : ℕ) (s : ServiceDescription Ty)
      (builder : RpcServerBuilder io lib (Task io lib vals)) (cb : PeerCircuitBreakers lib)
      (rules : cb.classifier ≡ default) where
    abbrev pub peer : ℕ
    peer = io.remote_id env.connection

    abbrev pub locally : Description Ty → Bytes → List Value → Result Value ResourceError
    locally m body args = run_locally net codec io lib vals local env link now s builder m body args

    abbrev pub refusal_now : Option Refusal
    refusal_now = lib.refusal now (breaker_of lib cb peer)

    abbrev running : ServiceMap io lib (Task io lib vals)
    running = services net codec io lib vals local env link now s builder

    abbrev pub asked : Description Ty → Bytes → Request
    asked m body = request_of net codec io lib vals local env link now s builder m body

    abbrev in_context : Description Ty → Bytes → RequestContext io
    in_context m body =
        context_of io lib (Task io lib vals) env running (some cb) now (asked m body)

    -- The answer that the server sends.
    abbrev pub sent_back : Description Ty → Bytes → List Value → ResourceResponse
    sent_back m body args =
        gated peer refusal_now (answer_of net codec io lib vals local (locally m body args))

    abbrev callback : Description Ty → Rpc io lib
    callback m = method_callback io lib vals local m

    execute-gated :
        (m : Description Ty) (body : Bytes) (args : List Value)
        → AreFaithful IsFaithful (types_of m.params) args
        → generate_param_serialization vals args ≡ ok body
        → (execute_rpc_with_circuit_breaker io lib
            (callback m)
            (in_context m body)
            (asked m body)
            (some cb)
            now
            peer).0
          ≡ sent_back m body args
    unfolding execute_rpc_with_circuit_breaker
    execute-gated m body args a h =
        let plain =
          method_callback-args net codec io lib vals local env link now s builder m body args a h in
        let gated_by = λ (x : Option Refusal).
          gated peer x (answer_of net codec io lib vals local (locally m body args)) in
        elim (Option-cases refusal_now) [
          | inl e ↦
              execute-admitted io lib (callback m) (in_context m body) (asked m body) cb now peer
                rules e
              ∙ ap (through_breaker io lib) plain
              ∙ ap gated_by (sym e)
          | inr (x, e) ↦
              execute-refused io lib (callback m) (in_context m body) (asked m body) cb now peer x e
              ∙ ap gated_by (sym e)
        ]

    Answers-gated :
        (m : Description Ty) (body : Bytes) (args : List Value)
        → Memᴰ m s.described.methods
        → HasUniqueKeys (registered io lib vals local s.described)
        → AreFaithful IsFaithful (types_of m.params) args
        → generate_param_serialization vals args ≡ ok body
        → Answers io lib
            (Task io lib vals)
            env
            running
            (some cb)
            now
            (asked m body)
            (sent_back m body args)
    unfolding render_method_registration
    Answers-gated m body args i u a h =
        let found =
          (find_resource-Declares io lib vals local s builder m.rpc_name
              (rpc (method_callback io lib vals local m)) u).1
            (method m i) in
        let (service, k, l) =
          find_resource-some io lib (Task io lib vals) running s.service_name m.rpc_name
            (rpc (method_callback io lib vals local m)) found in
        subst (Answers io lib (Task io lib vals) env running (some cb) now (asked m body))
          (execute-gated m body args a h) (called service (method_callback io lib vals local m) k l)

    -- A remote method behind circuit breakers with the default rules, on every branch: where the
    -- breaker of the client lets the call through, the client's call returns the value that the
    -- user's method returns for the same arguments, or, for an error of it, a callback error of the
    -- same severity with a prefix before the text; where the breaker refuses, the client gets the
    -- error for that, whatever the method would return. The entries of the service have different
    -- names, the client does not retry, the request reaches `handle_stream` and its reply frame is
    -- carried back, and JSON takes and keeps the arguments and the value.
    pub render_client_method-gate :
        (backon : Backon F) (client : RpcClient F) (m : Description Ty) (args : List Value)
        (body sent f : Bytes) (before after : net.World)
        → client.retry_config ≡ none
        → Memᴰ m s.described.methods
        → HasUniqueKeys (registered io lib vals local s.described)
        → AreFaithful IsFaithful (types_of m.params) args
        → generate_param_serialization vals args ≡ ok body
        → codec.request.to_vec (asked m body) ≡ ok sent
        → IsKept m (locally m body args)
        → codec.response.to_vec (sent_back m body args) ≡ ok f
        → Carries net sent
            (reply_frames
              (handle_stream io lib
                (Task io lib vals)
                codec
                env
                link
                running
                (some (ok sent))
                (some cb)
                now).0.1)
            before
            after
        → render_client_method net codec vals backon client s.service_name m args before ≡ (
          map_err resource (gate peer refusal_now (locally m body args)),
          client.retry_metrics,
          after,
        )
    unfolding render_client_method call
    render_client_method-gate backon client m args body sent f before after n i u a h e p q c =
        let answered =
          call_internal-Answers io lib (Task io lib vals) env running (some cb) now codec link net
            s.service_name m.rpc_name body sent f (sent_back m body args) before after e
            (Answers-gated m body args i u a h) q
            (gated-IsPlain m peer refusal_now (locally m body args) p) c in
        rw (h, n, answered, result_of-gated m peer refusal_now (locally m body args) p) refl
