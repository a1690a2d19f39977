-- ===== src/Macros/Client/Remote.antt =====
-- A generated client against a server that runs the generated service.
use zel.Prelude.{
  subst, ℕ, ◌≡◌, refl, sym, ap, ◌∙◌, String, Bytes, none, some, Option-cases, inl, inr, Result, ok,
  err, map_err, and_then, List, lookup, string_key,
}
use mathlib.Core.List.{Memᴰ}
use zel.Prelude.Maps.{HasUniqueKeys}
use zel.Types.Protocol.{Request, Body}
use zel.Types.Errors.{ResourceError}
use zel.Wire.{Codec, HasPlainContext}
use zel.Platform.{Platform}
use zel.Breaker.Library.{BreakerLib}
use zel.Handlers.Guard.{ResourceResponse, execute_rpc_with_circuit_breaker}
use zel.Server.Registry.{
  ResourceCallback, rpc, RpcService, ServiceMap, RpcServerBuilder, find_resource, resource_in,
}
use zel.Server.Streams.{Link, Env}
use zel.Server.Dispatch.{handle_stream}
use zel.Client.Errors.{resource}
use zel.Client.Transport.{Transport}
use zel.Client.Operations.{RpcClient, call}
use zel.Client.Calls.{Answers, called, reply_frames, Carries, context_of, call_internal-Answers}
use zel.Retry.Backon.{Backon}
use zel.Macros.Service.{Description, ServiceDescription}
use zel.Macros.Values.{Values, AreFaithful, or_unit}
use zel.Macros.Codegen.{types_of, generate_param_serialization}
use zel.Macros.Codegen.Delivery.{deserialization-serialization}
use zel.Macros.Server.{
  Invocation, Task, response_of, method_callback, invocation, render_method_registration,
  render_register_service_body,
}
use zel.Macros.Server.Lookups.{method, registered, find_resource-Declares}
use zel.Macros.Client.{result_of, render_client_method}
use zel.Macros.Client.Bodies.{call_of}

pub find_resource-some :
    (io : Platform) {F : Type 0} (lib : BreakerLib F) (T : Type 0) (services : ServiceMap io lib T)
    (s r : String) (c : ResourceCallback io lib T)
    → find_resource io lib T services s r ≡ some c
    → (service : RpcService io lib T) × (lookup s services ≡ some service)
      × (lookup r service.resources ≡ some c)
unfolding find_resource
find_resource-some io lib T services s r c h = elim (Option-cases (lookup s services)) [
  | inl absent ↦ absurd (cc (sym (ap (λ o. resource_in io lib T o r) absent) ∙ h))
  | inr (service, found) ↦ (service, found, sym (ap (λ o. resource_in io lib T o r) found) ∙ h)
]

module _ (net : Transport) (codec : Codec) (io : Platform) {F : Type 0} (lib : BreakerLib F)
    {Ty : Type 0} (vals : Values Ty)
    (local : Invocation io lib vals → Result vals.Value ResourceError) where
  open vals use {Value, to_vec, IsFaithful}

  -- A result of a method that reaches the client unchanged: JSON takes and keeps the value, or the
  -- error.
  abbrev pub IsReturnable : Description Ty → Result Value ResourceError → Type 0
  IsReturnable m (ok v) =
      IsFaithful (or_unit vals m.return_type) v × (b : Bytes) × (to_vec v ≡ ok b)
  IsReturnable m (err e) = HasPlainContext (err e)

  abbrev pub answer_of : Result Value ResourceError → ResourceResponse
  answer_of r = and_then r (response_of io lib vals local)

  pub answer_of-IsPlain :
      (m : Description Ty) (r : Result Value ResourceError)
      → IsReturnable m r
      → HasPlainContext (answer_of r)
  answer_of-IsPlain m (ok v) (f, b, e) = rw e tt
  answer_of-IsPlain m (err e) p = p

  pub result_of-answer :
      (m : Description Ty) (r : Result Value ResourceError)
      → IsReturnable m r
      → and_then (map_err resource (answer_of r)) (result_of net codec vals m.return_type)
        ≡ map_err resource r
  result_of-answer m (ok v) (f, b, e) =
      rw (e, vals.round_trip (or_unit vals m.return_type) v b f e) refl
  result_of-answer m (err e) p = refl

  module _ (env : Env io) (link : Link) (now : ℕ) (s : ServiceDescription Ty)
      (builder : RpcServerBuilder io lib (Task io lib vals)) where
    abbrev pub services : ServiceMap io lib (Task io lib vals)
    services = (render_register_service_body io lib vals local s builder).services

    abbrev pub request_of : Description Ty → Bytes → Request
    request_of m body = record {
      service = s.service_name;
      resource = m.rpc_name;
      body = Body.rpc body;
    }

    -- The user's method with the arguments of the client.
    abbrev pub run_locally : Description Ty → Bytes → List Value → Result Value ResourceError
    run_locally m body args = local (
        call_of vals io lib m
          (context_of io lib (Task io lib vals) env services none now (request_of m body)) args)

    pub method_callback-args :
        (m : Description Ty) (body : Bytes) (args : List Value)
        → AreFaithful IsFaithful (types_of m.params) args
        → generate_param_serialization vals args ≡ ok body
        → (execute_rpc_with_circuit_breaker io lib
            (method_callback io lib vals local m)
            (context_of io lib (Task io lib vals) env services none now (request_of m body))
            (request_of m body)
            none
            now
            (io.remote_id env.connection)).0
          ≡ answer_of (run_locally m body args)
    unfolding execute_rpc_with_circuit_breaker method_callback invocation
    method_callback-args m body args a h =
        rw (deserialization-serialization vals m.params args body a h) refl

    pub Answers-method :
        (m : Description Ty) (body : Bytes) (args : List Value)
        → Memᴰ m s.described.methods
        → HasUniqueKeys (registered io lib vals local s.described)
        → AreFaithful IsFaithful (types_of m.params) args
        → generate_param_serialization vals args ≡ ok body
        → Answers io lib
            (Task io lib vals)
            env
            services
            none
            now
            (request_of m body)
            (answer_of (run_locally m body args))
    unfolding render_method_registration
    Answers-method m body args i u a h =
        let found =
          (find_resource-Declares io lib vals local s builder m.rpc_name
              (rpc (method_callback io lib vals local m)) u).1
            (method m i) in
        let (service, k, l) =
          find_resource-some io lib (Task io lib vals) services s.service_name m.rpc_name
            (rpc (method_callback io lib vals local m)) found in
        subst (Answers io lib (Task io lib vals) env services none now (request_of m body))
          (method_callback-args m body args a h)
          (called service (method_callback io lib vals local m) k l)

    -- The generated client and the generated server make a method remote: where the server runs a
    -- service whose entries have different names, without breakers, and the client does not retry, a
    -- call of a method of the client returns what the user's method returns for the same arguments,
    -- a value or a resource error. The request has to reach `handle_stream`, its reply frame has to
    -- be carried back, and JSON has to take and keep the arguments and the result.
    pub render_client_method-Carries :
        (backon : Backon F) (client : RpcClient F) (m : Description Ty) (args : List Value)
        (body sent f : Bytes) (before after : net.World)
        → client.retry_config ≡ none
        → Memᴰ m s.described.methods
        → HasUniqueKeys (registered io lib vals local s.described)
        → AreFaithful IsFaithful (types_of m.params) args
        → generate_param_serialization vals args ≡ ok body
        → codec.request.to_vec (request_of m body) ≡ ok sent
        → IsReturnable m (run_locally m body args)
        → codec.response.to_vec (answer_of (run_locally m body args)) ≡ ok f
        → Carries net sent
            (reply_frames
              (handle_stream io lib
                (Task io lib vals)
                codec
                env
                link
                services
                (some (ok sent))
                none
                now).0.1)
            before
            after
        → render_client_method net codec vals backon client s.service_name m args before
          ≡ (map_err resource (run_locally m body args), client.retry_metrics, after)
    unfolding render_client_method call
    render_client_method-Carries backon client m args body sent f before after n i u a h e p q c =
        let answered =
          call_internal-Answers io lib (Task io lib vals) env services none now codec link net
            s.service_name m.rpc_name body sent f (answer_of (run_locally m body args)) before after
            e (Answers-method m body args i u a h) q
            (answer_of-IsPlain m (run_locally m body args) p) c in
        rw (h, n, answered, result_of-answer m (run_locally m body args) p) refl
