-- ===== src/Macros/Client/Retried.antt =====
-- A generated client with retries against a server that runs the generated service.
use zel.Prelude.{
  ℕ, ◌≤◌, ◌<◌, ◌^◌, ◌≡◌, refl, Bytes, Option, none, some, Result, ok, map_err, List, string_key,
}
use mathlib.Core.List.{Memᴰ}
use zel.Prelude.Maps.{HasUniqueKeys}
use zel.Types.Protocol.{Request}
use zel.Types.Errors.{ResourceError}
use zel.Wire.{Codec}
use zel.Platform.{Platform}
use zel.Breaker.Library.{BreakerLib}
use zel.Handlers.Guard.{ResourceResponse}
use zel.Server.Registry.{RpcServerBuilder, ServiceMap}
use zel.Server.Streams.{Link, Env}
use zel.Server.Dispatch.{handle_stream}
use zel.Client.Errors.{resource}
use zel.Client.Transport.{Transport}
use zel.Client.Operations.{RpcClient}
use zel.Client.Calls.{reply_frames, Carries, call_internal-Answers}
use zel.Client.Retried.{IsFinal, Unanswered, call-Unanswered}
use zel.Retry.Config.{RetryConfig}
use zel.Retry.Metrics.{RetryMetrics}
use zel.Retry.Backon.{Backon}
use zel.Macros.Service.{Description, ServiceDescription}
use zel.Macros.Values.{Values, AreFaithful}
use zel.Macros.Codegen.{types_of, generate_param_serialization}
use zel.Macros.Server.{Invocation, Task}
use zel.Macros.Server.Lookups.{registered}
use zel.Macros.Client.{render_client_method}
use zel.Macros.Client.Remote.{
  IsReturnable, answer_of, answer_of-IsPlain, result_of-answer, services, request_of, run_locally,
  Answers-method,
}

module _ (net : Transport) (codec : Codec) (io : Platform) {F : Type 0} (lib : BreakerLib F)
    {Ty : Type 0} (vals : Values Ty)
    (local : Invocation io lib vals → Result vals.Value ResourceError) (env : Env io) (link : Link)
    (now : ℕ) (s : ServiceDescription Ty)
    (builder : RpcServerBuilder io lib (Task io lib vals)) where
  open vals use {Value, IsFaithful}

  abbrev running : ServiceMap io lib (Task io lib vals)
  running = services net codec io lib vals local env link now s builder

  abbrev pub asked : Description Ty → Bytes → Request
  asked m body = request_of net codec io lib vals local env link now s builder m body

  -- What the user's method returns for these arguments.
  abbrev pub locally : Description Ty → Bytes → List Value → Result Value ResourceError
  locally m body args = run_locally net codec io lib vals local env link now s builder m body args

  abbrev pub sent_back : Description Ty → Bytes → List Value → ResourceResponse
  sent_back m body args = answer_of net codec io lib vals local (locally m body args)

  -- The whole way of a call, with failures: the client's first calls, at most as many as retries are
  -- configured, fail with errors that ask for a retry, the next one reaches a server that runs the
  -- generated service without breakers, and its reply frame is carried back; then the call of the
  -- generated client, with metrics or without, returns what the user's method returns for the same
  -- arguments, a value or a resource error. The condition on that answer: it is a response, or an
  -- error that the client's predicate does not ask to retry, as neither built-in predicate does. The
  -- entries of the service have different names, JSON takes and keeps the arguments and the result,
  -- and the configured number has 32 bits.
  pub render_client_method-Unanswered :
      (backon : Backon F) (client : RpcClient F) (config : RetryConfig F) (m : Description Ty)
      (args : List Value) (body sent f : Bytes) {k : ℕ} (before lost after : net.World)
      → client.retry_config ≡ some config
      → IsFinal config (sent_back m body args)
      → Unanswered net codec backon client config s.service_name m.rpc_name body k before lost
      → k ≤ config.max_attempts
      → config.max_attempts < 2 ^ 32
      → Memᴰ m s.described.methods
      → HasUniqueKeys (registered io lib vals local s.described)
      → AreFaithful IsFaithful (types_of m.params) args
      → generate_param_serialization vals args ≡ ok body
      → codec.request.to_vec (asked m body) ≡ ok sent
      → IsReturnable net codec io lib vals local m (locally m body args)
      → codec.response.to_vec (sent_back m body args) ≡ ok f
      → Carries net sent
          (reply_frames
            (handle_stream io lib
              (Task io lib vals)
              codec
              env
              link
              running
              (some (ok sent))
              none
              now).0.1)
          lost
          after
      → (metrics : Option RetryMetrics) × (render_client_method net codec vals backon client
            s.service_name m args before
          ≡ (map_err resource (locally m body args), metrics, after))
  unfolding render_client_method
  render_client_method-Unanswered backon client config m args body sent f before lost after c final
        fails le small i u a h e p q carried =
      let answered =
        call_internal-Answers io lib (Task io lib vals) env running none now codec link net
          s.service_name m.rpc_name body sent f (sent_back m body args) lost after e
          (Answers-method net codec io lib vals local env link now s builder m body args i u a h) q
          (answer_of-IsPlain net codec io lib vals local m (locally m body args) p) carried in
      let (n, called) =
        call-Unanswered net codec backon client config s.service_name m.rpc_name body
          (sent_back m body args) c final fails le small answered in
      (
        n,
        rw (h, called, result_of-answer net codec io lib vals local m (locally m body args) p) refl,
      )
