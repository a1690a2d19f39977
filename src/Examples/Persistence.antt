-- ===== src/Examples/Persistence.antt =====
-- A call of the generated client over a connection that is down at first.
use zel.Prelude.{
  ℕ, zero, suc, ◌≡◌, refl, Bytes, Bool, false, String, Option, none, some, Result, ok, err, List,
  [], ◌∷◌, arith,
}
use mathlib.Core.List.{Memᴰ}
use zel.Server.Dispatch.{handle_stream}
use zel.Client.Errors.{connection}
use zel.Client.Transport.{Transport}
use zel.Client.Operations.{RpcClient, exchange, call_internal}
use zel.Client.Calls.{Carries, reply_frames}
use zel.Client.Retried.{Unanswered, built_in-IsFinal}
use zel.Retry.Config.{RetryConfig, network_only, is_retryable}
use zel.Retry.Metrics.{RetryMetrics}
use zel.Retry.Outcomes.{start, again}
use zel.Macros.Server.{Task, render_register_service_body}
use zel.Macros.Client.{render_client_method}
use zel.Macros.Client.Retried.{asked, sent_back, render_client_method-Unanswered}
use zel.Examples.Instances.{platform, backon}
use zel.Examples.Codec.{codec, put_request, put_response}
use zel.Examples.Network.{Frames, net, rest_of}
use zel.Examples.Values.{leaf, trees}
use zel.Examples.Connections.{lib, env, link}
use zel.Examples.Generated.{add, math, local, server, different_names, arguments, body, writes}

abbrev open_when_up : ℕ × Frames → Result (Bool × Bool) String × (ℕ × Frames)
open_when_up (zero, w) = (ok (false, false), (zero, w))
open_when_up (suc n, w) = (err "down", (n, w))

-- The network of the examples, which refuses so many streams first.
abbrev flaky : Transport
flaky = record {
  World = ℕ × Frames;
  SendStream = Bool;
  RecvStream = Bool;
  open_bi = open_when_up;
  accept_bi = λ w. (err "no stream", w);
  accept_uni = λ w. (err "no stream", w);
  send = λ tx b w. let (r, u) = net.send tx b w.1 in (r, (w.0, u));
  next = λ rx w. let (f, u) = net.next rx w.1 in (f, (w.0, u));
  read_exact = λ rx n w. (err "no stream", w);
}

abbrev config : RetryConfig ℕ
config = record {
  max_attempts = 2;
  initial_backoff = 100;
  max_backoff = 1000;
  backoff_multiplier = 2;
  jitter = false;
  retryable_errors = network_only;
}

abbrev client : RpcClient ℕ
client = record { retry_config = some config; retry_metrics = none }

abbrev sent : Bytes
sent = put_request (asked flaky codec platform lib trees local env link 0 math server add body)

abbrev frames : List Bytes
frames =
    reply_frames
      (handle_stream platform lib (Task platform lib trees) codec env link
        (render_register_service_body platform lib trees local math server).services
        (some (ok sent)) none 0).0.1

abbrev answer : Bytes
answer =
    put_response
      (sent_back flaky codec platform lib trees local env link 0 math server add body arguments)

refused :
    Unanswered flaky codec backon client config "math" "add" body 1
      (1, (frames, []))
      (0, (frames, []))
unfolding call_internal exchange is_retryable
refused = again (connection "down") refl refl start

carried : Carries flaky sent frames (0, (frames, [])) (0, (rest_of frames, []))
carried = record {
  stream = (false, false);
  world_opened = (0, (frames, []));
  world_sent = (0, (frames, []));
  opens = refl;
  sends = refl;
  gives = refl;
}

render_client_method-Unanswered_example :
    (metrics : Option RetryMetrics) × (render_client_method flaky codec trees backon client "math"
        add arguments
        (1, (frames, []))
      ≡ (ok (leaf 5), metrics, (0, (rest_of frames, []))))
render_client_method-Unanswered_example =
    render_client_method-Unanswered flaky codec platform lib trees local env link 0 math server
      backon client config add arguments body sent answer (1, (frames, [])) (0, (frames, []))
      (0, (rest_of frames, [])) refl
      (built_in-IsFinal config
        (sent_back flaky codec platform lib trees local env link 0 math server add body arguments)
        tt)
      refused (omega arith) (omega arith) (Memᴰ.head refl) different_names (tt, (tt, tt)) writes
      refl (tt, 0 ∷ 5 ∷ [], refl) refl carried
