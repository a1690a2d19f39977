-- ===== src/Examples/Gated.antt =====
-- A call of the generated client whose peer has its circuit open.
use zel.Prelude.{ℕ, ◌≡◌, refl, Bytes, none, some, ok, err, List, [], ◌∷◌, lookup}
use mathlib.Core.List.{Memᴰ}
use zel.Types.Errors.{circuit_breaker_open}
use zel.Breaker.Peers.{PeerCircuitBreakers, breaker_of}
use zel.Client.Errors.{resource}
use zel.Client.Operations.{RpcClient, new_client}
use zel.Client.Calls.{reply_frames}
use zel.Server.Dispatch.{handle_stream}
use zel.Macros.Server.{Task, render_register_service_body}
use zel.Macros.Client.{render_client_method}
use zel.Macros.Client.Guarded.{asked, sent_back, render_client_method-gate}
use zel.Classify.{default}
use zel.Examples.Instances.{platform, backon}
use zel.Examples.Codec.{codec, put_request, put_response}
use zel.Examples.Network.{net, carried, rest_of}
use zel.Examples.Values.{trees}
use zel.Examples.Connections.{lib, env, link}
use zel.Examples.Generated.{add, math, local, server, different_names, arguments, body, writes}
use zel.Examples.Guards.{config}

-- The peer of the connection has failed twice.
abbrev peers : PeerCircuitBreakers lib
peers = record { breakers = (1, 2) ∷ []; config = config; classifier = default }

abbrev client : RpcClient ℕ
client = new_client

abbrev sent : Bytes
sent =
    put_request
      (asked net codec platform lib trees local env link 0 math server peers refl add body)

abbrev answer : Bytes
answer = put_response (
    sent_back net codec platform lib trees local env link 0 math server peers refl add body
      arguments)

abbrev frames : List Bytes
frames =
    reply_frames
      (handle_stream platform lib (Task platform lib trees) codec env link
        (render_register_service_body platform lib trees local math server).services
        (some (ok sent)) (some peers) 0).0.1

render_client_method-gate_example :
    render_client_method net codec trees backon client "math" add arguments (frames, [])
    ≡ (err (resource (circuit_breaker_open (platform.show_key 1))), none, (rest_of frames, []))
unfolding breaker_of lookup
render_client_method-gate_example =
    render_client_method-gate net codec platform lib trees local env link 0 math server peers refl
      backon client add arguments body sent answer (frames, []) (rest_of frames, []) refl
      (Memᴰ.head refl) different_names (tt, (tt, tt)) writes refl (tt, 0 ∷ 5 ∷ [], refl) refl
      (carried sent frames [])
