-- ===== src/Examples/Unread.antt =====
-- A call of the small service whose parameters are not JSON.
use zel.Prelude.{◌≡◌, refl, Bytes, some, none, ok, [], ◌∷◌}
use mathlib.Core.List.{Memᴰ}
use zel.Types.Protocol.{Body}
use zel.Types.Errors.{ResourceError, callback_error, application}
use zel.Classify.{default}
use zel.Breaker.Peers.{PeerCircuitBreakers, call_async}
use zel.Server.Streams.{reply, empty_response}
use zel.Server.Dispatch.{handle_stream}
use zel.Macros.Codegen.{generate_param_deserialization}
use zel.Macros.Server.{Task, render_register_service_body}
use zel.Macros.Codegen.Unread.{unread}
use zel.Macros.Server.Unread.{request, answer_to, refusal_now, handle_stream-unread}
use zel.Examples.Instances.{platform}
use zel.Examples.Codec.{codec, put_request, put_response}
use zel.Examples.Values.{trees}
use zel.Examples.Connections.{lib, env, link}
use zel.Examples.Generated.{add, math, local, server, different_names}
use zel.Examples.Guards.{config}

abbrev body : Body
body = Body.rpc (9 ∷ [])

abbrev why : ResourceError
why = callback_error "Failed to deserialize parameters: no value" application none

not_read : unread trees add body ≡ some why
unfolding generate_param_deserialization
not_read = refl

-- The breaker of the peer is not open.
abbrev peers : PeerCircuitBreakers lib
peers = record { breakers = (1, 1) ∷ []; config = config; classifier = default }

abbrev sent : Bytes
sent =
    put_request (
      request platform lib trees local codec env link 0 math server peers refl add body why
        not_read)

abbrev frame : Bytes
frame = put_response (
    answer_to platform lib trees local codec env link 0 math server peers refl
      (refusal_now platform lib trees local codec env link 0 math server peers refl) why)

handle_stream-unread_example :
    let served =
      handle_stream platform lib
        (Task platform lib trees)
        codec
        env
        link
        (render_register_service_body platform lib trees local math server).services
        (some (ok sent))
        (some peers)
        0 in
    (served.0.1 ≡ reply frame ∷ [])
    × (served.1 ≡ some (call_async lib peers 0 1 (ok empty_response)).1)
handle_stream-unread_example =
    handle_stream-unread platform lib trees local codec env link 0 math server peers refl add body
      why not_read sent frame empty_response (Memᴰ.head refl) different_names
      (codec.request.round_trip
        (request platform lib trees local codec env link 0 math server peers refl add body why
          not_read)
        sent tt refl)
      refl
