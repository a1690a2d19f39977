-- ===== src/Examples/GeneratedStreams.antt =====
-- A subscription of the generated client of the small service.
use zel.Prelude.{◌≡◌, refl, Bytes, true, none, some, Option, ok, List, [], ◌∷◌}
use mathlib.Core.List.{Memᴰ}
use zel.Types.Protocol.{Request, SubscriptionMsg}
use zel.Context.{RequestContext}
use zel.Breaker.Peers.{PeerCircuitBreakers}
use zel.Server.Streams.{Action, empty_response, open_uni, ack, reply, spawn}
use zel.Client.Calls.{reply_frames, ack_frames}
use zel.Macros.Codegen.{generate_param_serialization_optional}
use zel.Macros.Server.{Task}
use zel.Macros.Client.{render_client_subscription}
use zel.Macros.Client.Bodies.{call_of}
use zel.Macros.Client.Subscribed.{
  request_of, server_actions, context, render_client_subscription-served,
}
use zel.Examples.Instances.{platform}
use zel.Examples.Codec.{codec, put_request, put_response, put_subscription}
use zel.Examples.Network.{net, carried, rest_of}
use zel.Examples.Values.{Tree, leaf, trees}
use zel.Examples.Connections.{lib, env, link}
use zel.Examples.Generated.{ticks, math, local, server, different_names}

abbrev no_breakers : Option (PeerCircuitBreakers lib)
no_breakers = none

abbrev arguments : List Tree
arguments = leaf 7 ∷ []

abbrev body : Option Bytes
body = some (0 ∷ 7 ∷ [])

writes : generate_param_serialization_optional trees arguments ≡ ok body
unfolding generate_param_serialization_optional
writes = refl

abbrev sent : Bytes
sent =
    put_request
      (request_of net codec platform lib trees local env no_breakers 0 link math server ticks body)

abbrev actions : List (Action platform (Task platform lib trees))
actions = server_actions net codec platform lib trees local env no_breakers 0 link math server sent

abbrev request : Request
request =
    request_of net codec platform lib trees local env no_breakers 0 link math server ticks body

abbrev in_context : RequestContext platform
in_context = context net codec platform lib trees local env no_breakers 0 link math server request

abbrev established : Bytes
established = put_subscription (SubscriptionMsg.established "math" "ticks")

abbrev accepted : Bytes
accepted = put_response (ok empty_response)

abbrev replies : List Bytes
replies = reply_frames actions

abbrev acks : List Bytes
acks = ack_frames actions

render_client_subscription-served_example :
    (render_client_subscription net codec trees "math" ticks arguments (replies, acks)
      ≡ (ok true, (rest_of replies, rest_of acks)))
    × (task : Task platform lib trees) × (actions
        ≡ open_uni ∷ ack established ∷ reply accepted ∷ spawn task in_context request ∷ [])
    × (task in_context request ≡ ok (call_of trees platform lib ticks in_context arguments))
render_client_subscription-served_example =
    render_client_subscription-served net codec platform lib trees local env no_breakers 0 link math
      server ticks arguments body sent accepted established true (replies, acks)
      (rest_of replies, acks) (rest_of replies, acks) (rest_of replies, rest_of acks)
      (Memᴰ.head refl) different_names (tt, tt) writes refl refl refl refl refl refl
      (carried sent replies acks) refl refl
