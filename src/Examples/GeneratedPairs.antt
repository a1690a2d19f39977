-- ===== src/Examples/GeneratedPairs.antt =====
-- A notification and a raw stream of the generated client of a service that has one of each.
use zel.Prelude.{
  ◌≡◌, refl, String, Bytes, true, false, none, some, Option, ok, List, [], ◌∷◌, lookup, string_key,
}
use mathlib.Core.List.{Memᴰ}
use zel.Prelude.Maps.{HasUniqueKeys}
use zel.Types.Protocol.{Request, NotificationMsg}
use zel.Context.{RequestContext}
use zel.Breaker.Peers.{PeerCircuitBreakers}
use zel.Server.Streams.{Action, empty_response, open_bi, ack, write_raw, ok_bytes, reply, spawn}
use zel.Client.Calls.{Carries, reply_frames, ack_frames}
use zel.Client.Transport.{Transport}
use zel.Client.Bidirectional.{raw_bytes}
use zel.Macros.Helpers.{receiver, typed, default}
use zel.Macros.Service.{Description, ServiceDescription}
use zel.Macros.Codegen.{generate_param_serialization_optional}
use zel.Macros.Server.{Task, registrations}
use zel.Macros.Server.Lookups.{registered}
use zel.Macros.Client.{render_client_notification, render_client_stream}
use zel.Macros.Client.Bodies.{call_of}
use zel.Macros.Client.Subscribed.{server_actions, context}
use zel.Macros.Client.Bidirectional.{
  notify_request, stream_request, render_client_notification-served, render_client_stream-served,
}
use zel.Examples.Instances.{platform}
use zel.Examples.Codec.{codec, put_request, put_response, put_notification}
use zel.Examples.Network.{net, carried, rest_of}
use zel.Examples.Values.{Tree, leaf, trees}
use zel.Examples.Connections.{lib, env, link}
use zel.Examples.Generated.{local, server}

abbrev feed : Description String
feed = record {
  rpc_name = "feed";
  signature = record {
    attrs = [];
    sig = record {
      ident = "on_feed";
      is_async = true;
      inputs = receiver ∷ typed "from" "u64" ∷ [];
      output = default;
    };
  };
  params = ("from", "u64") ∷ [];
  return_type = none;
  item_type = some "u64";
}

abbrev file : Description String
file = record feed { rpc_name = "file"; item_type = none }

abbrev pairs : ServiceDescription String
pairs = record {
  service_name = "pairs";
  trait_ident = "Pairs";
  described = record {
    methods = [];
    subscriptions = [];
    notifications = feed ∷ [];
    streams = file ∷ [];
  };
}

different_names : HasUniqueKeys (registered platform lib trees local pairs.described)
unfolding registrations lookup
different_names = (refl, (refl, tt))

abbrev no_breakers : Option (PeerCircuitBreakers lib)
no_breakers = none

abbrev arguments : List Tree
arguments = leaf 7 ∷ []

abbrev body : Option Bytes
body = some (0 ∷ 7 ∷ [])

writes : generate_param_serialization_optional trees arguments ≡ ok body
unfolding generate_param_serialization_optional
writes = refl

abbrev accepted : Bytes
accepted = put_response (ok empty_response)

abbrev notify_sent : Request
notify_sent =
    notify_request net codec platform lib trees local env no_breakers 0 link pairs server feed body

abbrev stream_sent : Request
stream_sent =
    stream_request net codec platform lib trees local env no_breakers 0 link pairs server file body

abbrev actions : Request → List (Action platform (Task platform lib trees))
actions r =
    server_actions net codec platform lib trees local env no_breakers 0 link pairs server
      (put_request r)

abbrev in_context : Request → RequestContext platform
in_context r = context net codec platform lib trees local env no_breakers 0 link pairs server r

abbrev replies : Request → List Bytes
replies r = reply_frames (actions r)

abbrev acks : List Bytes
acks = ack_frames (actions notify_sent)

abbrev established : Bytes
established = put_notification (NotificationMsg.established "pairs" "feed")

render_client_notification-served_example :
    (render_client_notification net codec trees "pairs" feed arguments (replies notify_sent, acks)
      ≡ (ok (true, true), (rest_of (replies notify_sent), rest_of acks)))
    × (task : Task platform lib trees) × (actions notify_sent
        ≡ open_bi
          ∷ ack established
          ∷ reply accepted
          ∷ spawn task (in_context notify_sent) notify_sent
          ∷ [])
    × (task (in_context notify_sent) notify_sent
        ≡ ok (call_of trees platform lib feed (in_context notify_sent) arguments))
render_client_notification-served_example =
    render_client_notification-served net codec platform lib trees local env no_breakers 0 link
      pairs server feed arguments body (put_request notify_sent) accepted established (true, true)
      (replies notify_sent, acks) (rest_of (replies notify_sent), acks)
      (rest_of (replies notify_sent), acks) (rest_of (replies notify_sent), rest_of acks)
      (Memᴰ.head refl) different_names (tt, tt) writes refl refl refl refl refl refl
      (carried (put_request notify_sent) (replies notify_sent) acks) refl refl

-- The network whose next stream gives the bytes that the server writes on it.
abbrev raw_net : Transport
raw_net = record net { read_exact = λ _ _ w. (raw_bytes (actions stream_sent), w) }

abbrev raw_carried :
    (sent : Bytes) (frames : List Bytes)
    → Carries raw_net sent frames (frames, []) (rest_of frames, [])
raw_carried sent frames = record {
  stream = (false, false);
  world_opened = (frames, []);
  world_sent = (frames, []);
  opens = refl;
  sends = refl;
  gives = refl;
}

render_client_stream-served_example :
    (render_client_stream raw_net codec trees "pairs" file arguments (replies stream_sent, [])
      ≡ (ok (true, true), (rest_of (replies stream_sent), [])))
    × (task : Task platform lib trees) × (actions stream_sent
        ≡ open_bi
          ∷ write_raw ok_bytes
          ∷ reply accepted
          ∷ spawn task (in_context stream_sent) stream_sent
          ∷ [])
    × (task (in_context stream_sent) stream_sent
        ≡ ok (call_of trees platform lib file (in_context stream_sent) arguments))
render_client_stream-served_example =
    render_client_stream-served raw_net codec platform lib trees local env no_breakers 0 link pairs
      server file arguments body (put_request stream_sent) accepted (true, true)
      (replies stream_sent, []) (rest_of (replies stream_sent), [])
      (rest_of (replies stream_sent), []) (rest_of (replies stream_sent), []) (Memᴰ.head refl)
      different_names (tt, tt) writes refl refl refl refl refl
      (raw_carried (put_request stream_sent) (replies stream_sent)) refl refl
