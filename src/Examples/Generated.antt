-- ===== src/Examples/Generated.antt =====
-- A generated client and server at a small service.
use zel.Prelude.{
  ℕ, ◌+◌, ◌≡◌, refl, String, Bytes, true, none, some, Result, ok, err, List, [], ◌∷◌, lookup,
  string_key,
}
use mathlib.Core.List.{Memᴰ}
use zel.Prelude.Maps.{HasUniqueKeys}
use zel.Types.Protocol.{Body, Request}
use zel.Types.Errors.{ResourceError, app}
use zel.Client.Operations.{RpcClient, new_client}
use zel.Client.Calls.{reply_frames}
use zel.Server.Registry.{RpcServerBuilder}
use zel.Server.Dispatch.{handle_stream}
use zel.Macros.Helpers.{receiver, typed, returns, default}
use zel.Macros.Service.{Description, ServiceDescription}
use zel.Macros.Codegen.{generate_param_serialization}
use zel.Macros.Server.{Invocation, Task, render_register_service_body, registrations}
use zel.Macros.Server.Lookups.{registered}
use zel.Macros.Client.{render_client_method}
use zel.Macros.Client.Remote.{answer_of, render_client_method-Carries}
use zel.Examples.Instances.{platform, backon}
use zel.Examples.Codec.{codec, put_request, put_response}
use zel.Examples.Network.{net, carried, rest_of}
use zel.Examples.Values.{Tree, leaf, trees}
use zel.Examples.Connections.{lib, env, link}

abbrev pub add : Description String
add = record {
  rpc_name = "add";
  signature = record {
    attrs = [];
    sig = record {
      ident = "add";
      is_async = true;
      inputs = receiver ∷ typed "a" "i32" ∷ typed "b" "i32" ∷ [];
      output = returns "i32";
    };
  };
  params = ("a", "i32") ∷ ("b", "i32") ∷ [];
  return_type = some "i32";
  item_type = none;
}

abbrev pub ticks : Description String
ticks = record {
  rpc_name = "ticks";
  signature = record {
    attrs = [];
    sig = record {
      ident = "ticks";
      is_async = true;
      inputs = receiver ∷ typed "from" "u64" ∷ [];
      output = default;
    };
  };
  params = ("from", "u64") ∷ [];
  return_type = none;
  item_type = some "u64";
}

abbrev pub math : ServiceDescription String
math = record {
  service_name = "math";
  trait_ident = "Math";
  described = record {
    methods = add ∷ [];
    subscriptions = ticks ∷ [];
    notifications = [];
    streams = [];
  };
}

abbrev pub local : Invocation platform lib trees → Result Tree ResourceError
local i = elim i.args [ leaf a ∷ leaf b ∷ [] ↦ ok (leaf (a + b)) | _ ↦ err (app "two numbers") ]

abbrev pub server : RpcServerBuilder platform lib (Task platform lib trees)
server = record {
  alpn = [];
  endpoint = tt;
  services = [];
  server_extensions = record { entries = [] };
  connection_hook = none;
  request_middleware = [];
  circuit_breaker_config = none;
}

pub different_names : HasUniqueKeys (registered platform lib trees local math.described)
unfolding registrations lookup
different_names = (refl, (refl, tt))

abbrev pub arguments : List Tree
arguments = leaf 2 ∷ leaf 3 ∷ []

abbrev pub body : Bytes
body = 0 ∷ 2 ∷ 0 ∷ 3 ∷ 1 ∷ 2 ∷ 2 ∷ []

pub writes : generate_param_serialization trees arguments ≡ ok body
unfolding generate_param_serialization
writes = refl

abbrev request : Request
request = record { service = "math"; resource = "add"; body = Body.rpc body }

abbrev client : RpcClient ℕ
client = new_client

abbrev frames : List Bytes
frames =
    reply_frames
      (handle_stream platform lib (Task platform lib trees) codec env link
        (render_register_service_body platform lib trees local math server).services
        (some (ok (put_request request))) none 0).0.1

render_client_method-Carries_example :
    render_client_method net codec trees backon client "math" add arguments (frames, [])
    ≡ (ok (leaf 5), none, (rest_of frames, []))
render_client_method-Carries_example =
    render_client_method-Carries net codec platform lib trees local env link 0 math server backon
      client add arguments body (put_request request)
      (put_response (answer_of net codec platform lib trees local (ok (leaf 5)))) (frames, [])
      (rest_of frames, []) refl (Memᴰ.head refl) different_names (tt, (tt, tt)) writes refl
      (tt, 0 ∷ 5 ∷ [], refl) refl (carried (put_request request) frames [])
