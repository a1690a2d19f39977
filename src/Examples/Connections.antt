-- ===== src/Examples/Connections.antt =====
-- A client and a server at concrete requests, over the concrete transport and codec.
use zel.Prelude.{
  ℕ, ◌≡◌, refl, Bytes, true, Option, none, some, ok, err, List, [], ◌∷◌, lookup, string_key,
}
use zel.Types.Protocol.{Request, Body, SubscriptionMsg}
use zel.Types.Errors.{callback_error, application}
use zel.Breaker.Library.{BreakerLib}
use zel.Breaker.Peers.{PeerCircuitBreakers}
use zel.Handlers.Guard.{ResourceResponse, Rpc, execute_rpc_with_circuit_breaker}
use zel.Server.Registry.{rpc, subscription_producer, RpcService, ServiceMap}
use zel.Server.Streams.{Link, Env}
use zel.Server.Dispatch.{dispatch, handle_stream}
use zel.Server.Starts.{EncodesAll, spawns, spawns-dispatch}
use zel.Server.Replies.{Encodes, replies, handle_stream-replies_once}
use zel.Client.Operations.{call_internal}
use zel.Client.Calls.{Answers, called, reply_frames, call_internal-Answers}
use zel.Examples.Instances.{platform, breakers}
use zel.Examples.Codec.{codec, put_request, put_response, put_subscription, put_notification}
use zel.Examples.Network.{net, carried, rest_of}

abbrev pub lib : BreakerLib ℕ
lib = breakers

abbrev pub env : Env platform
env = record {
  connection = 1;
  endpoint = tt;
  server_extensions = record { entries = [] };
  connection_extensions = record { entries = [] };
  request_middleware = [];
  shutdown_signal = tt;
}

abbrev pub link : Link
link = record { opened = true; ack_error = none; reply_error = none }

-- An echo, which answers with the body of the call.
abbrev echo : Rpc platform lib
echo ctx r = elim r.body [
  | Body.rpc b ↦ ok (record { payload = b })
  | _ ↦ err (callback_error "no body" application none)
]

abbrev service : RpcService platform lib ℕ
service = record {
  service = "math";
  resources = ("echo", rpc echo) ∷ ("ticks", subscription_producer 7) ∷ [];
}

abbrev services : ServiceMap platform lib ℕ
services = ("math", service) ∷ []

abbrev no_breakers : Option (PeerCircuitBreakers lib)
no_breakers = none

abbrev call_request : Request
call_request = record { service = "math"; resource = "echo"; body = Body.rpc (1 ∷ 2 ∷ []) }

abbrev subscribe_request : Request
subscribe_request = record { service = "math"; resource = "ticks"; body = Body.subscribe }

finds_service : lookup "math" services ≡ some service
unfolding lookup
finds_service = refl

finds_echo : lookup "echo" service.resources ≡ some (rpc echo)
unfolding lookup
finds_echo = refl

abbrev answer : ResourceResponse
answer = ok (record { payload = 1 ∷ 2 ∷ [] })

answers : Answers platform lib ℕ env services no_breakers 0 call_request answer
unfolding execute_rpc_with_circuit_breaker
answers = called service echo finds_service finds_echo

abbrev to_client : Request → List Bytes
to_client request =
    reply_frames
      (handle_stream platform lib ℕ codec env link services (some (ok (put_request request)))
        no_breakers 0).0.1

call_internal-Answers_example :
    call_internal net codec "math" "echo" (1 ∷ 2 ∷ []) (to_client call_request, [])
    ≡ (ok (record { payload = 1 ∷ 2 ∷ [] }), (rest_of (to_client call_request), []))
call_internal-Answers_example =
    call_internal-Answers platform lib ℕ env services no_breakers 0 codec link net "math" "echo"
      (1 ∷ 2 ∷ []) (put_request call_request) (put_response answer) answer
      (to_client call_request, []) (rest_of (to_client call_request), []) refl answers refl tt
      (carried (put_request call_request) (to_client call_request) [])

encodes : Encodes platform ℕ codec
encodes r = (put_response r, refl)

handle_stream-replies_once_example :
    replies platform ℕ codec
      (handle_stream platform lib ℕ codec env link services
        (some (ok (put_request call_request)))
        no_breakers
        0).0.1
    ≡ 1
handle_stream-replies_once_example =
    handle_stream-replies_once platform ℕ codec lib encodes env link services
      (put_request call_request) call_request no_breakers 0
      (codec.request.round_trip call_request (put_request call_request) tt refl)

abbrev values : List Bytes
values = (1 ∷ []) ∷ (2 ∷ []) ∷ []

encoded : (m : SubscriptionMsg) → (b : Bytes) × (codec.subscription.to_vec m ≡ ok b)
encoded m = (put_subscription m, refl)

encodes_all : EncodesAll platform ℕ codec
encodes_all = record {
  responses = encodes;
  subscriptions = encoded;
  notifications = λ m. (put_notification m, refl);
}

spawns-dispatch_example :
    spawns platform ℕ codec
      (dispatch platform lib ℕ codec env link
        (subscription_producer 7)
        subscribe_request
        no_breakers
        0).0.1
    ≡ 1
spawns-dispatch_example =
    spawns-dispatch platform ℕ codec lib encodes_all env link (subscription_producer 7)
      subscribe_request no_breakers 0
