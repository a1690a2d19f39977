-- ===== src/Client/Operations.antt =====
-- client.rs: `RpcClient`, its builder, and the operations that open a stream.
use zel.Prelude.{
  String, Bytes, concat, Bool, true, false, Option, none, some, Result, ok, err, map_err, Exec,
  pure, lift, ◌>>=◌, ◌>>◌, with_err, [], ◌∷◌, nat_beq, string_key, ◌==◌, ◌&&◌, if◌then◌else◌,
}
use zel.Types.Protocol.{Request, Response, Body, SubscriptionMsg, NotificationMsg}
use zel.Wire.{Codec}
use zel.Handlers.Guard.{ResourceResponse}
use zel.Server.Streams.{ok_bytes}
use zel.Client.Errors.{ClientError, serialization, resource, connection, protocol}
use zel.Client.Transport.{Transport}
use zel.Retry.Config.{RetryConfig}
use zel.Retry.Metrics.{RetryMetrics}
use zel.Retry.Metrics
use zel.Retry.Backon.{Backon}
use zel.Retry.Loop.{call_with_retry}

-- The `params.unwrap_or_default()` of the source.
abbrev pub or_default : Option Bytes → Bytes
or_default none = []
or_default (some b) = b

abbrev pub bytes_beq : Bytes → Bytes → Bool
bytes_beq [] [] = true
bytes_beq [] (y ∷ ys) = false
bytes_beq (x ∷ xs) [] = false
bytes_beq (x ∷ xs) (y ∷ ys) = nat_beq x y && bytes_beq xs ys

abbrev pub expected_established : String
expected_established = "Expected Established message, got something else"

abbrev pub path : String → String → String
path service name = concat service (concat "/" name)

unfoldable pub mismatch : (service name s r : String) → String
mismatch service name s r =
    concat "Established message mismatch: expected "
      (concat (path service name) (concat ", got " (path s r)))

-- `if s != service || r != resource { … }`
unfoldable pub check_names : (service name s r : String) → Result (Unit {0}) ClientError
unfolding mismatch
check_names service name s r =
    if (s == service) && (r == name) then ok tt else err (protocol (mismatch service name s r))

unfoldable pub check_subscription :
    (service name : String) → SubscriptionMsg → Result (Unit {0}) ClientError
check_subscription service name (SubscriptionMsg.established s r) = check_names service name s r
check_subscription service name _ = err (protocol expected_established)

unfoldable pub check_notification :
    (service name : String) → NotificationMsg → Result (Unit {0}) ClientError
check_notification service name (NotificationMsg.established s r) = check_names service name s r
check_notification service name _ = err (protocol expected_established)

abbrev pub subscribe_body : Option Bytes → Body
subscribe_body none = Body.subscribe
subscribe_body (some b) = Body.rpc b

abbrev pub check_ack : Bytes → Result (Unit {0}) ClientError
check_ack b = if bytes_beq b ok_bytes then ok tt else err (protocol "Invalid stream ACK")

-- The connection of a client is the transport of its operations.
pub record RpcClient (F : Type 0) : Type 0 where
  pub retry_config : Option (RetryConfig F)
  pub retry_metrics : Option RetryMetrics

pub record RpcClientBuilder (F : Type 0) : Type 0 where
  pub retry_config : Option (RetryConfig F)
  pub enable_metrics : Bool

module _ {F : Type 0} where
  abbrev pub new_client : RpcClient F
  new_client = record { retry_config = none; retry_metrics = none }

  abbrev pub builder : RpcClientBuilder F
  builder = record { retry_config = none; enable_metrics = false }

  abbrev pub with_retry_config : RpcClientBuilder F → RetryConfig F → RpcClientBuilder F
  with_retry_config b c = record b { retry_config = some c }

  abbrev pub with_retry_metrics : RpcClientBuilder F → RpcClientBuilder F
  with_retry_metrics b = record b { enable_metrics = true }

  unfoldable pub build_client : RpcClientBuilder F → RpcClient F
  build_client b = record {
    retry_config = b.retry_config;
    retry_metrics = if b.enable_metrics then some Metrics.new else none;
  }

module _ (net : Transport) (codec : Codec) where
  open net use {World, SendStream, RecvStream}

  abbrev pub Client : Type 0 → Type 0
  Client A = Exec World ClientError A

  -- `.map_err(|e| ClientError::Connection(e.to_string()))?`
  abbrev pub connecting : {A : Type 0} → Exec World String A → Client A
  connecting m w = with_err connection (m w)

  -- `serde_json::…?`
  abbrev pub converting : {A : Type 0} → Result A String → Client A
  converting r w = (map_err serialization r, w)

  -- `.ok_or_else(|| ClientError::Protocol(missing))?` and the error of the frame itself.
  abbrev pub framed :
      String → Option (Result Bytes String) × World → Result Bytes ClientError × World
  framed missing (none, w) = (err (protocol missing), w)
  framed missing (some r, w) = (map_err connection r, w)

  abbrev pub next_frame : String → RecvStream → Client Bytes
  next_frame missing rx w = framed missing (net.next rx w)

  -- The part that `call_internal`, `subscribe`, `notify` and `open_stream` share: a request on a new
  -- stream, and the server's response.
  unfoldable pub exchange : Request → Client ResourceResponse
  exchange request = connecting net.open_bi >>= λ s.
      converting (codec.request.to_vec request) >>= λ b.
      connecting (net.send s.0 b) >> next_frame "No response received" s.1 >>= λ f.
      converting (codec.response.from_slice f)

  unfoldable pub call_internal : (service name : String) → Bytes → Client Response
  unfolding exchange
  call_internal service name body =
      exchange (record { service = service; resource = name; body = Body.rpc body }) >>= λ r.
      lift (map_err resource r)

  unfoldable pub subscribe : (service name : String) → Option Bytes → Client RecvStream
  unfolding exchange
  subscribe service name body =
      exchange (record { service = service; resource = name; body = subscribe_body body }) >>= λ r.
      lift (map_err resource r) >> connecting net.accept_uni >>= λ rx.
      next_frame "No established message received" rx >>= λ f.
      converting (codec.subscription.from_slice f) >>= λ m.
      lift (check_subscription service name m) >> pure rx

  -- From the stream of the server on.
  unfoldable pub receive_notifier : (service name : String) → Client (SendStream × RecvStream)
  receive_notifier service name = connecting net.accept_bi >>= λ s.
      next_frame "No established message received" s.1 >>= λ f.
      converting (codec.notification.from_slice f) >>= λ m.
      lift (check_notification service name m) >> pure s

  -- A `NotificationSender` is the two halves of the accepted stream.
  unfoldable pub notify : (service name : String) → Option Bytes → Client (SendStream × RecvStream)
  unfolding exchange receive_notifier
  notify service name params =
      exchange
        (record { service = service; resource = name; body = Body.notify (or_default params) })
      >>= λ r. lift (map_err resource r) >> receive_notifier service name

  unfoldable pub receive_stream : Client (SendStream × RecvStream)
  receive_stream = connecting net.accept_bi >>= λ s.
      connecting (net.read_exact s.1 2) >>= λ b. lift (check_ack b) >> pure s

  unfoldable pub open_stream :
      (service name : String) → Option Bytes → Client (SendStream × RecvStream)
  unfolding exchange receive_stream
  open_stream service name params =
      exchange
        (record { service = service; resource = name; body = Body.stream (or_default params) })
      >>= λ r. lift (map_err resource r) >> receive_stream

  -- The result, the metrics of the client, and the world.
  unfoldable pub call :
      {F : Type 0}
      → Backon F
      → RpcClient F
      → (service name : String) → Bytes
      → World
      → Result Response ClientError × Option RetryMetrics × World
  unfolding call_internal call_with_retry
  call backon client service name body w = elim client.retry_config [
    | none ↦ let (r, w') = call_internal service name body w in (r, client.retry_metrics, w')
    | some config ↦
        let (r, s) =
          call_with_retry config (call_internal service name body) backon client.retry_metrics w in
        (r, s.metrics, s.world)
  ]
