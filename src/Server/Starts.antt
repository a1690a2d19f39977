-- ===== src/Server/Starts.antt =====
-- server.rs and the handlers: when a callback is started in a task, and which streams are accepted.
use zel.Prelude.{
  ℕ, ◌≡◌, refl, ap, String, Bytes, Bool, true, false, ◌&&◌, Option, none, some, Result, ok, err,
  List, [], ◌∷◌, ◌++◌, string_key, count, count-append, arith, concat, if◌then◌else◌, Bool-cases,
  inl, inr,
}
use mathlib.Core.Bool.{false≢true}
use zel.Types.Protocol.{Request, SubscriptionMsg, NotificationMsg}
use zel.Types.Errors.{ResourceError}
use zel.Wire.{Codec}
use zel.Platform.{Platform}
use zel.Breaker.Library.{BreakerLib}
use zel.Breaker.Peers.{PeerCircuitBreakers}
use zel.Handlers.Guard.{ResourceResponse}
use zel.Server.Registry.{
  ResourceCallback, rpc, subscription_producer, notification_consumer, stream_handler,
}
use zel.Server.Streams.{
  Link, Env, Action, ack, write_raw, spawn, send_response, send_error_response,
  send_subscription_ack, send_notification_ack, send_stream_ack, confirm, establish,
  handle_subscription, handle_notification, handle_stream_handler, start_task, callback_failure,
  empty_response, sent, acknowledged, ok_bytes,
}
use zel.Server.Dispatch.{
  handle_rpc, dispatch, Arrival, shutdown_signalled, accepted, accept_streams,
}
use zel.Server.Replies.{Encodes}

abbrev pub is_none {ℓ} : {A : Type ℓ} → Option A → Bool
is_none none = true
is_none (some a) = false

-- The stream opens, and both frames go out.
abbrev pub works : Link → Bool
works link = link.opened && is_none link.ack_error && is_none link.reply_error

module _ (io : Platform) (Task : Type 0) (codec : Codec) where
  open codec use {response}

  abbrev pub is_spawn : Action io Task → Bool
  is_spawn (spawn task ctx request) = true
  is_spawn _ = false

  abbrev pub spawns : List (Action io Task) → ℕ
  spawns = count is_spawn

  -- The encoders fail on no message of the server.
  pub record EncodesAll : Type 0 where
    pub responses : Encodes io Task codec
    pub subscriptions : (m : SubscriptionMsg) → (b : Bytes) × (codec.subscription.to_vec m ≡ ok b)
    pub notifications : (m : NotificationMsg) → (b : Bytes) × (codec.notification.to_vec m ≡ ok b)

  spawns-send_error_response :
      EncodesAll → (e : ResourceError) → spawns (send_error_response io Task codec e) ≡ 0
  unfolding send_error_response
  spawns-send_error_response total e = let (b, h) = total.responses (err e) in rw (h, count) refl

  spawns-send_response :
      EncodesAll → (r : ResourceResponse) → spawns (send_response io Task codec r).1 ≡ 0
  unfolding send_response
  spawns-send_response total r = let (b, h) = total.responses r in rw (h, count) refl

  spawns-confirm :
      EncodesAll
      → (link : Link) (failure : String) (task : Action io Task) → is_spawn task ≡ true
      → spawns (confirm io Task codec link failure task).1
        ≡ (if is_none link.reply_error then 1 else 0)
  unfolding confirm
  spawns-confirm total link failure task h =
      let (b, e) = total.responses (ok empty_response) in rw (e, count) (ground arith)

  spawns-acknowledged :
      EncodesAll
      → (e : Option String) (prefix : String) (done rest : List (Action io Task))
        (r : Result (Unit {0}) String) (last : Bool)
      → spawns done ≡ 0
      → spawns rest ≡ (if last then 1 else 0)
      → spawns (acknowledged io Task codec prefix (sent io Task e, done) (r, rest)).1
        ≡ (if is_none e && last then 1 else 0)
  spawns-acknowledged total none prefix done rest r last a c =
      ground (arith, count-append is_spawn done rest)
  spawns-acknowledged total (some e) prefix done rest r last a c =
      let failure = callback_failure io Task codec (concat prefix e) in
      ground (
        arith,
        spawns-send_error_response total failure,
        count-append is_spawn done (send_error_response io Task codec failure),
      )

  -- A handler whose acknowledgment starts nothing.
  spawns-establish :
      EncodesAll
      → (link : Link) (refused prefix : String) (done rest : List (Action io Task))
        (r : Result (Unit {0}) String)
      → spawns done ≡ 0
      → spawns rest ≡ (if is_none link.reply_error then 1 else 0)
      → spawns
          (establish io Task codec link refused prefix
            (sent io Task link.ack_error, done)
            (r, rest)).1
        ≡ (if works link then 1 else 0)
  unfolding establish
  spawns-establish total link refused prefix done rest r a c = elim (Bool-cases link.opened) [
    | inl o ↦
        rw o (
          spawns-acknowledged total link.ack_error prefix done rest r (is_none link.reply_error) a
            c)
    | inr o ↦ rw o (spawns-send_error_response total (callback_failure io Task codec refused))
  ]

  module _ (total : EncodesAll) (env : Env io) (link : Link) (task : Task) (request : Request) where
    abbrev start : Action io Task
    start = start_task io Task codec env task request

    is_spawn-start : is_spawn start ≡ true
    unfolding start_task
    is_spawn-start = refl

    spawns-handle_subscription :
        spawns (handle_subscription io Task codec env link task request).1
        ≡ (if works link then 1 else 0)
    unfolding handle_subscription send_subscription_ack
    spawns-handle_subscription =
        let failure : String = "failed to serialize response something really bad is happening" in
        let (b, e) =
          total.subscriptions (SubscriptionMsg.established request.service request.resource) in
        let confirmed = confirm io Task codec link failure start in
        rw (handle_subscription, send_subscription_ack, e)
          (spawns-establish total link "Failed to establish stream" "Failed to send ack: "
            (ack b ∷ []) confirmed.1 confirmed.0 refl
            (spawns-confirm total link failure start is_spawn-start))

    spawns-handle_notification :
        spawns (handle_notification io Task codec env link task request).1
        ≡ (if works link then 1 else 0)
    unfolding handle_notification send_notification_ack
    spawns-handle_notification =
        let failure : String = "failed to serialize notification response" in
        let (b, e) =
          total.notifications (NotificationMsg.established request.service request.resource) in
        let confirmed = confirm io Task codec link failure start in
        rw (handle_notification, send_notification_ack, e)
          (spawns-establish total link "Failed to establish notification stream"
            "Failed to send ack: " (ack b ∷ []) confirmed.1 confirmed.0 refl
            (spawns-confirm total link failure start is_spawn-start))

    spawns-handle_stream_handler :
        spawns (handle_stream_handler io Task codec env link task request).1
        ≡ (if works link then 1 else 0)
    unfolding handle_stream_handler send_stream_ack
    spawns-handle_stream_handler =
        let failure : String = "failed to serialize response something really bad is happening" in
        let confirmed = confirm io Task codec link failure start in
        spawns-establish total link "Failed to open bidi stream" "Failed to send stream ACK: "
          (write_raw ok_bytes ∷ []) confirmed.1 confirmed.0 refl
          (spawns-confirm total link failure start is_spawn-start)

  module _ {F : Type 0} (lib : BreakerLib F) (total : EncodesAll) (env : Env io) (link : Link) where
    -- The callbacks that run in a task of their own.
    abbrev pub is_streaming : ResourceCallback io lib Task → Bool
    is_streaming (rpc callback) = false
    is_streaming _ = true

    -- Where the encoders fail on no message: a request starts a task exactly if its resource is a
    -- subscription, a notification or a raw stream, the new stream opens, and both the
    -- acknowledgment on it and the success reply are sent; and it starts one task then. An RPC starts
    -- none.
    pub spawns-dispatch :
        (resource : ResourceCallback io lib Task) (request : Request)
        (cbs : Option (PeerCircuitBreakers lib)) (now : ℕ)
        → spawns (dispatch io lib Task codec env link resource request cbs now).0.1
          ≡ (if is_streaming resource && works link then 1 else 0)
    unfolding dispatch handle_rpc
    spawns-dispatch (rpc callback) request cbs now = spawns-send_response total _
    spawns-dispatch (subscription_producer task) request cbs now =
        spawns-handle_subscription total env link task request
    spawns-dispatch (notification_consumer task) request cbs now =
        spawns-handle_notification total env link task request
    spawns-dispatch (stream_handler task) request cbs now =
        spawns-handle_stream_handler total env link task request

-- What ends the accept loop: the signal, the flag, or a connection that fails.
abbrev pub ends_loop : {S : Type 0} → Arrival S → Bool
ends_loop shutdown_signalled = true
ends_loop (accepted true r) = true
ends_loop (accepted false (err e)) = true
ends_loop (accepted false (ok s)) = false

-- Streams that arrive while the server is not shutting down.
abbrev pub offers : {S : Type 0} → List S → List (Arrival S)
offers [] = []
offers (s ∷ rest) = accepted false (ok s) ∷ offers rest

-- A connection gets a handler for each of the streams that arrive before the signal, the flag or a
-- failure ends its loop, in their order, and for none of those that arrive from then on.
pub accept_streams-offers :
    {S : Type 0} (streams : List S) (last : Arrival S) (later : List (Arrival S))
    → ends_loop last ≡ true
    → accept_streams (offers streams ++ last ∷ later) ≡ streams
unfolding accept_streams
accept_streams-offers [] shutdown_signalled later h = refl
accept_streams-offers [] (accepted true r) later h = refl
accept_streams-offers [] (accepted false (err e)) later h = refl
accept_streams-offers [] (accepted false (ok s)) later h = absurd (false≢true h)
accept_streams-offers (s ∷ rest) last later h =
    ap (λ l. s ∷ l) (accept_streams-offers rest last later h)
