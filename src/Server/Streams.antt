-- ===== src/Server/Streams.antt =====
-- handlers/helpers.rs, subscription.rs, notification.rs and stream.rs. A handler is the list of what
-- it does, in order, with its result; what the peer and the network do is given by a `Link`.
use zel.Prelude.{
  String, concat, Bytes, Bool, Option, none, some, Result, ok, err, List, [], ◌∷◌, ◌++◌,
  if◌then◌else◌,
}
use zel.Types.Protocol.{Request, Response, SubscriptionMsg, NotificationMsg}
use zel.Types.Errors.{application, ResourceError, callback_error, serialization_error}
use zel.Wire.{Codec}
use zel.Platform.{Platform}
use zel.Extensions.{Extensions}
use zel.Context.{RequestContext, Middleware, build_request_context, apply_middleware}
use zel.Handlers.Guard.{ResourceResponse}

-- Whether the new stream opens, and the errors of the two sends, if they fail.
pub record Link : Type 0 where
  pub opened : Bool
  pub ack_error : Option String
  pub reply_error : Option String

-- What the handlers of a connection share.
pub record Env (io : Platform) : Type 0 where
  pub connection : io.Connection
  pub endpoint : io.Endpoint
  pub server_extensions : Extensions io.Value
  pub connection_extensions : Extensions io.Value
  pub request_middleware : List (Middleware io)
  pub shutdown_signal : io.Notify

abbrev pub ok_bytes : Bytes
ok_bytes = 79 ∷ 75 ∷ []

abbrev pub empty_response : Response
empty_response = record { payload = [] }

module _ (io : Platform) (Task : Type 0) where
  -- `reply` is a frame sent on the request's stream, whether or not the send succeeds, and `ack` one
  -- on the new stream; `spawn` starts a callback with its context.
  pub data Action : Type 0 where
    reply : Bytes → Action
    open_uni : Action
    open_bi : Action
    ack : Bytes → Action
    write_raw : Bytes → Action
    spawn : Task → RequestContext io → Request → Action

  abbrev pub Handled : Type 0
  Handled = Result (Unit {0}) String × List Action

  abbrev pub sent : Option String → Result (Unit {0}) String
  sent none = ok tt
  sent (some e) = err e

  module _ (codec : Codec) where
    open codec use {response, subscription, notification}

    unfoldable pub send_error_response : ResourceError → List Action
    send_error_response e = elim (response.to_vec (err e)) [ ok b ↦ reply b ∷ [] | err m ↦ [] ]

    -- A failed send is only logged.
    unfoldable pub send_response : ResourceResponse → Handled
    send_response r = elim (response.to_vec r) [
      | ok b ↦ (ok tt, reply b ∷ [])
      | err m ↦ elim (response.to_vec (err (serialization_error m))) [
        | ok b ↦ (ok tt, reply b ∷ [])
        | err n ↦ (err "failed to serialize error response something really bad is happening", [])
      ]
    ]

    unfoldable pub callback_failure : String → ResourceError
    callback_failure message = callback_error message application none

    unfoldable pub send_subscription_ack : Link → Request → Handled
    send_subscription_ack link request =
        elim (subscription.to_vec (SubscriptionMsg.established request.service request.resource)) [
          | ok b ↦ (sent link.ack_error, ack b ∷ [])
          | err m ↦ (err "failed to serialize ack message something really bad is happening", [])
        ]

    unfoldable pub send_notification_ack : Link → Request → Handled
    send_notification_ack link request =
        elim (notification.to_vec (NotificationMsg.established request.service request.resource)) [
          | ok b ↦ (sent link.ack_error, ack b ∷ [])
          | err m ↦ (err "failed to serialize notification ack message", [])
        ]

    -- `write_all(b"OK")`
    unfoldable pub send_stream_ack : Link → Handled
    send_stream_ack link = (sent link.ack_error, write_raw ok_bytes ∷ [])

    -- The success reply on the request's stream, and the task if that was sent.
    unfoldable pub confirm : Link → String → Action → Handled
    confirm link failure task = elim (response.to_vec (ok empty_response)) [
      | ok b ↦ elim link.reply_error [
        | none ↦ (ok tt, reply b ∷ task ∷ [])
        | some e ↦ (ok tt, reply b ∷ [])
      ]
      | err m ↦ (err failure, [])
    ]

    abbrev pub acknowledged : String → Handled → Handled → Handled
    acknowledged prefix (ok _, done) (r, rest) = (r, done ++ rest)
    acknowledged prefix (err e, done) _ =
        (ok tt, done ++ send_error_response (callback_failure (concat prefix e)))

    -- The course that the three handlers take after the attempt to open a stream.
    unfoldable pub establish : Link → String → String → Handled → Handled → Handled
    unfolding send_error_response callback_failure
    establish link refused prefix acked confirmed =
        if link.opened
        then acknowledged prefix acked confirmed
        else (ok tt, send_error_response (callback_failure refused))

    module _ (env : Env io) where
      -- The spawned task builds its context and applies the middleware before the callback.
      unfoldable pub start_task : Task → Request → Action
      start_task task request =
          spawn task
            (apply_middleware io
              (build_request_context io env.connection env.endpoint request env.server_extensions
                env.connection_extensions env.shutdown_signal)
              env.request_middleware)
            request

      unfoldable pub handle_subscription : Link → Task → Request → Handled
      unfolding establish send_subscription_ack confirm start_task
      handle_subscription link task request =
          let (r, actions) =
            establish link "Failed to establish stream" "Failed to send ack: "
              (send_subscription_ack link request)
              (confirm link "failed to serialize response something really bad is happening"
                (start_task task request)) in
          (r, open_uni ∷ actions)

      unfoldable pub handle_notification : Link → Task → Request → Handled
      unfolding establish send_notification_ack confirm start_task
      handle_notification link task request =
          let (r, actions) =
            establish link "Failed to establish notification stream" "Failed to send ack: "
              (send_notification_ack link request)
              (confirm link "failed to serialize notification response"
                (start_task task request)) in
          (r, open_bi ∷ actions)

      unfoldable pub handle_stream_handler : Link → Task → Request → Handled
      unfolding establish send_stream_ack confirm start_task
      handle_stream_handler link task request =
          let (r, actions) =
            establish link "Failed to open bidi stream" "Failed to send stream ACK: "
              (send_stream_ack link)
              (confirm link "failed to serialize response something really bad is happening"
                (start_task task request)) in
          (r, open_bi ∷ actions)
