-- ===== src/Macros/Server.antt =====
-- zel_macros/src/render/server.rs: what the generated `register_service` adds to a server. The user's
-- implementation of a trait is the function `call` for the methods; what it does with the streams of
-- the others is not modelled, so that a streaming callback ends as the call that it makes.
pub mod Lookups
pub mod Duplicates
pub mod Unread
use zel.Prelude.{String, Bytes, Result, ok, err, map_err, and_then, List, [], ◌∷◌, ◌++◌, map}
use zel.Types.Protocol.{Request, Body}
use zel.Types.Errors.{ResourceError, serialization_error, app}
use zel.Platform.{Platform}
use zel.Context.{RequestContext}
use zel.Breaker.Library.{BreakerLib}
use zel.Handlers.Guard.{ResourceResponse}
use zel.Server.Registry.{
  ResourceCallback, rpc, subscription_producer, notification_consumer, stream_handler,
  RpcServerBuilder, register,
}
use zel.Macros.Helpers.{ParamInfo}
use zel.Macros.Service.{Description, Described, ServiceDescription}
use zel.Macros.Values.{Values}
use zel.Macros.Codegen.{generate_param_deserialization}

-- The bytes that a streaming callback reads its parameters from.
unfoldable pub subscription_data : Body → Bytes
subscription_data Body.subscribe = []
subscription_data (Body.rpc b) = b
subscription_data (Body.stream b) = b
subscription_data (Body.notify b) = b

unfoldable pub notification_data : Body → Bytes
notification_data (Body.notify b) = b
notification_data (Body.rpc b) = b
notification_data _ = []

unfoldable pub stream_data : Body → Bytes
stream_data (Body.stream b) = b
stream_data _ = []

module _ (io : Platform) {F : Type 0} (lib : BreakerLib F) {Ty : Type 0} (vals : Values Ty) where
  open vals use {Value, to_vec}

  -- A call of a method of the user: its name in the trait, the context and the parameters.
  pub record Invocation : Type 0 where
    pub rust_method : String
    pub ctx : RequestContext io
    pub args : List Value

  -- A streaming callback: the call of the user's method, or the error in place of it.
  abbrev pub Task : Type 0
  Task = RequestContext io → Request → Result Invocation ResourceError

  abbrev pub Callback : Type 0
  Callback = ResourceCallback io lib Task

  -- The parameters of a call, read from `data`, and the call.
  unfoldable pub invocation :
      Description Ty → RequestContext io → Bytes → Result Invocation ResourceError
  unfolding generate_param_deserialization
  invocation d ctx b =
      and_then (generate_param_deserialization vals d.params b)
        (λ args. ok (record { rust_method = d.signature.sig.ident; ctx = ctx; args = args }))

  unfoldable pub render_subscription_registration : Description Ty → String × Callback
  unfolding subscription_data invocation
  render_subscription_registration d = (
    d.rpc_name,
    subscription_producer (λ ctx request. invocation d ctx (subscription_data request.body)),
  )

  unfoldable pub render_notification_registration : Description Ty → String × Callback
  unfolding notification_data invocation
  render_notification_registration d = (
    d.rpc_name,
    notification_consumer (λ ctx request. invocation d ctx (notification_data request.body)),
  )

  unfoldable pub render_stream_registration : Description Ty → String × Callback
  unfolding stream_data invocation
  render_stream_registration d =
      (d.rpc_name, stream_handler (λ ctx request. invocation d ctx (stream_data request.body)))

  module _ (call : Invocation → Result Value ResourceError) where
    abbrev pub response_of : Value → ResourceResponse
    response_of v =
        and_then (map_err serialization_error (to_vec v)) (λ b. ok (record { payload = b }))

    -- `let Body::Rpc(data) = &req.body else { … }`
    unfoldable pub method_callback : Description Ty → RequestContext io → Request → ResourceResponse
    unfolding invocation app
    method_callback d ctx request = elim request.body [
      | Body.rpc b ↦ and_then (invocation d ctx b) (λ i. and_then (call i) response_of)
      | _ ↦ err (app "Expected RPC body")
    ]

    unfoldable pub render_method_registration : Description Ty → String × Callback
    unfolding method_callback
    render_method_registration d = (d.rpc_name, rpc (method_callback d))

    -- In the order in which the generated code registers them.
    unfoldable pub registrations : Described Ty → List (String × Callback)
    unfolding render_method_registration render_subscription_registration
        render_notification_registration render_stream_registration
    registrations d =
        map render_method_registration d.methods
        ++ (map render_subscription_registration d.subscriptions
            ++ (map render_notification_registration d.notifications
                ++ map render_stream_registration d.streams))

    unfoldable pub render_register_service_body :
        ServiceDescription Ty → RpcServerBuilder io lib Task → RpcServerBuilder io lib Task
    unfolding registrations register
    render_register_service_body s builder =
        register io lib Task builder s.service_name (registrations s.described)
