-- ===== src/Macros/Client.antt =====
-- zel_macros/src/render/client.rs: the methods of the generated client, on the arguments of a call.
pub mod Remote
pub mod Bodies
pub mod Subscribed
pub mod Bidirectional
pub mod Guarded
pub mod Retried
use zel.Prelude.{
  String, Bytes, Option, none, some, Result, ok, err, map_err, and_then, List, Exec, lift, ◌>>=◌,
}
use zel.Types.Protocol.{Response}
use zel.Wire.{Codec}
use zel.Client.Errors.{ClientError, serialization}
use zel.Client.Transport.{Transport}
use zel.Client.Operations
use zel.Client.Operations.{RpcClient, Client}
use zel.Retry.Backon.{Backon}
use zel.Retry.Metrics.{RetryMetrics}
use zel.Macros.Service.{Description}
use zel.Macros.Values.{Values, or_unit}
use zel.Macros.Codegen.{generate_param_serialization, generate_param_serialization_optional}

module _ (net : Transport) (codec : Codec) {Ty : Type 0} (vals : Values Ty) where
  open vals use {Value, from_slice}

  -- `serde_json::from_slice(&response.data)`
  abbrev pub result_of : Option Ty → Response → Result Value ClientError
  result_of return_type response =
      map_err serialization (from_slice (or_unit vals return_type) response.payload)

  abbrev pub received :
      Option Ty
      → Result Response ClientError × Option RetryMetrics × net.World
      → Result Value ClientError × Option RetryMetrics × net.World
  received return_type (r, metrics, w) = (and_then r (result_of return_type), metrics, w)

  -- The call with the body, where the arguments could be written.
  abbrev pub called_with :
      {F : Type 0}
      → Backon F
      → RpcClient F
      → (service_name : String) → Description Ty
      → Result Bytes ClientError
      → net.World
      → Result Value ClientError × Option RetryMetrics × net.World
  called_with backon client service_name m (ok body) w =
      received m.return_type
        (Operations.call net codec backon client service_name m.rpc_name body w)
  called_with backon client service_name m (err e) w = (err e, client.retry_metrics, w)

  -- The result, the metrics of the client, and the world.
  unfoldable pub render_client_method :
      {F : Type 0}
      → Backon F
      → RpcClient F
      → (service_name : String) → Description Ty
      → List Value
      → net.World
      → Result Value ClientError × Option RetryMetrics × net.World
  unfolding generate_param_serialization Operations.call
  render_client_method backon client service_name m args w =
      called_with backon client service_name m (generate_param_serialization vals args) w

  -- The stream of the result is the typed one, which keeps it as `inner`.
  unfoldable pub render_client_subscription :
      (service_name : String) → Description Ty → List Value → Client net codec net.RecvStream
  unfolding generate_param_serialization_optional Operations.subscribe
  render_client_subscription service_name d args =
      lift (generate_param_serialization_optional vals args) >>= λ body.
      Operations.subscribe net codec service_name d.rpc_name body

  unfoldable pub render_client_notification :
      (service_name : String)
      → Description Ty
      → List Value
      → Client net codec (net.SendStream × net.RecvStream)
  unfolding generate_param_serialization_optional Operations.notify
  render_client_notification service_name d args =
      lift (generate_param_serialization_optional vals args) >>= λ body.
      Operations.notify net codec service_name d.rpc_name body

  unfoldable pub render_client_stream :
      (service_name : String)
      → Description Ty
      → List Value
      → Client net codec (net.SendStream × net.RecvStream)
  unfolding generate_param_serialization_optional Operations.open_stream
  render_client_stream service_name d args =
      lift (generate_param_serialization_optional vals args) >>= λ body.
      Operations.open_stream net codec service_name d.rpc_name body
