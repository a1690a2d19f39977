-- ===== src/Handlers/Guard.antt =====
-- handlers/rpc.rs: an RPC callback run under the circuit breaker of its peer.
pub mod Severity
use zel.Prelude.{
  ℕ, ◌≡◌, refl, ap, ◌∙◌, String, concat, Option, none, some, Result, ok, err, map_err, arith,
}
use zel.Types.Protocol.{Request, Response}
use zel.Types.Errors.{
  ErrorSeverity, infrastructure, system_failure, application, ResourceError, callback_error,
  circuit_breaker_open, display, severity,
}
use zel.Classify.{
  Error, anyhow, ErrorClassifier, default, all_errors, classify, as_application, as_infrastructure,
  as_system_failure, is_infrastructure_error,
}
use zel.Breaker.Config
use zel.Breaker.Config.{ServiceError, from_severity_and_msg}
use zel.Breaker.Library.{BreakerError, opened, operation, other, Refusal, refused, BreakerLib}
use zel.Breaker.Peers.{PeerCircuitBreakers, breaker_of, call_async}
use zel.Breaker.Calls.{reported, call_async-admitted, call_async-refused}
use zel.Platform.{Platform}
use zel.Context.{RequestContext}

abbrev pub ResourceResponse : Type 0
ResourceResponse = Result Response ResourceError

abbrev pub with_severity : ErrorSeverity → Error → Error
unfolding as_application as_infrastructure as_system_failure
with_severity application e = as_application e
with_severity infrastructure e = as_infrastructure e
with_severity system_failure e = as_system_failure e

-- The callback's error as an `anyhow::Error` that is marked with its severity.
unfoldable pub to_error : ResourceError → Error
unfolding display severity
to_error e = with_severity (severity e) (anyhow (display e))

module _ (io : Platform) {F : Type 0} (lib : BreakerLib F) where
  abbrev pub Rpc : Type 0
  Rpc = RequestContext io → Request → ResourceResponse

  unfoldable pub answer : ℕ → Result Response BreakerError → ResourceResponse
  answer peer (ok resp) = ok resp
  answer peer (err opened) = err (circuit_breaker_open (io.show_key peer))
  answer peer (err (operation e)) = err (callback_error (Config.display e) (Config.severity e) none)
  answer peer (err (other text)) = err (callback_error text application none)

  unfoldable pub execute_rpc_with_circuit_breaker :
      Rpc
      → RequestContext io
      → Request
      → Option (PeerCircuitBreakers lib)
      → (now peer : ℕ) → ResourceResponse × Option (PeerCircuitBreakers lib)
  unfolding to_error answer
  execute_rpc_with_circuit_breaker callback ctx request none now peer = (callback ctx request, none)
  execute_rpc_with_circuit_breaker callback ctx request (some cb) now peer =
      let (r, cb') = call_async lib cb now peer (map_err to_error (callback ctx request)) in
      (answer peer r, some cb')
