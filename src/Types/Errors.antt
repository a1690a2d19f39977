-- ===== src/Types/Errors.antt =====
-- zel_types/src/lib.rs: the error that a resource returns, and its severity. The structured JSON
-- context of a callback error is kept as the text that serde writes for it.
use zel.Prelude.{String, Bytes, Option, none, concat}

pub data ErrorSeverity : Type 0 where
  infrastructure system_failure application : ErrorSeverity

pub data ResourceError : Type 0 where
  service_not_found : (service : String) → ResourceError
  resource_not_found : (service resource : String) → ResourceError
  callback_error :
      (message : String) (severity : ErrorSeverity) (context : Option Bytes) → ResourceError
  serialization_error : String → ResourceError
  circuit_breaker_open : (peer_id : String) → ResourceError

-- The `#[error(…)]` texts.
unfoldable pub display : ResourceError → String
display (service_not_found s) = concat "Service '" (concat s "' not found")
display (resource_not_found s r) =
    concat "Resource '" (concat r (concat "' not found in service '" (concat s "'")))
display (callback_error m s c) = concat "Callback execution failed: " m
display (serialization_error m) = concat "Serialization error: " m
display (circuit_breaker_open p) = concat "Circuit breaker open for peer " p

unfoldable pub severity : ResourceError → ErrorSeverity
severity (callback_error m s c) = s
severity (circuit_breaker_open p) = infrastructure
severity (service_not_found s) = application
severity (resource_not_found s r) = application
severity (serialization_error m) = application

unfoldable pub app : String → ResourceError
app m = callback_error m application none

unfoldable pub infra : String → ResourceError
infra m = callback_error m infrastructure none

unfoldable pub system : String → ResourceError
system m = callback_error m system_failure none
