-- ===== src/Breaker/Config.antt =====
-- circuit_breaker.rs: service errors, the configuration and its builder, the states reported.
use zel.Prelude.{ℕ, ◌*◌, String, Option, some, concat}
use zel.Types.Errors.{ErrorSeverity}
use zel.Classify.{Error, to_string, ErrorClassifier, default, classify}
use zel.Floats.{Floats}

pub data ServiceError : Type 0 where
  application : String → ServiceError
  infrastructure : String → ServiceError
  system_failure : String → ServiceError

unfoldable pub display : ServiceError → String
display (application m) = concat "Application error: " m
display (infrastructure m) = concat "Infrastructure error: " m
display (system_failure m) = concat "System failure: " m

unfoldable pub severity : ServiceError → ErrorSeverity
severity (application m) = ErrorSeverity.application
severity (infrastructure m) = ErrorSeverity.infrastructure
severity (system_failure m) = ErrorSeverity.system_failure

unfoldable pub from_severity_and_msg : ErrorSeverity → String → ServiceError
from_severity_and_msg ErrorSeverity.application m = application m
from_severity_and_msg ErrorSeverity.infrastructure m = infrastructure m
from_severity_and_msg ErrorSeverity.system_failure m = system_failure m

-- `impl From<anyhow::Error> for ServiceError`
unfoldable pub from_error : Error → ServiceError
from_error e = elim (classify default e) [
  | ErrorSeverity.application ↦ application (to_string e)
  | ErrorSeverity.infrastructure ↦ infrastructure (to_string e)
  | ErrorSeverity.system_failure ↦ system_failure (to_string e)
]

abbrev pub default_consecutive_failures : ℕ
default_consecutive_failures = 5

abbrev pub default_success_threshold : ℕ
default_success_threshold = 2

abbrev pub default_circuit_timeout_secs : ℕ
default_circuit_timeout_secs = 30

abbrev pub default_probe_interval : ℕ
default_probe_interval = 3

-- A `Duration` is its number of nanoseconds.
abbrev pub from_secs : ℕ → ℕ
from_secs s = s * 1_000_000_000

pub record CircuitBreakerConfig (F : Type 0) : Type 0 where
  pub failure_rate : F
  pub consecutive_failures : Option ℕ
  pub consecutive_successes : Option ℕ
  pub timeout : ℕ
  pub probe_interval : Option ℕ
  pub error_classifier : ErrorClassifier

module _ (f : Floats) where
  abbrev pub Config : Type 0
  Config = CircuitBreakerConfig f.Float

  -- `CircuitBreakerConfig::default`, which is also what its builder starts from.
  unfoldable pub default_config : Config
  default_config = record {
    failure_rate = f.half;
    consecutive_failures = some default_consecutive_failures;
    consecutive_successes = some default_success_threshold;
    timeout = from_secs default_circuit_timeout_secs;
    probe_interval = some default_probe_interval;
    error_classifier = default;
  }

  -- A call of the builder; `build` returns the configuration as it stands.
  pub data Setting : Type 0 where
    failure_threshold : f.Float → Setting
    consecutive_failures : ℕ → Setting
    consecutive_successes : ℕ → Setting
    timeout : ℕ → Setting
    probe_interval : ℕ → Setting
    with_error_classifier : ErrorClassifier → Setting

  unfoldable pub apply : Config → Setting → Config
  apply c (failure_threshold r) = record c { failure_rate = f.clamp r f.zero f.one }
  apply c (consecutive_failures n) = record c { consecutive_failures = some n }
  apply c (consecutive_successes n) = record c { consecutive_successes = some n }
  apply c (timeout d) = record c { timeout = d }
  apply c (probe_interval n) = record c { probe_interval = some n }
  apply c (with_error_classifier k) = record c { error_classifier = k }

pub data CircuitState : Type 0 where
  closed opened half_open : CircuitState
