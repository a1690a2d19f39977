-- ===== src/Examples/Bounds.antt =====
-- The bounds of the retry loop at concrete inputs.
use zel.Prelude.{ℕ, false, Option, none, some, err, Exec, ◌+◌, arith}
use zel.Types.Protocol.{Response}
use zel.Client.Errors.{ClientError, connection}
use zel.Retry.Config.{RetryConfig, network_only}
use zel.Retry.Loop.{call_with_retry}
use zel.Retry.Bounds.{CallsWithin, call_with_retry-CallsWithin}
use zel.Examples.Instances.{backon}

abbrev config : RetryConfig (Option ℕ)
config = record {
  max_attempts = 2;
  initial_backoff = 100;
  max_backoff = 1000;
  backoff_multiplier = some 4;
  jitter = false;
  retryable_errors = network_only;
}

-- The network stays down.
abbrev down : Exec ℕ ClientError Response
down n = (err (connection "down"), n + 1)

call_with_retry-CallsWithin_example :
    CallsWithin config down 0 3 (call_with_retry config down backon none 0)
call_with_retry-CallsWithin_example =
    call_with_retry-CallsWithin config down backon none 0 (omega arith)
