-- ===== src/Examples/Retries.antt =====
-- The retry loop and its configuration at concrete inputs: a call that fails a few times first.
use zel.Prelude.{
  ℕ, zero, suc, ◌≡◌, refl, true, false, Option, some, Result, ok, err, [], Exec, arith,
}
use zel.Types.Protocol.{Response}
use zel.Client.Errors.{ClientError, connection}
use zel.Retry.Config.{RetryConfig, network_only, is_retryable}
use zel.Retry.Metrics.{RetryMetrics, record_success_after_retry}
use zel.Retry.Loop.{call_with_retry}
use zel.Retry.Outcomes.{Fails, start, again, retry_succeeds, retry_exhausted}
use zel.Examples.Instances.{backon}

abbrev config : RetryConfig (Option ℕ)
config = record {
  max_attempts = 2;
  initial_backoff = 100;
  max_backoff = 1000;
  backoff_multiplier = some 4;
  jitter = false;
  retryable_errors = network_only;
}

abbrev response : Response
response = record { payload = [] }

-- As many network errors as the world says, and then the outcome.
abbrev call : Result Response ClientError → Exec ℕ ClientError Response
call r zero = (r, zero)
call r (suc n) = (err (connection "down"), n)

abbrev metrics : RetryMetrics
metrics = record { total_retries = 0; successful_after_retry = 0; failed_after_max_retries = 0 }

network_retryable : is_retryable config (connection "down") ≡ true
unfolding is_retryable
network_retryable = refl

two_failures : (r : Result Response ClientError) → Fails config (call r) 2 2 0
two_failures r =
    again (connection "down") refl network_retryable
      (again (connection "down") refl network_retryable start)

retry_succeeds_example : call_with_retry config (call (ok response)) backon (some metrics) 2 ≡ (
  ok response,
  record {
    attempt = 3;
    metrics = some (record_success_after_retry (record metrics { total_retries = 2 }));
    world = 0;
  },
)
retry_succeeds_example =
    retry_succeeds config (call (ok response)) backon metrics response (two_failures (ok response))
      (omega arith) (omega arith) (omega arith) refl

retry_exhausted_example :
    call_with_retry config (call (err (connection "down"))) backon (some metrics) 2 ≡ (
      err (connection "down"),
      record { attempt = 3; metrics = some (record metrics { total_retries = 3 }); world = 0 },
    )
retry_exhausted_example =
    retry_exhausted config (call (err (connection "down"))) backon metrics (connection "down")
      (two_failures (err (connection "down"))) (omega arith) (omega arith) refl network_retryable
