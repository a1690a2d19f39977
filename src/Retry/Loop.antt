-- ===== src/Retry/Loop.antt =====
-- client.rs: `call_with_retry`, over any single call. The state of the loop is the attempt counter,
-- the metrics, and the world that the calls act on.
use zel.Prelude.{
  ℕ, ◌+◌, ◌-◌, ◌^◌, Option, none, some, Result, ok, err, leb, ltb, if◌then◌else◌, Exec,
}
use zel.Types.Protocol.{Response}
use zel.Client.Errors.{ClientError}
use zel.Retry.Config.{RetryConfig, is_retryable}
use zel.Retry.Metrics.{
  RetryMetrics, u64, increment_total_retries, record_success_after_retry,
  record_max_retries_exceeded,
}
use zel.Retry.Backon.{Policy, Backon}

pub record Attempts (W : Type 0) : Type 0 where
  pub attempt : ℕ
  pub metrics : Option RetryMetrics
  pub world : W

-- `if let Some(m) = &metrics { … }`
abbrev pub with_metrics : (RetryMetrics → RetryMetrics) → Option RetryMetrics → Option RetryMetrics
with_metrics f none = none
with_metrics f (some m) = some (f m)

module _ {F : Type 0} (config : RetryConfig F) where
  unfoldable pub retry_policy : Policy F
  retry_policy = record {
    max_times = config.max_attempts;
    min_delay = config.initial_backoff;
    max_delay = config.max_backoff;
    factor = config.backoff_multiplier;
    jitter = config.jitter;
  }

  -- The metrics after an attempt with the number `current`. The subtraction wraps around.
  unfoldable pub after_attempt :
      ℕ → Result Response ClientError → Option RetryMetrics → Option RetryMetrics
  after_attempt current (ok resp) m =
      if ltb 0 current then with_metrics record_success_after_retry m else m
  after_attempt current (err e) m =
      if is_retryable config e
      then with_metrics increment_total_retries m
      else if leb (u64 (config.max_attempts + 2 ^ 64 - 1)) current
      then with_metrics record_max_retries_exceeded m
      else m

  module _ {W : Type 0} (call_internal : Exec W ClientError Response) where
    -- The closure that is retried.
    unfoldable pub attempt_once : Exec (Attempts W) ClientError Response
    unfolding after_attempt
    attempt_once s =
        let (result, w) = call_internal s.world in
        (
          result,
          record {
            attempt = u64 (s.attempt + 1);
            metrics = after_attempt s.attempt result s.metrics;
            world = w;
          },
        )

    unfoldable pub call_with_retry :
        Backon F → Option RetryMetrics → W → Result Response ClientError × Attempts W
    unfolding retry_policy attempt_once
    call_with_retry b metrics w =
        b.retry attempt_once (is_retryable config) (b.delays retry_policy)
          (record { attempt = 0; metrics = metrics; world = w })
