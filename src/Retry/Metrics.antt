-- ===== src/Retry/Metrics.antt =====
-- retry_metrics.rs: three counters of 64 bits that wrap around.
use zel.Prelude.{ℕ, ◌+◌, ◌%◌, ◌^◌}

abbrev pub u64 : ℕ → ℕ
u64 n = n % 2 ^ 64

pub record RetryMetrics : Type 0 where
  pub total_retries : ℕ
  pub successful_after_retry : ℕ
  pub failed_after_max_retries : ℕ

unfoldable pub new : RetryMetrics
new = record { total_retries = 0; successful_after_retry = 0; failed_after_max_retries = 0 }

unfoldable pub increment_total_retries : RetryMetrics → RetryMetrics
increment_total_retries m = record m { total_retries = u64 (m.total_retries + 1) }

unfoldable pub record_success_after_retry : RetryMetrics → RetryMetrics
record_success_after_retry m = record m {
  successful_after_retry = u64 (m.successful_after_retry + 1);
}

unfoldable pub record_max_retries_exceeded : RetryMetrics → RetryMetrics
record_max_retries_exceeded m = record m {
  failed_after_max_retries = u64 (m.failed_after_max_retries + 1);
}

unfoldable pub reset : RetryMetrics → RetryMetrics
reset m = record m { total_retries = 0; successful_after_retry = 0; failed_after_max_retries = 0 }
