-- ===== src/Retry/Config.antt =====
-- retry.rs: the retry configuration, its builder and its validation. A `Duration` is its number of
-- nanoseconds.
use zel.Prelude.{
  ℕ, ◌*◌, ◌<◌, ◌≡◌, ◌↔◌, refl, Bool, true, false, Result, ok, err, arith, leb, nat_beq,
  if◌then◌else◌,
}
use zel.Client.Errors.{ClientError, io, connection, protocol}
use zel.Floats.{Floats}

pub data ConfigError (F : Type 0) : Type 0 where
  invalid_max_attempts : ℕ → ConfigError F
  invalid_backoff_range : (initial max : ℕ) → ConfigError F
  invalid_multiplier : F → ConfigError F

pub data ErrorPredicate : Type 0 where
  network_only : ErrorPredicate
  network_and_timeout : ErrorPredicate
  custom : (ClientError → Bool) → ErrorPredicate

pub record RetryConfig (F : Type 0) : Type 0 where
  pub max_attempts : ℕ
  pub initial_backoff : ℕ
  pub max_backoff : ℕ
  pub backoff_multiplier : F
  pub jitter : Bool
  pub retryable_errors : ErrorPredicate

abbrev pub default_max_attempts : ℕ
default_max_attempts = 3

abbrev pub default_initial_backoff_ms : ℕ
default_initial_backoff_ms = 100

abbrev pub default_max_backoff_secs : ℕ
default_max_backoff_secs = 30

abbrev pub matches_network : ClientError → Bool
matches_network (connection m) = true
matches_network (io m) = true
matches_network _ = false

abbrev pub matches_network_and_timeout : ClientError → Bool
matches_network_and_timeout (connection m) = true
matches_network_and_timeout (io m) = true
matches_network_and_timeout (protocol m) = true
matches_network_and_timeout _ = false

abbrev pub selects : ErrorPredicate → ClientError → Bool
selects network_only e = matches_network e
selects network_and_timeout e = matches_network_and_timeout e
selects (custom predicate) e = predicate e

unfoldable pub is_retryable : {F : Type 0} → RetryConfig F → ClientError → Bool
is_retryable c e = selects c.retryable_errors e

module _ (f : Floats) where
  unfoldable pub default_config : RetryConfig f.Float
  default_config = record {
    max_attempts = default_max_attempts;
    initial_backoff = default_initial_backoff_ms * 1_000_000;
    max_backoff = default_max_backoff_secs * 1_000_000_000;
    backoff_multiplier = f.two;
    jitter = true;
    retryable_errors = network_only;
  }

  -- A call of the builder.
  pub data Setting : Type 0 where
    max_attempts : ℕ → Setting
    initial_backoff : ℕ → Setting
    max_backoff : ℕ → Setting
    backoff_multiplier : f.Float → Setting
    with_jitter : Setting
    without_jitter : Setting
    retry_network_errors_only : Setting
    retry_network_and_timeout : Setting
    with_custom_predicate : (ClientError → Bool) → Setting

  unfoldable pub apply : RetryConfig f.Float → Setting → RetryConfig f.Float
  apply c (max_attempts n) = record c { max_attempts = n }
  apply c (initial_backoff d) = record c { initial_backoff = d }
  apply c (max_backoff d) = record c { max_backoff = d }
  apply c (backoff_multiplier m) = record c { backoff_multiplier = m }
  apply c with_jitter = record c { jitter = true }
  apply c without_jitter = record c { jitter = false }
  apply c retry_network_errors_only = record c { retryable_errors = network_only }
  apply c retry_network_and_timeout = record c { retryable_errors = network_and_timeout }
  apply c (with_custom_predicate p) = record c { retryable_errors = custom p }

  unfoldable pub build : RetryConfig f.Float → Result (RetryConfig f.Float) (ConfigError f.Float)
  build c =
      if nat_beq c.max_attempts 0
      then err (invalid_max_attempts 0)
      else if leb c.max_backoff c.initial_backoff
      then err (invalid_backoff_range c.initial_backoff c.max_backoff)
      else if f.le c.backoff_multiplier f.one
      then err (invalid_multiplier c.backoff_multiplier)
      else ok c

  -- The builder accepts a configuration exactly when it allows an attempt, its initial backoff is
  -- below the greatest, and its multiplier is not below or equal to one; and what it returns is the
  -- configuration as it was set.
  pub build_ok_iff :
      (c d : RetryConfig f.Float)
      → (build c ≡ ok d) ↔ (
          (d ≡ c)
          × (0 < c.max_attempts)
          × (c.initial_backoff < c.max_backoff)
          × (f.le c.backoff_multiplier f.one ≡ false))
  unfolding build
  build_ok_iff c d = (λ h. ground arith, λ h. ground arith)

  -- A multiplier that is no number passes the validation, though it is not greater than one.
  pub build_accepts_nan :
      (c : RetryConfig f.Float)
      → 0 < c.max_attempts
      → c.initial_backoff < c.max_backoff
      → f.le c.backoff_multiplier c.backoff_multiplier ≡ false
      → build c ≡ ok c
  build_accepts_nan c a b n =
      (build_ok_iff c c).1 (refl, a, b, f.nan_le c.backoff_multiplier f.one n)

  -- The default configuration passes the validation.
  pub build-default_config : build default_config ≡ ok default_config
  unfolding default_config
  build-default_config =
      (build_ok_iff default_config default_config).1 (refl, omega arith, omega arith, f.two_gt_one)
