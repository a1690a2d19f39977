-- ===== src/Breaker/Library.antt =====
-- What circuit_breaker.rs uses of the crate `circuitbreaker_rs`: a breaker decides whether a call is
-- let through, runs it then, and is told only whether it failed.
use zel.Prelude.{ℕ, String, Option, none, some, ◌≡◌, Bool, Result, err, is_ok, map_err}
use zel.Breaker.Config.{ServiceError}

pub data State : Type 0 where
  closed opened half_open : State

pub data BreakerError : Type 0 where
  opened : BreakerError
  operation : ServiceError → BreakerError
  other : (text : String) → BreakerError

-- Why a call was not let through.
pub data Refusal : Type 0 where
  opened : Refusal
  other : (text : String) → Refusal

abbrev pub refused : Refusal → BreakerError
refused Refusal.opened = BreakerError.opened
refused (Refusal.other t) = BreakerError.other t

-- The arguments of the crate's builder; what is left out keeps the crate's default.
pub record Settings (F : Type 0) : Type 0 where
  pub failure_threshold : F
  pub cooldown : ℕ
  pub consecutive_failures : Option ℕ
  pub consecutive_successes : Option ℕ
  pub probe_interval : Option ℕ

pub record BreakerLib (F : Type 0) : Type 1 where
  pub Breaker : Type 0
  pub build : Settings F → Breaker
  pub current_state : Breaker → State
  -- `call_async` at a time, on an operation that would return `r`.
  pub call_async :
      {T : Type 0} → ℕ → Breaker → Result T ServiceError → Result T BreakerError × Breaker
  pub refusal : ℕ → Breaker → Option Refusal
  pub settle : ℕ → Bool → Breaker → Breaker
  pub reject : ℕ → Breaker → Breaker
  -- A call that is let through returns what the operation returned, and the breaker learns whether
  -- that was a success.
  pub call_admitted :
      {T : Type 0} (now : ℕ) (b : Breaker) (r : Result T ServiceError)
      → refusal now b ≡ none
      → call_async now b r ≡ (map_err BreakerError.operation r, settle now (is_ok r) b)
  -- A call that is not let through does not run the operation.
  pub call_refused :
      {T : Type 0} (now : ℕ) (b : Breaker) (r : Result T ServiceError) {x : Refusal}
      → refusal now b ≡ some x
      → call_async now b r ≡ (err (refused x), reject now b)
