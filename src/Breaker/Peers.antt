-- ===== src/Breaker/Peers.antt =====
-- circuit_breaker.rs: one circuit breaker for each peer. A public key is the number that its bytes
-- spell. The crate's breakers are shared handles: a call through a clone changes the one in the map.
use zel.Prelude.{ℕ, Option, none, some, [], map, Result, ok, err, HashMap, lookup, insert, nat_key}
use zel.Types.Errors.{ErrorSeverity, infrastructure, system_failure, application}
use zel.Classify.{Error, to_string, ErrorClassifier, classify}
use zel.Breaker.Config.{
  ServiceError, from_severity_and_msg, CircuitBreakerConfig, CircuitState, closed, opened,
  half_open,
}
use zel.Breaker.Library.{BreakerError, operation, State, BreakerLib}

module _ {T : Type 0} where
  abbrev by_severity : ErrorSeverity → ServiceError → Result (Result T ServiceError) ServiceError
  by_severity application s = ok (err s)
  by_severity infrastructure s = err s
  by_severity system_failure s = err s

  -- The closure that the breaker runs: an application error is returned inside a success.
  unfoldable pub wrap :
      ErrorClassifier → Result T Error → Result (Result T ServiceError) ServiceError
  wrap k (ok v) = ok (ok v)
  wrap k (err e) = by_severity (classify k e) (from_severity_and_msg (classify k e) (to_string e))

  unfoldable pub unwrap : Result (Result T ServiceError) BreakerError → Result T BreakerError
  unwrap (ok (ok v)) = ok v
  unwrap (ok (err s)) = err (operation s)
  unwrap (err e) = err e

module _ {F : Type 0} (lib : BreakerLib F) where
  open lib use {Breaker, build, current_state}

  pub record PeerCircuitBreakers : Type 0 where
    pub breakers : HashMap ℕ Breaker
    pub config : CircuitBreakerConfig F
    pub classifier : ErrorClassifier

  unfoldable pub new : CircuitBreakerConfig F → PeerCircuitBreakers
  new c = record { breakers = []; config = c; classifier = c.error_classifier }

  -- Each optional setting of the configuration is passed on to the crate where it is present.
  unfoldable pub create_circuit_breaker : CircuitBreakerConfig F → Breaker
  create_circuit_breaker c = build (record {
    failure_threshold = c.failure_rate;
    cooldown = c.timeout;
    consecutive_failures = c.consecutive_failures;
    consecutive_successes = c.consecutive_successes;
    probe_interval = c.probe_interval;
  })

  abbrev pub entry : Option Breaker → Breaker → Breaker
  entry none b = b
  entry (some b) _ = b

  -- `entry(peer).or_insert_with(create)`
  unfoldable pub breaker_of : PeerCircuitBreakers → ℕ → Breaker
  unfolding create_circuit_breaker
  breaker_of p peer = entry (lookup peer p.breakers) (create_circuit_breaker p.config)

  module _ {T : Type 0} where
    -- `call_async` for a peer, at a time, on an operation that would return `r`.
    unfoldable pub call_async :
        PeerCircuitBreakers → ℕ → ℕ → Result T Error → Result T BreakerError × PeerCircuitBreakers
    unfolding breaker_of wrap unwrap
    call_async p now peer r =
        let (result, b) = lib.call_async now (breaker_of p peer) (wrap p.classifier r) in
        (unwrap result, record p { breakers = insert peer b p.breakers })

  abbrev pub circuit_state : State → CircuitState
  circuit_state State.closed = closed
  circuit_state State.opened = opened
  circuit_state State.half_open = half_open

  unfoldable pub get_stats : PeerCircuitBreakers → HashMap ℕ CircuitState
  get_stats p = map (λ (peer, b). (peer, circuit_state (current_state b))) p.breakers
