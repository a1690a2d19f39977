-- ===== src/Breaker/Thresholds.antt =====
-- The failure rate of a circuit breaker's configuration.
use zel.Prelude.{◌≡◌, true, List, [], ◌∷◌}
use zel.Floats.{Floats}
use zel.Breaker.Config.{
  Config, default_config, Setting, failure_threshold, consecutive_failures, consecutive_successes,
  timeout, probe_interval, with_error_classifier, apply,
}

module _ (f : Floats) where
  -- `CircuitBreakerConfig::builder()`, some calls of the builder, and `build()`.
  abbrev pub configured : Config f → List (Setting f) → Config f
  configured c [] = c
  configured c (s ∷ settings) = configured (apply f c s) settings

  -- No call gives a threshold that is NaN.
  abbrev pub AreNumbers : List (Setting f) → Type 0
  AreNumbers [] = Unit
  AreNumbers (failure_threshold r ∷ settings) = (f.le r r ≡ true) × AreNumbers settings
  AreNumbers (_ ∷ settings) = AreNumbers settings

  abbrev InRange : Config f → Type 0
  InRange c = (f.le f.zero c.failure_rate ≡ true) × (f.le c.failure_rate f.one ≡ true)

  configured-InRange :
      (c : Config f) (settings : List (Setting f))
      → InRange c
      → AreNumbers settings
      → InRange (configured c settings)
  unfolding apply
  configured-InRange c [] h n = h
  configured-InRange c (failure_threshold r ∷ settings) h n =
      configured-InRange (apply f c (failure_threshold r)) settings (f.clamp_bounds r n.0) n.1
  configured-InRange c (consecutive_failures k ∷ settings) h n =
      configured-InRange (apply f c (consecutive_failures k)) settings h n
  configured-InRange c (consecutive_successes k ∷ settings) h n =
      configured-InRange (apply f c (consecutive_successes k)) settings h n
  configured-InRange c (timeout d ∷ settings) h n =
      configured-InRange (apply f c (timeout d)) settings h n
  configured-InRange c (probe_interval k ∷ settings) h n =
      configured-InRange (apply f c (probe_interval k)) settings h n
  configured-InRange c (with_error_classifier k ∷ settings) h n =
      configured-InRange (apply f c (with_error_classifier k)) settings h n

  -- However a configuration is built, as long as no threshold is NaN: its failure rate lies between 0
  -- and 1, also where the thresholds that were given do not.
  pub failure_rate-bounds :
      (settings : List (Setting f))
      → AreNumbers settings
      → (f.le f.zero (configured (default_config f) settings).failure_rate ≡ true)
        × (f.le (configured (default_config f) settings).failure_rate f.one ≡ true)
  unfolding default_config
  failure_rate-bounds settings n = configured-InRange (default_config f) settings f.half_bounds n
