-- ===== src/Examples/Guards.antt =====
-- The circuit breakers at concrete inputs: a breaker that opens after two failures in a row.
use zel.Prelude.{ℕ, ◌≡◌, refl, none, some, Result, ok, err, List, [], ◌∷◌, lookup, nat_key}
use zel.Types.Errors.{application}
use zel.Classify.{Kind, Error, anyhow, default, classify, is_infrastructure_error}
use zel.Breaker.Config.{CircuitBreakerConfig}
use zel.Breaker.Library.{BreakerLib}
use zel.Breaker.Peers.{PeerCircuitBreakers, new, call_async}
use zel.Breaker.Calls.{application_error_as_success}
use zel.Breaker.Isolation.{Call, run, own_breaker, lookup-run}
use zel.Examples.Instances.{breakers}

abbrev lib : BreakerLib ℕ
lib = breakers

abbrev pub config : CircuitBreakerConfig ℕ
config = record {
  failure_rate = 1;
  consecutive_failures = some 2;
  consecutive_successes = some 1;
  timeout = 30;
  probe_interval = none;
  error_classifier = default;
}

-- Peer 1 has failed once, peer 2 twice.
abbrev peers : PeerCircuitBreakers lib
peers = record { breakers = (1, 1) ∷ (2, 2) ∷ []; config = config; classifier = default }

abbrev failure : Result ℕ Error
failure =
    err (record { contexts = []; wrapped = record { kind = Kind.io; text = "down" }; sources = [] })

abbrev bad_input : Error
bad_input = anyhow "bad input"

bad_input_of_application : classify default bad_input ≡ application
unfolding classify is_infrastructure_error
bad_input_of_application = refl

application_error_as_success_example :
    (call_async lib {T = ℕ} peers 0 1 (err bad_input)).1
    ≡ (call_async lib {T = ℕ} peers 0 1 (ok 7)).1
application_error_as_success_example =
    application_error_as_success lib peers 0 1 7 bad_input bad_input_of_application

abbrev history : List (Call ℕ)
history =
    record { now = 0; peer = 1; outcome = failure }
    ∷ record { now = 1; peer = 2; outcome = ok 7 }
    ∷ record { now = 2; peer = 1; outcome = failure }
    ∷ []

lookup-run_example :
    lookup 1 (run lib (new lib config) history).breakers
    ≡ own_breaker lib config default 1 none history
lookup-run_example = lookup-run lib config history 1
