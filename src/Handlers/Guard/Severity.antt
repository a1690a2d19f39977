-- ===== src/Handlers/Guard/Severity.antt =====
-- What the circuit breaker makes of a callback's result, on its way to the client.
use zel.Prelude.{ℕ, ◌≡◌, refl, ap, ◌∙◌, String, concat, none, some, ok, err, map_err}
use zel.Types.Protocol.{Request}
use zel.Types.Errors.{
  ErrorSeverity, infrastructure, system_failure, application, ResourceError, callback_error,
  circuit_breaker_open, display, severity,
}
use zel.Classify.{
  anyhow, default, classify, as_application, as_infrastructure, to_string, as_system_failure,
  is_infrastructure_error,
}
use zel.Breaker.Config
use zel.Breaker.Config.{ServiceError, from_severity_and_msg}
use zel.Breaker.Library.{Refusal, refused, BreakerLib}
use zel.Breaker.Peers.{PeerCircuitBreakers, breaker_of}
use zel.Breaker.Calls.{reported, call_async-admitted, call_async-refused}
use zel.Platform.{Platform}
use zel.Context.{RequestContext}
use zel.Handlers.Guard.{
  ResourceResponse, Rpc, with_severity, to_error, answer, execute_rpc_with_circuit_breaker,
}

classify-with_severity :
    (s : ErrorSeverity) (m : String) → classify default (with_severity s (anyhow m)) ≡ s
unfolding classify is_infrastructure_error as_application as_infrastructure as_system_failure
classify-with_severity infrastructure m = refl
classify-with_severity system_failure m = refl
classify-with_severity application m = refl

-- The default rules find in a callback's error the severity that the callback gave it.
pub classify-to_error : (e : ResourceError) → classify default (to_error e) ≡ severity e
unfolding to_error
classify-to_error e = classify-with_severity (severity e) (display e)

-- The text that reaches the client: that of the error, with the prefixes that the marker and the
-- service error put in front of it.
abbrev pub guarded_text : ErrorSeverity → String → String
guarded_text application t = concat "Application error: " t
guarded_text infrastructure t = concat "Infrastructure error: " t
guarded_text system_failure t = concat "System failure: " (concat "System failure: " t)

service_error-parts :
    (s : ErrorSeverity) (t : String)
    → let e = from_severity_and_msg s (to_string (with_severity s (anyhow t))) in
      (Config.display e ≡ guarded_text s t) × (Config.severity e ≡ s)
unfolding from_severity_and_msg Config.display Config.severity as_application as_infrastructure
    as_system_failure
service_error-parts infrastructure t = (refl, refl)
service_error-parts system_failure t = (refl, refl)
service_error-parts application t = (refl, refl)

module _ (io : Platform) {F : Type 0} (lib : BreakerLib F) where
  -- What a callback's result becomes on its way through a breaker that lets the call through.
  abbrev pub through_breaker : ResourceResponse → ResourceResponse
  through_breaker (ok resp) = ok resp
  through_breaker (err e) =
      err (callback_error (guarded_text (severity e) (display e)) (severity e) none)

  answer-reported :
      (peer : ℕ) (r : ResourceResponse)
      → answer io lib peer (reported default (map_err to_error r)) ≡ through_breaker r
  unfolding answer to_error
  answer-reported peer (ok resp) = refl
  answer-reported peer (err e) =
      let parts = service_error-parts (severity e) (display e) in
      rw (classify-with_severity (severity e) (display e)) (rw (parts.0, parts.1) refl)

  -- Where the peer's breaker lets the call through and errors are classified by the default rules,
  -- a response passes unchanged, and an error reaches the client as a callback error with the
  -- severity that the callback gave it, the callback's text behind a prefix for that severity, and
  -- no context.
  pub execute-admitted :
      (callback : Rpc io lib) (ctx : RequestContext io) (request : Request)
      (cb : PeerCircuitBreakers lib) (now peer : ℕ)
      → cb.classifier ≡ default
      → lib.refusal now (breaker_of lib cb peer) ≡ none
      → (execute_rpc_with_circuit_breaker io lib callback ctx request (some cb) now peer).0
        ≡ through_breaker (callback ctx request)
  unfolding execute_rpc_with_circuit_breaker
  execute-admitted callback ctx request cb now peer k h =
      ap (answer io lib peer) ((call_async-admitted lib cb now peer _ h).0)
      ∙ rw k (answer-reported peer _)

  abbrev pub refusal_answer : ℕ → Refusal → ResourceResponse
  refusal_answer peer Refusal.opened = err (circuit_breaker_open (io.show_key peer))
  refusal_answer peer (Refusal.other text) = err (callback_error text application none)

  answer-refused :
      (peer : ℕ) (x : Refusal) → answer io lib peer (err (refused x)) ≡ refusal_answer peer x
  unfolding answer
  answer-refused peer Refusal.opened = refl
  answer-refused peer (Refusal.other text) = refl

  -- Where the peer's breaker refuses the call, the answer does not depend on the callback: with the
  -- circuit open it is the error that names the peer, and otherwise an application error with the
  -- breaker's own text.
  pub execute-refused :
      (callback : Rpc io lib) (ctx : RequestContext io) (request : Request)
      (cb : PeerCircuitBreakers lib) (now peer : ℕ) (x : Refusal)
      → lib.refusal now (breaker_of lib cb peer) ≡ some x
      → (execute_rpc_with_circuit_breaker io lib callback ctx request (some cb) now peer).0
        ≡ refusal_answer peer x
  unfolding execute_rpc_with_circuit_breaker
  execute-refused callback ctx request cb now peer x h =
      ap (answer io lib peer) ((call_async-refused lib cb now peer _ x h).0) ∙ answer-refused peer x
