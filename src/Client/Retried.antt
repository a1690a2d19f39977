-- ===== src/Client/Retried.antt =====
-- A call with retries that the server answers in the end.
use zel.Prelude.{
  ℕ, ◌≤◌, ◌<◌, ◌^◌, ◌≡◌, refl, String, Bytes, Option, some, ok, err, map_err, false, Exec,
}
use zel.Types.Protocol.{Response}
use zel.Types.Errors.{ResourceError}
use zel.Wire.{Codec}
use zel.Handlers.Guard.{ResourceResponse}
use zel.Client.Errors.{ClientError, resource}
use zel.Client.Transport.{Transport}
use zel.Client.Operations.{RpcClient, call, call_internal}
use zel.Retry.Config.{
  ErrorPredicate, network_only, network_and_timeout, custom, selects, RetryConfig, is_retryable,
}
use zel.Retry.Metrics.{RetryMetrics}
use zel.Retry.Backon.{Backon}
use zel.Retry.Outcomes.{Fails, EndsRetries, retry_answered}

-- An answer of the server that the client's predicate does not ask to retry.
abbrev pub IsFinal : {F : Type 0} → RetryConfig F → ResourceResponse → Type 0
IsFinal config (ok resp) = Unit
IsFinal config (err e) = is_retryable config (resource e) ≡ false

abbrev pub IsBuiltIn : ErrorPredicate → Type 0
IsBuiltIn network_only = Unit
IsBuiltIn network_and_timeout = Unit
IsBuiltIn (custom predicate) = ⊥

selects-resource :
    (p : ErrorPredicate) (e : ResourceError) → IsBuiltIn p → selects p (resource e) ≡ false
selects-resource network_only e b = refl
selects-resource network_and_timeout e b = refl
selects-resource (custom predicate) e b = absurd b

-- The built-in predicates ask to retry no answer.
pub built_in-IsFinal :
    {F : Type 0} (config : RetryConfig F) (answer : ResourceResponse)
    → IsBuiltIn config.retryable_errors
    → IsFinal config answer
unfolding is_retryable
built_in-IsFinal config (ok resp) b = tt
built_in-IsFinal config (err e) b = selects-resource config.retryable_errors e b

EndsRetries-IsFinal :
    {F W : Type 0} (config : RetryConfig F) (single : Exec W ClientError Response)
    (answer : ResourceResponse)
    → IsFinal config answer
    → EndsRetries config single (map_err resource answer)
EndsRetries-IsFinal config single (ok resp) final = tt
EndsRetries-IsFinal config single (err e) final = final

module _ (net : Transport) (codec : Codec) {F : Type 0} (backon : Backon F) (client : RpcClient F)
    (config : RetryConfig F) (service name : String) (body : Bytes) where
  -- The calls that the loop makes.
  abbrev pub Unanswered : ℕ → net.World → net.World → Type 0
  Unanswered k before lost = Fails config (call_internal net codec service name body) k before lost

  -- A call that is answered after some failures that ask for a retry returns the answer.
  pub call-Unanswered :
      {k : ℕ} {before lost after : net.World} (answer : ResourceResponse)
      → client.retry_config ≡ some config
      → IsFinal config answer
      → Unanswered k before lost
      → k ≤ config.max_attempts
      → config.max_attempts < 2 ^ 32
      → call_internal net codec service name body lost ≡ (map_err resource answer, after)
      → (n : Option RetryMetrics) × (call net codec backon client service name body before
          ≡ (map_err resource answer, n, after))
  unfolding call
  call-Unanswered answer c final f h small e =
      let (n, called) =
        retry_answered config (call_internal net codec service name body) backon
          client.retry_metrics (map_err resource answer) f h small e
          (EndsRetries-IsFinal config (call_internal net codec service name body) answer final) in
      (n, rw (c, called) refl)
