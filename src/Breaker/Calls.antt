-- ===== src/Breaker/Calls.antt =====
-- What a guarded call returns, what the breaker learns from it, and what it leaves alone.
use zel.Prelude.{
  ℕ, ◌≡◌, ◌≢◌, refl, sym, ap, ◌∙◌, none, some, Result, ok, err, is_ok, Bool, true, false, arith,
  lookup, insert, nat_key, lookup-insert, lookup-insert_self, nat_beq_iff, not, inl, inr, map_err,
  Option-cases,
}
use zel.Types.Errors.{ErrorSeverity, infrastructure, system_failure, application}
use zel.Classify.{Error, to_string, ErrorClassifier, classify}
use zel.Breaker.Config.{ServiceError, from_severity_and_msg}
use zel.Breaker.Library.{BreakerError, operation, Refusal, refused, BreakerLib}
use zel.Breaker.Peers.{PeerCircuitBreakers, breaker_of, wrap, unwrap, call_async}

abbrev pub is_severe : ErrorSeverity → Bool
is_severe application = false
is_severe infrastructure = true
is_severe system_failure = true

module _ {T : Type 0} where
  -- What the breaker is told of an outcome: only an error of a severe kind is a failure.
  abbrev pub counts_as_success : ErrorClassifier → Result T Error → Bool
  counts_as_success k (ok v) = true
  counts_as_success k (err e) = not (is_severe (classify k e))

  -- What the caller of an admitted call gets.
  abbrev pub reported : ErrorClassifier → Result T Error → Result T BreakerError
  reported k (ok v) = ok v
  reported k (err e) = err (operation (from_severity_and_msg (classify k e) (to_string e)))

  is_ok-wrap : (k : ErrorClassifier) (r : Result T Error) → is_ok (wrap k r) ≡ counts_as_success k r
  unfolding wrap
  is_ok-wrap k (ok v) = refl
  is_ok-wrap k (err e) = ground arith

  unwrap-wrap :
      (k : ErrorClassifier) (r : Result T Error)
      → unwrap (map_err operation (wrap k r)) ≡ reported k r
  unfolding wrap unwrap
  unwrap-wrap k (ok v) = refl
  unwrap-wrap k (err e) = ground arith

module _ {F : Type 0} (lib : BreakerLib F) where
  open lib use {refusal, settle, reject, Breaker}

  -- A breaker after a call that would succeed, or would not.
  abbrev pub after_call : ℕ → Bool → Breaker → Breaker
  after_call now s b = elim (refusal now b) [ none ↦ settle now s b | some x ↦ reject now b ]

  library_state :
      {T : Type 0} (now : ℕ) (b : Breaker) (r : Result T ServiceError)
      → (lib.call_async now b r).1 ≡ after_call now (is_ok r) b
  library_state now b r = elim (Option-cases (refusal now b)) [
    | inl a ↦ rw (lib.call_admitted now b r a) (rw (a, after_call))
    | inr (x, a) ↦ rw (lib.call_refused now b r a) (rw (a, after_call))
  ]

module _ {F : Type 0} (lib : BreakerLib F) {T : Type 0} where
  open lib use {refusal, settle, reject}

  -- A call that the peer's breaker lets through returns the operation's value, or its error with
  -- the severity that the configured classifier gives it and the error's own text; and the peer's
  -- breaker is told of a failure exactly when that severity is not that of an application error.
  pub call_async-admitted :
      (p : PeerCircuitBreakers lib) (now peer : ℕ) (r : Result T Error)
      → refusal now (breaker_of lib p peer) ≡ none
      → ((call_async lib p now peer r).0 ≡ reported p.classifier r)
        × (lookup peer (call_async lib p now peer r).1.breakers
            ≡ some (settle now (counts_as_success p.classifier r) (breaker_of lib p peer)))
  unfolding call_async
  call_async-admitted p now peer r h =
      rw (lib.call_admitted now (breaker_of lib p peer) (wrap p.classifier r) h)
        (unwrap-wrap p.classifier r, rw (lookup-insert_self, is_ok-wrap) refl)

  -- A call that the peer's breaker does not let through reports the refusal, whatever the operation
  -- would have returned, and the breaker learns nothing of the operation.
  pub call_async-refused :
      (p : PeerCircuitBreakers lib) (now peer : ℕ) (r : Result T Error) (x : Refusal)
      → refusal now (breaker_of lib p peer) ≡ some x
      → ((call_async lib p now peer r).0 ≡ err (refused x))
        × (lookup peer (call_async lib p now peer r).1.breakers
            ≡ some (reject now (breaker_of lib p peer)))
  unfolding call_async
  call_async-refused p now peer r x h =
      rw (lib.call_refused now (breaker_of lib p peer) (wrap p.classifier r) h)
        (refl, lookup-insert_self peer _ p.breakers)

  -- A call for one peer leaves the breaker of every other peer, the configuration and the
  -- classifier as they were, whether or not it is let through.
  pub call_async_isolated :
      (p : PeerCircuitBreakers lib) (now peer q : ℕ) (r : Result T Error)
      → peer ≢ q
      → (lookup q (call_async lib p now peer r).1.breakers ≡ lookup q p.breakers)
        × ((call_async lib p now peer r).1.config ≡ p.config)
        × ((call_async lib p now peer r).1.classifier ≡ p.classifier)
  unfolding call_async
  call_async_isolated p now peer q r h =
      (rw lookup-insert (ground (arith, nat_beq_iff peer q)), refl, refl)

  -- The breaker cannot tell an application error from a success: after a call whose operation
  -- returned an error that is classified as one, the breakers are what they are after a call at the
  -- same time whose operation returned a value.
  pub application_error_as_success :
      (p : PeerCircuitBreakers lib) (now peer : ℕ) (v : T) (e : Error)
      → classify p.classifier e ≡ application
      → (call_async lib {T = T} p now peer (err e)).1 ≡ (call_async lib p now peer (ok v)).1
  unfolding call_async
  application_error_as_success p now peer v e h =
      ap (λ b. record p { breakers = insert peer b p.breakers })
        (library_state lib _ _ _
          ∙ ap (λ s. after_call lib now s (breaker_of lib p peer)) told
          ∙ sym (library_state lib _ _ _))
    where
      told : is_ok (wrap {T = T} p.classifier (err e)) ≡ true
      told = is_ok-wrap p.classifier (err e) ∙ ap (λ s. not (is_severe s)) h

  pub lookup-call_async :
      (p : PeerCircuitBreakers lib) (now peer : ℕ) (r : Result T Error)
      → lookup peer (call_async lib p now peer r).1.breakers
        ≡ some (after_call lib now (counts_as_success p.classifier r) (breaker_of lib p peer))
  unfolding call_async
  lookup-call_async p now peer r = rw (lookup-insert_self, library_state, is_ok-wrap) refl
