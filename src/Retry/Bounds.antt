-- ===== src/Retry/Bounds.antt =====
-- How often the retry loop calls, whatever the calls return.
use zel.Prelude.{
  ℕ, ◌+◌, ◌≤◌, ◌<◌, ◌^◌, ◌≡◌, ◌⊎◌, sym, subst, false, Option, Result, ok, err, Result-cases,
  Bool-cases, inl, inr, Exec, List, [], ◌∷◌, length, arith,
}
use zel.Types.Protocol.{Response}
use zel.Client.Errors.{ClientError}
use zel.Retry.Config.{RetryConfig, is_retryable}
use zel.Retry.Metrics.{RetryMetrics}
use zel.Retry.Backon.{Backon}
use zel.Retry.Loop.{Attempts, retry_policy, attempt_once, call_with_retry}

module _ {F : Type 0} (config : RetryConfig F) {W : Type 0}
    (call_internal : Exec W ClientError Response) where
  abbrev Ended : Type 0
  Ended = Result Response ClientError × Attempts W

  -- A response, or an error for which there is no retry.
  abbrev pub IsFinal : Result Response ClientError → Type 0
  IsFinal (ok r) = Unit
  IsFinal (err e) = is_retryable config e ≡ false

  -- At least one call after `from` others, at most `most` in all, and all of these unless the result
  -- is final.
  abbrev pub CallsWithin : (from most : ℕ) → Ended → Type 0
  CallsWithin from most (r, s) =
      (from < s.attempt) × (s.attempt ≤ most) × (IsFinal r ⊎ (s.attempt ≡ most))

  module _ (b : Backon F) where
    abbrev loop : List ℕ → Attempts W → Ended
    loop = b.retry (attempt_once config call_internal) (is_retryable config)

    attempt_once-count :
        (s : Attempts W)
        → s.attempt + 1 < 2 ^ 64
        → (attempt_once config call_internal s).1.attempt ≡ s.attempt + 1
    unfolding attempt_once
    attempt_once-count s h = omega arith

    loop-CallsWithin :
        (ds : List ℕ) (s : Attempts W)
        → s.attempt + length ds + 1 < 2 ^ 64
        → CallsWithin s.attempt (s.attempt + length ds + 1) (loop ds s)
    loop-CallsWithin [] s h =
        let once = attempt_once-count s (omega arith) in
        subst (CallsWithin s.attempt (s.attempt + 0 + 1)) (sym (b.retry_last _ _ s))
          (omega (arith, once), omega (arith, once), inr (omega (arith, once)))
    loop-CallsWithin (d ∷ ds) s h =
        let p = attempt_once config call_internal s in
        let once = attempt_once-count s (omega arith) in
        elim (Result-cases p.0) [
          | inl (r, e) ↦
              subst (CallsWithin s.attempt (s.attempt + length (d ∷ ds) + 1))
                (sym (b.retry_ok _ _ d ds s p.1 r (λ i. (e i, p.1))))
                (omega (arith, once), omega (arith, once), inl tt)
          | inr (x, e) ↦ elim (Bool-cases (is_retryable config x)) [
            | inl again ↦
                let more = loop-CallsWithin ds p.1 (omega (arith, once)) in
                subst (CallsWithin s.attempt (s.attempt + length (d ∷ ds) + 1))
                  (sym (b.retry_again _ _ d ds s p.1 x (λ i. (e i, p.1)) again))
                  (
                    omega (arith, once, more.0),
                    omega (arith, once, more.1),
                    elim more.2 [
                      | inl final ↦ inl final
                      | inr all ↦ inr (omega (arith, once, all))
                    ],
                  )
            | inr stop ↦
                subst (CallsWithin s.attempt (s.attempt + length (d ∷ ds) + 1))
                  (sym (b.retry_stop _ _ d ds s p.1 x (λ i. (e i, p.1)) stop))
                  (omega (arith, once), omega (arith, once), inl stop)
          ]
        ]

    -- Whatever the calls return and however long their errors ask for a retry: a call with retries
    -- makes at least one call and at most `max_attempts + 1`, and it makes all of them unless it ends
    -- with a response or an error for which there is no retry. The counter has 64 bits.
    pub call_with_retry-CallsWithin :
        (metrics : Option RetryMetrics) (w : W)
        → config.max_attempts + 1 < 2 ^ 64
        → CallsWithin 0 (config.max_attempts + 1) (call_with_retry config call_internal b metrics w)
    unfolding call_with_retry retry_policy
    call_with_retry-CallsWithin metrics w h =
        let ds = b.delays (retry_policy config) in
        let count : length ds ≡ config.max_attempts = b.length-delays (retry_policy config) in
        let most : 0 + length ds + 1 ≡ config.max_attempts + 1 = omega (arith, count) in
        subst (λ n. CallsWithin 0 n (call_with_retry config call_internal b metrics w)) most
          (loop-CallsWithin ds (record { attempt = 0; metrics = metrics; world = w })
            (omega (arith, count, h)))
