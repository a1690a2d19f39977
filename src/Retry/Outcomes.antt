-- ===== src/Retry/Outcomes.antt =====
-- How the retry loop ends, and what its metrics say then.
use zel.Prelude.{
  ℕ, zero, suc, ◌+◌, ◌≤◌, ◌<◌, ◌^◌, ◌≡◌, refl, sym, ap, ◌∙◌, true, false, Option, some, Result, ok,
  err, ltb, if◌then◌else◌, Exec, List, [], ◌∷◌, length, arith,
}
use zel.Types.Protocol.{Response}
use zel.Client.Errors.{ClientError}
use zel.Retry.Config.{RetryConfig, is_retryable}
use zel.Retry.Metrics.{RetryMetrics, u64, increment_total_retries, record_success_after_retry}
use zel.Retry.Backon.{Backon}
use zel.Retry.Loop.{
  Attempts, with_metrics, retry_policy, after_attempt, attempt_once, call_with_retry,
}

-- The metrics after `k` more retries.
retried : ℕ → Option RetryMetrics → Option RetryMetrics
retried zero m = m
retried (suc k) m = retried k (with_metrics increment_total_retries m)

retried-some :
    (k : ℕ) (m : RetryMetrics)
    → m.total_retries + k < 2 ^ 64
    → retried k (some m) ≡ some (record m { total_retries = m.total_retries + k })
unfolding retried increment_total_retries
retried-some zero m h = ground arith
retried-some (suc k) m h = retried-some k (increment_total_retries m) (omega arith) ∙ ground arith

module _ {F : Type 0} (config : RetryConfig F) {W : Type 0}
    (call_internal : Exec W ClientError Response) where
  -- `k` calls in a row that fail with errors that ask for a retry.
  pub data Fails : ℕ → W → W → Type 0 where
    start : {w : W} → Fails zero w w
    again :
        {k : ℕ} {w v u : W} (e : ClientError)
        → call_internal w ≡ (err e, v)
        → is_retryable config e ≡ true
        → Fails k v u
        → Fails (suc k) w u

  abbrev pub at : ℕ → Option RetryMetrics → W → Attempts W
  at a m w = record { attempt = a; metrics = m; world = w }

  -- An answer after which no call follows.
  abbrev pub EndsRetries : Result Response ClientError → Type 0
  EndsRetries (ok r) = Unit
  EndsRetries (err e) = is_retryable config e ≡ false

  module _ (b : Backon F) where
    abbrev loop : List ℕ → Attempts W → Result Response ClientError × Attempts W
    loop = b.retry (attempt_once config call_internal) (is_retryable config)

    loop_ok :
        (ds : List ℕ) (s t : Attempts W) (r : Response)
        → attempt_once config call_internal s ≡ (ok r, t)
        → loop ds s ≡ (ok r, t)
    loop_ok [] s t r h = b.retry_last _ _ s ∙ h
    loop_ok (d ∷ ds) s t r h = b.retry_ok _ _ d ds s t r h

    loop_stop :
        (ds : List ℕ) (s t : Attempts W) (e : ClientError)
        → attempt_once config call_internal s ≡ (err e, t)
        → is_retryable config e ≡ false
        → loop ds s ≡ (err e, t)
    loop_stop [] s t e h n = b.retry_last _ _ s ∙ h
    loop_stop (d ∷ ds) s t e h n = b.retry_stop _ _ d ds s t e h n

    loop_end :
        {u v : W} (ds : List ℕ) (k : ℕ) (m : Option RetryMetrics)
        (answer : Result Response ClientError)
        → k < 2 ^ 32
        → call_internal u ≡ (answer, v)
        → EndsRetries answer
        → (n : Option RetryMetrics) × (loop ds (at k m u) ≡ (answer, at (k + 1) n v))
    unfolding attempt_once
    loop_end {u} {v} ds k m (ok r) small c final =
        (after_attempt config k (ok r) m, loop_ok ds (at k m u) _ r (rw c (ground arith)))
    loop_end {u} {v} ds k m (err e) small c final =
        (after_attempt config k (err e) m, loop_stop ds (at k m u) _ e (rw c (ground arith)) final)

    step_again :
        (d : ℕ) (ds : List ℕ) (a : ℕ) (m : Option RetryMetrics) (w v : W) (e : ClientError)
        → call_internal w ≡ (err e, v)
        → is_retryable config e ≡ true
        → loop (d ∷ ds) (at a m w)
          ≡ loop ds (at (u64 (a + 1)) (with_metrics increment_total_retries m) v)
    unfolding attempt_once
    step_again d ds a m w v e h r = b.retry_again _ _ d ds _ _ e (rw h (rw r refl)) r

    -- The delays that `k` retries leave.
    left_after : ℕ → List ℕ → List ℕ
    left_after zero ds = ds
    left_after (suc k) [] = []
    left_after (suc k) (d ∷ ds) = left_after k ds

    loop-Fails :
        {k : ℕ} {w u : W} (ds : List ℕ) (a : ℕ) (m : Option RetryMetrics)
        → Fails k w u
        → k ≤ length ds
        → a + k < 2 ^ 64
        → loop ds (at a m w) ≡ loop (left_after k ds) (at (a + k) (retried k m) u)
    unfolding retried left_after
    loop-Fails {w} ds a m start h lt =
        let e : a ≡ a + 0 = omega arith in ap (λ n. loop ds (at n m w)) e
    loop-Fails [] a m (again e c r f) h lt = absurd (omega arith)
    loop-Fails (d ∷ ds) a m (again {k = k} {w = w} {v = v} {u = u} e c r f) h lt =
        let next : u64 (a + 1) + k ≡ a + suc k = omega arith in
        step_again d ds a m w v e c r
        ∙ loop-Fails ds (u64 (a + 1)) (with_metrics increment_total_retries m) f (omega arith)
            (omega arith)
        ∙ ap
            (λ n.
              loop (left_after k ds) (at n (retried k (with_metrics increment_total_retries m)) u))
            next

    left_after-all : (ds : List ℕ) → left_after (length ds) ds ≡ []
    unfolding left_after
    left_after-all [] = refl
    left_after-all (d ∷ ds) = left_after-all ds

    -- The metrics of a call that counted `k` retries.
    abbrev pub counted : ℕ → RetryMetrics → RetryMetrics
    counted k m = record m { total_retries = m.total_retries + k }

    call_with_retry-Fails :
        {k : ℕ} {w u : W} (m : RetryMetrics)
        → Fails k w u
        → k ≤ config.max_attempts
        → k < 2 ^ 32
        → m.total_retries + k < 2 ^ 64
        → call_with_retry config call_internal b (some m) w
          ≡ loop (left_after k (b.delays (retry_policy config))) (at k (some (counted k m)) u)
    unfolding call_with_retry
    call_with_retry-Fails {k} {w} {u} m f h small fit =
        loop-Fails (b.delays (retry_policy config)) 0 (some m) f
          (rw (b.length-delays (retry_policy config)) h) (omega arith)
        ∙ (let none_before : 0 + k ≡ k = omega arith in
            λ i.
              loop (left_after k (b.delays (retry_policy config)))
                (at (none_before i) (retried-some k m fit i) u))

    -- A call that succeeds after `k` failures that ask for a retry, `k` at most the configured
    -- number, returns the response, whatever the delays. The loop has called `k + 1` times; the
    -- total of retries has grown by `k`, and one success after a retry is counted exactly when
    -- there was a failure. (The configured number has 32 bits, and the total of 64 bits has room.)
    pub retry_succeeds :
        {k : ℕ} {w u v : W} (m : RetryMetrics) (r : Response)
        → Fails k w u
        → k ≤ config.max_attempts
        → config.max_attempts < 2 ^ 32
        → m.total_retries + k < 2 ^ 64
        → call_internal u ≡ (ok r, v)
        → call_with_retry config call_internal b (some m) w ≡ (
          ok r,
          at
              (k + 1)
              (some (if ltb 0 k then record_success_after_retry (counted k m) else counted k m))
              v,
        )
    unfolding attempt_once
    retry_succeeds {k} {u = u} {v = v} m r f h small fit c =
        call_with_retry-Fails m f h (omega arith) fit
        ∙ loop_ok _ (at k (some (counted k m)) u) _ r (rw c (ground arith))

    -- An answer after `k` such failures, `k` at most the configured number, ends the loop if it is a
    -- response or an error that asks for no retry, with metrics or without: it is returned as it is.
    pub retry_answered :
        {k : ℕ} {w u v : W} (m : Option RetryMetrics) (answer : Result Response ClientError)
        → Fails k w u
        → k ≤ config.max_attempts
        → config.max_attempts < 2 ^ 32
        → call_internal u ≡ (answer, v)
        → EndsRetries answer
        → (n : Option RetryMetrics) × (call_with_retry config call_internal b m w
            ≡ (answer, at (k + 1) n v))
    unfolding attempt_once call_with_retry
    retry_answered {k} {w = w} {u = u} {v = v} m answer f h small c final =
        let ended =
          loop_end (left_after k (b.delays (retry_policy config))) k (retried k m) answer
            (omega arith) c final in
        (
          ended.0,
          loop-Fails (b.delays (retry_policy config)) 0 m f
                (rw (b.length-delays (retry_policy config)) h) (omega arith)
              ∙ ap
                  (λ a. loop (left_after k (b.delays (retry_policy config))) (at a (retried k m) u))
                  {x = 0 + k} {y = k} (omega arith)
              ∙ ended.1,
        )

    -- When every call fails with an error that asks for a retry, the loop gives up after one call
    -- more than the configured number and returns the last error. It counts every one of these
    -- calls as a retry, and counts no request as failed after the retries were exceeded.
    pub retry_exhausted :
        {w u v : W} (m : RetryMetrics) (e : ClientError)
        → Fails config.max_attempts w u
        → config.max_attempts < 2 ^ 32
        → m.total_retries + config.max_attempts + 1 < 2 ^ 64
        → call_internal u ≡ (err e, v)
        → is_retryable config e ≡ true
        → call_with_retry config call_internal b (some m) w
          ≡ (err e, at (config.max_attempts + 1) (some (counted (config.max_attempts + 1) m)) v)
    unfolding attempt_once increment_total_retries retry_policy
    retry_exhausted {u = u} m e f small fit c r =
        call_with_retry-Fails m f (omega arith) small (omega arith)
        ∙ ap (λ ds. loop ds (at config.max_attempts (some (counted config.max_attempts m)) u))
            none_left
        ∙ b.retry_last _ _ _
        ∙ rw c (rw r (ground arith))
      where
        none_left : left_after config.max_attempts (b.delays (retry_policy config)) ≡ []
        none_left =
            ap (λ k. left_after k (b.delays (retry_policy config)))
              (sym (b.length-delays (retry_policy config)))
            ∙ left_after-all (b.delays (retry_policy config))
