-- ===== src/Retry/Backon.antt =====
-- What client.rs uses of the crate `backon`: an exponential policy gives a sequence of delays, and
-- `retry(policy).when(test)` runs an operation again after each delay, while the test asks for it.
use zel.Prelude.{ℕ, ◌≡◌, Bool, true, false, List, [], ◌∷◌, Result, ok, err, length}

pub record Policy (F : Type 0) : Type 0 where
  pub max_times : ℕ
  pub min_delay : ℕ
  pub max_delay : ℕ
  pub factor : F
  pub jitter : Bool

pub record Backon (F : Type 0) : Type 1 where
  pub delays : Policy F → List ℕ
  pub retry : {S A E : Type 0} → (S → Result A E × S) → (E → Bool) → List ℕ → S → Result A E × S
  -- The backoff ends after `max_times` delays.
  pub length-delays : (p : Policy F) → length (delays p) ≡ p.max_times
  -- With no delay left the operation runs a last time.
  pub retry_last :
      {S A E : Type 0} (op : S → Result A E × S) (when : E → Bool) (s : S)
      → retry op when [] s ≡ op s
  pub retry_ok :
      {S A E : Type 0} (op : S → Result A E × S) (when : E → Bool) (d : ℕ) (ds : List ℕ) (s t : S)
      (a : A)
      → op s ≡ (ok a, t)
      → retry op when (d ∷ ds) s ≡ (ok a, t)
  pub retry_stop :
      {S A E : Type 0} (op : S → Result A E × S) (when : E → Bool) (d : ℕ) (ds : List ℕ) (s t : S)
      (e : E)
      → op s ≡ (err e, t)
      → when e ≡ false
      → retry op when (d ∷ ds) s ≡ (err e, t)
  pub retry_again :
      {S A E : Type 0} (op : S → Result A E × S) (when : E → Bool) (d : ℕ) (ds : List ℕ) (s t : S)
      (e : E)
      → op s ≡ (err e, t)
      → when e ≡ true
      → retry op when (d ∷ ds) s ≡ retry op when ds t
