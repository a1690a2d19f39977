-- ===== src/Breaker/Isolation.antt =====
-- Histories of guarded calls, for many peers in any order.
use zel.Prelude.{
  ℕ, ◌≡◌, refl, ap, ◌∙◌, Option, none, some, Result, List, [], ◌∷◌, arith, lookup, nat_key, nat_beq,
  nat_beq_iff, inl, inr, if◌then◌else◌, Bool-cases,
}
use zel.Classify.{Error, ErrorClassifier}
use zel.Breaker.Config.{CircuitBreakerConfig}
use zel.Breaker.Library.{BreakerLib}
use zel.Breaker.Peers.{
  PeerCircuitBreakers, new, entry, create_circuit_breaker, breaker_of, call_async,
}
use zel.Breaker.Calls.{counts_as_success, after_call, lookup-call_async, call_async_isolated}

-- A call at a time, for a peer, whose operation would return `outcome`.
pub record Call (T : Type 0) : Type 0 where
  pub now : ℕ
  pub peer : ℕ
  pub outcome : Result T Error

module _ {F : Type 0} (lib : BreakerLib F) {T : Type 0} where
  unfoldable pub run : PeerCircuitBreakers lib → List (Call T) → PeerCircuitBreakers lib
  run p [] = p
  run p (c ∷ cs) = run (call_async lib p c.now c.peer c.outcome).1 cs

  -- What one peer's own calls make of its breaker, the first of them creating it.
  pub own_breaker :
      CircuitBreakerConfig F
      → ErrorClassifier
      → ℕ
      → Option lib.Breaker
      → List (Call T)
      → Option lib.Breaker
  own_breaker config k q b [] = b
  own_breaker config k q b (c ∷ cs) =
      own_breaker config k q
        (if nat_beq c.peer q
          then some (
              after_call lib c.now (counts_as_success k c.outcome)
                (entry lib b (create_circuit_breaker lib config)))
          else b)
        cs

  lookup-step :
      (p : PeerCircuitBreakers lib) (c : Call T) (q : ℕ)
      → lookup q (call_async lib p c.now c.peer c.outcome).1.breakers ≡ (
          if nat_beq c.peer q
          then some (
              after_call lib c.now
                (counts_as_success p.classifier c.outcome)
                (entry lib (lookup q p.breakers) (create_circuit_breaker lib p.config)))
          else lookup q p.breakers)
  unfolding breaker_of
  lookup-step p c q = elim (Bool-cases (nat_beq c.peer q)) [
    | inl same ↦
        rw same
          (rw (← (nat_beq_iff c.peer q).0 same) (lookup-call_async lib p c.now c.peer c.outcome))
    | inr other ↦ rw other (
        (call_async_isolated lib p c.now c.peer q c.outcome
          (λ e. ground (arith, nat_beq_iff c.peer q))).0)
  ]

  lookup-run_from :
      (p : PeerCircuitBreakers lib) (cs : List (Call T)) (q : ℕ)
      → lookup q (run p cs).breakers ≡ own_breaker p.config p.classifier q (lookup q p.breakers) cs
  unfolding run own_breaker call_async
  lookup-run_from p [] q = refl
  lookup-run_from p (c ∷ cs) q =
      lookup-run_from (call_async lib p c.now c.peer c.outcome).1 cs q
      ∙ ap (λ b. own_breaker p.config p.classifier q b cs) (lookup-step p c q)

  -- After any history of calls, from a new collection, a peer's breaker is the one that its own
  -- calls make: there is none before the first of them, which creates it from the configuration;
  -- each of them moves it by its time and by whether its outcome counts as a success; and the calls
  -- of other peers do nothing to it.
  pub lookup-run :
      (config : CircuitBreakerConfig F) (cs : List (Call T)) (q : ℕ)
      → lookup q (run (new lib config) cs).breakers
        ≡ own_breaker config config.error_classifier q none cs
  unfolding new lookup
  lookup-run config cs q = lookup-run_from (new lib config) cs q
