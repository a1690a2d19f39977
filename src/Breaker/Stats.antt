-- ===== src/Breaker/Stats.antt =====
-- circuit_breaker_stats.rs: what monitoring code reads of the breakers.
use mathlib.Core.Option
use zel.Prelude.{
  ℕ, ◌≡◌, ◌↔◌, ap, ◌∙◌, none, List, [], ◌∷◌, Bool, true, false, HashMap, lookup, nat_key, count,
  holds, HasUniqueKeys, insert-HasUniqueKeys, count_zero_iff, lookup-map_values,
  map_values-HasUniqueKeys,
}
use zel.Breaker.Config.{CircuitState, opened, half_open, CircuitBreakerConfig}
use zel.Breaker.Library.{BreakerLib}
use zel.Breaker.Peers.{PeerCircuitBreakers, new, call_async, get_stats, circuit_state}
use zel.Breaker.Isolation.{Call, run, own_breaker, lookup-run}

abbrev pub is_opened : CircuitState → Bool
is_opened opened = true
is_opened _ = false

abbrev pub is_half : CircuitState → Bool
is_half half_open = true
is_half _ = false

module _ {F : Type 0} (lib : BreakerLib F) where
  open lib use {Breaker, current_state}

  unfoldable pub peer_states : PeerCircuitBreakers lib → HashMap ℕ CircuitState
  unfolding get_stats
  peer_states p = get_stats lib p

  unfoldable pub is_open : PeerCircuitBreakers lib → ℕ → Bool
  is_open p peer = holds is_opened (lookup peer (get_stats lib p))

  unfoldable pub is_half_open : PeerCircuitBreakers lib → ℕ → Bool
  is_half_open p peer = holds is_half (lookup peer (get_stats lib p))

  unfoldable pub open_circuit_count : PeerCircuitBreakers lib → ℕ
  open_circuit_count p = count (λ entry. is_opened entry.1) (get_stats lib p)

  module _ {T : Type 0} where
    run-HasUniqueKeys :
        (p : PeerCircuitBreakers lib) (cs : List (Call T))
        → HasUniqueKeys p.breakers
        → HasUniqueKeys (run lib p cs).breakers
    unfolding run call_async
    run-HasUniqueKeys p [] u = u
    run-HasUniqueKeys p (c ∷ cs) u =
        run-HasUniqueKeys (call_async lib p c.now c.peer c.outcome).1 cs
          (insert-HasUniqueKeys c.peer _ p.breakers u)

    -- After any history of calls from a new collection, the state reported for a peer is that of the
    -- breaker that the peer's own calls make, and a peer that made no call is not reported.
    pub lookup-get_stats :
        (config : CircuitBreakerConfig F) (cs : List (Call T)) (q : ℕ)
        → lookup q (get_stats lib (run lib (new lib config) cs))
          ≡ Option.map
              (λ b. circuit_state lib (current_state b))
              (own_breaker lib config config.error_classifier q none cs)
    unfolding get_stats
    lookup-get_stats config cs q =
        lookup-map_values (λ b. circuit_state lib (current_state b)) q
          (run lib (new lib config) cs).breakers
        ∙ ap (Option.map (λ b. circuit_state lib (current_state b))) (lookup-run lib config cs q)

    -- After any history of calls from a new collection, the count of open circuits is zero exactly
    -- when no peer's circuit is reported open.
    pub open_circuit_count_zero_iff :
        (config : CircuitBreakerConfig F) (cs : List (Call T))
        → (open_circuit_count (run lib (new lib config) cs) ≡ 0)
          ↔ ((q : ℕ) → is_open (run lib (new lib config) cs) q ≡ false)
    unfolding open_circuit_count is_open get_stats new
    open_circuit_count_zero_iff config cs = count_zero_iff is_opened _ (
        map_values-HasUniqueKeys (λ b. circuit_state lib (current_state b)) _
          (run-HasUniqueKeys (new lib config) cs tt))
