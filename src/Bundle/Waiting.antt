-- ===== src/Bundle/Waiting.antt =====
-- How long the shutdown of a bundle waits, and for whom.
use zel.Prelude.{
  ℕ, ◌≡◌, ◌≤◌, ◌<◌, ◌↔◌, ◌⊎◌, refl, sym, ap, ◌∙◌, Bool, true, false, Option, none, some,
  Option-cases, List, [], ◌∷◌, ◌++◌, inl, inr, arith,
}
use mathlib.Core.Bool.{false≢true}
use zel.Bundle.{
  Iroh, Reply, gone, after, never, wait, shutdown_router, pushed, replies, EndBy, Timing,
  notify_all, IrohBundle, shutdown,
}

abbrev pub IsDoneBy : ℕ → Reply → Type 0
IsDoneBy limit gone = Unit
IsDoneBy limit (after t) = t ≤ limit
IsDoneBy limit never = ⊥

EndBy-pushed :
    (r : Reply) (limit : ℕ) (ts : List (Option ℕ)) (P : Type 0)
    → EndBy limit ts ↔ P
    → EndBy limit (pushed r ts) ↔ (IsDoneBy limit r × P)
EndBy-pushed gone limit ts P (f, g) = (λ e. (tt, f e), λ p. g p.1)
EndBy-pushed (after t) limit ts P (f, g) = (λ e. (e.0, f e.1), λ p. (p.0, g p.1))
EndBy-pushed never limit ts P (f, g) = (λ e. absurd e, λ p. absurd p.0)

pub EndBy-weaken : (s t : ℕ) (ts : List (Option ℕ)) → s ≤ t → EndBy s ts → EndBy t ts
EndBy-weaken s t [] h e = tt
EndBy-weaken s t (none ∷ ts) h e = absurd e
EndBy-weaken s t (some r ∷ ts) h (e, es) = (omega arith, EndBy-weaken s t ts h es)

-- Each of these subscribers has dropped its listener, or is done by then.
abbrev pub AreDoneBy : (ℕ → Reply) → ℕ → List ℕ → Type 0
AreDoneBy reply limit [] = Unit
AreDoneBy reply limit (c ∷ cs) = IsDoneBy limit (reply c) × AreDoneBy reply limit cs

EndBy-replies :
    (reply : ℕ → Reply) (limit : ℕ) (cs : List ℕ)
    → EndBy limit (replies reply cs) ↔ AreDoneBy reply limit cs
unfolding replies
EndBy-replies reply limit [] = (λ _. tt, λ _. tt)
EndBy-replies reply limit (c ∷ cs) =
    EndBy-pushed (reply c) limit (replies reply cs) (AreDoneBy reply limit cs)
      (EndBy-replies reply limit cs)

never_ends :
    (timing : Timing) (limit : ℕ) (ts : List (Option ℕ))
    → timing.join_all ts ≡ none
    → (true ≡ false) ↔ EndBy limit ts
never_ends timing limit ts h = (
  λ e. absurd (false≢true (sym e)),
  λ e. let (s, k, _) = timing.join_all_by ts limit e in absurd (cc (sym h ∙ k)),
)

late_ends :
    (timing : Timing) (limit t : ℕ) (ts : List (Option ℕ))
    → timing.join_all ts ≡ some t
    → limit < t
    → (true ≡ false) ↔ EndBy limit ts
late_ends timing limit t ts h over = (
  λ e. absurd (false≢true (sym e)),
  λ e.
      let (s, k, bound) = timing.join_all_by ts limit e in
      let same : t ≡ s = ap (λ o. elim o [ some x ↦ x | none ↦ t ]) (sym h ∙ k) in
      absurd (omega arith),
)

le_self : (n : ℕ) → n ≤ n
le_self n = omega arith

le-or_lt : (a b : ℕ) → (a ≤ b) ⊎ (b < a)
le-or_lt a b = omega arith

-- The wait ends in time exactly if all futures do, and never takes longer than the limit.
timeout-EndBy :
    (timing : Timing) (limit : ℕ) (ts : List (Option ℕ))
    → ((timing.timeout limit (timing.join_all ts)).0 ≤ limit)
      × (((timing.timeout limit (timing.join_all ts)).1 ≡ false) ↔ EndBy limit ts)
timeout-EndBy timing limit ts = elim (Option-cases (timing.join_all ts)) [
  | inl open_ended ↦
      let late : timing.timeout limit (timing.join_all ts) ≡ (limit, true) =
        ap (timing.timeout limit) open_ended ∙ timing.timeout_never limit in
      rw late (le_self limit, never_ends timing limit ts open_ended)
  | inr (t, ended) ↦ elim (le-or_lt t limit) [
    | inl soon ↦
        let on_time : timing.timeout limit (timing.join_all ts) ≡ (t, false) =
          ap (timing.timeout limit) ended ∙ timing.timeout_ends limit t soon in
        rw on_time
          (soon, (λ _. EndBy-weaken t limit ts soon (timing.join_all_last ts t ended), λ _. refl))
    | inr over ↦
        let late : timing.timeout limit (timing.join_all ts) ≡ (limit, true) =
          ap (timing.timeout limit) ended ∙ timing.timeout_late limit t over in
        rw late (le_self limit, late_ends timing limit t ts ended over)
  ]
]

-- The shutdown of a bundle waits for its subscribers at most as long as the timeout; the time does
-- not run out exactly if every subscriber has dropped its listener or is done by then; and whatever
-- the subscribers do, the router is shut down after the wait, and its result is returned.
pub shutdown-limit :
    (iroh : Iroh) (timing : Timing) (reply : ℕ → Reply) (b : IrohBundle iroh) (limit : ℕ)
    → (duration : ℕ) × (timed_out : Bool) × (shutdown iroh timing reply b limit ≡ (
      iroh.shutdown b.router,
      notify_all reply b.shutdown_subscribers ++ (wait duration timed_out ∷ shutdown_router ∷ []),
    ))
      × (duration ≤ limit)
      × ((timed_out ≡ false) ↔ AreDoneBy reply limit b.shutdown_subscribers)
unfolding shutdown
shutdown-limit iroh timing reply b limit =
    let ts = replies reply b.shutdown_subscribers in
    let (bound, (f, g)) = timeout-EndBy timing limit ts in
    let (p, q) = EndBy-replies reply limit b.shutdown_subscribers in
    let waited = timing.timeout limit (timing.join_all ts) in
    (waited.0, waited.1, refl, bound, (λ h. p (f h), λ h. g (q h)))
