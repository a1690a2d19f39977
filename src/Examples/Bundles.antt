-- ===== src/Examples/Bundles.antt =====
-- A bundle with three subscribers.
use zel.Prelude.{
  ℕ, ◌+◌, Option-cases, inl, inr, ◌≡◌, ◌≢◌, ◌≤◌, ◌<◌, ◌↔◌, refl, sym, ap, ◌∙◌, Bool, true, false,
  Option, none, some, Result, ok, err, is_ok, List, [], ◌∷◌, ◌++◌, leb, if◌then◌else◌, arith,
}
use mathlib.Core.List.{Memᴰ}
use zel.Shutdown.Handle.{ShutdownError}
use zel.Shutdown.Handle
use zel.Bundle.{
  Iroh, Reply, gone, after, never, notify, wait, shutdown_router, Timing, EndBy, notify_all,
  Builder, IrohBundle, subscribe_shutdown, finish, shutdown, shutdown_with_handle,
}
use zel.Bundle.Waiting.{AreDoneBy, EndBy-weaken, shutdown-limit}
use zel.Bundle.Subscribers.{accept, subscribe, run, shutdown-subscribe, shutdown_with_handle-both}

-- A router is the number of its protocols.
abbrev iroh : Iroh
iroh = record {
  Endpoint = Unit;
  SecretKey = Unit;
  Handler = Unit;
  RouterBuilder = ℕ;
  Router = ℕ;
  bind = λ _. ok tt;
  new_router = λ _. 0;
  accept = λ n _ _. n + 1;
  spawn = λ n. n;
  shutdown = λ _. ok tt;
}

abbrev later : Option ℕ → Option ℕ → Option ℕ
later (some s) (some t) = some (if leb s t then t else s)
later _ _ = none

abbrev join_all : List (Option ℕ) → Option ℕ
join_all [] = some 0
join_all (t ∷ ts) = later t (join_all ts)

abbrev timeout : ℕ → Option ℕ → ℕ × Bool
timeout limit none = (limit, true)
timeout limit (some t) = if leb t limit then (t, false) else (limit, true)

value_of : {a b : ℕ} → some a ≡ some b → a ≡ b
value_of {a} e = ap (λ o. elim o [ some x ↦ x | none ↦ a ]) e

join_all_last : (ts : List (Option ℕ)) (t : ℕ) → join_all ts ≡ some t → EndBy t ts
join_all_last [] t h = tt
join_all_last (none ∷ ts) t h = absurd (cc)
join_all_last (some s ∷ ts) t h = elim (Option-cases (join_all ts)) [
  | inl open_ended ↦ absurd (cc (sym h ∙ ap (later (some s)) open_ended))
  | inr (r, e) ↦
      let last : (if leb s r then r else s) ≡ t = value_of (sym (ap (later (some s)) e) ∙ h) in
      (ground (arith, last), EndBy-weaken r t ts (ground (arith, last)) (join_all_last ts r e))
]

join_all_by :
    (ts : List (Option ℕ)) (t : ℕ) → EndBy t ts → (s : ℕ) × (join_all ts ≡ some s) × (s ≤ t)
join_all_by [] t h = (0, refl, omega arith)
join_all_by (none ∷ ts) t h = absurd h
join_all_by (some r ∷ ts) t (soon, h) =
    let (s, e, bound) = join_all_by ts t h in
    ((if leb r s then s else r), ap (later (some r)) e, ground arith)

ends : (limit t : ℕ) → t ≤ limit → timeout limit (some t) ≡ (t, false)
ends limit t h = ground arith

late : (limit t : ℕ) → limit < t → timeout limit (some t) ≡ (limit, true)
late limit t h = ground arith

abbrev timing : Timing
timing = record {
  join_all = join_all;
  timeout = timeout;
  join_all_last = join_all_last;
  join_all_by = join_all_by;
  timeout_ends = ends;
  timeout_late = late;
  timeout_never = λ limit. refl;
}

-- The first subscriber has gone, the second is done after 3, and the third never.
abbrev reply : ℕ → Reply
reply c = if leb c 0 then gone else if leb c 1 then after 3 else never

abbrev bundle : IrohBundle iroh
bundle = record { endpoint = tt; router = 1; shutdown_subscribers = 0 ∷ 1 ∷ 2 ∷ [] }

shutdown-limit_example :
    (duration : ℕ) × (timed_out : Bool) × (shutdown iroh timing reply bundle 10 ≡ (
      ok tt,
      notify_all reply (0 ∷ 1 ∷ 2 ∷ []) ++ (wait duration timed_out ∷ shutdown_router ∷ []),
    ))
    × (duration ≤ 10)
    × ((timed_out ≡ false) ↔ AreDoneBy reply 10 (0 ∷ 1 ∷ 2 ∷ []))
shutdown-limit_example = shutdown-limit iroh timing reply bundle 10

abbrev two_subscribed : Builder iroh
two_subscribed = record { endpoint = tt; router_builder = 0; shutdown_subscribers = 0 ∷ 1 ∷ [] }

stays : never ≢ gone
stays h = absurd (cc)

shutdown-subscribe_example :
    Memᴰ
      (notify 2)
      (shutdown iroh timing reply
        (finish iroh
          (run iroh (subscribe_shutdown iroh two_subscribed).0 (accept [] tt ∷ subscribe ∷ [])))
        10).1
unfolding subscribe_shutdown
shutdown-subscribe_example =
    shutdown-subscribe iroh timing reply two_subscribed (accept [] tt ∷ subscribe ∷ []) 10 stays

abbrev slow : Result (Unit {0}) ShutdownError
slow = err (Handle.timeout 2 30)

shutdown_with_handle-both_example :
    ((shutdown_with_handle iroh timing reply slow bundle 10).0 ≡ ok tt
      ↔ ((slow ≡ ok tt) × (iroh.shutdown bundle.router ≡ ok tt)))
    × (Memᴰ shutdown_router (shutdown_with_handle iroh timing reply slow bundle 10).1
        ↔ (slow ≡ ok tt))
    × (((shutdown_with_handle iroh timing reply slow bundle 10).1 ≡ []) ↔ (is_ok slow ≡ false))
shutdown_with_handle-both_example = shutdown_with_handle-both iroh timing reply slow bundle 10
