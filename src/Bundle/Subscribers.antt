-- ===== src/Bundle/Subscribers.antt =====
-- Who is told of the shutdown of a bundle.
use zel.Prelude.{
  ℕ, ◌≡◌, ◌≢◌, ◌↔◌, refl, sym, subst, String, Bytes, false, Result, ok, err, map_err, is_ok, List,
  [], ◌∷◌, length,
}
use mathlib.Core.List.{Memᴰ}
use mathlib.Core.List.Memᴰ
use mathlib.Core.Bool.{false≢true}
use zel.Shutdown.Handle.{ShutdownError}
use zel.Bundle
use zel.Bundle.{
  Iroh, Reply, gone, after, never, Action, notify, wait, shutdown_router, BundleError, rpc, join,
  Timing, notified, notify_all, Builder, IrohBundle, subscribe_shutdown, finish, shutdown,
  shutdown_with_handle,
}

notify-notified :
    (r : Reply) (c : ℕ) (actions : List Action) → r ≢ gone → Memᴰ (notify c) (notified r c actions)
notify-notified gone c actions h = absurd (h refl)
notify-notified (after t) c actions h = Memᴰ.head refl
notify-notified never c actions h = Memᴰ.head refl

notified_keeps :
    (r : Reply) (c : ℕ) (actions : List Action) (a : Action)
    → Memᴰ a actions
    → Memᴰ a (notified r c actions)
notified_keeps gone c actions a i = i
notified_keeps (after t) c actions a i = Memᴰ.tail i
notified_keeps never c actions a i = Memᴰ.tail i

notify_all-Memᴰ :
    (reply : ℕ → Reply) (cs : List ℕ) (c : ℕ)
    → Memᴰ c cs
    → reply c ≢ gone
    → Memᴰ (notify c) (notify_all reply cs)
unfolding notify_all
notify_all-Memᴰ reply [] c i h = elim i [ ]
notify_all-Memᴰ reply (d ∷ cs) c (Memᴰ.head e) h =
    subst (λ d. Memᴰ (notify c) (notified (reply d) d (notify_all reply cs))) e
      (notify-notified (reply c) c (notify_all reply cs) h)
notify_all-Memᴰ reply (d ∷ cs) c (Memᴰ.tail i) h =
    notified_keeps (reply d) d (notify_all reply cs) (notify c) (notify_all-Memᴰ reply cs c i h)

module _ (iroh : Iroh) where
  -- A call of the builder.
  pub data Step : Type 0 where
    accept : Bytes → iroh.Handler → Step
    subscribe : Step

  abbrev pub step : Builder iroh → Step → Builder iroh
  step b (accept alpn handler) = Bundle.accept iroh b alpn handler
  step b subscribe = (subscribe_shutdown iroh b).0

  abbrev pub run : Builder iroh → List Step → Builder iroh
  run b [] = b
  run b (s ∷ steps) = run (step b s) steps

  step-Memᴰ :
      (b : Builder iroh) (s : Step) (c : ℕ)
      → Memᴰ c b.shutdown_subscribers
      → Memᴰ c (step b s).shutdown_subscribers
  unfolding Bundle.accept subscribe_shutdown
  step-Memᴰ b (accept alpn handler) c i = i
  step-Memᴰ b subscribe c i = Memᴰ.append_left _ i

  run-Memᴰ :
      (b : Builder iroh) (steps : List Step) (c : ℕ)
      → Memᴰ c b.shutdown_subscribers
      → Memᴰ c (run b steps).shutdown_subscribers
  run-Memᴰ b [] c i = i
  run-Memᴰ b (s ∷ steps) c i = run-Memᴰ (step b s) steps c (step-Memᴰ b s c i)

  module _ (timing : Timing) (reply : ℕ → Reply) where
    -- Whoever subscribes to the shutdown and keeps the listener is sent a replier when the bundle is
    -- shut down, whatever calls of the builder come between.
    pub shutdown-subscribe :
        (b : Builder iroh) (steps : List Step) (limit : ℕ)
        → reply (subscribe_shutdown iroh b).1 ≢ gone
        → Memᴰ
            (notify (subscribe_shutdown iroh b).1)
            (shutdown iroh timing reply
              (finish iroh (run (subscribe_shutdown iroh b).0 steps))
              limit).1
    unfolding shutdown finish subscribe_shutdown
    shutdown-subscribe b steps limit h =
        let c = length b.shutdown_subscribers in
        let told =
          run-Memᴰ (subscribe_shutdown iroh b).0 steps c
            (Memᴰ.append_right b.shutdown_subscribers (Memᴰ.head refl)) in
        Memᴰ.append_left _ (notify_all-Memᴰ reply _ c told h)

    router-Memᴰ :
        (b : IrohBundle iroh) (limit : ℕ)
        → Memᴰ shutdown_router (shutdown iroh timing reply b limit).1
    unfolding shutdown
    router-Memᴰ b limit =
        Memᴰ.append_right (notify_all reply b.shutdown_subscribers) (Memᴰ.tail (Memᴰ.head refl))

    joined-ok : (r : Result (Unit {0}) String) → (map_err join r ≡ ok tt) ↔ (r ≡ ok tt)
    joined-ok (ok _) = (λ _. refl, λ _. refl)
    joined-ok (err e) = (λ h. absurd (cc), λ h. absurd (cc))

    -- A bundle that is shut down together with the RPC server: its router is shut down exactly if the
    -- server's shutdown succeeds, and the whole succeeds exactly if both do. Where the server's
    -- shutdown fails, no subscriber is told and the router's shutdown is not called.
    pub shutdown_with_handle-both :
        (r : Result (Unit {0}) ShutdownError) (b : IrohBundle iroh) (limit : ℕ)
        → ((shutdown_with_handle iroh timing reply r b limit).0 ≡ ok tt
            ↔ ((r ≡ ok tt) × (iroh.shutdown b.router ≡ ok tt)))
          × (Memᴰ shutdown_router (shutdown_with_handle iroh timing reply r b limit).1
              ↔ (r ≡ ok tt))
          × (((shutdown_with_handle iroh timing reply r b limit).1 ≡ []) ↔ (is_ok r ≡ false))
    unfolding shutdown_with_handle shutdown
    shutdown_with_handle-both (err e) b limit = (
      (λ h. absurd (cc), λ h. absurd (cc h.0)),
      (λ i. elim i [ ], λ h. absurd (cc)),
      (λ _. refl, λ _. refl),
    )
    shutdown_with_handle-both (ok _) b limit =
        let (f, g) = joined-ok (iroh.shutdown b.router) in
        (
          (λ h. (refl, f h), λ h. g h.1),
          (λ _. refl, λ _. router-Memᴰ b limit),
          (
            λ h. absurd (Memᴰ.not-nil (subst (Memᴰ shutdown_router) h (router-Memᴰ b limit))),
            λ h. absurd (false≢true (sym h)),
          ),
        )
