-- ===== src/Bundle.antt =====
-- zel_core/src/iroh_helpers.rs: `IrohBundle`, its builder, and its shutdown. A oneshot channel is a
-- number, shared by the subscriber's end and the bundle's; `reply` of it is what its subscriber does.
pub mod Waiting
pub mod Subscribers
use zel.Prelude.{
  ℕ, String, Bytes, Bool, true, false, Option, none, some, Result, ok, err, map_err, and_then, List,
  [], ◌∷◌, ◌++◌, length, ◌≡◌, ◌≤◌, ◌<◌,
}
use zel.Shutdown.Handle.{ShutdownError}

-- What is used of the crate `iroh`; `bind` includes the DNS discovery.
pub record Iroh : Type 1 where
  pub Endpoint : Type 0
  pub SecretKey : Type 0
  pub Handler : Type 0
  pub RouterBuilder : Type 0
  pub Router : Type 0
  pub bind : Option SecretKey → Result Endpoint String
  pub new_router : Endpoint → RouterBuilder
  pub accept : RouterBuilder → Bytes → Handler → RouterBuilder
  pub spawn : RouterBuilder → Router
  pub shutdown : Router → Result (Unit {0}) String

-- A subscriber that has dropped its listener; one that completes, or drops the replier, so long after
-- it got it; and one that keeps the replier for ever.
pub data Reply : Type 0 where
  gone : Reply
  after : ℕ → Reply
  never : Reply

-- What `shutdown` does to the outside, in order.
pub data Action : Type 0 where
  notify : (channel : ℕ) → Action
  wait : (duration : ℕ) → (timed_out : Bool) → Action
  shutdown_router : Action

pub data BundleError : Type 0 where
  rpc : ShutdownError → BundleError
  join : String → BundleError

-- `sub.send(replier).is_ok()`, and then the future that is pushed: when it ends, if it does.
abbrev pub pushed : Reply → List (Option ℕ) → List (Option ℕ)
pushed gone futures = futures
pushed (after t) futures = some t ∷ futures
pushed never futures = none ∷ futures

unfoldable pub replies : (ℕ → Reply) → List ℕ → List (Option ℕ)
replies reply [] = []
replies reply (c ∷ cs) = pushed (reply c) (replies reply cs)

-- Every one of these futures ends by then.
abbrev pub EndBy : ℕ → List (Option ℕ) → Type 0
EndBy t [] = Unit
EndBy t (none ∷ ts) = ⊥
EndBy t (some s ∷ ts) = (s ≤ t) × EndBy t ts

-- What is used of `futures::future::join_all` and `tokio::time::timeout`: when the joined future ends;
-- how long is waited, and whether the time ran out.
pub record Timing : Type 0 where
  pub join_all : List (Option ℕ) → Option ℕ
  pub timeout : ℕ → Option ℕ → ℕ × Bool
  pub join_all_last : (ts : List (Option ℕ)) (t : ℕ) → join_all ts ≡ some t → EndBy t ts
  pub join_all_by :
      (ts : List (Option ℕ)) (t : ℕ) → EndBy t ts → (s : ℕ) × (join_all ts ≡ some s) × (s ≤ t)
  pub timeout_ends : (limit t : ℕ) → t ≤ limit → timeout limit (some t) ≡ (t, false)
  pub timeout_late : (limit t : ℕ) → limit < t → timeout limit (some t) ≡ (limit, true)
  pub timeout_never : (limit : ℕ) → timeout limit none ≡ (limit, true)

-- A channel whose listener is gone is not counted as notified.
abbrev pub notified : Reply → ℕ → List Action → List Action
notified gone c actions = actions
notified _ c actions = notify c ∷ actions

unfoldable pub notify_all : (ℕ → Reply) → List ℕ → List Action
notify_all reply [] = []
notify_all reply (c ∷ cs) = notified (reply c) c (notify_all reply cs)

module _ (iroh : Iroh) where
  open iroh use {Endpoint, SecretKey, Handler, RouterBuilder, Router}

  pub record Builder : Type 0 where
    pub endpoint : Endpoint
    pub router_builder : RouterBuilder
    pub shutdown_subscribers : List ℕ

  pub record IrohBundle : Type 0 where
    pub endpoint : Endpoint
    pub router : Router
    pub shutdown_subscribers : List ℕ

  unfoldable pub builder : Option SecretKey → Result Builder String
  builder key = and_then (iroh.bind key) (λ e.
      ok (record { endpoint = e; router_builder = iroh.new_router e; shutdown_subscribers = [] }))

  unfoldable pub accept : Builder → Bytes → Handler → Builder
  accept b alpn handler = record b { router_builder = iroh.accept b.router_builder alpn handler }

  -- The new channel is the next number.
  unfoldable pub subscribe_shutdown : Builder → Builder × ℕ
  subscribe_shutdown b =
      let c = length b.shutdown_subscribers in
      (record b { shutdown_subscribers = b.shutdown_subscribers ++ c ∷ [] }, c)

  unfoldable pub finish : Builder → IrohBundle
  finish b = record {
    endpoint = b.endpoint;
    router = iroh.spawn b.router_builder;
    shutdown_subscribers = b.shutdown_subscribers;
  }

  module _ (timing : Timing) (reply : ℕ → Reply) where
    unfoldable pub shutdown : IrohBundle → ℕ → Result (Unit {0}) String × List Action
    unfolding replies notify_all
    shutdown b limit =
        let (duration, timed_out) =
          timing.timeout limit (timing.join_all (replies reply b.shutdown_subscribers)) in
        (
          iroh.shutdown b.router,
          notify_all reply b.shutdown_subscribers
              ++ (wait duration timed_out ∷ shutdown_router ∷ []),
        )

    -- `rpc_result` is what the shutdown of the RPC server returned.
    unfoldable pub shutdown_with_handle :
        Result (Unit {0}) ShutdownError
        → IrohBundle
        → ℕ
        → Result (Unit {0}) BundleError × List Action
    unfolding shutdown
    shutdown_with_handle (err e) b limit = (err (rpc e), [])
    shutdown_with_handle (ok _) b limit =
        let (r, actions) = shutdown b limit in (map_err join r, actions)
