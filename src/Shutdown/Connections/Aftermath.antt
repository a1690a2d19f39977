-- ===== src/Shutdown/Connections/Aftermath.antt =====
-- Which handlers run after a shutdown has reported that all tasks are done.
use zel.Prelude.{◌+◌, ◌≤◌, ◌<◌, ◌^◌, ◌≡◌, refl, ap, true, false, some, [], ◌∷◌, ◌⊎◌, inl, arith}
use zel.Shutdown.{NotifyLib}
use zel.Shutdown.Tracker
use zel.Shutdown.Tracker.{completed, increment}
use zel.Shutdown.Connections.{
  before, Connection, connected, System, new, Step, connect, on_connection, end_handler,
  end_streaming, notify_completion, raise_flag, send_signal, wait_for_completion, expire, step,
  Reach, here, next,
}
use zel.Shutdown.Connections.Admissions.{
  total-append, total-signalled, started, admitting_now, OnConnection, step-OnConnection,
  act-started, after_flag,
}

module _ (lib : NotifyLib) where
  -- Every guard that is made is that of a handler that a loop spawns.
  step-guards :
      (m : Step) (s u : System lib)
      → step lib m s ≡ some u
      → u.task_tracker.guards + started lib s.connections
        ≤ s.task_tracker.guards + started lib u.connections
  unfolding step increment
  step-guards connect s u h = ground (
    arith,
    total-append lib (λ (c : Connection lib). c.started) s.connections (connected lib ∷ []),
  )
  step-guards (on_connection i a) s u h =
      let o : OnConnection lib s u a = step-OnConnection lib i a s u h in
      ground (
        arith,
        o.acted.sums (λ c. c.started),
        ap (λ t. t.guards) o.counted,
        act-started lib s.is_shutting_down a o.acted.from o.acted.to o.spawns o.acted.acts,
      )
  step-guards (end_handler true) s u h = ground arith
  step-guards (end_handler false) s u h = ground arith
  step-guards end_streaming s u h = ground arith
  step-guards notify_completion s u h = ground arith
  step-guards raise_flag s u h = ground arith
  step-guards send_signal s u h =
      ground
        (arith, total-signalled lib (λ (c : Connection lib). c.started) (λ c. refl) s.connections)
  step-guards wait_for_completion s u h = ground arith
  step-guards expire s u h = ground arith

  Reach-guards :
      {s u : System lib}
      → Reach lib s u
      → u.task_tracker.guards + started lib s.connections
        ≤ s.task_tracker.guards + started lib u.connections
  Reach-guards here = omega arith
  Reach-guards {u} (next {t = t} m r e _) = omega (arith, step-guards m t u e, Reach-guards r)

  -- The count is right, and a shutdown that has begun has raised the flag.
  record IsSound (s : System lib) : Type 0 where
    counts : s.task_tracker.active_tasks ≡ s.task_tracker.guards
    flagged : (s.caller ≡ before) ⊎ (s.is_shutting_down ≡ true)

  step-IsSound :
      (m : Step) (s u : System lib)
      → step lib m s ≡ some u
      → u.task_tracker.guards < 2 ^ 64
      → IsSound s
      → IsSound u
  unfolding step increment
  step-IsSound connect s u h small v = ground arith
  step-IsSound (end_handler true) s u h small v = ground arith
  step-IsSound (end_handler false) s u h small v = ground arith
  step-IsSound end_streaming s u h small v = ground arith
  step-IsSound notify_completion s u h small v = ground arith
  step-IsSound raise_flag s u h small v = ground arith
  step-IsSound send_signal s u h small v = ground arith
  step-IsSound wait_for_completion s u h small v = ground arith
  step-IsSound expire s u h small v = ground arith
  step-IsSound (on_connection i a) s u h small v =
      let o : OnConnection lib s u a = step-OnConnection lib i a s u h in
      ground (
        arith,
        ap (λ t. t.guards) o.counted,
        ap (λ t. t.active_tasks) o.counted,
        o.same_flag,
        o.same_caller,
      )

  Reach-IsSound : {s : System lib} → Reach lib (new lib) s → IsSound s
  unfolding Tracker.new
  Reach-IsSound here = record { counts = refl; flagged = inl refl }
  Reach-IsSound {s} (next {t = t} m r e small) = step-IsSound m t s e small (Reach-IsSound r)

  completes_idle :
      (s t : System lib)
      → IsSound s
      → step lib wait_for_completion s ≡ some t
      → t.task_tracker.waiter ≡ completed
      → (t.is_shutting_down ≡ true) × (t.task_tracker.guards ≡ 0)
  unfolding step
  completes_idle s t v h c = ground arith

  -- When `shutdown` returns `Ok`, no handler runs. Of the handlers that are started after that, whatever
  -- streams and connections come, there are no more than loops that had found the flag down before,
  -- and had yet to spawn: so many handlers at most ever run after the shutdown.
  pub after_completion :
      {s t u : System lib}
      → Reach lib (new lib) s
      → step lib wait_for_completion s ≡ some t
      → t.task_tracker.waiter ≡ completed
      → Reach lib t u
      → (t.task_tracker.guards ≡ 0)
        × (u.task_tracker.guards ≤ admitting_now lib t.connections)
        × (started lib u.connections ≤ started lib t.connections + admitting_now lib t.connections)
  after_completion {s} {t} {u} r h c q =
      let (f, idle) = completes_idle s t (Reach-IsSound r) h c in
      let (_, same) = after_flag lib f q in (idle, omega (arith, Reach-guards q), omega arith)
