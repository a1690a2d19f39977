-- ===== src/Shutdown/Counting.antt =====
-- The counter is the number of guards that are alive.
use zel.Prelude.{◌<◌, ◌^◌, ◌≡◌, refl, some, arith}
use zel.Shutdown.{NotifyLib}
use zel.Shutdown.Tracker.{
  completed, Tracker, new, Move, spawn_task, drop_a_guard, notify_waiters, wait_on, time_out, step,
  Reach, here, next, count,
}

module _ (lib : NotifyLib) where
  step-counts :
      (m : Move lib) (t u : Tracker lib)
      → t.active_tasks ≡ t.guards
      → u.guards < 2 ^ 64
      → step lib m t ≡ some u
      → u.active_tasks ≡ u.guards
  unfolding step
  step-counts spawn_task t u c small e = ground arith
  step-counts drop_a_guard t u c small e = ground arith
  step-counts notify_waiters t u c small e = ground arith
  step-counts wait_on t u c small e = ground arith
  step-counts time_out t u c small e = ground arith

  Reach-counts :
      {s t : Tracker lib} → s.active_tasks ≡ s.guards → Reach lib s t → t.active_tasks ≡ t.guards
  Reach-counts c here = c
  Reach-counts c (next {t = t} {u = u} m r e small) = step-counts m t u (Reach-counts c r) small e

  -- In every state that is reached from a new tracker, by tasks that start and end and a waiter that
  -- moves in any order, with fewer than 2^64 tasks at a time, the count is the number of guards that
  -- are alive.
  pub count-guards : {t : Tracker lib} → Reach lib (new lib) t → count lib t ≡ t.guards
  unfolding count new
  count-guards r = Reach-counts refl r

  -- The wait reports completion only at a moment when no guard is alive.
  pub completed_when_idle :
      {t u : Tracker lib}
      → Reach lib (new lib) t
      → step lib wait_on t ≡ some u
      → u.waiter ≡ completed
      → (t.guards ≡ 0) × (u.guards ≡ 0)
  unfolding step
  completed_when_idle {t} {u} r e c = ground (arith, count-guards r)
