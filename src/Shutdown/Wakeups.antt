-- ===== src/Shutdown/Wakeups.antt =====
-- When the waiter is woken by the last task, and when it is not.
use zel.Prelude.{◌<◌, ◌^◌, ◌≡◌, ◌≢◌, refl, true, false, some, arith, ◌⊎◌, inl}
use zel.Shutdown.{NotifyLib}
use zel.Shutdown.Tracker.{
  registering, waiting, timed_out, Tracker, Move, spawn_task, drop_a_guard, notify_waiters, wait_on,
  time_out, step, Reach, here, next,
}

module _ (lib : NotifyLib) where
  open lib use {is_woken, is_registered}

  -- Nothing is left to do, and the waiter sleeps.
  pub record IsStuck (t : Tracker lib) : Type 0 where
    pub suspended : t.waiter ≡ waiting
    pub idle : t.active_tasks ≡ 0
    pub no_guard : t.guards ≡ 0
    pub no_notice : t.notices ≡ 0
    pub asleep : is_woken t.completion_notify ≡ false

  -- From such a state, only a new task or the timeout can follow.
  IsStuck-step :
      (m : Move lib) (t u : Tracker lib)
      → IsStuck t
      → step lib m t ≡ some u
      → (m ≡ spawn_task) ⊎ ((m ≡ time_out) × (u ≡ record t { waiter = timed_out }))
  unfolding step
  IsStuck-step spawn_task t u s e = inl refl
  IsStuck-step drop_a_guard t u s e = ground arith
  IsStuck-step notify_waiters t u s e = ground arith
  IsStuck-step wait_on t u s e = ground arith
  IsStuck-step time_out t u s e = ground arith

  -- A wake-up can be lost: whenever the waiter has seen a single active task and has not yet called
  -- `notified()`, the task may end and notify before that call, and the tracker reaches a state in
  -- which no task is active and the waiter sleeps; from there no move but a new task or the timeout
  -- is possible, though everything that was waited for is done.
  pub lost_wakeup :
      (t : Tracker lib)
      → t.waiter ≡ registering
      → t.active_tasks ≡ 1
      → t.guards ≡ 1
      → t.notices ≡ 0
      → (u : Tracker lib) × Reach lib t u
        × IsStuck u
        × ((m : Move lib) (v : Tracker lib)
            → step lib m u ≡ some v
            → (m ≡ spawn_task) ⊎ ((m ≡ time_out) × (v ≡ record u { waiter = timed_out })))
  unfolding step
  lost_wakeup t w a g n = (u3, reach, stuck, λ m v e. IsStuck-step m u3 v stuck e)
    where
      u1 : Tracker lib
      u1 = record t { active_tasks = 0; guards = 0; notices = 1 }

      u2 : Tracker lib
      u2 = record u1 { completion_notify = lib.notify_waiters t.completion_notify; notices = 0 }

      u3 : Tracker lib
      u3 = record u2 { completion_notify = lib.register u2.completion_notify; waiter = waiting }

      reach : Reach lib t u3
      reach =
          next {t = u2} {u = u3} wait_on
            (next {t = u1} {u = u2} notify_waiters
              (next {t = t} {u = u1} drop_a_guard here (ground arith) (omega arith)) (ground arith)
              (omega arith))
            (ground arith) (omega arith)

      stuck : IsStuck u3
      stuck = record {
        suspended = refl;
        idle = refl;
        no_guard = refl;
        no_notice = refl;
        asleep = lib.register_asleep _;
      }

  -- The moves of the others, while the waiter is suspended.
  pub data Meanwhile (s : Tracker lib) : Tracker lib → Type 0 where
    nothing : Meanwhile s s
    then :
        {t u : Tracker lib} (m : Move lib)
        → m ≢ wait_on
        → m ≢ time_out
        → Meanwhile s t
        → step lib m t ≡ some u
        → u.guards < 2 ^ 64
        → Meanwhile s u

  -- The waiter is woken, or something that is still to come will wake it.
  record IsCovered (t : Tracker lib) : Type 0 where
    counts : t.active_tasks ≡ t.guards
    covered :
        (is_woken t.completion_notify ≡ true)
        ⊎ ((is_registered t.completion_notify ≡ true) × ((0 < t.active_tasks) ⊎ (0 < t.notices)))

  IsCovered-step :
      (m : Move lib) (t u : Tracker lib)
      → m ≢ wait_on
      → step lib m t ≡ some u
      → u.guards < 2 ^ 64
      → IsCovered t
      → IsCovered u
  unfolding step
  IsCovered-step spawn_task t u w e small c = ground arith
  IsCovered-step drop_a_guard t u w e small c = ground arith
  IsCovered-step notify_waiters t u w e small c =
      ground (arith, lib.notify_keeps t.completion_notify, lib.notify_wakes t.completion_notify)
  IsCovered-step wait_on t u w e small c = absurd (w refl)
  IsCovered-step time_out t u w e small c = ground arith

  IsCovered-Meanwhile : {t u : Tracker lib} → IsCovered t → Meanwhile t u → IsCovered u
  IsCovered-Meanwhile c nothing = c
  IsCovered-Meanwhile c (then {t = t} {u = u} m w o r e small) =
      IsCovered-step m t u w e small (IsCovered-Meanwhile c r)

  -- No wake-up is lost once the waiter is registered: if it calls `notified()` while a task is
  -- active, then, whatever the other tasks do meanwhile, it has been woken by the time that no task
  -- is active and every task that ended last has notified.
  pub woken_if_registered :
      (t u v : Tracker lib)
      → t.waiter ≡ registering
      → t.active_tasks ≡ t.guards
      → 0 < t.active_tasks
      → step lib wait_on t ≡ some u
      → Meanwhile u v
      → v.active_tasks ≡ 0
      → v.notices ≡ 0
      → is_woken v.completion_notify ≡ true
  unfolding step
  woken_if_registered t u v w c pos e r idle quiet =
      ground (arith, IsCovered-Meanwhile (registered w e) r)
    where
      registered : t.waiter ≡ registering → step lib wait_on t ≡ some u → IsCovered u
      registered w e = ground (arith, lib.register_waits t.completion_notify)
