-- ===== src/Shutdown/Tracker.antt =====
-- shutdown.rs: `TaskTracker`, `TaskGuard` and `wait_for_completion`, one atomic access at a time.
use zel.Prelude.{
  ℕ, zero, suc, ◌+◌, ◌-◌, ◌%◌, ◌^◌, ◌<◌, ◌≡◌, Option, none, some, nat_beq, if◌then◌else◌,
}
use zel.Shutdown.{NotifyLib}

-- Where `wait_for_completion` stands: before its first test, at the test of its loop, before the
-- call of `notified()`, at the `await`, and after its return.
pub data Waiter : Type 0 where
  entering checking registering waiting completed timed_out : Waiter

module _ (lib : NotifyLib) where
  -- `guards` are alive; `notices` are dropped guards that have found themselves the last, and have
  -- not called `notify_waiters` yet.
  pub record Tracker : Type 0 where
    pub active_tasks : ℕ
    pub completion_notify : lib.Notify
    pub guards : ℕ
    pub notices : ℕ
    pub waiter : Waiter

  unfoldable pub new : Tracker
  new = record {
    active_tasks = 0;
    completion_notify = lib.fresh;
    guards = 0;
    notices = 0;
    waiter = entering;
  }

  -- `fetch_add`; a guard is made.
  unfoldable pub increment : Tracker → Tracker
  increment t = record t { active_tasks = (t.active_tasks + 1) % 2 ^ 64; guards = t.guards + 1 }

  unfoldable pub count : Tracker → ℕ
  count t = t.active_tasks

  -- `fetch_sub`, of a guard that is dropped; the last one has yet to notify.
  drop_guard : ℕ → Tracker → Option Tracker
  drop_guard zero t = none
  drop_guard (suc alive) t = some (record t {
    active_tasks = (t.active_tasks + 2 ^ 64 - 1) % 2 ^ 64;
    guards = alive;
    notices = if nat_beq t.active_tasks 1 then t.notices + 1 else t.notices;
  })

  notify : ℕ → Tracker → Option Tracker
  notify zero t = none
  notify (suc others) t =
      some
        (record t { completion_notify = lib.notify_waiters t.completion_notify; notices = others })

  wait : Waiter → Tracker → Option Tracker
  unfolding count
  wait entering t = some (record t { waiter = if nat_beq (count t) 0 then completed else checking })
  wait checking t =
      some (record t { waiter = if nat_beq (count t) 0 then completed else registering })
  wait registering t =
      some (record t { completion_notify = lib.register t.completion_notify; waiter = waiting })
  wait waiting t =
      if lib.is_woken t.completion_notify then some (record t { waiter = checking }) else none
  wait completed t = none
  wait timed_out t = none

  -- The timeout is looked at where the waiter is suspended.
  expire : Waiter → Tracker → Option Tracker
  expire waiting t = some (record t { waiter = timed_out })
  expire _ t = none

  pub data Move : Type 0 where
    spawn_task drop_a_guard notify_waiters wait_on time_out : Move

  unfoldable pub step : Move → Tracker → Option Tracker
  unfolding increment drop_guard notify wait expire
  step spawn_task t = some (increment t)
  step drop_a_guard t = drop_guard t.guards t
  step notify_waiters t = notify t.notices t
  step wait_on t = wait t.waiter t
  step time_out t = expire t.waiter t

  -- Any moves in any order, with fewer guards alive than the counter can hold.
  pub data Reach (s : Tracker) : Tracker → Type 0 where
    here : Reach s s
    next :
        {t u : Tracker} (m : Move) → Reach s t → step m t ≡ some u → u.guards < 2 ^ 64 → Reach s u
