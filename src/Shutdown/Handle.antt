-- ===== src/Shutdown/Handle.antt =====
-- builder.rs and protocol/mod.rs: `shutdown`, of the handle and of the server itself, which do the
-- same: raise the flag, notify the connection handlers, and wait for the tasks.
use zel.Prelude.{String, ℕ, ◌≡◌, refl, Bool, true, Option, none, some, Result, ok, err, arith}
use zel.Shutdown.{NotifyLib}
use zel.Shutdown.Tracker.{
  Waiter, entering, registering, completed, timed_out, Tracker, time_out, step, Reach, next, count,
}
use zel.Shutdown.Wakeups.{lost_wakeup}

pub data ShutdownError : Type 0 where
  timeout : (remaining_tasks : ℕ) (timeout : ℕ) → ShutdownError
  task_join_error : String → ShutdownError

module _ (lib : NotifyLib) where
  pub record ShutdownHandle : Type 0 where
    pub shutdown_signal : lib.Notify
    pub is_shutting_down : Bool
    pub task_tracker : Tracker lib

  -- Up to the start of `wait_for_completion`.
  unfoldable pub begin_shutdown : ShutdownHandle → ShutdownHandle
  begin_shutdown h = record {
    shutdown_signal = lib.notify_waiters h.shutdown_signal;
    is_shutting_down = true;
    task_tracker = record h.task_tracker { waiter = entering };
  }

  abbrev pub by_waiter : Waiter → ℕ → ℕ → Option (Result (Unit {0}) ShutdownError)
  by_waiter completed remaining d = some (ok tt)
  by_waiter timed_out remaining d = some (err (timeout remaining d))
  by_waiter _ remaining d = none

  -- What `shutdown` returns, once its wait has ended.
  unfoldable pub end_shutdown : ℕ → Tracker lib → Option (Result (Unit {0}) ShutdownError)
  end_shutdown d t = by_waiter t.waiter (count lib t) d

  -- A shutdown can fail with a timeout that reports no remaining task: whenever it has seen a single
  -- active task and has not yet called `notified()`, there are moves after which it returns that
  -- error.
  pub shutdown_times_out_idle :
      (t : Tracker lib) (d : ℕ)
      → t.waiter ≡ registering
      → t.active_tasks ≡ 1
      → t.guards ≡ 1
      → t.notices ≡ 0
      → (u : Tracker lib) × Reach lib t u × (end_shutdown d u ≡ some (err (timeout 0 d)))
  unfolding step end_shutdown count
  shutdown_times_out_idle t d w a g n =
      let (u, r, s, _) = lost_wakeup lib t w a g n in
      (
        record u { waiter = timed_out },
        next {t = u} time_out r (rw (s.suspended) refl) (ground (arith, s)),
        ground (arith, s),
      )
