-- ===== src/Shutdown.antt =====
-- zel_core/src/protocol/shutdown.rs and builder.rs: the tracker of active tasks, and the graceful
-- shutdown that waits for them. Tasks, dropped guards and the waiter interleave in any order.
pub mod Tracker
pub mod Counting
pub mod Wakeups
pub mod Handle
pub mod Connections
use zel.Prelude.{◌≡◌, Bool, true, false}

-- What the tracker uses of tokio's `Notify`, for one waiter: `register` is a call of `notified()`.
pub record NotifyLib : Type 1 where
  pub Notify : Type 0
  pub fresh : Notify
  pub register : Notify → Notify
  pub notify_waiters : Notify → Notify
  pub is_woken : Notify → Bool
  pub is_registered : Notify → Bool
  pub register_waits : (n : Notify) → is_registered (register n) ≡ true
  -- `notify_waiters` keeps nothing for one that registers later.
  pub register_asleep : (n : Notify) → is_woken (register n) ≡ false
  pub notify_keeps : (n : Notify) → is_woken n ≡ true → is_woken (notify_waiters n) ≡ true
  pub notify_wakes : (n : Notify) → is_registered n ≡ true → is_woken (notify_waiters n) ≡ true
