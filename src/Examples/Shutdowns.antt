-- ===== src/Examples/Shutdowns.antt =====
-- The task tracker at concrete states.
use zel.Prelude.{ℕ, ◌≡◌, ◌⊎◌, refl, Bool, true, false, some, arith}
use zel.Shutdown.Tracker.{
  Waiter, entering, registering, waiting, completed, timed_out, Tracker, new, Move, spawn_task,
  drop_a_guard, notify_waiters, wait_on, time_out, step, Reach, here, next, count,
}
use zel.Shutdown.Counting.{count-guards}
use zel.Shutdown.Wakeups.{IsStuck, lost_wakeup, Meanwhile, nothing, then, woken_if_registered}
use zel.Examples.Instances.{notify_lib}

abbrev tracker : ℕ → Bool × Bool → ℕ → ℕ → Waiter → Tracker notify_lib
tracker active notify guards notices w = record {
  active_tasks = active;
  completion_notify = notify;
  guards = guards;
  notices = notices;
  waiter = w;
}

-- A task is spawned, and the waiter makes its two tests.
abbrev one_task : Tracker notify_lib
one_task = tracker 1 (false, false) 1 0 registering

Reach-one : Reach notify_lib (new notify_lib) (tracker 1 (false, false) 1 0 entering)
unfolding new step
Reach-one = next {t = new notify_lib} spawn_task here refl (omega arith)

count-guards_example : count notify_lib (tracker 1 (false, false) 1 0 entering) ≡ 1
count-guards_example = count-guards notify_lib Reach-one

completes : step notify_lib wait_on (new notify_lib) ≡ some (tracker 0 (false, false) 0 0 completed)
unfolding new step
completes = refl

lost_wakeup_example :
    (u : Tracker notify_lib) × Reach notify_lib one_task u
    × IsStuck notify_lib u
    × ((m : Move notify_lib) (v : Tracker notify_lib)
        → step notify_lib m u ≡ some v
        → (m ≡ spawn_task) ⊎ ((m ≡ time_out) × (v ≡ record u { waiter = timed_out })))
lost_wakeup_example = lost_wakeup notify_lib one_task refl refl refl refl

abbrev asleep : Tracker notify_lib
asleep = tracker 1 (true, false) 1 0 waiting

abbrev ended : Tracker notify_lib
ended = tracker 0 (true, false) 0 1 waiting

abbrev woken : Tracker notify_lib
woken = tracker 0 (true, true) 0 0 waiting

registers : step notify_lib wait_on one_task ≡ some asleep
unfolding step
registers = refl

ends : step notify_lib drop_a_guard asleep ≡ some ended
unfolding step
ends = refl

notifies : step notify_lib notify_waiters ended ≡ some woken
unfolding step
notifies = refl

meanwhile : Meanwhile notify_lib asleep woken
meanwhile =
    then {t = ended} notify_waiters (λ h. ground arith) (λ h. ground arith)
      (then {t = asleep} drop_a_guard (λ h. ground arith) (λ h. ground arith) nothing ends
        (omega arith))
      notifies (omega arith)

woken_if_registered_example : notify_lib.is_woken (true, true) ≡ true
woken_if_registered_example =
    woken_if_registered notify_lib one_task asleep woken refl refl (omega arith) registers meanwhile
      refl refl
