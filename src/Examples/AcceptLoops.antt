-- ===== src/Examples/AcceptLoops.antt =====
-- The accept loop of one connection beside a shutdown.
use zel.Prelude.{
  zero, suc, ℕ, ◌+◌, ◌*◌, ◌≤◌, ◌<◌, ◌≡◌, refl, Bool, true, false, some, ok, List, [], ◌∷◌, arith,
}
use zel.Shutdown.Tracker
use zel.Shutdown.Tracker.{Tracker, Waiter}
use zel.Shutdown.Handle.{end_shutdown}
use zel.Shutdown.Connections.{
  Phase, Caller, Connection, System, new, connect, on_connection, raise_flag, send_signal,
  wait_for_completion, select_enter, accept_bi, load_flag, spawn_handler, take_signal, step, Reach,
  here, next,
}
use zel.Shutdown.Connections.Admissions.{started, admitting_now}
use zel.Shutdown.Connections.Aftermath.{after_completion}
use zel.Shutdown.Connections.Runs.{Run, start, by_loop}
use zel.Shutdown.Connections.Settled.{IsSettled, running_now}
use zel.Shutdown.Connections.Ends.{outside_now, loops_end}
use zel.Shutdown.Connections.Missed.{Quiet, sleepers, missed_signal}
use zel.Shutdown.Connections.Early.{run_all, streams, streaming_unawaited, late_handler}
use zel.Examples.Instances.{notify_lib}

abbrev loop : Phase → Bool → Bool → ℕ → Connection notify_lib
loop p registered woken n = record { phase = p; signal = (registered, woken); started = n }

abbrev system : Bool → Caller → List (Connection notify_lib) → ℕ → Waiter → ℕ → System notify_lib
system flag caller loops tasks w streaming = record {
  is_shutting_down = flag;
  caller = caller;
  connections = loops;
  task_tracker = record {
    active_tasks = tasks;
    completion_notify = (false, false);
    guards = tasks;
    notices = 0;
    waiter = w;
  };
  streaming = streaming;
}

abbrev one : Phase → Bool → Bool → Caller → System notify_lib
one p woken flag caller = system flag caller (loop p true woken 0 ∷ []) 0 Waiter.entering 0

-- A stream arrives, the loop finds the flag down, and the shutdown begins.
abbrev admitted : System notify_lib
admitted = one Phase.admitting false false Caller.before

Reach-admitted : Reach notify_lib (new notify_lib) admitted
unfolding step Tracker.new
Reach-admitted =
    next {t = one (Phase.arrived true) false false Caller.before} (on_connection 0 load_flag)
      (next {t = one Phase.selecting false false Caller.before} (on_connection 0 (accept_bi true))
        (next
          {t = system false Caller.before (loop Phase.entering false false 0 ∷ []) 0 Waiter.entering
            0}
          (on_connection 0 select_enter) (next {t = new notify_lib} connect here refl (omega arith))
          refl (omega arith))
        refl (omega arith))
      refl (omega arith)

abbrev signalled : System notify_lib
signalled = one Phase.admitting true true Caller.waiting

Reach-signalled : Reach notify_lib (new notify_lib) signalled
unfolding step
Reach-signalled =
    next {t = one Phase.admitting false true Caller.raised} send_signal
      (next {t = admitted} raise_flag Reach-admitted refl (omega arith)) refl (omega arith)

abbrev done : System notify_lib
done = system true Caller.waiting (loop Phase.admitting true true 0 ∷ []) 0 Waiter.completed 0

completes : step notify_lib wait_for_completion signalled ≡ some done
unfolding step
completes = refl

abbrev late : System notify_lib
late = system true Caller.waiting (loop Phase.entering true true 1 ∷ []) 1 Waiter.completed 0

Reach-late : Reach notify_lib done late
unfolding step
Reach-late = next {t = done} (on_connection 0 spawn_handler) here refl (omega arith)

after_completion_example :
    (done.task_tracker.guards ≡ 0)
    × (late.task_tracker.guards ≤ admitting_now notify_lib done.connections)
    × (started notify_lib late.connections
        ≤ started notify_lib done.connections + admitting_now notify_lib done.connections)
after_completion_example = after_completion notify_lib Reach-signalled completes refl Reach-late

streaming_unawaited_example :
    (t : System notify_lib) × (run_all notify_lib
        (connect ∷ streams notify_lib 3 (raise_flag ∷ send_signal ∷ wait_for_completion ∷ []))
        (new notify_lib)
      ≡ some t)
    × (end_shutdown notify_lib 30 t.task_tracker ≡ some (ok tt))
    × (t.streaming ≡ 3)
streaming_unawaited_example = streaming_unawaited notify_lib 3 30

late_handler_example :
    (t : System notify_lib) × (u : System notify_lib) × Reach notify_lib admitted t
    × (end_shutdown notify_lib 30 t.task_tracker ≡ some (ok tt))
    × Reach notify_lib t u
    × (u.task_tracker.guards ≡ 1)
late_handler_example = late_handler notify_lib admitted 30 refl refl refl refl (omega arith)

-- The flag is up, and a loop is between two turns.
abbrev between : System notify_lib
between = one Phase.entering false true Caller.raised

missed_signal_example :
    (t : System notify_lib) × Reach notify_lib between t
    × (t.caller ≡ Caller.waiting)
    × ((u : System notify_lib)
        → Quiet notify_lib t u
        → (u.caller ≡ Caller.waiting) × (0 < sleepers notify_lib u.connections))
missed_signal_example = missed_signal notify_lib between refl (omega arith) (omega arith)

-- The flag is up, and a loop is suspended.
abbrev suspended : System notify_lib
suspended = one Phase.selecting false true Caller.raised

Reach-suspended : Reach notify_lib (new notify_lib) suspended
unfolding step Tracker.new
Reach-suspended =
    next {t = one Phase.selecting false false Caller.before} raise_flag
      (next
        {t = system false Caller.before (loop Phase.entering false false 0 ∷ []) 0 Waiter.entering
          0}
        (on_connection 0 select_enter) (next {t = new notify_lib} connect here refl (omega arith))
        refl (omega arith))
      refl (omega arith)

abbrev woken : System notify_lib
woken = one Phase.selecting true true Caller.waiting

abbrev ended : System notify_lib
ended = one Phase.stopped true true Caller.waiting

sends : step notify_lib send_signal suspended ≡ some woken
unfolding step
sends = refl

Run-ended : Run notify_lib woken 1 0 ended
unfolding step
Run-ended = by_loop {t = woken} 0 take_signal start refl

IsSettled-ended : IsSettled notify_lib ended
unfolding step
IsSettled-ended zero a k = refl
IsSettled-ended (suc i) a k = refl

loops_end_example :
    (running_now notify_lib ended.connections ≤ outside_now notify_lib suspended.connections + 0)
    × (1 ≤ 4 * 1 + 3 * 0)
loops_end_example =
    loops_end notify_lib {s = suspended} {u = woken} {t = ended} Reach-suspended refl sends
      Run-ended IsSettled-ended
