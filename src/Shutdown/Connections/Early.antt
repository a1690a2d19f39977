-- ===== src/Shutdown/Connections/Early.antt =====
-- What a shutdown that has returned `Ok` can leave running.
use zel.Prelude.{
  ℕ, zero, suc, ◌+◌, ◌<◌, ◌≡◌, refl, ap, ◌∙◌, true, false, Option, none, some, ok, List, [], ◌∷◌,
  map, arith,
}
use zel.Shutdown.{NotifyLib}
use zel.Shutdown.Tracker
use zel.Shutdown.Tracker.{entering, completed, increment, count}
use zel.Shutdown.Handle.{end_shutdown}
use zel.Shutdown.Connections.{
  Step, connect, select_enter, accept_bi, load_flag, end_handler, new, Phase, selecting, arrived,
  stopped, admitting, kept_first, spawn_handler, before, raised, waiting, Connection, signalled,
  act_at, System, on_connection, raise_flag, send_signal, wait_for_completion, step, Reach, here,
  next,
}
use zel.Shutdown.Connections.Admissions.{admitting_now, total-signalled, about_to}

module _ (lib : NotifyLib) where
  module _ (s : System lib) where
    abbrev flagged : System lib
    flagged = record s { is_shutting_down = true; caller = raised }

    abbrev notified : System lib
    notified = record flagged { connections = map (signalled lib) s.connections; caller = waiting }

    abbrev pub returned : System lib
    returned = record notified { task_tracker = record s.task_tracker { waiter = completed } }

    Reach-returned :
        s.caller ≡ before
        → s.task_tracker.waiter ≡ entering
        → s.task_tracker.active_tasks ≡ 0
        → s.task_tracker.guards ≡ 0
        → Reach lib s returned
    unfolding step count
    Reach-returned b w a g =
        next {t = notified} {u = returned} wait_for_completion
          (next {t = flagged} {u = notified} send_signal
            (next {t = s} {u = flagged} raise_flag here (ground arith) (omega arith)) refl
            (omega arith))
          (ground arith) (omega arith)

  -- These steps, one after the other.
  abbrev pub run_all : List Step → System lib → Option (System lib)
  run_all [] s = some s
  run_all (m ∷ ms) s = elim (step lib m s) [ none ↦ none | some t ↦ run_all ms t ]

  -- This many streams, one after the other: the loop lets it through and spawns its handler, which
  -- spawns the streaming task and ends.
  abbrev pub streams : ℕ → List Step → List Step
  streams zero rest = rest
  streams (suc k) rest =
      on_connection 0 select_enter
      ∷ on_connection 0 (accept_bi true)
      ∷ on_connection 0 load_flag
      ∷ on_connection 0 spawn_handler
      ∷ end_handler true
      ∷ streams k rest

  registered : ℕ → lib.Notify → lib.Notify
  registered zero signal = signal
  registered (suc k) signal = registered k (lib.register signal)

  -- A server with one connection, whose loop is between two turns, after this many streams.
  abbrev served : lib.Notify → ℕ → System lib
  served signal k = record {
    is_shutting_down = false;
    caller = before;
    connections = record { phase = Phase.entering; signal = signal; started = k } ∷ [];
    task_tracker = record {
      active_tasks = 0;
      completion_notify = lib.fresh;
      guards = 0;
      notices = k;
      waiter = entering;
    };
    streaming = k;
  }

  run_all-stream :
      (n k : ℕ) (signal : lib.Notify) (rest : List Step)
      → run_all (streams (suc n) rest) (served signal k)
        ≡ run_all (streams n rest) (served (lib.register signal) (k + 1))
  unfolding step increment
  run_all-stream n k signal rest = refl

  run_all-streams :
      (n k : ℕ) (signal : lib.Notify) (rest : List Step)
      → run_all (streams n rest) (served signal k)
        ≡ run_all rest (served (registered n signal) (k + n))
  unfolding registered
  run_all-streams zero k signal rest =
      ap (λ i. run_all rest (served signal i)) {x = k} {y = k + 0} (omega arith)
  run_all-streams (suc n) k signal rest =
      run_all-stream n k signal rest
      ∙ run_all-streams n (k + 1) (lib.register signal) rest
      ∙ ap (λ i. run_all rest (served (registered n (lib.register signal)) i)) {x = k + 1 + n}
          {y = k + suc n} (omega arith)

  -- A graceful shutdown waits for handlers only. On a new server, a connection is made and any number
  -- of streams is accepted on it, one after the other, each with a handler that spawns its streaming
  -- task and ends, as those of subscriptions, notifications and raw streams do; then the shutdown
  -- raises the flag, sends the signal and waits. It returns `Ok` at the first look at the tracker, with
  -- none of the tasks ended: all of them still run.
  pub streaming_unawaited :
      (k d : ℕ)
      → (t : System lib) × (run_all
            (connect ∷ streams k (raise_flag ∷ send_signal ∷ wait_for_completion ∷ []))
            (new lib)
          ≡ some t)
        × (end_shutdown lib d t.task_tracker ≡ some (ok tt))
        × (t.streaming ≡ k)
  unfolding end_shutdown step count Tracker.new
  streaming_unawaited k d = (
    returned (served (registered k lib.fresh) k),
    run_all-streams k 0 lib.fresh (raise_flag ∷ send_signal ∷ wait_for_completion ∷ [])
        ∙ ap (λ i. some (returned (served (registered k lib.fresh) i))) {x = 0 + k} {y = k}
            (omega arith),
    refl,
    refl,
  )

  -- The loop of this number is about to spawn its handler.
  abbrev Spawner : List (Connection lib) → Type 0
  Spawner cs =
      (i : ℕ) × (ds : List (Connection lib)) × (act_at lib i true spawn_handler cs
        ≡ some (ds, true))

  later : (c : Connection lib) (cs : List (Connection lib)) → Spawner cs → Spawner (c ∷ cs)
  unfolding act_at
  later c cs (i, ds, e) = (suc i, c ∷ ds, ap (kept_first lib c) e)

  spawner_from :
      (p : Phase) (c : Connection lib) (cs : List (Connection lib))
      → c.phase ≡ p
      → 0 < about_to lib p + admitting_now lib cs
      → (0 < admitting_now lib cs → Spawner cs)
      → Spawner (c ∷ cs)
  unfolding act_at
  spawner_from admitting c cs e h rest =
      (zero, record c { phase = Phase.entering; started = c.started + 1 } ∷ cs, rw e refl)
  spawner_from stopped c cs e h rest = later c cs (rest (omega arith))
  spawner_from selecting c cs e h rest = later c cs (rest (omega arith))
  spawner_from (arrived r) c cs e h rest = later c cs (rest (omega arith))
  spawner_from Phase.entering c cs e h rest = later c cs (rest (omega arith))

  spawner : (cs : List (Connection lib)) → 0 < admitting_now lib cs → Spawner cs
  spawner [] h = absurd (omega arith)
  spawner (c ∷ cs) h = spawner_from c.phase c cs refl h (λ p. spawner cs p)

  -- A shutdown can return `Ok` and a handler start after it: whenever no handler runs, and a loop has
  -- found the flag down and has yet to increment the tracker, there are steps after which
  -- the shutdown has returned `Ok`, and steps from there after which a handler runs.
  pub late_handler :
      (s : System lib) (d : ℕ)
      → s.caller ≡ before
      → s.task_tracker.waiter ≡ entering
      → s.task_tracker.active_tasks ≡ 0
      → s.task_tracker.guards ≡ 0
      → 0 < admitting_now lib s.connections
      → (t : System lib) × (u : System lib) × Reach lib s t
        × (end_shutdown lib d t.task_tracker ≡ some (ok tt))
        × Reach lib t u
        × (u.task_tracker.guards ≡ 1)
  unfolding end_shutdown step increment
  late_handler s d b w a g p =
      let still : admitting_now lib (returned s).connections ≡ admitting_now lib s.connections =
        total-signalled lib (λ c. about_to lib c.phase) (λ c. refl) s.connections in
      let (i, ds, e) = spawner (returned s).connections (omega (arith, still)) in
      let u : System lib = record (returned s) {
        connections = ds;
        task_tracker = increment lib (returned s).task_tracker;
      } in
      (
        returned s,
        u,
        Reach-returned s b w a g,
        refl,
        next {t = returned s} {u = u} (on_connection i spawn_handler) here (rw e refl)
            (ground arith),
        omega arith,
      )
