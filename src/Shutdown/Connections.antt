-- ===== src/Shutdown/Connections.antt =====
-- server.rs, shutdown.rs and builder.rs together: the accept loops of all connections, the handlers
-- that they start, and a graceful shutdown, which interleave in any order.
pub mod Admissions
pub mod Aftermath
pub mod Early
pub mod Missed
pub mod Runs
pub mod Settled
pub mod Settling
pub mod Ends
use zel.Prelude.{
  ℕ, zero, suc, ◌+◌, ◌<◌, ◌^◌, ◌≡◌, Bool, true, false, Option, none, some, List, [], ◌∷◌, ◌++◌, map,
  if◌then◌else◌,
}
use zel.Shutdown.{NotifyLib}
use zel.Shutdown.Tracker.{Tracker, Move, increment, drop_a_guard, notify_waiters, wait_on, time_out}
use zel.Shutdown.Tracker

-- Where `connection_handler` stands: before the `select!`, suspended in it, with the result of
-- `accept_bi` before the load of the flag, with a stream that it has let through before the
-- increment of the tracker, and after the loop.
pub data Phase : Type 0 where
  entering : Phase
  selecting : Phase
  arrived : (is_stream : Bool) → Phase
  admitting : Phase
  stopped : Phase

pub data Act : Type 0 where
  select_enter : Act
  -- `accept_bi` gives a stream, or an error.
  accept_bi : (is_stream : Bool) → Act
  load_flag : Act
  spawn_handler : Act
  take_signal : Act

-- Where `shutdown` stands: not called, after the store of the flag, and after `notify_waiters`.
pub data Caller : Type 0 where
  before raised waiting : Caller

-- A handler of a streaming kind ends with the spawn of its task and the drop of its guard.
pub data Step : Type 0 where
  connect : Step
  on_connection : ℕ → Act → Step
  end_handler : (spawns : Bool) → Step
  end_streaming : Step
  notify_completion : Step
  raise_flag : Step
  send_signal : Step
  wait_for_completion : Step
  expire : Step

abbrev admitted : (is_shutting_down is_stream : Bool) → Phase
admitted false true = admitting
admitted _ _ = stopped

module _ (lib : NotifyLib) where
  -- `signal` is what the shutdown signal is to the future that the loop awaits, and `started` the
  -- number of handlers that the loop has spawned.
  pub record Connection : Type 0 where
    pub phase : Phase
    pub signal : lib.Notify
    pub started : ℕ

  abbrev pub connected : Connection
  connected = record { phase = entering; signal = lib.fresh; started = 0 }

  -- With it, whether a handler is spawned.
  act_in : Phase → Bool → Act → Connection → Option (Connection × Bool)
  act_in entering flag select_enter c =
      some (record c { phase = selecting; signal = lib.register c.signal }, false)
  act_in selecting flag (accept_bi is_stream) c =
      some (record c { phase = arrived is_stream }, false)
  act_in selecting flag take_signal c =
      if lib.is_woken c.signal then some (record c { phase = stopped }, false) else none
  act_in (arrived is_stream) flag load_flag c =
      some (record c { phase = admitted flag is_stream }, false)
  act_in admitting flag spawn_handler c =
      some (record c { phase = entering; started = c.started + 1 }, true)
  act_in _ flag a c = none

  -- One turn of the loop of `connection_handler`, an atomic access at a time.
  unfoldable pub act : Bool → Act → Connection → Option (Connection × Bool)
  unfolding act_in
  act flag a c = act_in c.phase flag a c

  abbrev first_changed :
      List Connection → Option (Connection × Bool) → Option (List Connection × Bool)
  first_changed cs none = none
  first_changed cs (some (c, b)) = some (c ∷ cs, b)

  abbrev kept_first : Connection → Option (List Connection × Bool) → Option (List Connection × Bool)
  kept_first c none = none
  kept_first c (some (cs, b)) = some (c ∷ cs, b)

  -- The connection of this number acts.
  unfoldable pub act_at : ℕ → Bool → Act → List Connection → Option (List Connection × Bool)
  unfolding act
  act_at i flag a [] = none
  act_at zero flag a (c ∷ cs) = first_changed cs (act flag a c)
  act_at (suc i) flag a (c ∷ cs) = kept_first c (act_at i flag a cs)

  -- `streaming` tasks are spawned by handlers, and hold no guard.
  pub record System : Type 0 where
    pub is_shutting_down : Bool
    pub caller : Caller
    pub connections : List Connection
    pub task_tracker : Tracker lib
    pub streaming : ℕ

  abbrev pub new : System
  new = record {
    is_shutting_down = false;
    caller = before;
    connections = [];
    task_tracker = Tracker.new lib;
    streaming = 0;
  }

  tracked : (Tracker lib → Option (Tracker lib)) → System → Option System
  tracked move s = elim (move s.task_tracker) [
    | none ↦ none
    | some t ↦ some (record s { task_tracker = t })
  ]

  by_connections : System → Option (List Connection × Bool) → Option System
  by_connections s none = none
  by_connections s (some (cs, b)) = some (record s {
    connections = cs;
    task_tracker = if b then increment lib s.task_tracker else s.task_tracker;
  })

  less_streaming : ℕ → System → Option System
  less_streaming zero s = none
  less_streaming (suc n) s = some (record s { streaming = n })

  store_flag : Caller → System → Option System
  store_flag before s = some (record s { is_shutting_down = true; caller = raised })
  store_flag _ s = none

  abbrev pub signalled : Connection → Connection
  signalled c = record c { signal = lib.notify_waiters c.signal }

  -- It reaches the loops that are suspended at that moment.
  notify_connections : Caller → System → Option System
  notify_connections raised s =
      some (record s { connections = map signalled s.connections; caller = waiting })
  notify_connections _ s = none

  waits : Caller → System → Option System
  unfolding tracked
  waits waiting s = tracked (Tracker.step lib wait_on) s
  waits _ s = none

  -- `RpcServer::accept` makes a loop for a new connection, whether or not the flag is up.
  unfoldable pub step : Step → System → Option System
  unfolding act_at by_connections tracked less_streaming store_flag notify_connections waits
      Tracker.step
  step connect s = some (record s { connections = s.connections ++ connected ∷ [] })
  step (on_connection i a) s = by_connections s (act_at i s.is_shutting_down a s.connections)
  step (end_handler true) s =
      tracked (Tracker.step lib drop_a_guard) (record s { streaming = s.streaming + 1 })
  step (end_handler false) s = tracked (Tracker.step lib drop_a_guard) s
  step end_streaming s = less_streaming s.streaming s
  step notify_completion s = tracked (Tracker.step lib notify_waiters) s
  step raise_flag s = store_flag s.caller s
  step send_signal s = notify_connections s.caller s
  step wait_for_completion s = waits s.caller s
  step expire s = tracked (Tracker.step lib time_out) s

  pub data Reach (s : System) : System → Type 0 where
    here : Reach s s
    next :
        {t u : System} (m : Step)
        → Reach s t
        → step m t ≡ some u
        → u.task_tracker.guards < 2 ^ 64
        → Reach s u
