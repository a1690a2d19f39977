-- ===== src/Shutdown/Connections/Missed.antt =====
-- The shutdown signal against the accept loops: a loop that is not suspended misses it.
use zel.Prelude.{
  ℕ, zero, suc, ◌+◌, ◌≤◌, ◌<◌, ◌^◌, ◌≡◌, ◌≢◌, refl, ap, ◌∙◌, Bool, true, false, some, List, [], ◌∷◌,
  map, arith,
}
use zel.Shutdown.{NotifyLib}
use zel.Shutdown.Connections.{
  Phase, entering, selecting, arrived, stopped, admitting, Act, select_enter, accept_bi, load_flag,
  spawn_handler, take_signal, kept_first, raised, waiting, Connection, connected, signalled, act,
  act_at, System, Step, connect, on_connection, end_handler, end_streaming, notify_completion,
  raise_flag, send_signal, wait_for_completion, expire, step, Reach, here, next,
}
use zel.Shutdown.Connections.Admissions.{
  total, total-append, total-signalled, OnConnection, step-OnConnection, Acted, Acted-act_at,
}

module _ (lib : NotifyLib) where
  abbrev asleep : Phase → (is_woken : Bool) → ℕ
  asleep selecting false = 1
  asleep _ _ = 0

  abbrev pub is_asleep : Connection lib → ℕ
  is_asleep c = asleep c.phase (lib.is_woken c.signal)

  -- The loops that are suspended and have not been woken.
  abbrev pub sleepers : List (Connection lib) → ℕ
  sleepers = total lib is_asleep

  abbrev pub about_to_select : Phase → ℕ
  about_to_select entering = 1
  about_to_select _ = 0

  -- The loops that are about to call `notified()`.
  abbrev pub selecting_next : List (Connection lib) → ℕ
  selecting_next = total lib (λ c. about_to_select c.phase)

  -- Steps in any order, but no stream and no error reaches a loop.
  pub data Quiet (s : System lib) : System lib → Type 0 where
    nothing : Quiet s s
    then :
        {t u : System lib} (m : Step)
        → ((i : ℕ) (is_stream : Bool) → m ≢ on_connection i (accept_bi is_stream))
        → Quiet s t
        → step lib m t ≡ some u
        → Quiet s u

  act-asleep :
      (flag : Bool) (a : Act) (c d : Connection lib) (b : Bool)
      → ((r : Bool) → a ≢ accept_bi r)
      → act lib flag a c ≡ some (d, b)
      → is_asleep c ≤ is_asleep d
  unfolding act
  act-asleep flag select_enter c d b n h = ground arith
  act-asleep flag (accept_bi r) c d b n h = absurd (n r refl)
  act-asleep flag load_flag c d b n h = ground arith
  act-asleep flag spawn_handler c d b n h = ground arith
  act-asleep flag take_signal c d b n h = ground arith

  -- Once the signal has been sent, no other step wakes a loop.
  step-sleepers :
      (m : Step) (s u : System lib)
      → s.caller ≡ waiting
      → ((i : ℕ) (is_stream : Bool) → m ≢ on_connection i (accept_bi is_stream))
      → step lib m s ≡ some u
      → (u.caller ≡ waiting) × (sleepers s.connections ≤ sleepers u.connections)
  unfolding step
  step-sleepers connect s u w n h =
      ground (arith, total-append lib is_asleep s.connections (connected lib ∷ []))
  step-sleepers (on_connection i a) s u w n h =
      let o : OnConnection lib s u a = step-OnConnection lib i a s u h in
      (
        o.same_caller ∙ w,
        omega (
          arith,
          o.acted.sums is_asleep,
          act-asleep s.is_shutting_down a o.acted.from o.acted.to o.spawns
              (λ r e. n i r (ap (on_connection i) e)) o.acted.acts,
        ),
      )
  step-sleepers (end_handler true) s u w n h = ground arith
  step-sleepers (end_handler false) s u w n h = ground arith
  step-sleepers end_streaming s u w n h = ground arith
  step-sleepers notify_completion s u w n h = ground arith
  step-sleepers raise_flag s u w n h = ground arith
  step-sleepers send_signal s u w n h = ground arith
  step-sleepers wait_for_completion s u w n h = ground arith
  step-sleepers expire s u w n h = ground arith

  Quiet-sleepers :
      {s u : System lib}
      → s.caller ≡ waiting
      → Quiet s u
      → (u.caller ≡ waiting) × (sleepers s.connections ≤ sleepers u.connections)
  Quiet-sleepers w nothing = (w, omega arith)
  Quiet-sleepers {s} {u} w (then {t = t} m n r e) =
      let (w', more) = Quiet-sleepers w r in
      let (w'', more') = step-sleepers m t u w' n e in (w'', omega (arith, more, more'))

  -- The loop of this number can call `notified()`.
  abbrev Selector : List (Connection lib) → Type 0
  Selector cs =
      (flag : Bool)
      → (i : ℕ) × (ds : List (Connection lib)) × (act_at lib i flag select_enter cs
          ≡ some (ds, false))

  later : (c : Connection lib) (cs : List (Connection lib)) → Selector cs → Selector (c ∷ cs)
  unfolding act_at
  later c cs rest = λ flag. let (i, ds, e) = rest flag in (suc i, c ∷ ds, ap (kept_first lib c) e)

  selector_from :
      (p : Phase) (c : Connection lib) (cs : List (Connection lib))
      → c.phase ≡ p
      → 0 < about_to_select p + selecting_next cs
      → (0 < selecting_next cs → Selector cs)
      → Selector (c ∷ cs)
  unfolding act_at
  selector_from entering c cs e h rest =
      λ flag. (zero, record c { phase = selecting; signal = lib.register c.signal } ∷ cs, rw e refl)
  selector_from selecting c cs e h rest = later c cs (rest (omega arith))
  selector_from (arrived r) c cs e h rest = later c cs (rest (omega arith))
  selector_from admitting c cs e h rest = later c cs (rest (omega arith))
  selector_from stopped c cs e h rest = later c cs (rest (omega arith))

  selector : (cs : List (Connection lib)) → 0 < selecting_next cs → Selector cs
  selector [] h = absurd (omega arith)
  selector (c ∷ cs) h = selector_from c.phase c cs refl h (λ p. selector cs p)

  -- A loop that has called `notified()` sleeps, whatever was sent before.
  select-asleep :
      (flag : Bool) (c d : Connection lib) (b : Bool)
      → act lib flag select_enter c ≡ some (d, b)
      → (is_asleep c ≡ 0) × (is_asleep d ≡ 1)
  unfolding act
  select-asleep flag c d b h = ground (arith, lib.register_asleep c.signal)

  -- A loop can miss the shutdown signal: whenever the flag is up and the signal has yet to be sent,
  -- and a loop is about to call `notified()`, there are steps after which the signal has been sent and
  -- a loop is suspended without being woken; and whatever happens then, with the end of the shutdown
  -- too, a loop stays so, as long as no connection gives a stream or an error.
  pub missed_signal :
      (s : System lib)
      → s.caller ≡ raised
      → s.task_tracker.guards < 2 ^ 64
      → 0 < selecting_next s.connections
      → (t : System lib) × Reach lib s t
        × (t.caller ≡ waiting)
        × ((u : System lib) → Quiet t u → (u.caller ≡ waiting) × (0 < sleepers u.connections))
  unfolding step
  missed_signal s c small p =
      let sent : System lib = record s {
        connections = map (signalled lib) s.connections;
        caller = waiting;
      } in
      let same : selecting_next sent.connections ≡ selecting_next s.connections =
        total-signalled lib (λ c. about_to_select c.phase) (λ c. refl) s.connections in
      let (i, ds, e) = selector sent.connections (omega (arith, same)) s.is_shutting_down in
      let t : System lib = record sent { connections = ds } in
      let acted : Acted lib s.is_shutting_down select_enter sent.connections ds false =
        Acted-act_at lib i s.is_shutting_down select_enter sent.connections ds false e in
      let slept = select-asleep s.is_shutting_down acted.from acted.to false acted.acts in
      let some_sleeper : 0 < sleepers ds = omega (arith, acted.sums is_asleep, slept.0, slept.1) in
      (
        t,
        next {t = sent} {u = t} (on_connection i select_enter)
            (next {t = s} {u = sent} send_signal here (rw c refl) small) (rw e refl) small,
        refl,
        λ u q. let (w, more) = Quiet-sleepers {s = t} refl q in (w, omega arith),
      )
