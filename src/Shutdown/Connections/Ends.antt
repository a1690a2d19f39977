-- ===== src/Shutdown/Connections/Ends.antt =====
-- The end of the accept loops in a shutdown: `connection_handler` after the flag and the signal.
use zel.Prelude.{
  subst, map, length, ◌*◌, ◌∙◌, ℕ, ◌+◌, ◌≤◌, ◌≡◌, refl, Bool, true, false, some, List, [], ◌∷◌,
  arith,
}
use zel.Shutdown.{NotifyLib}
use zel.Shutdown.Connections.{
  Phase, entering, selecting, admitting, Act, select_enter, accept_bi, load_flag, spawn_handler,
  take_signal, Connection, signalled, act, System, new, Step, connect, on_connection, end_handler,
  end_streaming, notify_completion, raise_flag, send_signal, wait_for_completion, expire, step,
  Reach, here, next,
}
use zel.Shutdown.Connections.Admissions.{total, OnConnection, step-OnConnection}
use zel.Shutdown.Connections.Settled.{
  running_now, IsSettled, AreSettled, is_staying, settled-bound, IsSettled-AreSettled,
}
use zel.Shutdown.Connections.Runs.{
  total-signalled_bound, acts_bound, Run, start, by_loop, by_connect, by_other, total-other,
  total-connect, Run-flag,
}

module _ (lib : NotifyLib) where
  abbrev outside : Phase → ℕ
  outside entering = 1
  outside admitting = 1
  outside _ = 0

  -- The loops that are about to enter their `select!`, or to spawn a handler.
  abbrev pub outside_now : List (Connection lib) → ℕ
  outside_now = total lib (λ c. outside c.phase)

  -- A loop that selects has registered for the signal, or has been woken.
  abbrev deaf : Phase → (is_registered is_woken : Bool) → ℕ
  deaf selecting false false = 1
  deaf _ _ _ = 0

  abbrev is_deaf : Connection lib → ℕ
  is_deaf c = deaf c.phase (lib.is_registered c.signal) (lib.is_woken c.signal)

  act-is_deaf :
      (flag : Bool) (a : Act) (c d : Connection lib) (b : Bool)
      → act lib flag a c ≡ some (d, b)
      → is_deaf d ≤ is_deaf c
  unfolding act
  act-is_deaf flag select_enter c d b h = ground (arith, lib.register_waits c.signal)
  act-is_deaf flag (accept_bi r) c d b h = ground arith
  act-is_deaf flag load_flag c d b h = ground arith
  act-is_deaf flag spawn_handler c d b h = ground arith
  act-is_deaf flag take_signal c d b h = ground arith

  signalled-is_deaf : (c : Connection lib) → is_deaf (signalled lib c) ≤ is_deaf c
  signalled-is_deaf c = ground (arith, lib.notify_keeps c.signal, lib.notify_wakes c.signal)

  act-is_staying :
      (a : Act) (c d : Connection lib) (b : Bool)
      → act lib true a c ≡ some (d, b)
      → is_staying lib d ≤ is_staying lib c
  unfolding act
  act-is_staying select_enter c d b h = ground arith
  act-is_staying (accept_bi r) c d b h = ground arith
  act-is_staying load_flag c d b h = ground arith
  act-is_staying spawn_handler c d b h = ground arith
  act-is_staying take_signal c d b h = ground arith

  signalled-is_staying : (c : Connection lib) → is_staying lib (signalled lib c) ≤ is_staying lib c
  signalled-is_staying c = ground (arith, lib.notify_keeps c.signal)

  -- The signal wakes every loop that selects.
  signalled-outside :
      (c : Connection lib) → is_staying lib (signalled lib c) ≤ outside c.phase + is_deaf c
  signalled-outside c = ground (arith, lib.notify_keeps c.signal, lib.notify_wakes c.signal)

  step-is_deaf :
      (m : Step) (s u : System lib)
      → step lib m s ≡ some u
      → total lib is_deaf u.connections ≤ total lib is_deaf s.connections
  step-is_deaf connect s u h = omega (arith, (total-connect lib is_deaf s u h).1)
  step-is_deaf (on_connection i a) s u h =
      let o : OnConnection lib s u a = step-OnConnection lib i a s u h in
      omega (
        arith,
        o.acted.sums is_deaf,
        act-is_deaf s.is_shutting_down a o.acted.from o.acted.to o.spawns o.acted.acts,
      )
  step-is_deaf (end_handler b) s u h =
      total-other lib is_deaf signalled-is_deaf (end_handler b) s u refl h
  step-is_deaf end_streaming s u h =
      total-other lib is_deaf signalled-is_deaf end_streaming s u refl h
  step-is_deaf notify_completion s u h =
      total-other lib is_deaf signalled-is_deaf notify_completion s u refl h
  step-is_deaf raise_flag s u h = total-other lib is_deaf signalled-is_deaf raise_flag s u refl h
  step-is_deaf send_signal s u h = total-other lib is_deaf signalled-is_deaf send_signal s u refl h
  step-is_deaf wait_for_completion s u h =
      total-other lib is_deaf signalled-is_deaf wait_for_completion s u refl h
  step-is_deaf expire s u h = total-other lib is_deaf signalled-is_deaf expire s u refl h

  Reach-is_deaf : {s : System lib} → Reach lib (new lib) s → total lib is_deaf s.connections ≡ 0
  Reach-is_deaf here = refl
  Reach-is_deaf (next {t = t} {u = u} m r e fits) =
      omega (arith, Reach-is_deaf r, step-is_deaf m t u e)

  Run-is_staying :
      {s t : System lib} {acts connects : ℕ}
      → s.is_shutting_down ≡ true
      → Run lib s acts connects t
      → total lib (is_staying lib) t.connections
        ≤ total lib (is_staying lib) s.connections + connects
  Run-is_staying f start = omega arith
  Run-is_staying f (by_loop {t = t} {u = u} i a r e) =
      let o : OnConnection lib t u a = step-OnConnection lib i a t u e in
      omega (
        arith,
        Run-is_staying f r,
        o.acted.sums (is_staying lib),
        act-is_staying a o.acted.from o.acted.to o.spawns (rw (← Run-flag lib f r) o.acted.acts),
      )
  Run-is_staying f (by_connect {t = t} {u = u} r e) =
      omega (arith, Run-is_staying f r, (total-connect lib (is_staying lib) t u e).1)
  Run-is_staying f (by_other {t = t} {u = u} m k r e) =
      omega
        (arith, Run-is_staying f r, total-other lib (is_staying lib) signalled-is_staying m t u k e)

  sent :
      (s u : System lib)
      → step lib send_signal s ≡ some u
      → (u.is_shutting_down ≡ s.is_shutting_down)
        × (u.connections ≡ map (signalled lib) s.connections)
  unfolding step
  sent s u h = ground arith

  length-signalled : (cs : List (Connection lib)) → length (map (signalled lib) cs) ≡ length cs
  length-signalled [] = refl
  length-signalled (c ∷ cs) = omega (arith, length-signalled cs)

  split :
      (cs : List (Connection lib))
      → total lib (λ c. outside c.phase + is_deaf c) cs ≡ outside_now cs + total lib is_deaf cs
  split [] = omega arith
  split (c ∷ cs) = omega (arith, split cs)

  -- The accept loops end: the signal is sent, with the flag up, in a state that the server can reach;
  -- after it come any steps in any order, until no loop has a step left but with a stream or an error
  -- from its peer. Then the loops that have not ended are at most as many as were about to enter their
  -- `select!` or to spawn a handler when the signal was sent, and as the connections made since: if
  -- there were none of these, all loops have ended. Since the signal, the loops have made at most four
  -- steps for each connection that there was, and three for each made since.
  pub loops_end :
      {s u t : System lib} {acts connects : ℕ}
      → Reach lib (new lib) s
      → s.is_shutting_down ≡ true
      → step lib send_signal s ≡ some u
      → Run lib u acts connects t
      → IsSettled lib t
      → (running_now lib t.connections ≤ outside_now s.connections + connects)
        × (acts ≤ 4 * length s.connections + 3 * connects)
  loops_end {s} {u} {t} {acts} {connects} reached f h r q =
      let (same, cs) = sent s u h in
      let up : u.is_shutting_down ≡ true = same ∙ f in
      let own = IsSettled-AreSettled lib t q in
      let heard : total lib (is_staying lib) u.connections ≤ outside_now s.connections = rw cs (
        omega (
          arith,
          total-signalled_bound lib (is_staying lib) (λ c. outside c.phase + is_deaf c)
              signalled-outside s.connections,
          split s.connections,
          Reach-is_deaf reached,
        )) in
      let bound =
        settled-bound lib t.connections
          (subst (λ up. AreSettled lib up t.connections) (Run-flag lib up r) own) in
      let steps : acts ≤ 4 * length s.connections + 3 * connects =
        rw (← length-signalled s.connections) (rw (← cs) (acts_bound lib up r)) in
      (omega (arith, heard, bound, Run-is_staying up r), steps)
