-- ===== src/Shutdown/Connections/Runs.antt =====
-- How many steps the accept loops make once a shutdown has begun.
use zel.Prelude.{
  ℕ, ◌+◌, ◌*◌, ◌≤◌, ◌≡◌, ◌∙◌, Bool, true, false, some, List, [], ◌∷◌, length, arith, map,
}
use zel.Shutdown.{NotifyLib}
use zel.Shutdown.Connections.{
  Phase, entering, selecting, arrived, stopped, admitting, Act, Connection, connected, signalled,
  act, System, Step, connect, on_connection, end_handler, end_streaming, notify_completion,
  raise_flag, send_signal, wait_for_completion, expire, step,
}
use zel.Shutdown.Connections.Admissions.{total, total-append, OnConnection, step-OnConnection}

-- Neither a loop's step nor a new connection.
abbrev pub is_other : Step → Bool
is_other connect = false
is_other (on_connection i a) = false
is_other _ = true

module _ (lib : NotifyLib) where
  -- The acts that a loop has left, with the flag up.
  abbrev pub left : Phase → ℕ
  left admitting = 4
  left entering = 3
  left selecting = 2
  left (arrived is_stream) = 1
  left stopped = 0

  abbrev pub all_left : List (Connection lib) → ℕ
  all_left = total lib (λ c. left c.phase)

  -- Steps in any order, with the number of those that are a loop's and of those that make a
  -- connection.
  pub data Run (s : System lib) : (acts connects : ℕ) → System lib → Type 0 where
    start : Run s 0 0 s
    by_loop :
        {acts connects : ℕ} {t u : System lib} (i : ℕ) (a : Act)
        → Run s acts connects t
        → step lib (on_connection i a) t ≡ some u
        → Run s (acts + 1) connects u
    by_connect :
        {acts connects : ℕ} {t u : System lib}
        → Run s acts connects t
        → step lib connect t ≡ some u
        → Run s acts (connects + 1) u
    by_other :
        {acts connects : ℕ} {t u : System lib} (m : Step)
        → is_other m ≡ true
        → Run s acts connects t
        → step lib m t ≡ some u
        → Run s acts connects u

  pub act-left :
      (a : Act) (c d : Connection lib) (b : Bool)
      → act lib true a c ≡ some (d, b)
      → left d.phase + 1 ≤ left c.phase
  unfolding act
  act-left a c d b h = ground arith

  pub total-signalled_bound :
      (f g : Connection lib → ℕ)
      → ((c : Connection lib) → f (signalled lib c) ≤ g c)
      → (cs : List (Connection lib)) → total lib f (map (signalled lib) cs) ≤ total lib g cs
  total-signalled_bound f g e [] = omega arith
  total-signalled_bound f g e (c ∷ cs) = omega (arith, e c, total-signalled_bound f g e cs)

  -- No loop has moved: at most, the signal was sent.
  pub data Unmoved (s u : System lib) : Type 0 where
    same : u.connections ≡ s.connections → Unmoved s u
    notified : u.connections ≡ map (signalled lib) s.connections → Unmoved s u

  other-Unmoved :
      (m : Step) (s u : System lib) → is_other m ≡ true → step lib m s ≡ some u → Unmoved s u
  unfolding step
  other-Unmoved connect s u k h = absurd (cc)
  other-Unmoved (on_connection i a) s u k h = absurd (cc)
  other-Unmoved (end_handler true) s u k h = same (ground arith)
  other-Unmoved (end_handler false) s u k h = same (ground arith)
  other-Unmoved end_streaming s u k h = same (ground arith)
  other-Unmoved notify_completion s u k h = same (ground arith)
  other-Unmoved raise_flag s u k h = same (ground arith)
  other-Unmoved send_signal s u k h = notified (ground arith)
  other-Unmoved wait_for_completion s u k h = same (ground arith)
  other-Unmoved expire s u k h = same (ground arith)

  pub total-other :
      (f : Connection lib → ℕ)
      → ((c : Connection lib) → f (signalled lib c) ≤ f c)
      → (m : Step) (s u : System lib) → is_other m ≡ true
      → step lib m s ≡ some u
      → total lib f u.connections ≤ total lib f s.connections
  total-other f e m s u k h = elim (other-Unmoved m s u k h) [
    | same q ↦ rw q (omega arith)
    | notified q ↦ rw q (total-signalled_bound f f e s.connections)
  ]

  pub total-connect :
      (f : Connection lib → ℕ) (s u : System lib)
      → step lib connect s ≡ some u
      → (u.is_shutting_down ≡ s.is_shutting_down)
        × (total lib f u.connections ≡ total lib f s.connections + f (connected lib))
  unfolding step
  total-connect f s u h = ground (arith, total-append lib f s.connections (connected lib ∷ []))

  -- The flag stays up.
  flag-other :
      (m : Step) (s u : System lib)
      → s.is_shutting_down ≡ true
      → is_other m ≡ true
      → step lib m s ≡ some u
      → u.is_shutting_down ≡ true
  unfolding step
  flag-other connect s u f k h = absurd (cc)
  flag-other (on_connection i a) s u f k h = absurd (cc)
  flag-other (end_handler true) s u f k h = ground arith
  flag-other (end_handler false) s u f k h = ground arith
  flag-other end_streaming s u f k h = ground arith
  flag-other notify_completion s u f k h = ground arith
  flag-other raise_flag s u f k h = ground arith
  flag-other send_signal s u f k h = ground arith
  flag-other wait_for_completion s u f k h = ground arith
  flag-other expire s u f k h = ground arith

  pub Run-flag :
      {s t : System lib} {acts connects : ℕ}
      → s.is_shutting_down ≡ true
      → Run s acts connects t
      → t.is_shutting_down ≡ true
  Run-flag f start = f
  Run-flag f (by_loop {t = t} {u = u} i a r e) =
      let o : OnConnection lib t u a = step-OnConnection lib i a t u e in o.same_flag ∙ Run-flag f r
  Run-flag f (by_connect {t = t} {u = u} r e) = (total-connect (λ c. 0) t u e).0 ∙ Run-flag f r
  Run-flag f (by_other {t = t} {u = u} m k r e) = flag-other m t u (Run-flag f r) k e

  Run-left :
      {s t : System lib} {acts connects : ℕ}
      → s.is_shutting_down ≡ true
      → Run s acts connects t
      → acts + all_left t.connections ≤ all_left s.connections + 3 * connects
  Run-left f start = omega arith
  Run-left f (by_loop {t = t} {u = u} i a r e) =
      let o : OnConnection lib t u a = step-OnConnection lib i a t u e in
      omega (
        arith,
        Run-left f r,
        o.acted.sums (λ c. left c.phase),
        act-left a o.acted.from o.acted.to o.spawns (rw (← Run-flag f r) o.acted.acts),
      )
  Run-left f (by_connect {t = t} {u = u} r e) =
      omega (arith, Run-left f r, (total-connect (λ c. left c.phase) t u e).1)
  Run-left f (by_other {t = t} {u = u} m k r e) =
      omega (arith, Run-left f r, total-other (λ c. left c.phase) (λ c. omega arith) m t u k e)

  left_bound : (p : Phase) → left p ≤ 4
  left_bound entering = omega arith
  left_bound selecting = omega arith
  left_bound (arrived r) = omega arith
  left_bound admitting = omega arith
  left_bound stopped = omega arith

  all_left_bound : (cs : List (Connection lib)) → all_left cs ≤ 4 * length cs
  all_left_bound [] = omega arith
  all_left_bound (c ∷ cs) = omega (arith, left_bound c.phase, all_left_bound cs)

  -- Once the shutdown flag is up, whatever streams, errors and signals reach the loops and whatever
  -- else happens in between, they make at most four steps for each connection that there was, and
  -- three for each that is made later.
  pub acts_bound :
      {s t : System lib} {acts connects : ℕ}
      → s.is_shutting_down ≡ true
      → Run s acts connects t
      → acts ≤ 4 * length s.connections + 3 * connects
  acts_bound {s} f r = omega (arith, Run-left f r, all_left_bound s.connections)
