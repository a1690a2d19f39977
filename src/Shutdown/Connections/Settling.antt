-- ===== src/Shutdown/Connections/Settling.antt =====
-- The next step of an accept loop of `connection_handler` that waits for nothing from its peer.
use zel.Prelude.{
  ℕ, zero, suc, ◌+◌, ◌≤◌, ◌≡◌, refl, ap, ◌∙◌, Bool, true, false, Bool-cases, inl, inr, none, some,
  List, [], ◌∷◌, arith,
}
use zel.Shutdown.{NotifyLib}
use zel.Shutdown.Connections.{
  Phase, entering, selecting, arrived, stopped, admitting, Act, select_enter, accept_bi, load_flag,
  spawn_handler, take_signal, Connection, act, first_changed, kept_first, act_at, by_connections,
  System, on_connection, step,
}
use zel.Shutdown.Connections.Admissions.{OnConnection, step-OnConnection}
use zel.Shutdown.Connections.Settled.{is_own, AreSettled, IsSettled}
use zel.Shutdown.Connections.Runs.{Run, by_loop, left, all_left, act-left, Run-flag}

module _ (lib : NotifyLib) where
  data Next (c : Connection lib) : Type 0 where
    goes : (a : Act) (d : Connection lib) (b : Bool) → act lib true a c ≡ some (d, b) → Next c
    rests : ((a : Act) → is_own a ≡ true → act lib true a c ≡ none) → Next c

  stopped-rests : (c : Connection lib) → c.phase ≡ stopped → (a : Act) → act lib true a c ≡ none
  unfolding act
  stopped-rests c e a = rw e refl

  asleep-rests :
      (c : Connection lib)
      → c.phase ≡ selecting
      → lib.is_woken c.signal ≡ false
      → (a : Act) → is_own a ≡ true
      → act lib true a c ≡ none
  unfolding act
  asleep-rests c e w select_enter k = rw e refl
  asleep-rests c e w (accept_bi r) k = absurd (cc)
  asleep-rests c e w load_flag k = rw e refl
  asleep-rests c e w spawn_handler k = rw e refl
  asleep-rests c e w take_signal k = rw (e, w) refl

  Next-of : (p : Phase) (c : Connection lib) → c.phase ≡ p → Next c
  unfolding act
  Next-of entering c e =
      goes select_enter (record c { phase = selecting; signal = lib.register c.signal }) false
        (rw e refl)
  Next-of (arrived r) c e = goes load_flag (record c { phase = stopped }) false (rw e refl)
  Next-of admitting c e =
      goes spawn_handler (record c { phase = entering; started = c.started + 1 }) true (rw e refl)
  Next-of stopped c e = rests (λ a k. stopped-rests c e a)
  Next-of selecting c e = elim (Bool-cases (lib.is_woken c.signal)) [
    | inl w ↦ goes take_signal (record c { phase = stopped }) false (rw (e, w) refl)
    | inr w ↦ rests (asleep-rests c e w)
  ]

  data NextIn (cs : List (Connection lib)) : Type 0 where
    goes_at :
        (i : ℕ) (a : Act) (ds : List (Connection lib)) (b : Bool)
        → act_at lib i true a cs ≡ some (ds, b)
        → NextIn cs
    all_rest : AreSettled lib true cs → NextIn cs

  both_rest :
      (c : Connection lib) (cs : List (Connection lib))
      → ((a : Act) → is_own a ≡ true → act lib true a c ≡ none)
      → AreSettled lib true cs
      → AreSettled lib true (c ∷ cs)
  unfolding act_at
  both_rest c cs h q zero a k = ap (first_changed lib cs) (h a k)
  both_rest c cs h q (suc i) a k = ap (kept_first lib c) (q i a k)

  NextIn-of : (cs : List (Connection lib)) → NextIn cs
  unfolding act_at
  NextIn-of [] = all_rest (λ i a k. refl)
  NextIn-of (c ∷ cs) = elim (Next-of c.phase c refl) [
    | goes a d b e ↦ goes_at 0 a (d ∷ cs) b (ap (first_changed lib cs) e)
    | rests h ↦ elim (NextIn-of cs) [
      | goes_at i a ds b e ↦ goes_at (suc i) a (c ∷ ds) b (ap (kept_first lib c) e)
      | all_rest q ↦ all_rest (both_rest c cs h q)
    ]
  ]

  IsSettled-of_AreSettled :
      (t : System lib)
      → t.is_shutting_down ≡ true
      → AreSettled lib true t.connections
      → IsSettled lib t
  unfolding step
  IsSettled-of_AreSettled t f q = λ i a k.
      ap (λ flag. by_connections lib t (act_at lib i flag a t.connections)) f
      ∙ ap (by_connections lib t) (q i a k)

  step-at :
      (t : System lib) (i : ℕ) (a : Act) (ds : List (Connection lib)) (b : Bool)
      → t.is_shutting_down ≡ true
      → act_at lib i true a t.connections ≡ some (ds, b)
      → (u : System lib) × (step lib (on_connection i a) t ≡ some u)
  unfolding step
  step-at t i a ds b f e = (
    _,
    ap (λ flag. by_connections lib t (act_at lib i flag a t.connections)) f
        ∙ ap (by_connections lib t) e,
  )

  -- A step of a loop takes away from what is left.
  less_left :
      (t u : System lib) (i : ℕ) (a : Act)
      → t.is_shutting_down ≡ true
      → step lib (on_connection i a) t ≡ some u
      → all_left lib u.connections + 1 ≤ all_left lib t.connections
  less_left t u i a f e =
      let o : OnConnection lib t u a = step-OnConnection lib i a t u e in
      omega (
        arith,
        o.acted.sums (λ c. left lib c.phase),
        act-left lib a o.acted.from o.acted.to o.spawns (rw (← f) o.acted.acts),
      )

  settles_within :
      (fuel : ℕ) {s t : System lib} {acts connects : ℕ}
      → s.is_shutting_down ≡ true
      → Run lib s acts connects t
      → all_left lib t.connections ≤ fuel
      → (v : System lib) × (more : ℕ) × Run lib s more connects v × IsSettled lib v
  settles_within zero {t = t} {acts = acts} f r h = elim (NextIn-of t.connections) [
    | all_rest q ↦ (t, acts, r, IsSettled-of_AreSettled t (Run-flag lib f r) q)
    | goes_at i a ds b e ↦
        let (u, g) = step-at t i a ds b (Run-flag lib f r) e in
        absurd (omega (arith, less_left t u i a (Run-flag lib f r) g, h))
  ]
  settles_within (suc fuel) {t = t} {acts = acts} f r h = elim (NextIn-of t.connections) [
    | all_rest q ↦ (t, acts, r, IsSettled-of_AreSettled t (Run-flag lib f r) q)
    | goes_at i a ds b e ↦
        let (u, g) = step-at t i a ds b (Run-flag lib f r) e in
        settles_within fuel f (by_loop {t = t} {u = u} i a r g)
          (omega (arith, less_left t u i a (Run-flag lib f r) g, h))
  ]

  -- With the flag up, whatever steps were made, the loops can go on by themselves, with no new
  -- connection, to a state where none has a step of its own left.
  loops_settle :
      {s t : System lib} {acts connects : ℕ}
      → s.is_shutting_down ≡ true
      → Run lib s acts connects t
      → (v : System lib) × (more : ℕ) × Run lib s more connects v × IsSettled lib v
  loops_settle {t = t} f r = settles_within (all_left lib t.connections) f r (omega arith)
