-- ===== src/Shutdown/Connections/Admissions.antt =====
-- How many handlers are started around a shutdown.
use zel.Prelude.{
  ℕ, zero, suc, ◌+◌, ◌≡◌, refl, sym, ap, ◌∙◌, Bool, true, false, Option, none, some, List, [], ◌∷◌,
  ◌++◌, map, arith, Option-cases, inl, inr, if◌then◌else◌,
}
use zel.Shutdown.{NotifyLib}
use zel.Shutdown.Tracker.{increment}
use zel.Shutdown.Connections.{
  Phase, admitting, Act, Connection, act, act_at, connected, signalled, first_changed, kept_first,
  by_connections, System, Step, connect, on_connection, end_handler, end_streaming,
  notify_completion, raise_flag, send_signal, wait_for_completion, expire, step, Reach, here, next,
}

module _ (lib : NotifyLib) where
  abbrev pub about_to : Phase → ℕ
  about_to admitting = 1
  about_to _ = 0

  abbrev pub total : (Connection lib → ℕ) → List (Connection lib) → ℕ
  total f [] = 0
  total f (c ∷ cs) = f c + total f cs

  -- The loops that have found the flag down and have yet to spawn a handler.
  abbrev pub admitting_now : List (Connection lib) → ℕ
  admitting_now = total (λ c. about_to c.phase)

  -- The handlers that the loops have spawned.
  abbrev pub started : List (Connection lib) → ℕ
  started = total (λ c. c.started)

  act-allowance :
      (a : Act) (c d : Connection lib) (b : Bool)
      → act lib true a c ≡ some (d, b)
      → d.started + about_to d.phase ≡ c.started + about_to c.phase
  unfolding act
  act-allowance a c d b h = ground arith

  pub act-started :
      (flag : Bool) (a : Act) (c d : Connection lib) (b : Bool)
      → act lib flag a c ≡ some (d, b)
      → d.started ≡ (if b then c.started + 1 else c.started)
  unfolding act
  act-started flag a c d b h = ground arith

  -- One connection has acted, and the sums change as its summands do.
  pub record Acted (flag : Bool) (a : Act) (cs ds : List (Connection lib)) (b : Bool) : Type 0 where
    pub from : Connection lib
    pub to : Connection lib
    pub acts : act lib flag a from ≡ some (to, b)
    pub sums : (f : Connection lib → ℕ) → total f ds + f from ≡ total f cs + f to

  acted_first :
      (flag : Bool) (a : Act) (c : Connection lib) (cs ds : List (Connection lib)) (b : Bool)
      (r : Option (Connection lib × Bool))
      → act lib flag a c ≡ r
      → first_changed lib cs r ≡ some (ds, b)
      → Acted flag a (c ∷ cs) ds b
  acted_first flag a c cs ds b none e h = absurd (cc h)
  acted_first flag a c cs ds b (some (d, b')) e h =
      let same_list : d ∷ cs ≡ ds = cc h in
      let same_flag : b' ≡ b = cc h in
      record {
        from = c;
        to = d;
        acts = rw (← same_flag) e;
        sums = λ f. rw (← same_list) (omega arith);
      }

  pub Acted-act_at :
      (i : ℕ) (flag : Bool) (a : Act) (cs ds : List (Connection lib)) (b : Bool)
      → act_at lib i flag a cs ≡ some (ds, b)
      → Acted flag a cs ds b
  unfolding act_at
  Acted-act_at i flag a [] ds b h = absurd (cc h)
  Acted-act_at zero flag a (c ∷ cs) ds b h = acted_first flag a c cs ds b _ refl h
  Acted-act_at (suc i) flag a (c ∷ cs) ds b h = elim (Option-cases (act_at lib i flag a cs)) [
    | inl e ↦ absurd (cc (sym (ap (kept_first lib c) e) ∙ h))
    | inr ((es, b'), e) ↦
        let k : ◌≡◌ {A = Option (List (Connection lib) × Bool)} (some (c ∷ es, b')) (some (ds, b)) =
          sym (ap (kept_first lib c) e) ∙ h in
        let same_list : c ∷ es ≡ ds = cc k in
        let same_flag : b' ≡ b = cc k in
        let rest : Acted flag a cs es b' = Acted-act_at i flag a cs es b' e in
        record {
          from = rest.from;
          to = rest.to;
          acts = rw (← same_flag) rest.acts;
          sums = λ f. rw (← same_list) (omega (arith, rest.sums f));
        }
  ]

  pub total-append :
      (f : Connection lib → ℕ) (cs ds : List (Connection lib))
      → total f (cs ++ ds) ≡ total f cs + total f ds
  total-append f [] ds = omega arith
  total-append f (c ∷ cs) ds = omega (arith, total-append f cs ds)

  pub total-signalled :
      (f : Connection lib → ℕ)
      → ((c : Connection lib) → f (signalled lib c) ≡ f c)
      → (cs : List (Connection lib)) → total f (map (signalled lib) cs) ≡ total f cs
  total-signalled f e [] = refl
  total-signalled f e (c ∷ cs) = omega (arith, e c, total-signalled f e cs)

  -- A step of the system that is one of a connection.
  pub record OnConnection (s u : System lib) (a : Act) : Type 0 where
    pub spawns : Bool
    pub acted : Acted s.is_shutting_down a s.connections u.connections spawns
    pub same_flag : u.is_shutting_down ≡ s.is_shutting_down
    pub same_caller : u.caller ≡ s.caller
    pub counted : u.task_tracker ≡ (if spawns then increment lib s.task_tracker else s.task_tracker)

  pub step-OnConnection :
      (i : ℕ) (a : Act) (s u : System lib)
      → step lib (on_connection i a) s ≡ some u
      → OnConnection s u a
  unfolding step
  step-OnConnection i a s u h =
      elim (Option-cases (act_at lib i s.is_shutting_down a s.connections)) [
        | inl e ↦ absurd (cc (sym (ap (by_connections lib s) e) ∙ h))
        | inr ((ds, b), e) ↦
            let made : System lib = record s {
              connections = ds;
              task_tracker = if b then increment lib s.task_tracker else s.task_tracker;
            } in
            let k : some made ≡ some u = sym (ap (by_connections lib s) e) ∙ h in
            let same : made ≡ u = cc k in
            rw (← same) (record {
              spawns = b;
              acted = Acted-act_at i s.is_shutting_down a s.connections ds b e;
              same_flag = refl;
              same_caller = refl;
              counted = refl;
            })
      ]

  abbrev pub allowance : System lib → ℕ
  allowance s = started s.connections + admitting_now s.connections

  -- With the flag up, no step lets a stream through.
  step-allowance :
      (m : Step) (s u : System lib)
      → s.is_shutting_down ≡ true
      → step lib m s ≡ some u
      → (u.is_shutting_down ≡ true) × (allowance u ≡ allowance s)
  unfolding step
  step-allowance connect s u f h = ground (
    arith,
    total-append (λ (c : Connection lib). c.started) s.connections (connected lib ∷ []),
    total-append (λ (c : Connection lib). about_to c.phase) s.connections (connected lib ∷ []),
  )
  step-allowance (on_connection i a) s u f h =
      let o : OnConnection s u a = step-OnConnection i a s u h in
      (
        o.same_flag ∙ f,
        omega (
          arith,
          o.acted.sums (λ c. c.started),
          o.acted.sums (λ c. about_to c.phase),
          act-allowance a o.acted.from o.acted.to o.spawns (rw (← f) o.acted.acts),
        ),
      )
  step-allowance (end_handler true) s u f h = ground arith
  step-allowance (end_handler false) s u f h = ground arith
  step-allowance end_streaming s u f h = ground arith
  step-allowance notify_completion s u f h = ground arith
  step-allowance raise_flag s u f h = ground arith
  step-allowance send_signal s u f h = ground (
    arith,
    total-signalled (λ (c : Connection lib). c.started) (λ c. refl) s.connections,
    total-signalled (λ (c : Connection lib). about_to c.phase) (λ c. refl) s.connections,
  )
  step-allowance wait_for_completion s u f h = ground arith
  step-allowance expire s u f h = ground arith

  -- Once the shutdown flag is up, and stays up, no stream that arrives is let through any more: in
  -- every order of steps, the handlers that the loops of all connections have spawned, with those of
  -- the loops that had found the flag down and have yet to spawn, keep their number, also when more
  -- connections are made.
  pub after_flag :
      {s t : System lib}
      → s.is_shutting_down ≡ true
      → Reach lib s t
      → (t.is_shutting_down ≡ true)
        × (started t.connections + admitting_now t.connections
            ≡ started s.connections + admitting_now s.connections)
  after_flag f here = (f, refl)
  after_flag {s} {t} f (next {t = t'} m r e _) =
      let (f', same) = after_flag f r in
      let (f'', same') = step-allowance m t' t f' e in (f'', same' ∙ same)
