-- ===== src/Shutdown/Connections/Settled.antt =====
-- When the accept loops of `connection_handler` have nothing left to do but to wait for their peers.
use zel.Prelude.{
  ℕ, suc, ◌≤◌, ◌≡◌, refl, Bool, true, false, Option, none, some, List, [], ◌∷◌, arith,
}
use zel.Shutdown.{NotifyLib}
use zel.Shutdown.Connections.{
  Phase, entering, selecting, arrived, stopped, admitting, Act, accept_bi, load_flag, take_signal,
  Connection, act_in, act, first_changed, kept_first, act_at, by_connections, System, on_connection,
  step,
}
use zel.Shutdown.Connections.Admissions.{total}

-- An act that waits for nothing from the peer.
abbrev pub is_own : Act → Bool
is_own (accept_bi is_stream) = false
is_own _ = true

module _ (lib : NotifyLib) where
  abbrev pub running : Phase → ℕ
  running stopped = 0
  running _ = 1

  -- The loops that have not ended.
  abbrev pub running_now : List (Connection lib) → ℕ
  running_now = total lib (λ c. running c.phase)

  -- No loop has a step left but with a stream or an error from its peer.
  abbrev pub IsSettled : System lib → Type 0
  IsSettled t = (i : ℕ) (a : Act) → is_own a ≡ true → step lib (on_connection i a) t ≡ none

  -- The loops that the signal has not reached yet, or will not reach.
  abbrev pub stays : Phase → (is_woken : Bool) → ℕ
  stays entering w = 1
  stays admitting w = 1
  stays selecting false = 1
  stays _ _ = 0

  abbrev pub is_staying : Connection lib → ℕ
  is_staying c = stays c.phase (lib.is_woken c.signal)

  -- The connections of a state where no loop has a step of its own left.
  abbrev pub AreSettled : Bool → List (Connection lib) → Type 0
  AreSettled flag cs = (i : ℕ) (a : Act) → is_own a ≡ true → act_at lib i flag a cs ≡ none

  of_none :
      {A B : Type 0} (f : Option A → Option B) (x : Option A)
      → ((y : A) → (b : B) × (f (some y) ≡ some b))
      → f x ≡ none
      → x ≡ none
  of_none f none total h = refl
  of_none f (some y) total h = let (b, e) = total y in absurd (cc)

  settled-first :
      (flag : Bool) (c : Connection lib) (cs : List (Connection lib))
      → AreSettled flag (c ∷ cs)
      → (a : Act) → is_own a ≡ true
      → act lib flag a c ≡ none
  unfolding act_at
  settled-first flag c cs q a k =
      of_none (first_changed lib cs) _ (λ (d, b). ((d ∷ cs, b), refl)) (q 0 a k)

  settled-rest :
      (flag : Bool) (c : Connection lib) (cs : List (Connection lib))
      → AreSettled flag (c ∷ cs)
      → AreSettled flag cs
  unfolding act_at
  settled-rest flag c cs q =
      λ i a k. of_none (kept_first lib c) _ (λ (ds, b). ((c ∷ ds, b), refl)) (q (suc i) a k)

  settled-running :
      (p : Phase) (c : Connection lib)
      → ((a : Act) → is_own a ≡ true → act_in lib p true a c ≡ none)
      → running p ≤ stays p (lib.is_woken c.signal)
  unfolding act_in
  settled-running entering c q = omega arith
  settled-running admitting c q = omega arith
  settled-running stopped c q = omega arith
  settled-running (arrived r) c q = absurd (cc (q load_flag refl))
  settled-running selecting c q = let last = q take_signal refl in ground arith

  pub settled-bound :
      (cs : List (Connection lib)) → AreSettled true cs → running_now cs ≤ total lib is_staying cs
  unfolding act
  settled-bound [] q = omega arith
  settled-bound (c ∷ cs) q = omega (
    arith,
    settled-running c.phase c (settled-first true c cs q),
    settled-bound cs (settled-rest true c cs q),
  )

  pub IsSettled-AreSettled :
      (t : System lib) → IsSettled t → AreSettled t.is_shutting_down t.connections
  unfolding step
  IsSettled-AreSettled t q =
      λ i a k. of_none (by_connections lib t) _ (λ (ds, b). (_, refl)) (q i a k)
