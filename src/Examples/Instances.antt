-- ===== src/Examples/Instances.antt =====
-- Small concrete instances of the interfaces to other crates.
use zel.Prelude.{
  ℕ, zero, suc, ◌≡◌, refl, ap, Bool, true, false, ◌||◌, Option, none, some, Result, ok, err,
  map_err, is_ok, List, [], ◌∷◌, leb, length, if◌then◌else◌, arith, string_key, nat_key,
}
use zel.Platform.{Platform}
use zel.Floats.{Floats}
use zel.Breaker.Config.{ServiceError}
use zel.Breaker.Library.{State, BreakerError, Refusal, refused, BreakerLib}
use zel.Retry.Backon.{Backon}
use zel.Shutdown.{NotifyLib}

abbrev pub platform : Platform
platform = record {
  Connection = ℕ;
  Endpoint = Unit;
  Notify = Unit;
  Value = ℕ;
  remote_id = λ c. c;
  show_key = λ k. "a peer";
}

-- Halves, and a value that is no number.
abbrev at_most : Option ℕ → Option ℕ → Bool
at_most (some a) (some b) = leb a b
at_most _ _ = false

abbrev clamp : Option ℕ → Option ℕ → Option ℕ → Option ℕ
clamp x low high = if at_most x low then low else if at_most high x then high else x

pub clamp_in_bounds :
    (x : Option ℕ)
    → at_most x x ≡ true
    → (at_most (some 0) (clamp x (some 0) (some 2)) ≡ true)
      × (at_most (clamp x (some 0) (some 2)) (some 2) ≡ true)
clamp_in_bounds none h = ground arith
clamp_in_bounds (some n) h = ground arith

pub nan_at_most : (x y : Option ℕ) → at_most x x ≡ false → at_most x y ≡ false
nan_at_most none none h = refl
nan_at_most none (some y) h = refl
nan_at_most (some x) none h = refl
nan_at_most (some x) (some y) h = ground arith

abbrev pub floats : Floats
floats = record {
  Float = Option ℕ;
  le = at_most;
  zero = some 0;
  half = some 1;
  one = some 2;
  two = some 4;
  clamp = clamp;
  clamp_bounds = clamp_in_bounds;
  half_bounds = (refl, refl);
  two_gt_one = refl;
  nan_le = nan_at_most;
}

-- A breaker that counts failures in a row, and refuses calls after two.
abbrev refusal : ℕ → Option Refusal
refusal b = if leb 2 b then some Refusal.opened else none

abbrev settle : Bool → ℕ → ℕ
settle true b = 0
settle false b = suc b

abbrev guarded :
    {T : Type 0} → Option Refusal → ℕ → Result T ServiceError → Result T BreakerError × ℕ
guarded none b r = (map_err BreakerError.operation r, settle (is_ok r) b)
guarded (some x) b r = (err (refused x), b)

abbrev pub breakers : {F : Type 0} → BreakerLib F
breakers = record {
  Breaker = ℕ;
  build = λ _. 0;
  current_state = λ b. if leb 2 b then State.opened else State.closed;
  call_async = λ now b r. guarded (refusal b) b r;
  refusal = λ now b. refusal b;
  settle = λ now s b. settle s b;
  reject = λ now b. b;
  call_admitted = λ now b r h. ap (λ o. guarded o b r) h;
  call_refused = λ now b r h. ap (λ o. guarded o b r) h;
}

abbrev repeated : ℕ → ℕ → List ℕ
repeated zero d = []
repeated (suc n) d = d ∷ repeated n d

pub length-repeated : (n d : ℕ) → length (repeated n d) ≡ n
length-repeated zero d = refl
length-repeated (suc n) d = ap suc (length-repeated n d)

module _ {S A E : Type 0} (op : S → Result A E × S) (when : E → Bool) where
  abbrev go_on : (S → Result A E × S) → Result A E × S → Result A E × S
  go_on rest (ok a, t) = (ok a, t)
  go_on rest (err e, t) = if when e then rest t else (err e, t)

  abbrev retry : List ℕ → S → Result A E × S
  retry [] s = op s
  retry (d ∷ ds) s = go_on (retry ds) (op s)

abbrev pub backon : {F : Type 0} → Backon F
backon = record {
  delays = λ p. repeated p.max_times p.min_delay;
  retry = retry;
  length-delays = λ p. length-repeated p.max_times p.min_delay;
  retry_last = λ op when s. refl;
  retry_ok = λ op when d ds s t a h. ap (go_on op when (retry op when ds)) h;
  retry_stop = λ op when d ds s t e h n. rw (h, n) refl;
  retry_again = λ op when d ds s t e h n. rw (h, n) refl;
}

pub woken_stays : (n : Bool × Bool) → n.1 ≡ true → (n.0 || n.1) ≡ true
woken_stays n h = ground arith

pub registered_wakes : (n : Bool × Bool) → n.0 ≡ true → (n.0 || n.1) ≡ true
registered_wakes n h = ground arith

-- Whether the waiter is registered, and whether it is woken.
abbrev pub notify_lib : NotifyLib
notify_lib = record {
  Notify = Bool × Bool;
  fresh = (false, false);
  register = λ n. (true, false);
  notify_waiters = λ n. (n.0, n.0 || n.1);
  is_woken = λ n. n.1;
  is_registered = λ n. n.0;
  register_waits = λ n. refl;
  register_asleep = λ n. refl;
  notify_keeps = woken_stays;
  notify_wakes = registered_wakes;
}
