-- ===== src/Extensions.antt =====
-- zel_core/src/protocol/extensions.rs: values kept by their type. A `TypeId` is a number, and an
-- `Arc<dyn Any>` is a value beside the identity of its type, which `downcast` compares.
use mathlib.Core.Option
use zel.Prelude.{
  ℕ, ◌≡◌, refl, ap, ◌∙◌, Option, none, some, List, [], ◌∷◌, Bool, true, false, arith, HashMap,
  lookup, insert, nat_key, nat_beq, lookup-insert, if◌then◌else◌, Bool-cases, Option-cases, inl,
  inr,
}

abbrev pub is_some {ℓ} : {A : Type ℓ} → Option A → Bool
is_some none = false
is_some (some a) = true

pub record Any (V : Type 0) : Type 0 where
  pub type_id : ℕ
  pub value : V

pub record Extensions (V : Type 0) : Type 0 where
  pub entries : HashMap ℕ (Any V)

module _ {V : Type 0} where
  unfoldable pub new : Extensions V
  new = record { entries = [] }

  -- `with::<T>(value)`
  unfoldable pub with_value : ℕ → V → Extensions V → Extensions V
  with_value t v x = record { entries = insert t (record { type_id = t; value = v }) x.entries }

  unfoldable pub downcast : ℕ → Any V → Option V
  downcast t a = if nat_beq a.type_id t then some a.value else none

  unfoldable pub get : ℕ → Extensions V → Option V
  unfolding downcast
  get t x = Option.bind (lookup t x.entries) (downcast t)

  unfoldable pub contains : ℕ → Extensions V → Bool
  contains t x = is_some (lookup t x.entries)

  unfoldable pub get_or_else : ℕ → V → Extensions V → V
  get_or_else t d x = Option.get_or (get t x) d

  -- Every value is kept under the identity of its own type.
  abbrev pub WellTyped : Extensions V → Type 0
  WellTyped x = (t : ℕ) → (a : Any V) → lookup t x.entries ≡ some a → a.type_id ≡ t

  new-WellTyped : WellTyped new
  unfolding new lookup
  new-WellTyped t a h = absurd (cc)

  with_value-WellTyped :
      (t : ℕ) (v : V) (x : Extensions V) → WellTyped x → WellTyped (with_value t v x)
  unfolding with_value
  with_value-WellTyped t v x w k a h =
      ground (arith, w k a, lookup-insert t k (record { type_id = t; value = v }) x.entries)

  -- A value put under its type is what that type then finds, and every other type finds what it
  -- found before.
  pub get-with_value :
      (t k : ℕ) (v : V) (x : Extensions V)
      → get k (with_value t v x) ≡ (if nat_beq t k then some v else get k x)
  unfolding get with_value Option.bind
  get-with_value t k v x = rw lookup-insert (elim (Bool-cases (nat_beq t k)) [
    | inl same ↦ rw (same, downcast) (rw same refl)
    | inr other ↦ rw other refl
  ])

  -- `with` called for each of the values in turn.
  unfoldable pub with_all : List (ℕ × V) → Extensions V → Extensions V
  with_all [] x = x
  with_all ((t, v) ∷ rest) x = with_all rest (with_value t v x)

  with_all-WellTyped :
      (kvs : List (ℕ × V)) (x : Extensions V) → WellTyped x → WellTyped (with_all kvs x)
  unfolding with_all
  with_all-WellTyped [] x w = w
  with_all-WellTyped ((t, v) ∷ rest) x w =
      with_all-WellTyped rest (with_value t v x) (with_value-WellTyped t v x w)

  contains-get : (t : ℕ) (x : Extensions V) → WellTyped x → contains t x ≡ is_some (get t x)
  unfolding contains get Option.bind
  contains-get t x w = elim (Option-cases (lookup t x.entries)) [
    | inl e ↦ rw e refl
    | inr (a, e) ↦ rw e (ground (arith, w t a e))
  ]

  -- Whatever values were put in, in whatever order, a type is reported as present exactly when a
  -- value of it can be read back: no entry is of another type than the one it is kept under.
  pub contains-with_all :
      (kvs : List (ℕ × V)) (t : ℕ)
      → contains t (with_all kvs new) ≡ is_some (get t (with_all kvs new))
  contains-with_all kvs t = contains-get t _ (with_all-WellTyped kvs new new-WellTyped)

  -- The value that was put in last for a type, if any was.
  pub last_for : ℕ → Option V → List (ℕ × V) → Option V
  last_for t found [] = found
  last_for t found ((k, v) ∷ rest) = last_for t (if nat_beq k t then some v else found) rest

  get-with_all_from :
      (kvs : List (ℕ × V)) (t : ℕ) (x : Extensions V)
      → get t (with_all kvs x) ≡ last_for t (get t x) kvs
  unfolding with_all last_for
  get-with_all_from [] t x = refl
  get-with_all_from ((k, v) ∷ rest) t x =
      get-with_all_from rest t (with_value k v x)
      ∙ ap (λ o. last_for t o rest) (get-with_value k t v x)

  -- A type reads back the value that was put in last for it, and nothing if none was.
  pub get-with_all : (kvs : List (ℕ × V)) (t : ℕ) → get t (with_all kvs new) ≡ last_for t none kvs
  unfolding get new lookup Option.bind
  get-with_all kvs t = get-with_all_from kvs t new
