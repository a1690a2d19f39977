-- ===== src/Prelude/Lists.antt =====
-- Lists measured by native numbers, and hash maps as association lists.
use Prim.Native.Nat.{ℕ, suc, ◌+◌}
use mathlib.Core.Path.{◌≡◌, refl}
use mathlib.Core.Bool.{Bool, false, ◌||◌}
use mathlib.Core.Option.{Option, none, some}
use mathlib.Core.List.{List, [], ◌∷◌, ◌++◌}
use native.Mathlib.Omega.{arith}
use zel.Prelude.Tests.{Key, ◌==◌, if◌then◌else◌, beq_self}

module _ {ℓ} {A : Type ℓ} where
  abbrev pub length : List A → ℕ
  length [] = 0
  length (x ∷ xs) = suc (length xs)

  abbrev pub any : (A → Bool) → List A → Bool
  any p [] = false
  any p (x ∷ xs) = p x || any p xs

  abbrev pub count : (A → Bool) → List A → ℕ
  count p [] = 0
  count p (x ∷ xs) = if p x then suc (count p xs) else count p xs

  pub length-append : (xs ys : List A) → length (xs ++ ys) ≡ length xs + length ys
  length-append [] ys = omega arith
  length-append (x ∷ xs) ys = omega (arith, length-append xs ys)

  pub count-append : (p : A → Bool) (xs ys : List A) → count p (xs ++ ys) ≡ count p xs + count p ys
  count-append p [] ys = omega arith
  count-append p (x ∷ xs) ys = ground (arith, count-append p xs ys)

-- `HashMap<K, V>`: the order of entries is never read by the program.
abbrev pub HashMap {ℓ κ} : Type ℓ → Type κ → Type (ℓ ⊔ κ)
HashMap K V = List (K × V)

module _ {ℓ κ} {K : Type ℓ} {V : Type κ} ⦃e : Key K⦄ where
  unfoldable pub lookup : (wanted : K) → HashMap K V → Option V
  lookup wanted [] = none
  lookup wanted ((k, found) ∷ others) = if k == wanted then some found else lookup wanted others

  -- A key that is there already keeps its place and gets the new value.
  unfoldable pub insert : (new : K) → V → HashMap K V → HashMap K V
  insert new v [] = (new, v) ∷ []
  insert new v ((k, old) ∷ others) =
      if k == new then (new, v) ∷ others else (k, old) ∷ insert new v others

  pub lookup-insert :
      (new wanted : K) (v : V) (m : HashMap K V)
      → lookup wanted (insert new v m) ≡ (if new == wanted then some v else lookup wanted m)
  unfolding lookup insert
  lookup-insert new wanted v [] = refl
  lookup-insert new wanted v ((k, old) ∷ others) = ground (
    arith,
    e.same_iff new wanted,
    e.same_iff k new,
    e.same_iff k wanted,
    lookup-insert new wanted v others,
  )

  pub lookup-insert_self : (k : K) (v : V) (m : HashMap K V) → lookup k (insert k v m) ≡ some v
  lookup-insert_self k v m = rw (lookup-insert, beq_self k)
