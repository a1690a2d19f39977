-- ===== src/Prelude/Maps.antt =====
-- Hash maps whose keys differ, so that the entries are what `lookup` finds.
use mathlib.Core.Path.{◌≡◌, refl, sym, ap, ◌∙◌}
use mathlib.Core.Logic.{◌↔◌, inl, inr}
use mathlib.Core.Bool.{Bool, false}
use mathlib.Core.Option.{Option, none, some}
use mathlib.Core.Option
use mathlib.Core.List.{[], ◌∷◌, map, Memᴰ}
use native.Mathlib.Omega.{arith}
use zel.Prelude.Tests.{Key, ◌==◌, beq_self, Bool-cases}
use zel.Prelude.Lists.{HashMap, lookup, insert, lookup-insert, count}

some-eq {ℓ} : {A : Type ℓ} {a b : A} → some a ≡ some b → a ≡ b
some-eq {A} {a} {b} e = ap (λ o. elim o [ some x ↦ x | none ↦ a ]) e

-- A test on what a key holds, false where it holds nothing.
abbrev pub holds {ℓ} : {V : Type ℓ} → (V → Bool) → Option V → Bool
holds p none = false
holds p (some v) = p v

module _ {ℓ κ} {K : Type ℓ} {V : Type κ} ⦃e : Key K⦄ where
  abbrev pub HasUniqueKeys : HashMap K V → Type κ
  HasUniqueKeys [] = Unit
  HasUniqueKeys ((k, v) ∷ m) = (lookup k m ≡ none) × HasUniqueKeys m

  pub insert-HasUniqueKeys :
      (k : K) (v : V) (m : HashMap K V) → HasUniqueKeys m → HasUniqueKeys (insert k v m)
  unfolding insert lookup
  insert-HasUniqueKeys k v [] u = (refl, tt)
  insert-HasUniqueKeys k v ((j, w) ∷ m) u = elim (Bool-cases (j == k)) [
    | inl same ↦ rw same (rw (← (e.same_iff j k).0 same) u.0, u.1)
    | inr other ↦ rw other (
      ground (arith, lookup-insert k j v m, e.same_iff k j, e.same_iff j k),
      insert-HasUniqueKeys k v m u.1,
    )
  ]

  pub count_zero_iff :
      (p : V → Bool) (m : HashMap K V)
      → HasUniqueKeys m
      → (count (λ kv. p kv.1) m ≡ 0) ↔ ((k : K) → holds p (lookup k m) ≡ false)
  unfolding lookup
  count_zero_iff p [] u = (λ _ k. refl, λ _. refl)
  count_zero_iff p ((j, w) ∷ m) u = (
    λ h k. ground (arith, λ (z : count (λ kv. p kv.1) m ≡ 0). (count_zero_iff p m u.1).0 z k),
    λ h. ground (
      arith,
      h j,
      beq_self j,
      (count_zero_iff p m u.1).1
          (λ k. ground (arith, h k, u.0, e.same_iff j k, ap (λ x. lookup x m))),
    ),
  )

  -- With different keys, `lookup` finds exactly the entries.
  pub lookup_of_member :
      (k : K) (v : V) (m : HashMap K V) → HasUniqueKeys m → Memᴰ (k, v) m → lookup k m ≡ some v
  unfolding lookup
  lookup_of_member k v [] u absent = elim absent [ ]
  lookup_of_member k v ((j, w) ∷ m) u (Memᴰ.head same) =
      ground (arith, ap (λ p. p.0) same, ap (λ p. p.1) same, beq_self j, beq_self k)
  lookup_of_member k v ((j, w) ∷ m) u (Memᴰ.tail t) = elim (Bool-cases (j == k)) [
    | inl same ↦ absurd (
        cc
          (sym u.0 ∙ ap (λ x. lookup x m) ((e.same_iff j k).0 same) ∙ lookup_of_member k v m u.1 t))
    | inr other ↦ rw other (lookup_of_member k v m u.1 t)
  ]

  pub member_of_lookup : (k : K) (v : V) (m : HashMap K V) → lookup k m ≡ some v → Memᴰ (k, v) m
  unfolding lookup
  member_of_lookup k v [] found = absurd (cc)
  member_of_lookup k v ((j, w) ∷ m) found = elim (Bool-cases (j == k)) [
    | inl same ↦
        let here : lookup k ((j, w) ∷ m) ≡ some w = rw same refl in
        Memᴰ.head (λ i. (sym ((e.same_iff j k).0 same) i, some-eq (sym found ∙ here) i))
    | inr other ↦
        let there : lookup k ((j, w) ∷ m) ≡ lookup k m = rw other refl in
        Memᴰ.tail (member_of_lookup k v m (sym there ∙ found))
  ]

module _ {ℓ κ μ} {K : Type ℓ} {V : Type κ} {W : Type μ} ⦃e : Key K⦄ (f : V → W) where
  pub lookup-map_values :
      (k : K) (m : HashMap K V)
      → lookup k (map (λ kv. (kv.0, f kv.1)) m) ≡ Option.map f (lookup k m)
  unfolding lookup
  lookup-map_values k [] = refl
  lookup-map_values k ((j, v) ∷ m) = elim (Bool-cases (j == k)) [
    | inl same ↦ rw same refl
    | inr other ↦ rw other (lookup-map_values k m)
  ]

  pub map_values-HasUniqueKeys :
      (m : HashMap K V) → HasUniqueKeys m → HasUniqueKeys (map (λ kv. (kv.0, f kv.1)) m)
  map_values-HasUniqueKeys [] u = tt
  map_values-HasUniqueKeys ((j, v) ∷ m) u =
      (lookup-map_values j m ∙ ap (Option.map f) u.0, map_values-HasUniqueKeys m u.1)
