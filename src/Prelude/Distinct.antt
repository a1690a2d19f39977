-- ===== src/Prelude/Distinct.antt =====
-- Lists without duplicates.
use mathlib.Core.Path.{◌≡◌, refl, sym, ap}
use mathlib.Core.Logic.{◌↔◌, ◌≢◌, inl, inr, ∥∥₁_elim}
use mathlib.Core.HLevel.{⊥_prop, ¬_prop}
use mathlib.Core.Bool.{Bool, true, not, ◌&&◌}
use mathlib.Core.List.{
  List, [], ◌∷◌, ◌++◌, map, Memᴰ, Mem, mem-cast, Nodup, Nodup-cons, Nodup-append, Pairwise,
}
use mathlib.Core.List.Memᴰ as Memᴰ
use mathlib.Core.List.Pairwise as Pairwise
use native.Mathlib.Omega.{arith}
use zel.Prelude.Tests.{Key, ◌==◌, beq_self}
use zel.Prelude.Lists.{any}

-- What a function tells apart has no duplicates exactly if what it gives has none.
pub Nodup-map_iff {ℓ κ} :
    {A : Type ℓ} {B : Type κ} (f : A → B)
    → ((a b : A) → f a ≡ f b → a ≡ b)
    → (l : List A) → Nodup (map f l) ↔ Nodup l
Nodup-map_iff {A} {B} f injective l = (
  Pairwise.of_map {R = λ a b. a ≢ b} {S = λ a b. a ≢ b} f (λ a b n e. n (ap f e)) {l = l},
  Pairwise.map {R = λ a b. a ≢ b} {S = λ a b. a ≢ b} (λ a b. ¬_prop) f
      (λ a b n e. n (injective a b e)) {l = l},
)

-- One element more, at the end.
pub Nodup-snoc_iff {ℓ} :
    {A : Type ℓ} (l : List A) (x : A) → Nodup (l ++ x ∷ []) ↔ ((¬ Mem x l) × Nodup l)
Nodup-snoc_iff {A} l x =
    let split = Nodup-append {l₁ = l} {l₂ = x ∷ []} in
    (
      λ d. let (a, _, apart) = split.0 d in (λ m. apart x m ∣ Memᴰ.head refl ∣₁, a),
      λ (n, a). split.1 (
        a,
        Pairwise.cons (λ y m. ∥∥₁_elim m ¬_prop (λ d. absurd (Memᴰ.not-nil d))) Pairwise.nil,
        λ y m1 m2. ∥∥₁_elim m2 ⊥_prop (λ d. elim (Memᴰ.cases_cons d) [
          | inl e ↦ n (mem-cast (sym e) m1)
          | inr beyond ↦ Memᴰ.not-nil beyond
        ]),
      ),
    )

module _ {ℓ} {K : Type ℓ} ⦃key : Key K⦄ where
  abbrev pub are_distinct : List K → Bool
  are_distinct [] = true
  are_distinct (k ∷ ks) = not (any (λ j. j == k) ks) && are_distinct ks

  pub any-Memᴰ : (k : K) (ks : List K) → Memᴰ k ks → any (λ j. j == k) ks ≡ true
  any-Memᴰ k [] m = absurd (Memᴰ.not-nil m)
  any-Memᴰ k (j ∷ js) (Memᴰ.head e) = rw (e, beq_self j) refl
  any-Memᴰ k (j ∷ js) (Memᴰ.tail m) = ground (arith, any-Memᴰ k js m)

  pub are_distinct-Nodup : (ks : List K) → are_distinct ks ≡ true → Nodup ks
  are_distinct-Nodup [] h = Pairwise.nil
  are_distinct-Nodup (k ∷ ks) h = Nodup-cons.1 (
    λ m. ∥∥₁_elim m ⊥_prop (λ d. ground (arith, h, any-Memᴰ k ks d)),
    are_distinct-Nodup ks (ground (arith, h)),
  )
