-- ===== src/Macros/Items/Endings.antt =====
-- zel_macros/src/render/codegen.rs: the names of generated types, told apart by how they end.
use zel.Prelude.{
  ℕ, ◌*◌, ◌+◌, ◌≡◌, ◌↔◌, refl, sym, ap, ◌∙◌, subst, String, concat, true, false, nat_key, ◌==◌,
  any-Memᴰ, are_distinct, Nodup-map_iff, List, [], ◌∷◌, ◌++◌, map, any, inl, inr, arith,
}
use Prim.Native.String.{[] as empty, ◌∷◌ as before}
use Prim.Native.String.append.{nil, cons}
use Prim.Native.Char.{code}
use mathlib.Core.List.{Memᴰ, Nodup, Nodup-append, Disjoint, Pairwise}
use mathlib.Core.List.Memᴰ as Memᴰ
use mathlib.Core.Logic.{∥∥₁_elim}
use mathlib.Core.HLevel.{⊥_prop}
use text.Mathlib.TextLemmas.{append_cancel_left, append_cancel_right}

-- The last character and the fourth from the end, as one number; `a`, `b`, `c` and `d` stand before.
abbrev pub ending : (a b c d : ℕ) → String → ℕ
ending a b c d empty = a + 1000 * d
ending a b c d (before x s) = ending b c d (code x) s

abbrev pub EndsAs : ℕ → String → Type 0
EndsAs k s = (a b c d : ℕ) → ending a b c d s ≡ k

EndsAs-concat : (k : ℕ) (p s : String) → EndsAs k s → EndsAs k (concat p s)
EndsAs-concat k empty s h a b c d = ap (ending a b c d) (nil s) ∙ h a b c d
EndsAs-concat k (before x p) s h a b c d =
    ap (ending a b c d) (cons x p s) ∙ EndsAs-concat k p s h b c d (code x)

-- The names of one kind: the trait's, then a stem, then the suffix.
pub record Group : Type 0 where
  pub suffix : String
  pub stems : List String
  pub key : ℕ
  pub ends : EndsAs key suffix

abbrev pub keys : List Group → List ℕ
keys gs = map (λ g. g.key) gs

abbrev pub AllNodup : List Group → Type 0
AllNodup [] = Unit
AllNodup (g ∷ gs) = Nodup g.stems × AllNodup gs

module _ (trait_name : String) where
  abbrev pub named : (stem suffix : String) → String
  named stem suffix = concat trait_name (concat stem suffix)

  abbrev pub names_of : Group → List String
  names_of g = map (λ stem. named stem g.suffix) g.stems

  abbrev pub all_names : List Group → List String
  all_names [] = []
  all_names (g ∷ gs) = names_of g ++ all_names gs

  named-injective : (suffix a b : String) → named a suffix ≡ named b suffix → a ≡ b
  named-injective suffix a b e =
      append_cancel_right a b suffix
        (append_cancel_left trait_name (concat a suffix) (concat b suffix) e)

  names_of-EndsAs : (g : Group) (x : String) → Memᴰ x (names_of g) → EndsAs g.key x
  names_of-EndsAs g x m =
      let (stem, _, e) = Memᴰ.of_map (λ stem. named stem g.suffix) g.stems m in
      subst (EndsAs g.key) e (
        EndsAs-concat g.key trait_name (concat stem g.suffix)
          (EndsAs-concat g.key stem g.suffix g.ends))

  all_names-EndsAs :
      (gs : List Group) (x : String)
      → Memᴰ x (all_names gs)
      → (k : ℕ) × Memᴰ k (keys gs) × EndsAs k x
  all_names-EndsAs [] x m = absurd (Memᴰ.not-nil m)
  all_names-EndsAs (g ∷ gs) x m = elim (Memᴰ.append_cases (names_of g) m) [
    | inl here ↦ (g.key, Memᴰ.head refl, names_of-EndsAs g x here)
    | inr there ↦ let (k, among, ends) = all_names-EndsAs gs x there in (k, Memᴰ.tail among, ends)
  ]

  names_of-Disjoint :
      (g : Group) (gs : List Group)
      → any (λ j. j == g.key) (keys gs) ≡ false
      → Disjoint (names_of g) (all_names gs)
  names_of-Disjoint g gs n x m1 m2 = ∥∥₁_elim m1 ⊥_prop (λ here. ∥∥₁_elim m2 ⊥_prop (λ there.
      let (k, among, ends) = all_names-EndsAs gs x there in
      let same : g.key ≡ k = sym (names_of-EndsAs g x here 0 0 0 0) ∙ ends 0 0 0 0 in
      ground (arith, n, any-Memᴰ g.key (keys gs) (Memᴰ.cast same among))))

  -- The names of groups that end differently are distinct exactly if the stems of each are.
  pub all_names-Nodup_iff :
      (gs : List Group) → are_distinct (keys gs) ≡ true → Nodup (all_names gs) ↔ AllNodup gs
  all_names-Nodup_iff [] h = (λ _. tt, λ _. Pairwise.nil)
  all_names-Nodup_iff (g ∷ gs) h =
      let apart : (any (λ j. j == g.key) (keys gs) ≡ false) × (are_distinct (keys gs) ≡ true) =
        (ground (arith, h), ground (arith, h)) in
      let rest = all_names-Nodup_iff gs apart.1 in
      let same = Nodup-map_iff (λ stem. named stem g.suffix) (named-injective g.suffix) g.stems in
      let split = Nodup-append {l₁ = names_of g} {l₂ = all_names gs} in
      (
        λ d. let (a, b, _) = split.0 d in (same.0 a, rest.0 b),
        λ (a, b). split.1 (same.1 a, rest.1 b, names_of-Disjoint g gs apart.0),
      )
