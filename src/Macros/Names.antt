-- ===== src/Macros/Names.antt =====
-- zel_macros/src/render/codegen.rs: the names of generated types. `to_uppercase` is that of Rust's
-- characters, which may give more than one.
use zel.Prelude.{
  ◌&&◌, ◌≡◌, refl, sym, ap, ◌∙◌, String, concat, Bool, true, false, nat_beq, if◌then◌else◌,
  Bool-cases, inl, inr,
}
use Prim.Native.String.{[], ◌∷◌}
use Prim.Native.String.append.{nil, cons}
use Prim.Native.Char.{Char, code}
use text.Mathlib.TextLemmas.{append-nil, append_assoc}

abbrev is_underscore : Char → Bool
is_underscore c = nat_beq (code c) 95

abbrev pub starts_with_hash : String → Bool
starts_with_hash [] = false
starts_with_hash (c ∷ s) = nat_beq (code c) 35

-- `r#` before a name, which `to_string` keeps and `capitalize_first` makes `R#`.
abbrev pub is_raw : String → Bool
is_raw [] = false
is_raw (c ∷ s) = nat_beq (code c) 114 && starts_with_hash s

-- The parts of a text between its underscores.
pub data Parts : Type 0 where
  last : String → Parts
  part : String → Parts → Parts

abbrev onto_first : Char → Parts → Parts
onto_first c (last p) = last (c ∷ p)
onto_first c (part p ps) = part (c ∷ p) ps

-- `split('_')`
unfoldable pub split : String → Parts
split [] = last []
split (c ∷ s) = let parts = split s in if is_underscore c then part [] parts else onto_first c parts

abbrev first : Parts → String
first (last p) = p
first (part p ps) = p

module _ (to_uppercase : Char → String) where
  -- The closure of the `map`; a part that the `filter` drops would give nothing.
  abbrev capital : String → String
  capital [] = []
  capital (c ∷ s) = concat (to_uppercase c) s

  unfoldable pub collect : Parts → String
  collect (last p) = capital p
  collect (part p ps) = concat (capital p) (collect ps)

  unfoldable pub capitalize_first : String → String
  unfolding split collect
  capitalize_first s = collect (split s)

  -- What `format_ident!` is asked for; a name with a raw part (see `is_raw`) is none, and it panics.
  unfoldable pub generate_typed_name : (trait_name method_name suffix : String) → String
  unfolding capitalize_first
  generate_typed_name trait_name method_name suffix =
      concat trait_name (concat (capitalize_first method_name) suffix)

  -- In one pass: underscores are left out, and the character after one, or at the start, is raised.
  abbrev pub camel_case : (at_start : Bool) → String → String
  camel_case at_start [] = []
  camel_case at_start (c ∷ s) =
      let new = camel_case true s in
      let on = camel_case false s in
      if is_underscore c then new else if at_start then concat (to_uppercase c) on else c ∷ on

  -- The parts after the first one.
  abbrev collect_rest : Parts → String
  collect_rest (last p) = []
  collect_rest (part p ps) = collect ps

  collect-first : (ps : Parts) → collect ps ≡ concat (capital (first ps)) (collect_rest ps)
  unfolding collect
  collect-first (last p) = sym (append-nil (capital p))
  collect-first (part p ps) = refl

  collect_rest-onto_first :
      (c : Char) (ps : Parts) → collect_rest (onto_first c ps) ≡ collect_rest ps
  collect_rest-onto_first c (last p) = refl
  collect_rest-onto_first c (part p ps) = refl

  first-onto_first : (c : Char) (ps : Parts) → first (onto_first c ps) ≡ c ∷ first ps
  first-onto_first c (last p) = refl
  first-onto_first c (part p ps) = refl

  camel_case-split :
      (s : String)
      → (camel_case true s ≡ concat (capital (first (split s))) (collect_rest (split s)))
        × (camel_case false s ≡ concat (first (split s)) (collect_rest (split s)))
  unfolding split
  camel_case-split [] = (refl, refl)
  camel_case-split (c ∷ s) = elim (Bool-cases (is_underscore c)) [
    | inl dropped ↦
        let rest = (camel_case-split s).0 ∙ sym (collect-first (split s)) in
        rw dropped (rest ∙ sym (nil (collect (split s))), rest ∙ sym (nil (collect (split s))))
    | inr kept ↦
        let rest = (camel_case-split s).1 in
        rw (kept, first-onto_first, collect_rest-onto_first)
          (
            ap (concat (to_uppercase c)) rest
                ∙ sym (append_assoc (to_uppercase c) (first (split s)) (collect_rest (split s))),
            ap (λ t. c ∷ t) rest ∙ sym (cons c (first (split s)) (collect_rest (split s))),
          )
  ]

  -- `capitalize_first` puts a name into camel case: it leaves the underscores out and raises the
  -- first character and each one that follows an underscore, in one pass.
  pub capitalize_first-camel_case : (s : String) → capitalize_first s ≡ camel_case true s
  unfolding capitalize_first
  capitalize_first-camel_case s = collect-first (split s) ∙ sym (camel_case-split s).0
