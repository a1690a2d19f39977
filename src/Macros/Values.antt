-- ===== src/Macros/Values.antt =====
-- What the generated code uses of `serde_json` and of Rust's tuples, for the types that a trait names.
use zel.Prelude.{◌≡◌, String, Bytes, Option, none, some, Result, ok, List, [], ◌∷◌}

-- Values of these types one by one, each of them one that JSON keeps.
abbrev pub AreFaithful : {Ty Value : Type 0} → (Ty → Value → Type 0) → List Ty → List Value → Type 0
AreFaithful P [] [] = Unit
AreFaithful P (ty ∷ tys) (v ∷ vs) = P ty v × AreFaithful P tys vs
AreFaithful P _ _ = ⊥

pub record Values (Ty : Type 0) : Type 1 where
  pub Value : Type 0
  pub to_vec : Value → Result Bytes String
  pub from_slice : Ty → Bytes → Result Value String
  -- The value has the type, and survives the round trip.
  pub IsFaithful : Ty → Value → Type 0
  pub round_trip :
      (ty : Ty) (v : Value) (b : Bytes) → IsFaithful ty v → to_vec v ≡ ok b → from_slice ty b ≡ ok v
  -- The type `()`.
  pub unit_type : Ty
  pub tuple_type : List Ty → Ty
  pub tuple : List Value → Value
  -- `let (a, b) = params`
  pub untuple : Value → List Value
  pub untuple-tuple : (vs : List Value) → untuple (tuple vs) ≡ vs
  pub tuple_faithful :
      (tys : List Ty) (vs : List Value)
      → AreFaithful IsFaithful tys vs
      → IsFaithful (tuple_type tys) (tuple vs)

module _ {Ty : Type 0} where
  -- `unwrap_or_else(|| quote! { () })`
  abbrev pub or_unit : Values Ty → Option Ty → Ty
  or_unit vals none = vals.unit_type
  or_unit vals (some ty) = ty
