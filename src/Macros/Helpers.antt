-- ===== src/Macros/Helpers.antt =====
-- zel_macros/src/helpers.rs: the signature of a trait's method, as the crate `syn` gives it, and what
-- the macro takes from it.
use zel.Prelude.{
  String, Bool, Option, none, some, Result, ok, err, and_then, List, [], ◌∷◌, string_key, ◌==◌,
  if◌then◌else◌,
}

-- A type argument between angle brackets, or another one.
pub data GenericArgument (Ty : Type 0) : Type 0 where
  type_argument : Ty → GenericArgument Ty
  other : GenericArgument Ty

pub data PathArguments (Ty : Type 0) : Type 0 where
  angle_bracketed : List (GenericArgument Ty) → PathArguments Ty
  other : PathArguments Ty

pub record PathSegment (Ty : Type 0) : Type 0 where
  pub ident : String
  pub arguments : PathArguments Ty

-- What is used of `syn`: `parse_str::<Type>`, and the last segment of a type that is a path.
pub record Syntax : Type 1 where
  pub Ty : Type 0
  pub parse_type : String → Result Ty String
  pub last_segment : Ty → Option (PathSegment Ty)

-- A parameter: `self`, a name with its type, or another pattern.
pub data FnArg (Ty : Type 0) : Type 0 where
  receiver : FnArg Ty
  typed : (name : String) → Ty → FnArg Ty
  complex : FnArg Ty

pub data ReturnType (Ty : Type 0) : Type 0 where
  default : ReturnType Ty
  returns : Ty → ReturnType Ty

pub record Signature (Ty : Type 0) : Type 0 where
  pub ident : String
  pub is_async : Bool
  pub inputs : List (FnArg Ty)
  pub output : ReturnType Ty

-- A parameter's name and type.
abbrev pub ParamInfo : Type 0 → Type 0
ParamInfo Ty = String × Ty

module _ {Ty : Type 0} where
  unfoldable pub extract_params : List (FnArg Ty) → Result (List (ParamInfo Ty)) String
  extract_params [] = ok []
  extract_params (receiver ∷ rest) = extract_params rest
  extract_params (typed name ty ∷ rest) =
      and_then (extract_params rest) (λ ps. ok ((name, ty) ∷ ps))
  extract_params (complex ∷ rest) = err "Complex patterns not supported in parameters"

  abbrev first_type : List (GenericArgument Ty) → Option Ty
  first_type (type_argument ty ∷ rest) = some ty
  first_type _ = none

  abbrev inner_type : PathArguments Ty → Option Ty
  inner_type (angle_bracketed args) = first_type args
  inner_type other = none

  abbrev result_type : Option (PathSegment Ty) → Option Ty
  result_type none = none
  result_type (some s) = if s.ident == "Result" then inner_type s.arguments else none

  abbrev or_whole : Ty → Option Ty → Option Ty
  or_whole ty none = some ty
  or_whole ty (some inner) = some inner

module _ (syn : Syntax) where
  -- The first argument of a `Result`, any other type as it stands, and nothing where none is written.
  unfoldable pub extract_return_type : ReturnType syn.Ty → Option syn.Ty
  extract_return_type default = none
  extract_return_type (returns ty) = or_whole ty (result_type (syn.last_segment ty))
