-- ===== src/Macros/Codegen.antt =====
-- zel_macros/src/render/codegen.rs: the code that writes the parameters of a call, and the code that
-- reads them. A function that renders code is modelled by what the code that it quotes does, on the
-- values of the parameters.
pub mod Delivery
pub mod Unread
use zel.Prelude.{
  String, concat, Bytes, Option, none, some, Result, ok, err, map_err, and_then, List, [], ◌∷◌, map,
}
use zel.Types.Errors.{application, ResourceError, callback_error}
use zel.Client.Errors.{ClientError, serialization}
use zel.Macros.Helpers.{ParamInfo}
use zel.Macros.Values.{Values}

-- `param_types`
abbrev pub types_of : {Ty : Type 0} → List (ParamInfo Ty) → List Ty
types_of [] = []
types_of (p ∷ ps) = p.1 ∷ types_of ps

abbrev pub unreadable : String → String → ResourceError
unreadable prefix e = callback_error (concat prefix e) application none

abbrev pub present : Result Bytes ClientError → Result (Option Bytes) ClientError
present r = and_then r (λ b. ok (some b))

module _ {Ty : Type 0} (vals : Values Ty) where
  open vals use {Value, to_vec, from_slice, tuple_type, tuple, untuple}

  unfoldable pub generate_param_deserialization :
      List (ParamInfo Ty) → Bytes → Result (List Value) ResourceError
  generate_param_deserialization [] b = ok []
  generate_param_deserialization (p ∷ []) b =
      and_then (map_err (unreadable "Failed to deserialize parameter: ") (from_slice p.1 b))
        (λ v. ok (v ∷ []))
  generate_param_deserialization (p ∷ q ∷ ps) b =
      and_then
        (map_err (unreadable "Failed to deserialize parameters: ")
          (from_slice (tuple_type (types_of (p ∷ q ∷ ps))) b))
        (λ v. ok (untuple v))

  -- On the arguments of a call, one for each parameter.
  unfoldable pub generate_param_serialization : List Value → Result Bytes ClientError
  generate_param_serialization [] = ok []
  generate_param_serialization (v ∷ []) = map_err serialization (to_vec v)
  generate_param_serialization (v ∷ w ∷ vs) = map_err serialization (to_vec (tuple (v ∷ w ∷ vs)))

  unfoldable pub generate_param_serialization_optional :
      List Value → Result (Option Bytes) ClientError
  generate_param_serialization_optional [] = ok none
  generate_param_serialization_optional (v ∷ []) = present (map_err serialization (to_vec v))
  generate_param_serialization_optional (v ∷ w ∷ vs) =
      present (map_err serialization (to_vec (tuple (v ∷ w ∷ vs))))
