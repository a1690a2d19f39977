-- ===== src/Macros/Codegen/Delivery.antt =====
-- What the generated client writes, the generated server reads.
use zel.Prelude.{◌≡◌, refl, ap, Bytes, Result, ok, err, List, [], ◌∷◌}
use zel.Client.Errors.{serialization}
use zel.Macros.Helpers.{ParamInfo}
use zel.Macros.Values.{Values, AreFaithful}
use zel.Macros.Codegen.{types_of, generate_param_deserialization, generate_param_serialization}
use zel.Prelude.{map_err}

map_err-ok : {A E F : Type 0} (f : E → F) (r : Result A E) (a : A) → map_err f r ≡ ok a → r ≡ ok a
map_err-ok f (ok x) a h = ap (λ r. elim r [ ok y ↦ ok y | err e ↦ ok x ]) h
map_err-ok f (err e) a h = absurd (cc)

module _ {Ty : Type 0} (vals : Values Ty) where
  open vals use {Value, to_vec, IsFaithful}

  -- Arguments that JSON keeps, written by the code of a method's client, are read back by the code
  -- of its server, whatever their number.
  pub deserialization-serialization :
      (ps : List (ParamInfo Ty)) (args : List Value) (b : Bytes)
      → AreFaithful IsFaithful (types_of ps) args
      → generate_param_serialization vals args ≡ ok b
      → generate_param_deserialization vals ps b ≡ ok args
  unfolding generate_param_serialization generate_param_deserialization
  deserialization-serialization [] [] b a h = refl
  deserialization-serialization (p ∷ []) (v ∷ []) b a h =
      rw (vals.round_trip p.1 v b a.0 (map_err-ok serialization (to_vec v) b h)) refl
  deserialization-serialization [] (v ∷ vs) b a h = absurd a
  deserialization-serialization (p ∷ []) [] b a h = absurd a
  deserialization-serialization (p ∷ []) (v ∷ w ∷ vs) b a h = absurd a.1
  deserialization-serialization (p ∷ q ∷ ps) [] b a h = absurd a
  deserialization-serialization (p ∷ q ∷ ps) (v ∷ []) b a h = absurd a.1
  deserialization-serialization (p ∷ q ∷ ps) (v ∷ w ∷ vs) b a h =
      rw
        (vals.round_trip (vals.tuple_type (types_of (p ∷ q ∷ ps))) (vals.tuple (v ∷ w ∷ vs)) b
          (vals.tuple_faithful _ _ a) (map_err-ok serialization _ b h))
        (ap ok (vals.untuple-tuple (v ∷ w ∷ vs)))
