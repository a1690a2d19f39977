-- ===== src/Macros/Codegen/Unread.antt =====
-- zel_macros/src/render/codegen.rs and server.rs: why a method cannot read the body of a request.
use zel.Prelude.{
  ◌≡◌, refl, ap, Bytes, Option, none, some, Result, ok, err, map_err, and_then, List, [], ◌∷◌,
  string_key, String, arith,
}
use zel.Types.Protocol.{Body}
use zel.Types.Errors.{ResourceError, application, severity, app}
use zel.Macros.Helpers.{ParamInfo}
use zel.Macros.Service.{Description}
use zel.Macros.Values.{Values}
use zel.Macros.Codegen.{generate_param_deserialization, unreadable, types_of}

module _ {Ty : Type 0} (vals : Values Ty) where
  abbrev pub error_in : {A : Type 0} → Result A ResourceError → Option ResourceError
  error_in (ok a) = none
  error_in (err e) = some e

  -- Why a method cannot read a body, if it cannot.
  abbrev pub unread : Description Ty → Body → Option ResourceError
  unread m (Body.rpc b) = error_in (generate_param_deserialization vals m.params b)
  unread m _ = some (app "Expected RPC body")

  abbrev pub IsOfApplication : Option ResourceError → Type 0
  IsOfApplication none = Unit
  IsOfApplication (some e) = severity e ≡ application

  abbrev handed_on :
      {A : Type 0} → (A → List vals.Value) → A → Result (List vals.Value) ResourceError
  handed_on f a = ok (f a)

  unreadable-IsOfApplication :
      {A : Type 0} (prefix : String) (r : Result A String) (f : A → List vals.Value)
      → IsOfApplication (error_in (and_then (map_err (unreadable prefix) r) (handed_on f)))
  unfolding severity
  unreadable-IsOfApplication prefix (ok a) f = tt
  unreadable-IsOfApplication prefix (err x) f = refl

  deserialization-IsOfApplication :
      (ps : List (ParamInfo Ty)) (b : Bytes)
      → IsOfApplication (error_in (generate_param_deserialization vals ps b))
  unfolding generate_param_deserialization
  deserialization-IsOfApplication [] b = tt
  deserialization-IsOfApplication (p ∷ []) b =
      unreadable-IsOfApplication "Failed to deserialize parameter: " (vals.from_slice p.1 b)
        (λ v. v ∷ [])
  deserialization-IsOfApplication (p ∷ q ∷ ps) b =
      unreadable-IsOfApplication "Failed to deserialize parameters: "
        (vals.from_slice (vals.tuple_type (types_of (p ∷ q ∷ ps))) b) vals.untuple

  pub unread-IsOfApplication : (m : Description Ty) (b : Body) → IsOfApplication (unread m b)
  unfolding severity app
  unread-IsOfApplication m (Body.rpc b) = deserialization-IsOfApplication m.params b
  unread-IsOfApplication m Body.subscribe = refl
  unread-IsOfApplication m (Body.stream b) = refl
  unread-IsOfApplication m (Body.notify b) = refl

  pub error_in-err :
      {A : Type 0} (r : Result A ResourceError) (e : ResourceError)
      → error_in r ≡ some e
      → r ≡ err e
  error_in-err (ok a) e h = ground (arith, h)
  error_in-err (err x) e h = ap (λ o. elim o [ some y ↦ err y | none ↦ err x ]) h
