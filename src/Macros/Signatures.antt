-- ===== src/Macros/Signatures.antt =====
-- zel_macros/src/render/server.rs: the functions of the generated server trait. `syn` gives the type of
-- a name (`parse_quote!`) and the insertion into a list of parameters, which panics past the end.
pub mod Fitting
use zel.Prelude.{
  Bool, false, if◌then◌else◌, ◌||◌, ℕ, suc, ◌+◌, ◌<◌, ◌≡◌, ◌↔◌, refl, sym, ap, ◌∙◌, String, concat,
  Option, none, some, Option-cases, inl, inr, Result, ok, err, and_then, List, [], ◌∷◌, ◌++◌,
  length, arith,
}
use Prim.Native.Char.{Char}
use zel.Macros.Helpers.{FnArg, receiver, typed, complex, Signature, ParamInfo, extract_params}
use zel.Macros.Service.{TraitItemFn, Description, Described, ServiceDescription}
use zel.Macros.Names.{generate_typed_name, is_raw}

-- A panic is `none`.
pub record Quoting (Ty : Type 0) : Type 0 where
  pub type_named : String → Ty
  pub insert : ℕ → FnArg Ty → List (FnArg Ty) → Option (List (FnArg Ty))
  pub insert_within :
      (x : FnArg Ty) (before after : List (FnArg Ty))
      → insert (length before) x (before ++ after) ≡ some (before ++ x ∷ after)
  pub insert_beyond :
      (n : ℕ) (x : FnArg Ty) (xs : List (FnArg Ty)) → length xs < n → insert n x xs ≡ none

abbrev pub if_some : {A B : Type 0} → Option A → (A → Option B) → Option B
if_some none f = none
if_some (some a) f = f a

module _ {Ty : Type 0} (quoting : Quoting Ty) (to_uppercase : Char → String) where
  open quoting use {type_named, insert}

  abbrev pub ctx_param : ParamInfo Ty
  ctx_param = ("ctx", type_named "zel_core::protocol::RequestContext")

  abbrev pub arg_of : ParamInfo Ty → FnArg Ty
  arg_of p = typed p.0 p.1

  -- The insertions of a function, one after the other.
  unfoldable pub insert_all : ℕ → List (ParamInfo Ty) → List (FnArg Ty) → Option (List (FnArg Ty))
  insert_all n [] inputs = some inputs
  insert_all n (p ∷ ps) inputs =
      if_some (insert n (arg_of p) inputs) (λ longer. insert_all (n + 1) ps longer)

  abbrev pub with_inputs : TraitItemFn Ty → List (FnArg Ty) → TraitItemFn Ty
  with_inputs f inputs = record f { sig = record f.sig { inputs = inputs } }

  unfoldable pub inject : List (ParamInfo Ty) → Description Ty → Option (TraitItemFn Ty)
  unfolding insert_all
  inject ps d =
      if_some (insert_all 1 ps d.signature.sig.inputs)
        (λ inputs. some (with_inputs d.signature inputs))

  abbrev pub method_params : Description Ty → List (ParamInfo Ty)
  method_params d = ctx_param ∷ []

  unfoldable pub subscription_params : String → Description Ty → List (ParamInfo Ty)
  unfolding generate_typed_name
  subscription_params trait_name d =
      ctx_param
      ∷ (
        "sink",
        type_named (generate_typed_name to_uppercase trait_name d.signature.sig.ident "Sink"),
      )
      ∷ []

  unfoldable pub notification_params : String → Description Ty → List (ParamInfo Ty)
  unfolding generate_typed_name
  notification_params trait_name d =
      ctx_param
      ∷ (
        "receiver",
        type_named (generate_typed_name to_uppercase trait_name d.signature.sig.ident "Receiver"),
      )
      ∷ []

  abbrev pub stream_params : Description Ty → List (ParamInfo Ty)
  stream_params d =
      ctx_param
      ∷ ("send", type_named "iroh::endpoint::SendStream")
      ∷ ("recv", type_named "iroh::endpoint::RecvStream")
      ∷ []

  unfoldable pub inject_all :
      (Description Ty → List (ParamInfo Ty))
      → List (Description Ty)
      → Option (List (TraitItemFn Ty))
  unfolding inject
  inject_all ps [] = some []
  inject_all ps (d ∷ ds) =
      if_some (inject (ps d) d) (λ f. if_some (inject_all ps ds) (λ fs. some (f ∷ fs)))

  -- Some type name cannot be made.
  abbrev pub has_raw : List (Description Ty) → Bool
  has_raw [] = false
  has_raw (d ∷ ds) = is_raw d.signature.sig.ident || has_raw ds

  -- `generate_typed_name` panics on one of the names.
  abbrev pub has_raw_names : Described Ty → Bool
  has_raw_names d = has_raw d.subscriptions || has_raw d.notifications

  -- The name of the trait and its functions; `register_service` is added to them.
  unfoldable pub render_server_trait :
      ServiceDescription Ty → Option (String × List (TraitItemFn Ty))
  unfolding inject_all subscription_params notification_params
  render_server_trait s =
      if has_raw_names s.described
      then none
      else if_some (inject_all method_params s.described.methods) (λ ms.
        if_some (inject_all (subscription_params s.trait_ident) s.described.subscriptions) (λ ss.
          if_some (inject_all (notification_params s.trait_ident) s.described.notifications) (λ ns.
            if_some (inject_all stream_params s.described.streams)
              (λ ts. some (concat s.trait_ident "Server", ms ++ (ss ++ (ns ++ ts)))))))
