-- ===== src/Macros/Items/Functions.antt =====
-- zel_macros/src/render/server.rs: a server trait that is rendered has the names of the functions that
-- are described.
use zel.Prelude.{
  Bool, true, false, if◌then◌else◌, ◌≡◌, refl, sym, ap, ◌∙◌, String, concat, Option, none, some,
  List, [], ◌∷◌, ◌++◌, map, arith,
}
use mathlib.Core.List.{map-append}
use Prim.Native.Char.{Char}
use zel.Macros.Helpers.{ParamInfo}
use zel.Macros.Service.{TraitItemFn, Description, ServiceDescription}
use zel.Macros.Signatures.{
  Quoting, if_some, insert_all, with_inputs, inject, inject_all, method_params, subscription_params,
  notification_params, stream_params, render_server_trait, has_raw_names,
}
use zel.Macros.Items.{ident_of, idents}

pub if_some-inv :
    {A B : Type 0} (o : Option A) (f : A → Option B) (b : B)
    → if_some o f ≡ some b
    → (a : A) × (o ≡ some a) × (f a ≡ some b)
if_some-inv none f b h = ground (arith, h)
if_some-inv (some a) f b h = (a, refl, h)

pub some-inv : {A : Type 0} {a b : A} → some a ≡ some b → a ≡ b
some-inv {A} {a} e = ap (λ o. elim o [ some x ↦ x | none ↦ a ]) e

module _ {Ty : Type 0} (quoting : Quoting Ty) (to_uppercase : Char → String) where
  abbrev pub name_of : TraitItemFn Ty → String
  name_of f = f.sig.ident

  inject-ident :
      (ps : List (ParamInfo Ty)) (d : Description Ty) (f : TraitItemFn Ty)
      → inject quoting to_uppercase ps d ≡ some f
      → name_of f ≡ ident_of d
  unfolding inject
  inject-ident ps d f h =
      let (inputs, _, e) =
        if_some-inv (insert_all quoting to_uppercase 1 ps d.signature.sig.inputs)
          (λ inputs. some (with_inputs quoting to_uppercase d.signature inputs)) f h in
      ap name_of (sym (some-inv e))

  inject_all-idents :
      (ps : Description Ty → List (ParamInfo Ty)) (ds : List (Description Ty))
      (fs : List (TraitItemFn Ty))
      → inject_all quoting to_uppercase ps ds ≡ some fs
      → map name_of fs ≡ map ident_of ds
  unfolding inject_all
  inject_all-idents ps [] fs h = ap (map name_of) (sym (some-inv h))
  inject_all-idents ps (d ∷ ds) fs h =
      let (f, hf, h1) = if_some-inv (inject quoting to_uppercase (ps d) d) _ fs h in
      let (rest, hr, h2) = if_some-inv (inject_all quoting to_uppercase ps ds) _ fs h1 in
      rw (← some-inv h2, inject-ident (ps d) d f hf, inject_all-idents ps ds rest hr) refl

  unguarded :
      {A : Type 0} (b : Bool) (o : Option A) (a : A) → (if b then none else o) ≡ some a → o ≡ some a
  unguarded true o a h = absurd (cc)
  unguarded false o a h = h

  -- The name of the server trait and those of its functions, where it is rendered.
  pub render_server_trait-idents :
      (s : ServiceDescription Ty) (t : String × List (TraitItemFn Ty))
      → render_server_trait quoting to_uppercase s ≡ some t
      → (t.0 ≡ concat s.trait_ident "Server") × (map name_of t.1 ≡ idents s.described)
  unfolding render_server_trait
  render_server_trait-idents s t rendered =
      let h = unguarded (has_raw_names quoting to_uppercase s.described) _ t rendered in
      let all = inject_all quoting to_uppercase in
      let (ms, em, h1) =
        if_some-inv (all (method_params quoting to_uppercase) s.described.methods) _ t h in
      let (ss, es, h2) =
        if_some-inv
          (all (subscription_params quoting to_uppercase s.trait_ident) s.described.subscriptions) _
          t h1 in
      let (ns, en, h3) =
        if_some-inv
          (all (notification_params quoting to_uppercase s.trait_ident) s.described.notifications) _
          t h2 in
      let (ts, et, h4) =
        if_some-inv (all (stream_params quoting to_uppercase) s.described.streams) _ t h3 in
      (
        ap (λ p. p.0) (sym (some-inv h4)),
        ap (λ p. map name_of p.1) (sym (some-inv h4))
            ∙ rw
                (
                  map-append name_of ms (ss ++ (ns ++ ts)),
                  map-append name_of ss (ns ++ ts),
                  map-append name_of ns ts,
                  inject_all-idents (method_params quoting to_uppercase) s.described.methods ms em,
                  inject_all-idents (subscription_params quoting to_uppercase s.trait_ident)
                      s.described.subscriptions ss es,
                  inject_all-idents (notification_params quoting to_uppercase s.trait_ident)
                      s.described.notifications ns en,
                  inject_all-idents (stream_params quoting to_uppercase) s.described.streams ts et,
                )
                refl,
      )
