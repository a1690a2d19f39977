-- ===== src/Macros/Signatures/Fitting.antt =====
-- The functions of the server trait against the calls that the generated registrations make.
use zel.Prelude.{
  Bool, false, Option, if◌then◌else◌, true, ℕ, ◌+◌, ◌≡◌, refl, sym, ap, ◌∙◌, String, concat, none,
  some, ok, List, [], ◌∷◌, ◌++◌, length, length-append, arith,
}
use mathlib.Core.List.{append_assoc}
use Prim.Native.Char.{Char}
use zel.Macros.Helpers.{
  Syntax, extract_return_type, FnArg, receiver, typed, ParamInfo, extract_params,
}
use zel.Macros.Service.{
  TraitItemFn, Description, Described, ServiceDescription, method_from_trait_fn, retain_other,
  method_paths,
}
use zel.Macros.Signatures.{
  Quoting, insert_all, with_inputs, inject, inject_all, method_params, subscription_params,
  notification_params, stream_params, render_server_trait, has_raw_names,
}

module _ {Ty : Type 0} where
  -- A description whose function takes `self` first and then the parameters that are described.
  abbrev pub TakesSelf : Description Ty → Type 0
  TakesSelf d =
      (rest : List (FnArg Ty)) × (d.signature.sig.inputs ≡ receiver ∷ rest)
      × (extract_params rest ≡ ok d.params)

  abbrev pub AllTakeSelf : List (Description Ty) → Type 0
  AllTakeSelf [] = Unit
  AllTakeSelf (d ∷ ds) = TakesSelf d × AllTakeSelf ds

module _ {Ty : Type 0} (quoting : Quoting Ty) (to_uppercase : Char → String) where
  abbrev args_of : List (ParamInfo Ty) → List (FnArg Ty)
  args_of [] = []
  args_of (p ∷ ps) = typed p.0 p.1 ∷ args_of ps

  insert_all-within :
      (ps : List (ParamInfo Ty)) (before after : List (FnArg Ty)) (n : ℕ)
      → n ≡ length before
      → insert_all quoting to_uppercase n ps (before ++ after)
        ≡ some (before ++ (args_of ps ++ after))
  unfolding insert_all
  insert_all-within [] before after n e = refl
  insert_all-within (p ∷ ps) before after n e =
      let arg : FnArg Ty = typed p.0 p.1 in
      let more =
        insert_all-within ps (before ++ arg ∷ []) after (n + 1)
          (omega (arith, length-append before (arg ∷ []))) in
      rw (e, quoting.insert_within arg before after, ← e)
        (ap (insert_all quoting to_uppercase (n + 1) ps)
            (sym (append_assoc before (arg ∷ []) after))
          ∙ more
          ∙ ap some (append_assoc before (arg ∷ []) (args_of ps ++ after)))

  extract_params-args_of :
      (ps qs : List (ParamInfo Ty)) (rest : List (FnArg Ty))
      → extract_params rest ≡ ok qs
      → extract_params (args_of ps ++ rest) ≡ ok (ps ++ qs)
  unfolding extract_params
  extract_params-args_of [] qs rest h = h
  extract_params-args_of (p ∷ ps) qs rest h = rw (extract_params-args_of ps qs rest h) refl

  -- The function of the description with these parameters right after its first one, which is
  -- `self`, and before all its others, the described ones.
  abbrev pub Fits : List (ParamInfo Ty) → Description Ty → TraitItemFn Ty → Type 0
  Fits ps d f =
      (rest : List (FnArg Ty)) × (d.signature.sig.inputs ≡ receiver ∷ rest)
      × (f ≡ with_inputs quoting to_uppercase d.signature (receiver ∷ (args_of ps ++ rest)))
      × (extract_params f.sig.inputs ≡ ok (ps ++ d.params))
      × (f.sig.ident ≡ d.signature.sig.ident)
      × (f.sig.output ≡ d.signature.sig.output)

  inject-Fits :
      (ps : List (ParamInfo Ty)) (d : Description Ty)
      → TakesSelf d
      → (f : TraitItemFn Ty) × (inject quoting to_uppercase ps d ≡ some f) × Fits ps d f
  unfolding inject extract_params
  inject-Fits ps d (rest, e, h) = (
    with_inputs quoting to_uppercase d.signature (receiver ∷ (args_of ps ++ rest)),
    rw (e, insert_all-within ps (receiver ∷ []) rest 1 refl) refl,
    (rest, e, refl, extract_params-args_of ps d.params rest h, refl, refl),
  )

  abbrev pub AllFit :
      (Description Ty → List (ParamInfo Ty))
      → List (Description Ty)
      → List (TraitItemFn Ty)
      → Type 0
  AllFit ps [] [] = Unit
  AllFit ps (d ∷ ds) (f ∷ fs) = Fits (ps d) d f × AllFit ps ds fs
  AllFit ps _ _ = ⊥

  inject_all-AllFit :
      (ps : Description Ty → List (ParamInfo Ty)) (ds : List (Description Ty))
      → AllTakeSelf ds
      → (fs : List (TraitItemFn Ty)) × (inject_all quoting to_uppercase ps ds ≡ some fs)
        × AllFit ps ds fs
  unfolding inject_all
  inject_all-AllFit ps [] t = ([], refl, tt)
  inject_all-AllFit ps (d ∷ ds) (t, ts) =
      let (f, e, h) = inject-Fits (ps d) d t in
      let (fs, es, hs) = inject_all-AllFit ps ds ts in (f ∷ fs, rw (e, es) refl, (h, hs))

  -- Where every function of a trait takes `self` first and then the parameters that were read of it,
  -- and no subscription or notification has a raw name, the server trait is rendered, and its functions take, in this order, `self` and what the
  -- registrations call them with: the context; a sink, a receiver, or two streams, as the kind has it;
  -- and the described parameters, under their names and with their types. Names and results of the
  -- functions stay.
  pub render_server_trait-AllFit :
      (s : ServiceDescription Ty)
      → has_raw_names quoting to_uppercase s.described ≡ false
      → AllTakeSelf s.described.methods
      → AllTakeSelf s.described.subscriptions
      → AllTakeSelf s.described.notifications
      → AllTakeSelf s.described.streams
      → (ms ss ns ts : List (TraitItemFn Ty)) × (render_server_trait quoting to_uppercase s
          ≡ some (concat s.trait_ident "Server", ms ++ (ss ++ (ns ++ ts))))
        × AllFit (method_params quoting to_uppercase) s.described.methods ms
        × AllFit
            (subscription_params quoting to_uppercase s.trait_ident)
            s.described.subscriptions
            ss
        × AllFit
            (notification_params quoting to_uppercase s.trait_ident)
            s.described.notifications
            ns
        × AllFit (stream_params quoting to_uppercase) s.described.streams ts
  unfolding render_server_trait
  render_server_trait-AllFit s named m u n t =
      let (ms, em, hm) =
        inject_all-AllFit (method_params quoting to_uppercase) s.described.methods m in
      let (ss, es, hs) =
        inject_all-AllFit (subscription_params quoting to_uppercase s.trait_ident)
          s.described.subscriptions u in
      let (ns, en, hn) =
        inject_all-AllFit (notification_params quoting to_uppercase s.trait_ident)
          s.described.notifications n in
      let (ts, et, ht) =
        inject_all-AllFit (stream_params quoting to_uppercase) s.described.streams t in
      (ms, ss, ns, ts, rw (named, em, es, en, et) refl, hm, hs, hn, ht)

module _ (to_uppercase : Char → String) where
  either_none : {A : Type 0} (b : Bool) → ◌≡◌ {A = Option A} (if b then none else none) none
  either_none true = refl
  either_none false = refl

  -- A function without any parameter, `self` included, that is `async`, is accepted as a method, but
  -- the rendering of a trait whose first method it is panics.
  pub render_server_trait-no_self :
      (syn : Syntax) (name trait_name : String) (f : TraitItemFn syn.Ty) (quoting : Quoting syn.Ty)
      (d : Described syn.Ty)
      → f.sig.is_async ≡ true
      → f.sig.inputs ≡ []
      → (m : Description syn.Ty) × (method_from_trait_fn syn name f ≡ ok m)
        × (render_server_trait quoting to_uppercase (record {
          service_name = name;
          trait_ident = trait_name;
          described = record d { methods = m ∷ d.methods };
        })
            ≡ none)
  unfolding method_from_trait_fn extract_params render_server_trait inject_all inject insert_all
  render_server_trait-no_self syn name trait_name f quoting d a h = (
    record {
      rpc_name = name;
      signature = record f { attrs = retain_other method_paths f.attrs };
      params = [];
      return_type = extract_return_type syn f.sig.output;
      item_type = none;
    },
    rw (a, h) refl,
    rw (h, quoting.insert_beyond 1 _ [] (omega arith))
        (either_none (has_raw_names quoting to_uppercase d)),
  )
