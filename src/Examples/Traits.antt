-- ===== src/Examples/Traits.antt =====
-- The server trait of the small service, and of one without `self`.
use zel.Prelude.{
  ℕ, zero, suc, ◌<◌, ◌≡◌, refl, ap, ◌↔◌, String, concat, true, none, some, Option, ok, string_key,
  List, [], ◌∷◌, ◌++◌, length, arith,
}
use mathlib.Core.Option
use Prim.Native.Char.{Char}
use Prim.Native.String.{[] as empty_text, ◌∷◌ as char_before}
use zel.Macros.Helpers.{Syntax, FnArg, typed, returns, extract_params}
use zel.Macros.Items.{Item, render_service}
use mathlib.Core.List.{Nodup-cons, Memᴰ}
use zel.Macros.Names.{capitalize_first}
use zel.Macros.Items.Declarable.{IsDeclarable}
use zel.Macros.Items.Clashes.{HasDistinctNames, render_service-IsDeclarable_iff}
use zel.Macros.Service.{TraitItemFn, Description, ServiceDescription, method_from_trait_fn}
use zel.Macros.Signatures.{
  Quoting, method_params, subscription_params, notification_params, stream_params,
  render_server_trait,
}
use zel.Macros.Signatures.Fitting.{AllFit, render_server_trait-AllFit, render_server_trait-no_self}
use zel.Examples.Generated.{add, ticks, math}

abbrev insert : ℕ → FnArg String → List (FnArg String) → Option (List (FnArg String))
insert zero x xs = some (x ∷ xs)
insert (suc n) x [] = none
insert (suc n) x (y ∷ ys) = Option.map (λ zs. y ∷ zs) (insert n x ys)

insert_within :
    (x : FnArg String) (before after : List (FnArg String))
    → insert (length before) x (before ++ after) ≡ some (before ++ x ∷ after)
insert_within x [] after = refl
insert_within x (y ∷ before) after = ap (Option.map (λ zs. y ∷ zs)) (insert_within x before after)

insert_beyond :
    (n : ℕ) (x : FnArg String) (xs : List (FnArg String)) → length xs < n → insert n x xs ≡ none
insert_beyond zero x xs h = absurd (omega arith)
insert_beyond (suc n) x [] h = refl
insert_beyond (suc n) x (y ∷ ys) h =
    ap (Option.map (λ zs. y ∷ zs)) (insert_beyond n x ys (omega arith))

abbrev quoting : Quoting String
quoting = record {
  type_named = λ name. name;
  insert = insert;
  insert_within = insert_within;
  insert_beyond = insert_beyond;
}

-- Letters stay as they are.
abbrev same : Char → String
same c = char_before c empty_text

adds :
    extract_params {Ty = String} (typed "a" "i32" ∷ typed "b" "i32" ∷ [])
    ≡ ok (("a", "i32") ∷ ("b", "i32") ∷ [])
unfolding extract_params
adds = refl

ticks_from : extract_params {Ty = String} (typed "from" "u64" ∷ []) ≡ ok (("from", "u64") ∷ [])
unfolding extract_params
ticks_from = refl

render_server_trait-AllFit_example :
    (ms ss ns ts : List (TraitItemFn String)) × (render_server_trait quoting same math
      ≡ some (concat "Math" "Server", ms ++ (ss ++ (ns ++ ts))))
    × AllFit quoting same (method_params quoting same) (add ∷ []) ms
    × AllFit quoting same (subscription_params quoting same "Math") (ticks ∷ []) ss
    × AllFit quoting same (notification_params quoting same "Math") [] ns
    × AllFit quoting same (stream_params quoting same) [] ts
render_server_trait-AllFit_example =
    render_server_trait-AllFit quoting same math refl
      ((typed "a" "i32" ∷ typed "b" "i32" ∷ [], refl, adds), tt)
      ((typed "from" "u64" ∷ [], refl, ticks_from), tt) tt tt

abbrev syn : Syntax
syn = record { Ty = String; parse_type = λ s. ok s; last_segment = λ s. none }

abbrev lonely : TraitItemFn String
lonely = record {
  attrs = [];
  sig = record { ident = "lonely"; is_async = true; inputs = []; output = returns "i32" };
}

render_server_trait-no_self_example :
    (m : Description String) × (method_from_trait_fn syn "lonely" lonely ≡ ok m)
    × (render_server_trait quoting same (record {
      service_name = "lonely";
      trait_ident = "Lonely";
      described = record math.described { methods = m ∷ math.described.methods };
    })
        ≡ none)
render_server_trait-no_self_example =
    render_server_trait-no_self same syn "lonely" "Lonely" lonely quoting math.described refl refl

-- Two subscriptions, `tick_tock` and `tick__tock`.
abbrev named : String → Description String
named name = record ticks {
  rpc_name = name;
  signature = record ticks.signature { sig = record ticks.signature.sig { ident = name } };
}

abbrev clashing : ServiceDescription String
clashing = record math {
  described = record math.described { subscriptions = named "tick_tock" ∷ named "tick__tock" ∷ [] };
}

abbrev or_empty : Option (List (Item String)) → List (Item String)
or_empty none = []
or_empty (some items) = items

abbrev items : List (Item String)
unfolding render_service
items = or_empty (render_service quoting same clashing)

render_service-IsDeclarable_iff_example :
    IsDeclarable items ↔ HasDistinctNames quoting same clashing.described
unfolding render_service
render_service-IsDeclarable_iff_example =
    render_service-IsDeclarable_iff quoting same clashing items refl

-- Both are `TickTock` in camel case.
clash : ¬ IsDeclarable items
unfolding capitalize_first render_service
clash declarable =
    let (_, _, _, subs, _) =
      (render_service-IsDeclarable_iff quoting same clashing items refl).0 declarable in
    (Nodup-cons.0 subs).0 ∣ Memᴰ.head refl ∣₁
