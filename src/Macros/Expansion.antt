-- ===== src/Macros/Expansion.antt =====
-- zel_macros/src/lib.rs: the macro itself, from the parsed attribute and trait to what is rendered.
use zel.Prelude.{
  false, ◌≡◌, ◌⊎◌, refl, sym, ap, subst, ◌∙◌, String, Option, some, Result, ok, err, and_then,
  Result-cases, inl, inr, List, ◌∷◌, ◌++◌, map, concat,
}
use mathlib.Core.List.{append_assoc}
use Prim.Native.Char.{Char}
use zel.Macros.Helpers.{Syntax}
use zel.Macros.Service.{TraitItemFn, TraitItem, ServiceDescription, from_item}
use zel.Macros.Service.Rendering.{AllHaveSelf, IsReady, from_item-IsReady}
use zel.Macros.Signatures.{Quoting, if_some, has_raw_names}
use zel.Macros.Signatures.Fitting.{render_server_trait-AllFit}
use zel.Macros.Items.{
  Item, server_trait, client_struct, render_service, render_typed_sinks, render_typed_receivers,
  render_client_struct, render_subscription_stream, render_notification_sender,
}
use zel.Macros.Items.Clashes.{items_of}

-- The items that are rendered, or a panic.
unfoldable pub zel_service :
    (syn : Syntax)
    → Quoting syn.Ty
    → (Char → String)
    → (name trait_ident : String) → List (TraitItem syn.Ty)
    → Result (Option (List (Item syn.Ty))) String
unfolding from_item render_service
zel_service syn quoting to_uppercase name trait_ident items =
    and_then (from_item syn name trait_ident items)
      (λ s. ok (render_service quoting to_uppercase s))

-- The macro does not panic on a trait whose functions all take `self` first, with no raw name among
-- those of its subscriptions and notifications: it rejects the trait
-- with an error, or renders its code, and in it a server trait, under the name of the trait followed
-- by `Server`, and right after it a client, under that name followed by `Client`.
pub zel_service-renders :
    (syn : Syntax) (quoting : Quoting syn.Ty) (to_uppercase : Char → String)
    (name trait_ident : String) (items : List (TraitItem syn.Ty))
    → AllHaveSelf syn items
    → ((s : ServiceDescription syn.Ty)
        → from_item syn name trait_ident items ≡ ok s
        → has_raw_names quoting to_uppercase s.described ≡ false)
    → ((e : String) × (zel_service syn quoting to_uppercase name trait_ident items ≡ err e))
      ⊎ ((before after : List (Item syn.Ty)) × (server client : Item syn.Ty) × (zel_service syn
              quoting to_uppercase name trait_ident items
            ≡ ok (some (before ++ server ∷ client ∷ after)))
          × (server.name ≡ concat trait_ident "Server")
          × (client.name ≡ concat trait_ident "Client"))
unfolding zel_service render_service render_client_struct
zel_service-renders syn quoting to_uppercase name trait_ident items h named_well =
    elim (Result-cases (from_item syn name trait_ident items)) [
      | inr (x, e) ↦ inl (x, rw (zel_service, e) refl)
      | inl (s, e) ↦
          let (named, ready) =
            subst (IsReady syn trait_ident) e (from_item-IsReady syn name trait_ident items h) in
          let (ms, ss, ns, ts, r, _, _, _, _) =
            render_server_trait-AllFit quoting to_uppercase s (named_well s e) ready.0 ready.1
              ready.2 ready.3 in
          let t : String × List (TraitItemFn syn.Ty) =
            (concat s.trait_ident "Server", ms ++ (ss ++ (ns ++ ts))) in
          let sinks =
            render_typed_sinks quoting to_uppercase s.trait_ident s.described.subscriptions in
          let receivers =
            render_typed_receivers quoting to_uppercase s.trait_ident s.described.notifications in
          let client = client_struct quoting to_uppercase s in
          let wrappers =
            map (render_subscription_stream quoting to_uppercase s.trait_ident)
              s.described.subscriptions
            ++ map (render_notification_sender quoting to_uppercase s.trait_ident)
                s.described.notifications in
          inr (
            sinks ++ receivers,
            wrappers,
            server_trait quoting to_uppercase t,
            client,
            ap (λ d. and_then d (λ s. ok (render_service quoting to_uppercase s))) e
                ∙ ap (λ o. ok (if_some o (λ t. some (items_of quoting to_uppercase s t)))) r
                ∙ ap (λ items. ok (some items))
                    (sym (
                      append_assoc sinks receivers
                        (server_trait quoting to_uppercase t ∷ client ∷ wrappers))),
            ap (λ n. concat n "Server") named,
            ap (λ n. concat n "Client") named,
          )
    ]
