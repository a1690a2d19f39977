-- ===== src/Macros/Service/Duplicates.antt =====
-- Two methods of a trait under one name.
use zel.Prelude.{◌≡◌, refl, String, true, none, some, ok, is_ok, [], ◌∷◌}
use zel.Macros.Helpers.{Syntax, extract_params, extract_return_type}
use zel.Macros.Service.{
  TraitItemFn, method, Description, Described, ServiceDescription, as_method, nothing, method_paths,
  method_from_trait_fn, sort_method, sort_item, sort_items, validate, from_item,
}
use zel.Macros.Service.Descriptions.{method_attr, read_as}
use zel.Macros.Service.Acceptance.{ok_of}

module _ (syn : Syntax) where
  open syn use {Ty}

  -- A method whose attribute gives this name, and that the macro accepts.
  pub record IsMethod (name : String) (m : TraitItemFn Ty) : Type 0 where
    pub is_async : m.sig.is_async ≡ true
    pub reads : is_ok (extract_params m.sig.inputs) ≡ true
    pub named : method_attr syn m ≡ ok (some name)

  sorted_method :
      (name : String) (m : TraitItemFn Ty) (d : Described Ty)
      → IsMethod name m
      → (x : Description Ty) × (sort_method syn m d ≡ ok (as_method x d))
        × (x.rpc_name ≡ name)
        × (x.signature.sig ≡ m.sig)
  unfolding sort_method method_from_trait_fn
  sorted_method name m d v =
      let (ps, e) = ok_of (extract_params m.sig.inputs) v.reads in
      (
        read_as syn method_paths name (extract_return_type syn m.sig.output) none m ps,
        rw (sort_method, v.named, v.is_async, e) refl,
        refl,
        refl,
      )

  -- The macro accepts a trait of two methods whose attributes give one name, and describes both.
  pub from_item-two :
      (service trait_ident name : String) (m1 m2 : TraitItemFn Ty)
      → IsMethod name m1
      → IsMethod name m2
      → (d1 d2 : Description Ty) × (s : ServiceDescription Ty) × (from_item syn service trait_ident
            (method m1 ∷ method m2 ∷ [])
          ≡ ok s)
        × (s.service_name ≡ service)
        × (s.described ≡ as_method d2 (as_method d1 nothing))
        × ((d1.rpc_name ≡ name) × (d1.signature.sig ≡ m1.sig))
        × ((d2.rpc_name ≡ name) × (d2.signature.sig ≡ m2.sig))
  unfolding from_item validate sort_items sort_item
  from_item-two service trait_ident name m1 m2 v1 v2 =
      let (d1, e1, n1, g1) = sorted_method name m1 nothing v1 in
      let (d2, e2, n2, g2) = sorted_method name m2 (as_method d1 nothing) v2 in
      let s : ServiceDescription Ty = record {
        service_name = service;
        trait_ident = trait_ident;
        described = as_method d2 (as_method d1 nothing);
      } in
      (d1, d2, s, rw (sort_items, sort_item, e1, e2) refl, refl, refl, (n1, g1), (n2, g2))
