-- ===== src/Macros/Server/Duplicates.antt =====
-- Two methods of a trait under one name: what the server finds for the first.
use zel.Prelude.{◌≡◌, refl, ◌∙◌, String, some, Result, ok, [], ◌∷◌, string_key, beq_self}
use zel.Types.Errors.{ResourceError}
use zel.Platform.{Platform}
use zel.Breaker.Library.{BreakerLib}
use zel.Server.Registry.{rpc, RpcServerBuilder, find_resource, find_resource-register}
use zel.Macros.Helpers.{Syntax}
use zel.Macros.Service.{TraitItemFn, method, Description, ServiceDescription, from_item}
use zel.Macros.Service.Duplicates.{IsMethod, from_item-two}
use zel.Macros.Values.{Values}
use zel.Macros.Server.{
  Invocation, Task, method_callback, render_method_registration, registrations,
  render_register_service_body,
}

module _ (syn : Syntax) (io : Platform) {F : Type 0} (lib : BreakerLib F) (vals : Values syn.Ty)
    (local : Invocation io lib vals → Result vals.Value ResourceError) where
  -- The macro does not look for a name that is given twice. A trait of two functions that are
  -- accepted as methods, with one name in their attributes, is accepted and both are described; but
  -- the server that runs the generated service finds under the name of the first the callback of the
  -- second, so that no call reaches the first function.
  pub second_method_wins :
      (service trait_ident name : String) (m1 m2 : TraitItemFn syn.Ty)
      (builder : RpcServerBuilder io lib (Task io lib vals))
      → IsMethod syn name m1
      → IsMethod syn name m2
      → (d1 d2 : Description syn.Ty) × (s : ServiceDescription syn.Ty) × (from_item syn service
            trait_ident
            (method m1 ∷ method m2 ∷ [])
          ≡ ok s)
        × (s.described.methods ≡ d1 ∷ d2 ∷ [])
        × (d1.signature.sig ≡ m1.sig)
        × (d2.signature.sig ≡ m2.sig)
        × (find_resource io lib
              (Task io lib vals)
              (render_register_service_body io lib vals local s builder).services
              s.service_name
              d1.rpc_name
            ≡ some (rpc (method_callback io lib vals local d2)))
  unfolding render_register_service_body registrations render_method_registration
  second_method_wins service trait_ident name m1 m2 builder v1 v2 =
      let (d1, d2, s, e, _, same, (n1, g1), (n2, g2)) =
        from_item-two syn service trait_ident name m1 m2 v1 v2 in
      (
        d1,
        d2,
        s,
        e,
        rw same refl,
        g1,
        g2,
        find_resource-register io lib (Task io lib vals) builder s.service_name
              (registrations io lib vals local s.described) s.service_name d1.rpc_name
            ∙ rw (beq_self s.service_name, same, n1, n2, beq_self name) refl,
      )
