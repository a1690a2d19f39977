-- ===== src/Macros/Server/Lookups.antt =====
-- Which callback a server finds for the entries of a generated service.
use zel.Prelude.{
  ◌≡◌, ◌↔◌, refl, sym, ap, subst, ◌∙◌, String, Option, none, some, Result, List, [], ◌∷◌, map,
  lookup, string_key, ◌==◌, beq_self, Bool-cases, inl, inr,
}
use mathlib.Core.List.{Memᴰ}
use mathlib.Core.List.Memᴰ
use zel.Prelude.Maps.{HasUniqueKeys, lookup_of_member, member_of_lookup}
use zel.Types.Errors.{ResourceError}
use zel.Platform.{Platform}
use zel.Breaker.Library.{BreakerLib}
use zel.Server.Registry.{
  ResourceCallback, RpcServerBuilder, find_resource, last_callback, find_resource-register,
}
use zel.Macros.Service.{Description, Described, ServiceDescription}
use zel.Macros.Values.{Values}
use zel.Macros.Server.{
  Invocation, Task, Callback, render_method_registration, render_subscription_registration,
  render_notification_registration, render_stream_registration, registrations,
  render_register_service_body,
}

-- Where no name is registered twice, the last callback of a name is its only one.
last_callback_unique :
    (io : Platform) {F : Type 0} (lib : BreakerLib F) (T : Type 0) (r : String)
    (found : Option (ResourceCallback io lib T)) (rs : List (String × ResourceCallback io lib T))
    → HasUniqueKeys rs
    → last_callback io lib T r found rs ≡ elim (lookup r rs) [ none ↦ found | some c ↦ some c ]
unfolding lookup
last_callback_unique io lib T r found [] u = refl
last_callback_unique io lib T r found ((name, c) ∷ rs) u = elim (Bool-cases (name == r)) [
  | inl same ↦
      let absent : lookup r rs ≡ none =
        ap (λ k. lookup k rs) (sym ((string_key.same_iff name r).0 same)) ∙ u.0 in
      rw same (last_callback_unique io lib T r (some c) rs u.1 ∙ rw absent refl)
  | inr other ↦ rw other (last_callback_unique io lib T r found rs u.1)
]

option_eta : {A : Type 0} (o : Option A) → elim o [ none ↦ none | some c ↦ some c ] ≡ o
option_eta none = refl
option_eta (some c) = refl

module _ (io : Platform) {F : Type 0} (lib : BreakerLib F) {Ty : Type 0} (vals : Values Ty)
    (call : Invocation io lib vals → Result vals.Value ResourceError) where
  -- The service has an entry of this name with this callback.
  pub data Declares (d : Described Ty) : String → Callback io lib vals → Type 0 where
    method :
        (m : Description Ty)
        → Memᴰ m d.methods
        → Declares d
            (render_method_registration io lib vals call m).0
            (render_method_registration io lib vals call m).1
    subscription :
        (m : Description Ty)
        → Memᴰ m d.subscriptions
        → Declares d
            (render_subscription_registration io lib vals m).0
            (render_subscription_registration io lib vals m).1
    notification :
        (m : Description Ty)
        → Memᴰ m d.notifications
        → Declares d
            (render_notification_registration io lib vals m).0
            (render_notification_registration io lib vals m).1
    stream :
        (m : Description Ty)
        → Memᴰ m d.streams
        → Declares d
            (render_stream_registration io lib vals m).0
            (render_stream_registration io lib vals m).1

  module _ (d : Described Ty) where
    abbrev pub registered : List (String × Callback io lib vals)
    registered = registrations io lib vals call d

    registered_of_declared :
        (r : String) (c : Callback io lib vals) → Declares d r c → Memᴰ (r, c) registered
    unfolding registrations
    registered_of_declared r c (method m i) =
        Memᴰ.append_left _ (Memᴰ.map (render_method_registration io lib vals call) i)
    registered_of_declared r c (subscription m i) =
        Memᴰ.append_right (map (render_method_registration io lib vals call) d.methods)
          (Memᴰ.append_left _ (Memᴰ.map (render_subscription_registration io lib vals) i))
    registered_of_declared r c (notification m i) =
        Memᴰ.append_right (map (render_method_registration io lib vals call) d.methods) (
          Memᴰ.append_right (map (render_subscription_registration io lib vals) d.subscriptions)
            (Memᴰ.append_left _ (Memᴰ.map (render_notification_registration io lib vals) i)))
    registered_of_declared r c (stream m i) =
        Memᴰ.append_right (map (render_method_registration io lib vals call) d.methods) (
          Memᴰ.append_right (map (render_subscription_registration io lib vals) d.subscriptions) (
            Memᴰ.append_right (map (render_notification_registration io lib vals) d.notifications)
              (Memᴰ.map (render_stream_registration io lib vals) i)))

    declared_by :
        (f : Description Ty → String × Callback io lib vals) (ms : List (Description Ty))
        (p : String × Callback io lib vals)
        → ((m : Description Ty) → Memᴰ m ms → Declares d (f m).0 (f m).1)
        → Memᴰ p (map f ms)
        → Declares d p.0 p.1
    declared_by f ms p each i =
        let (m, j, e) = Memᴰ.of_map f ms i in subst (λ q. Declares d q.0 q.1) e (each m j)

    declared_of_registered :
        (p : String × Callback io lib vals) → Memᴰ p registered → Declares d p.0 p.1
    unfolding registrations
    declared_of_registered p i =
        elim (Memᴰ.append_cases (map (render_method_registration io lib vals call) d.methods) i) [
          | inl j ↦ declared_by (render_method_registration io lib vals call) d.methods p method j
          | inr j ↦
              elim (Memᴰ.append_cases
                (map (render_subscription_registration io lib vals) d.subscriptions) j) [
                  | inl k ↦
                      declared_by (render_subscription_registration io lib vals) d.subscriptions p
                        subscription k
                  | inr k ↦
                      elim (Memᴰ.append_cases
                        (map (render_notification_registration io lib vals) d.notifications) k) [
                          | inl l ↦
                              declared_by (render_notification_registration io lib vals)
                                d.notifications p notification l
                          | inr l ↦
                              declared_by (render_stream_registration io lib vals) d.streams p
                                stream l
                        ]
                ]
        ]

  -- Where no two entries of a service have one name: after `register_service`, the name of the
  -- service finds a callback under a name exactly if the trait has an entry of that name, with the
  -- callback that is rendered for it.
  pub find_resource-Declares :
      (s : ServiceDescription Ty) (builder : RpcServerBuilder io lib (Task io lib vals))
      (r : String) (c : Callback io lib vals)
      → HasUniqueKeys (registered s.described)
      → (find_resource io lib
            (Task io lib vals)
            (render_register_service_body io lib vals call s builder).services
            s.service_name
            r
          ≡ some c)
        ↔ Declares s.described r c
  unfolding render_register_service_body
  find_resource-Declares s builder r c u =
      let found : find_resource io lib (Task io lib vals)
            (render_register_service_body io lib vals call s builder).services s.service_name r
          ≡ lookup r (registered s.described) =
        find_resource-register io lib (Task io lib vals) builder s.service_name
          (registered s.described) s.service_name r
        ∙ rw (beq_self s.service_name) (
            last_callback_unique io lib (Task io lib vals) r none (registered s.described) u
            ∙ option_eta (lookup r (registered s.described))) in
      (
        λ h.
            declared_of_registered s.described (r, c)
              (member_of_lookup r c (registered s.described) (sym found ∙ h)),
        λ h.
            found
            ∙ lookup_of_member r c (registered s.described) u
                (registered_of_declared s.described r c h),
      )
