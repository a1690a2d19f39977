-- ===== src/Macros/Service/Placement.antt =====
-- Where the description of a service has the functions of its trait.
use zel.Prelude.{
  ◌≡◌, refl, sym, ap, subst, ◌∙◌, String, Bool-cases, Option, none, some, Option-cases, Result, ok,
  err, Result-cases, inl, inr, List, [], ◌∷◌,
}
use mathlib.Core.List.{Memᴰ}
use zel.Macros.Helpers.{Syntax, extract_return_type}
use zel.Macros.Service.{
  TraitItemFn, TraitItem, constant, associated_type, method, other, Description, Described,
  ServiceDescription, method_from_trait_fn, subscription_from_trait_fn, notification_from_trait_fn,
  stream_from_trait_fn, as_method, as_subscription, as_notification, as_stream, method_or,
  subscription_or, notification_or, stream_or_none, sort_method, sort_item, sort_items, has_none,
  described_as, from_item, validate, nothing, method_paths, notification_paths, stream_paths,
}
use zel.Macros.Service.Descriptions.{
  pushed-ok, described_fn-Matches, Grows, Grows-refl, Placed-Grows, Grows-trans, at_end,
  Grows-method, Grows-subscription, Grows-notification, Grows-stream, Placed, in_methods,
  in_subscriptions, in_notifications, in_streams, method_attr, subscription_attr, notification_attr,
  stream_attr,
}

module _ (syn : Syntax) where
  open syn use {Ty, parse_type}

  module _ (m : TraitItemFn Ty) (d d' : Described Ty) where
    -- What sorting the function does.
    abbrev Sorted : Type 0
    Sorted = Placed syn m d' × Grows syn d d'

    sorted_as :
        (f : Description Ty → Described Ty → Described Ty) (x : Description Ty)
        → f x d ≡ d'
        → Placed syn m (f x d)
        → Grows syn d (f x d)
        → Sorted
    sorted_as f x e p g = subst (λ d'. Placed syn m d' × Grows syn d d') e (p, g)

    stream_or_none-Sorted :
        (r : Result (Option String) String)
        → method_attr syn m ≡ ok none
        → subscription_attr syn m ≡ ok none
        → notification_attr syn m ≡ ok none
        → stream_attr syn m ≡ r
        → stream_or_none syn m d r ≡ ok d'
        → Sorted
    unfolding stream_from_trait_fn
    stream_or_none-Sorted (err e) a b c k h = absurd (cc h)
    stream_or_none-Sorted (ok none) a b c k h = absurd (cc h)
    stream_or_none-Sorted (ok (some name)) a b c k h =
        let (x, made, e) = pushed-ok as_stream _ d d' h in
        sorted_as as_stream x e
          (in_streams name x a b c k
            (described_fn-Matches syn "Stream methods must be async" stream_paths name none none m x
              made)
            (at_end syn x d.streams))
          (Grows-stream syn d x)

    notification_or-Sorted :
        (r : Result (Option (String × Option Ty)) String)
        → method_attr syn m ≡ ok none
        → subscription_attr syn m ≡ ok none
        → notification_attr syn m ≡ r
        → notification_or syn m d r ≡ ok d'
        → Sorted
    unfolding notification_from_trait_fn
    notification_or-Sorted (err e) a b c h = absurd (cc h)
    notification_or-Sorted (ok none) a b c h = stream_or_none-Sorted _ a b c refl h
    notification_or-Sorted (ok (some (name, item))) a b c h =
        let (x, made, e) = pushed-ok as_notification _ d d' h in
        sorted_as as_notification x e
          (in_notifications name item x a b c
            (described_fn-Matches syn "Notification methods must be async" notification_paths name
              none item m x made)
            (at_end syn x d.notifications))
          (Grows-notification syn d x)

    subscription_or-Sorted :
        (r : Result (Option (String × Option Ty)) String)
        → method_attr syn m ≡ ok none
        → subscription_attr syn m ≡ r
        → subscription_or syn m d r ≡ ok d'
        → Sorted
    unfolding subscription_from_trait_fn
    subscription_or-Sorted (err e) a b h = absurd (cc h)
    subscription_or-Sorted (ok none) a b h = notification_or-Sorted _ a b refl h
    subscription_or-Sorted (ok (some (name, item))) a b h =
        let (x, made, e) = pushed-ok as_subscription _ d d' h in
        sorted_as as_subscription x e
          (in_subscriptions name item x a b
            (described_fn-Matches syn "Subscription methods must be async" method_paths name none
              item m x made)
            (at_end syn x d.subscriptions))
          (Grows-subscription syn d x)

    method_or-Sorted :
        (r : Result (Option String) String)
        → method_attr syn m ≡ r
        → method_or syn m d r ≡ ok d'
        → Sorted
    unfolding method_from_trait_fn
    method_or-Sorted (err e) a h = absurd (cc h)
    method_or-Sorted (ok none) a h = subscription_or-Sorted _ a refl h
    method_or-Sorted (ok (some name)) a h =
        let (x, made, e) = pushed-ok as_method _ d d' h in
        sorted_as as_method x e
          (in_methods name x a
            (described_fn-Matches syn "RPC methods must be async" method_paths name
              (extract_return_type syn m.sig.output) none m x made)
            (at_end syn x d.methods))
          (Grows-method syn d x)

  sort_item-Grows :
      (item : TraitItem Ty) (d d' : Described Ty) → sort_item syn item d ≡ ok d' → Grows syn d d'
  unfolding sort_item sort_method
  sort_item-Grows (method m) d d' h = (method_or-Sorted m d d' _ refl h).1
  sort_item-Grows constant d d' h = absurd (cc h)
  sort_item-Grows associated_type d d' h = absurd (cc h)
  sort_item-Grows other d d' h = absurd (cc h)

  sort_item-Placed :
      (m : TraitItemFn Ty) (item : TraitItem Ty) (d d' : Described Ty)
      → method m ≡ item
      → sort_item syn item d ≡ ok d'
      → Placed syn m d'
  unfolding sort_item sort_method
  sort_item-Placed m item d d' e h =
      (method_or-Sorted m d d' _ refl (ap (λ i. sort_item syn i d) e ∙ h)).0

  -- After the first of some items, the others.
  pub sort_items-rest :
      (item : TraitItem Ty) (items : List (TraitItem Ty)) (d d' : Described Ty)
      → sort_items syn (item ∷ items) d ≡ ok d'
      → (u : Described Ty) × (sort_item syn item d ≡ ok u) × (sort_items syn items u ≡ ok d')
  unfolding sort_items
  sort_items-rest item items d d' h = elim (Result-cases (sort_item syn item d)) [
    | inl (u, e) ↦
        let more : sort_items syn (item ∷ items) d ≡ sort_items syn items u =
          rw (sort_items, e) refl in
        (u, e, sym more ∙ h)
    | inr (x, e) ↦
        let stop : sort_items syn (item ∷ items) d ≡ err x = rw (sort_items, e) refl in
        absurd (cc (sym stop ∙ h))
  ]

  sort_items-Grows :
      (items : List (TraitItem Ty)) (d d' : Described Ty)
      → sort_items syn items d ≡ ok d'
      → Grows syn d d'
  unfolding sort_items
  sort_items-Grows [] d d' h =
      subst (Grows syn d) (ap (λ r. elim r [ ok y ↦ y | err e ↦ d ]) h) (Grows-refl syn d)
  sort_items-Grows (item ∷ items) d d' h =
      let (u, e, more) = sort_items-rest item items d d' h in
      Grows-trans syn d u d' (sort_item-Grows item d u e) (sort_items-Grows items u d' more)

  sort_items-Placed :
      (m : TraitItemFn Ty) (items : List (TraitItem Ty)) (d d' : Described Ty)
      → Memᴰ (method m) items
      → sort_items syn items d ≡ ok d'
      → Placed syn m d'
  sort_items-Placed m [] d d' i h = elim i [ ]
  sort_items-Placed m (item ∷ items) d d' (Memᴰ.head same) h =
      let (u, e, more) = sort_items-rest item items d d' h in
      Placed-Grows syn m u d' (sort_items-Grows items u d' more)
        (sort_item-Placed m item d u same e)
  sort_items-Placed m (item ∷ items) d d' (Memᴰ.tail i) h =
      let (u, e, more) = sort_items-rest item items d d' h in sort_items-Placed m items u d' i more

  described_as-ok :
      (name trait_ident : String) (r : Result (Described Ty) String) (s : ServiceDescription Ty)
      → described_as syn name trait_ident r ≡ ok s
      → r ≡ ok s.described
  described_as-ok name trait_ident (err e) s h = absurd (cc h)
  described_as-ok name trait_ident (ok d) s h = elim (Bool-cases (has_none d)) [
    | inl n ↦
        let refused : Result (ServiceDescription Ty) String =
          err
            "Service trait must have at least one method, subscription, notification, or stream" in
        let e : described_as syn name trait_ident (ok d) ≡ refused = rw n refl in
        absurd (cc (sym e ∙ h))
    | inr n ↦
        let made : ServiceDescription Ty = record {
          service_name = name;
          trait_ident = trait_ident;
          described = d;
        } in
        let e : described_as syn name trait_ident (ok d) ≡ ok made = rw n refl in
        ap (λ r. elim r [ ok t ↦ ok t.described | err e ↦ ok d ]) (sym e ∙ h)
  ]

  pub sorted_of :
      (name trait_ident : String) (items : List (TraitItem Ty)) (s : ServiceDescription Ty)
      → from_item syn name trait_ident items ≡ ok s
      → sort_items syn items nothing ≡ ok s.described
  unfolding from_item
  sorted_of name trait_ident items s h = elim (Option-cases (validate syn items)) [
    | inl e ↦
        let accepted : from_item syn name trait_ident items
            ≡ described_as syn name trait_ident (sort_items syn items nothing) =
          rw (from_item, e) refl in
        described_as-ok name trait_ident (sort_items syn items nothing) s (sym accepted ∙ h)
    | inr (x, e) ↦
        let rejected : from_item syn name trait_ident items ≡ err x = rw (from_item, e) refl in
        absurd (cc (sym rejected ∙ h))
  ]

  -- Where the macro accepts a trait, each of its functions is described in the list that its
  -- attributes ask for, that of the first kind it has in the order method, subscription,
  -- notification, stream: under the name of the attribute, with the function's signature and the
  -- parameters read of it, the result of a method, and the item of a subscription or notification.
  pub from_item-Placed :
      (name trait_ident : String) (items : List (TraitItem Ty)) (s : ServiceDescription Ty)
      (m : TraitItemFn Ty)
      → from_item syn name trait_ident items ≡ ok s
      → Memᴰ (method m) items
      → Placed syn m s.described
  from_item-Placed name trait_ident items s m h i =
      sort_items-Placed m items nothing s.described i (sorted_of name trait_ident items s h)
