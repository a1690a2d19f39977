-- ===== src/Macros/Service/Servable.antt =====
-- Which functions of a trait the service macro can sort.
use zel.Prelude.{
  ◌≡◌, ◌↔◌, refl, sym, ◌∙◌, String, true, Bool-cases, Option, none, some, Result, ok, err, is_ok,
  Result-cases, inl, inr, List,
}
use zel.Macros.Helpers.{Syntax, extract_params, extract_return_type}
use zel.Macros.Service.{
  TraitItemFn, Description, Described, described_fn, pushed, as_method, as_subscription,
  as_notification, as_stream, method_or, subscription_or, notification_or, stream_or_none,
  method_from_trait_fn, subscription_from_trait_fn, notification_from_trait_fn,
  stream_from_trait_fn, method_paths, notification_paths, stream_paths, sort_method,
}
use zel.Macros.Service.Descriptions.{method_attr, subscription_attr, notification_attr, stream_attr}

pushed_ok :
    {Ty : Type 0} (f : Description Ty → Described Ty → Described Ty)
    (r : Result (Description Ty) String) (d : Described Ty)
    → is_ok (pushed f r d) ≡ is_ok r
pushed_ok f (ok x) d = refl
pushed_ok f (err e) d = refl

module _ (syn : Syntax) where
  open syn use {Ty, parse_type}

  -- The function has an attribute of a kind of endpoint, and all that are looked for up to it can be
  -- read.
  pub data HasKind (m : TraitItemFn Ty) : Type 0 where
    is_method : (name : String) → method_attr syn m ≡ ok (some name) → HasKind m
    is_subscription :
        (a : String × Option Ty)
        → method_attr syn m ≡ ok none
        → subscription_attr syn m ≡ ok (some a)
        → HasKind m
    is_notification :
        (a : String × Option Ty)
        → method_attr syn m ≡ ok none
        → subscription_attr syn m ≡ ok none
        → notification_attr syn m ≡ ok (some a)
        → HasKind m
    is_stream :
        (name : String)
        → method_attr syn m ≡ ok none
        → subscription_attr syn m ≡ ok none
        → notification_attr syn m ≡ ok none
        → stream_attr syn m ≡ ok (some name)
        → HasKind m

  -- It is `async`, its parameters can be read, and it is of some kind.
  abbrev pub IsServable : TraitItemFn Ty → Type 0
  IsServable m = (m.sig.is_async ≡ true) × (is_ok (extract_params m.sig.inputs) ≡ true) × HasKind m

  described_fn_ok_iff :
      (not_async : String) (paths : List String) (name : String) (result item : Option Ty)
      (m : TraitItemFn Ty)
      → (is_ok (described_fn syn not_async paths name result item m) ≡ true)
        ↔ ((m.sig.is_async ≡ true) × (is_ok (extract_params m.sig.inputs) ≡ true))
  described_fn_ok_iff not_async paths name result item m = elim (Bool-cases m.sig.is_async) [
    | inl a ↦ elim (Result-cases (extract_params m.sig.inputs)) [
      | inl (ps, e) ↦ rw (a, e) (λ _. (refl, refl), λ _. refl)
      | inr (x, e) ↦ rw (a, e) (λ h. absurd (cc h), λ h. absurd (cc h.1))
    ]
    | inr n ↦ rw n (λ h. absurd (cc h), λ h. absurd (cc h.0))
  ]

  module _ (m : TraitItemFn Ty) (d : Described Ty) where
    abbrev CanSort : Result (Described Ty) String → Type 0
    CanSort r = is_ok r ≡ true

    of_kind :
        (f : Description Ty → Described Ty → Described Ty) (not_async : String)
        (paths : List String) (name : String) (result item : Option Ty)
        → HasKind m
        → CanSort (pushed f (described_fn syn not_async paths name result item m) d)
        → IsServable m
    of_kind f not_async paths name result item k h =
        let (a, p) =
          (described_fn_ok_iff not_async paths name result item m).0
            (sym (pushed_ok f (described_fn syn not_async paths name result item m) d) ∙ h) in
        (a, p, k)

    stream_or_none-IsServable :
        (r : Result (Option String) String)
        → method_attr syn m ≡ ok none
        → subscription_attr syn m ≡ ok none
        → notification_attr syn m ≡ ok none
        → stream_attr syn m ≡ r
        → CanSort (stream_or_none syn m d r)
        → IsServable m
    unfolding stream_from_trait_fn
    stream_or_none-IsServable (err e) a b c k h = absurd (cc h)
    stream_or_none-IsServable (ok none) a b c k h = absurd (cc h)
    stream_or_none-IsServable (ok (some name)) a b c k h =
        of_kind as_stream "Stream methods must be async" stream_paths name none none
          (is_stream name a b c k) h

    notification_or-IsServable :
        (r : Result (Option (String × Option Ty)) String)
        → method_attr syn m ≡ ok none
        → subscription_attr syn m ≡ ok none
        → notification_attr syn m ≡ r
        → CanSort (notification_or syn m d r)
        → IsServable m
    unfolding notification_from_trait_fn
    notification_or-IsServable (err e) a b c h = absurd (cc h)
    notification_or-IsServable (ok none) a b c h = stream_or_none-IsServable _ a b c refl h
    notification_or-IsServable (ok (some (name, item))) a b c h =
        of_kind as_notification "Notification methods must be async" notification_paths name none
          item (is_notification (name, item) a b c) h

    subscription_or-IsServable :
        (r : Result (Option (String × Option Ty)) String)
        → method_attr syn m ≡ ok none
        → subscription_attr syn m ≡ r
        → CanSort (subscription_or syn m d r)
        → IsServable m
    unfolding subscription_from_trait_fn
    subscription_or-IsServable (err e) a b h = absurd (cc h)
    subscription_or-IsServable (ok none) a b h = notification_or-IsServable _ a b refl h
    subscription_or-IsServable (ok (some (name, item))) a b h =
        of_kind as_subscription "Subscription methods must be async" method_paths name none item
          (is_subscription (name, item) a b) h

    pub method_or-IsServable :
        (r : Result (Option String) String)
        → method_attr syn m ≡ r
        → CanSort (method_or syn m d r)
        → IsServable m
    unfolding method_from_trait_fn
    method_or-IsServable (err e) a h = absurd (cc h)
    method_or-IsServable (ok none) a h = subscription_or-IsServable _ a refl h
    method_or-IsServable (ok (some name)) a h =
        of_kind as_method "RPC methods must be async" method_paths name
          (extract_return_type syn m.sig.output) none (is_method name a) h

    can_push :
        (f : Description Ty → Described Ty → Described Ty) (not_async : String)
        (paths : List String) (name : String) (result item : Option Ty)
        → m.sig.is_async ≡ true
        → is_ok (extract_params m.sig.inputs) ≡ true
        → CanSort (pushed f (described_fn syn not_async paths name result item m) d)
    can_push f not_async paths name result item a p =
        pushed_ok f (described_fn syn not_async paths name result item m) d
        ∙ (described_fn_ok_iff not_async paths name result item m).1 (a, p)

    pub sort_method_ok : IsServable m → CanSort (sort_method syn m d)
    unfolding sort_method method_from_trait_fn subscription_from_trait_fn notification_from_trait_fn
        stream_from_trait_fn
    sort_method_ok (a, p, is_method name k) =
        rw (sort_method, k)
          (can_push as_method "RPC methods must be async" method_paths name
            (extract_return_type syn m.sig.output) none a p)
    sort_method_ok (a, p, is_subscription (name, item) k l) =
        rw (sort_method, k, l)
          (can_push as_subscription "Subscription methods must be async" method_paths name none item
            a p)
    sort_method_ok (a, p, is_notification (name, item) k l n) =
        rw (sort_method, k, l, n)
          (can_push as_notification "Notification methods must be async" notification_paths name
            none item a p)
    sort_method_ok (a, p, is_stream name k l n s) =
        rw (sort_method, k, l, n, s)
          (can_push as_stream "Stream methods must be async" stream_paths name none none a p)
