-- ===== src/Macros/Service/Rendering.antt =====
-- zel_macros/src/service.rs: of a trait whose functions all take `self` first, the descriptions do.
use zel.Prelude.{
  ◌≡◌, refl, subst, String, Bool-cases, Option, none, some, Option-cases, Result, ok, err,
  Result-cases, inl, inr, List, [], ◌∷◌, ◌++◌,
}
use zel.Macros.Helpers.{Syntax, FnArg, receiver, extract_params, extract_return_type}
use zel.Macros.Service.{
  TraitItemFn, TraitItem, constant, associated_type, method, other, Description, Described,
  ServiceDescription, described_fn, method_from_trait_fn, subscription_from_trait_fn,
  notification_from_trait_fn, stream_from_trait_fn, pushed, as_method, as_subscription,
  as_notification, as_stream, method_or, subscription_or, notification_or, stream_or_none,
  sort_method, sort_item, sort_items, has_none, described_as, from_item, validate, nothing,
  method_paths, notification_paths, stream_paths,
}
use zel.Macros.Signatures.Fitting.{TakesSelf, AllTakeSelf}

module _ (syn : Syntax) where
  open syn use {Ty}

  -- A function that takes `self` first.
  abbrev pub HasSelf : TraitItemFn Ty → Type 0
  HasSelf m = (rest : List (FnArg Ty)) × (m.sig.inputs ≡ receiver ∷ rest)

  abbrev pub AllHaveSelf : List (TraitItem Ty) → Type 0
  AllHaveSelf [] = Unit
  AllHaveSelf (method m ∷ items) = HasSelf m × AllHaveSelf items
  AllHaveSelf (_ ∷ items) = AllHaveSelf items

  AllTakeSelf-append :
      (ds : List (Description Ty)) (d : Description Ty)
      → AllTakeSelf ds
      → TakesSelf d
      → AllTakeSelf (ds ++ d ∷ [])
  AllTakeSelf-append [] d t h = (h, tt)
  AllTakeSelf-append (e ∷ ds) d t h = (t.0, AllTakeSelf-append ds d t.1 h)

  -- All four lists.
  abbrev pub AreReady : Described Ty → Type 0
  AreReady d =
      AllTakeSelf d.methods
      × AllTakeSelf d.subscriptions
      × AllTakeSelf d.notifications
      × AllTakeSelf d.streams

  -- What is described of a function that has `self`.
  abbrev Describes : Result (Description Ty) String → Type 0
  Describes (ok x) = TakesSelf x
  Describes (err e) = Unit

  described_fn-Describes :
      (not_async : String) (paths : List String) (name : String) (result item : Option Ty)
      (m : TraitItemFn Ty)
      → HasSelf m
      → Describes (described_fn syn not_async paths name result item m)
  unfolding extract_params
  described_fn-Describes not_async paths name result item m (rest, e) =
      elim (Bool-cases m.sig.is_async) [
        | inl async ↦
            rw (async, e)
              (elim (Result-cases (extract_params rest)) [
                | inl (ps, k) ↦ rw k (rest, refl, k)
                | inr (x, k) ↦ rw k tt
              ])
        | inr not ↦ rw not tt
      ]

  abbrev Ready : Result (Described Ty) String → Type 0
  Ready (ok d) = AreReady d
  Ready (err e) = Unit

  pushed-Ready :
      (f : Description Ty → Described Ty → Described Ty) (r : Result (Description Ty) String)
      (d : Described Ty)
      → ((x : Description Ty) → TakesSelf x → AreReady (f x d))
      → Describes r
      → Ready (pushed f r d)
  pushed-Ready f (ok x) d keeps h = keeps x h
  pushed-Ready f (err e) d keeps h = tt

  module _ (m : TraitItemFn Ty) (d : Described Ty) (self : HasSelf m) (ready : AreReady d) where
    stream-Ready : (r : Result (Option String) String) → Ready (stream_or_none syn m d r)
    unfolding stream_from_trait_fn
    stream-Ready (err e) = tt
    stream-Ready (ok none) = tt
    stream-Ready (ok (some name)) =
        pushed-Ready as_stream _ d
          (λ x h. (ready.0, ready.1, ready.2, AllTakeSelf-append d.streams x ready.3 h))
          (described_fn-Describes "Stream methods must be async" stream_paths name none none m self)

    notification-Ready :
        (r : Result (Option (String × Option Ty)) String) → Ready (notification_or syn m d r)
    unfolding notification_from_trait_fn
    notification-Ready (err e) = tt
    notification-Ready (ok none) = stream-Ready _
    notification-Ready (ok (some (name, item))) =
        pushed-Ready as_notification _ d
          (λ x h. (ready.0, ready.1, AllTakeSelf-append d.notifications x ready.2 h, ready.3))
          (described_fn-Describes "Notification methods must be async" notification_paths name none
            item m self)

    subscription-Ready :
        (r : Result (Option (String × Option Ty)) String) → Ready (subscription_or syn m d r)
    unfolding subscription_from_trait_fn
    subscription-Ready (err e) = tt
    subscription-Ready (ok none) = notification-Ready _
    subscription-Ready (ok (some (name, item))) =
        pushed-Ready as_subscription _ d
          (λ x h. (ready.0, AllTakeSelf-append d.subscriptions x ready.1 h, ready.2, ready.3))
          (described_fn-Describes "Subscription methods must be async" method_paths name none item m
            self)

    method-Ready : (r : Result (Option String) String) → Ready (method_or syn m d r)
    unfolding method_from_trait_fn
    method-Ready (err e) = tt
    method-Ready (ok none) = subscription-Ready _
    method-Ready (ok (some name)) =
        pushed-Ready as_method _ d
          (λ x h. (AllTakeSelf-append d.methods x ready.0 h, ready.1, ready.2, ready.3))
          (described_fn-Describes "RPC methods must be async" method_paths name
            (extract_return_type syn m.sig.output) none m self)

  sort_item-Ready :
      (item : TraitItem Ty) (d : Described Ty)
      → AllHaveSelf (item ∷ [])
      → AreReady d
      → Ready (sort_item syn item d)
  unfolding sort_item sort_method
  sort_item-Ready (method m) d h ready = method-Ready m d h.0 ready _
  sort_item-Ready constant d h ready = tt
  sort_item-Ready associated_type d h ready = tt
  sort_item-Ready other d h ready = tt

  head_of :
      (item : TraitItem Ty) (items : List (TraitItem Ty))
      → AllHaveSelf (item ∷ items)
      → AllHaveSelf (item ∷ [])
  head_of (method m) items h = (h.0, tt)
  head_of constant items h = tt
  head_of associated_type items h = tt
  head_of other items h = tt

  tail_of :
      (item : TraitItem Ty) (items : List (TraitItem Ty))
      → AllHaveSelf (item ∷ items)
      → AllHaveSelf items
  tail_of (method m) items h = h.1
  tail_of constant items h = h
  tail_of associated_type items h = h
  tail_of other items h = h

  sort_items-Ready :
      (items : List (TraitItem Ty)) (d : Described Ty)
      → AllHaveSelf items
      → AreReady d
      → Ready (sort_items syn items d)
  unfolding sort_items
  sort_items-Ready [] d h ready = ready
  sort_items-Ready (item ∷ items) d h ready = elim (Result-cases (sort_item syn item d)) [
    | inl (u, e) ↦
        let sorted : AreReady u =
          subst Ready e (sort_item-Ready item d (head_of item items h) ready) in
        rw (sort_items, e) (sort_items-Ready items u (tail_of item items h) sorted)
    | inr (x, e) ↦ rw (sort_items, e) tt
  ]

  abbrev pub IsReady : String → Result (ServiceDescription Ty) String → Type 0
  IsReady trait_ident (ok s) = (s.trait_ident ≡ trait_ident) × AreReady s.described
  IsReady trait_ident (err e) = Unit

  described_as-IsReady :
      (name trait_ident : String) (r : Result (Described Ty) String)
      → Ready r
      → IsReady trait_ident (described_as syn name trait_ident r)
  described_as-IsReady name trait_ident (err e) h = tt
  described_as-IsReady name trait_ident (ok d) h = elim (Bool-cases (has_none d)) [
    | inl n ↦ rw n tt
    | inr n ↦ rw n (refl, h)
  ]

  pub from_item-IsReady :
      (name trait_ident : String) (items : List (TraitItem Ty))
      → AllHaveSelf items
      → IsReady trait_ident (from_item syn name trait_ident items)
  unfolding from_item
  from_item-IsReady name trait_ident items h = elim (Option-cases (validate syn items)) [
    | inl e ↦
        rw (from_item, e)
          (described_as-IsReady name trait_ident (sort_items syn items nothing)
            (sort_items-Ready items nothing h (tt, tt, tt, tt)))
    | inr (x, e) ↦ rw (from_item, e) tt
  ]
