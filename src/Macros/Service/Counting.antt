-- ===== src/Macros/Service/Counting.antt =====
-- How many entries a service description has.
use zel.Prelude.{
  ℕ, ◌+◌, ◌≡◌, ◌≢◌, refl, sym, ap, ◌∙◌, Result-cases, Option-cases, Bool-cases, ◌<◌, inl, inr,
  String, true, Option, none, some, Result, ok, err, List, [], ◌∷◌, string_key, length,
  length-append, arith,
}
use zel.Macros.Helpers.{Syntax}
use zel.Macros.Service.{
  TraitItemFn, TraitItem, constant, associated_type, method, other, Description, Described,
  ServiceDescription, pushed, as_method, as_subscription, as_notification, as_stream, method_or,
  subscription_or, notification_or, stream_or_none, sort_method, sort_item, sort_items, total,
  has_none, is_empty, described_as, from_item, validate, nothing,
}

is_empty-length : {A : Type 0} (xs : List A) → length xs ≡ 0 → is_empty xs ≡ true
is_empty-length [] h = refl
is_empty-length (x ∷ xs) h = absurd (omega arith)

module _ (syn : Syntax) where
  open syn use {Ty}

  module _ (d d' : Described Ty) where
    total-pushed :
        (f : Description Ty → Described Ty → Described Ty) (r : Result (Description Ty) String)
        → ((x : Description Ty) → total (f x d) ≡ total d + 1)
        → pushed f r d ≡ ok d'
        → total d' ≡ total d + 1
    total-pushed f (ok x) one h = sym (ap (λ r. elim r [ ok e ↦ total e | err e ↦ 0 ]) h) ∙ one x
    total-pushed f (err e) one h = absurd (cc)

    one_method : (x : Description Ty) → total (as_method x d) ≡ total d + 1
    one_method x = omega (arith, length-append d.methods (x ∷ []))

    one_subscription : (x : Description Ty) → total (as_subscription x d) ≡ total d + 1
    one_subscription x = omega (arith, length-append d.subscriptions (x ∷ []))

    one_notification : (x : Description Ty) → total (as_notification x d) ≡ total d + 1
    one_notification x = omega (arith, length-append d.notifications (x ∷ []))

    one_stream : (x : Description Ty) → total (as_stream x d) ≡ total d + 1
    one_stream x = omega (arith, length-append d.streams (x ∷ []))

    module _ (m : TraitItemFn Ty) where
      total-stream :
          (r : Result (Option String) String)
          → stream_or_none syn m d r ≡ ok d'
          → total d' ≡ total d + 1
      total-stream (err e) h = absurd (cc)
      total-stream (ok none) h = absurd (cc)
      total-stream (ok (some name)) h = total-pushed as_stream _ one_stream h

      total-notification :
          (r : Result (Option (String × Option Ty)) String)
          → notification_or syn m d r ≡ ok d'
          → total d' ≡ total d + 1
      total-notification (err e) h = absurd (cc)
      total-notification (ok none) h = total-stream _ h
      total-notification (ok (some (name, item))) h =
          total-pushed as_notification _ one_notification h

      total-subscription :
          (r : Result (Option (String × Option Ty)) String)
          → subscription_or syn m d r ≡ ok d'
          → total d' ≡ total d + 1
      total-subscription (err e) h = absurd (cc)
      total-subscription (ok none) h = total-notification _ h
      total-subscription (ok (some (name, item))) h =
          total-pushed as_subscription _ one_subscription h

      total-method :
          (r : Result (Option String) String) → method_or syn m d r ≡ ok d' → total d' ≡ total d + 1
      total-method (err e) h = absurd (cc)
      total-method (ok none) h = total-subscription _ h
      total-method (ok (some name)) h = total-pushed as_method _ one_method h

    total-sort_item : (item : TraitItem Ty) → sort_item syn item d ≡ ok d' → total d' ≡ total d + 1
    unfolding sort_item sort_method
    total-sort_item (method m) h = total-method m _ h
    total-sort_item constant h = absurd (cc)
    total-sort_item associated_type h = absurd (cc)
    total-sort_item other h = absurd (cc)

  pub total-sort_items :
      (items : List (TraitItem Ty)) (d d' : Described Ty)
      → sort_items syn items d ≡ ok d'
      → total d' ≡ total d + length items
  unfolding sort_items
  total-sort_items [] d d' h =
      let same : total d ≡ total d' = ap (λ r. elim r [ ok e ↦ total e | err e ↦ 0 ]) h in
      omega arith
  total-sort_items (item ∷ rest) d d' h = elim (Result-cases (sort_item syn item d)) [
    | inl (u, e) ↦
        let more : sort_items syn (item ∷ rest) d ≡ sort_items syn rest u =
          rw (sort_items, e) refl in
        omega (arith, total-sort_item d u item e, total-sort_items rest u d' (sym more ∙ h))
    | inr (x, e) ↦
        let stop : sort_items syn (item ∷ rest) d ≡ err x = rw (sort_items, e) refl in
        absurd (cc (sym stop ∙ h))
  ]

  has_none-total : (d : Described Ty) → total d ≡ 0 → has_none d ≡ true
  has_none-total d h =
      rw
        (
          is_empty-length d.methods (omega arith),
          is_empty-length d.subscriptions (omega arith),
          is_empty-length d.notifications (omega arith),
          is_empty-length d.streams (omega arith),
        )
        refl

  -- A total that is read as 0 where there is no description.
  abbrev total_of : Result (ServiceDescription Ty) String → ℕ
  total_of (ok s) = total s.described
  total_of (err e) = 0

  abbrev name_of : String → Result (ServiceDescription Ty) String → String
  name_of default (ok s) = s.service_name
  name_of default (err e) = default

  from_described :
      (name trait_ident : String) (items : List (TraitItem Ty)) (r : Result (Described Ty) String)
      (s : ServiceDescription Ty)
      → ((d : Described Ty) → r ≡ ok d → total d ≡ length items)
      → described_as syn name trait_ident r ≡ ok s
      → (s.service_name ≡ name) × (total s.described ≡ length items) × (0 < length items)
  from_described name trait_ident items (err e) s t h = absurd (cc)
  from_described name trait_ident items (ok d) s t h = elim (Bool-cases (has_none d)) [
    | inl n ↦
        let refused : Result (ServiceDescription Ty) String =
          err
            "Service trait must have at least one method, subscription, notification, or stream" in
        let e : described_as syn name trait_ident (ok d) ≡ refused = rw n refl in
        absurd (cc (sym e ∙ h))
    | inr n ↦
        let made : ServiceDescription Ty = record {
          service_name = name;
          trait_ident = trait_ident;
          described = d;
        } in
        let e : described_as syn name trait_ident (ok d) ≡ ok made = rw n refl in
        let same : total d ≡ total s.described = ap total_of (sym e ∙ h) in
        let some_total : total d ≢ 0 = λ z. absurd (cc (has_none-total d z)) in
        (ap (name_of name) (sym h ∙ e), omega (arith, t d refl), ground (arith, t d refl))
  ]

  -- Where the macro accepts a trait, the description has the name of the service, its four lists
  -- together have as many entries as the trait has items, and there is at least one.
  pub total-from_item :
      (name trait_ident : String) (items : List (TraitItem Ty)) (s : ServiceDescription Ty)
      → from_item syn name trait_ident items ≡ ok s
      → (s.service_name ≡ name) × (total s.described ≡ length items) × (0 < length items)
  unfolding from_item
  total-from_item name trait_ident items s h = elim (Option-cases (validate syn items)) [
    | inl e ↦
        let accepted : from_item syn name trait_ident items
            ≡ described_as syn name trait_ident (sort_items syn items nothing) =
          rw (from_item, e) refl in
        from_described name trait_ident items (sort_items syn items nothing) s
          (λ d k. omega (arith, total-sort_items items nothing d k)) (sym accepted ∙ h)
    | inr (x, e) ↦
        let rejected : from_item syn name trait_ident items ≡ err x = rw (from_item, e) refl in
        absurd (cc (sym rejected ∙ h))
  ]
