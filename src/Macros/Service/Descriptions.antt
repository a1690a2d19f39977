-- ===== src/Macros/Service/Descriptions.antt =====
-- How a function of a trait appears in the description of its service, and what the sorting of others
-- leaves of it.
use zel.Prelude.{
  ◌≡◌, refl, sym, ap, subst, ◌∙◌, String, Bool, Bool-cases, Option, none, some, Result, ok, err,
  and_then, Result-cases, inl, inr, List, [], ◌∷◌, ◌++◌, if◌then◌else◌,
}
use mathlib.Core.List.{Memᴰ}
use mathlib.Core.List.Memᴰ
use zel.Macros.Attributes.{find_attr, parse_name, parse_item}
use zel.Macros.Helpers.{Syntax, ParamInfo, extract_params, extract_return_type}
use zel.Macros.Service.{
  TraitItemFn, Description, Described, described_fn, pushed, as_method, as_subscription,
  as_notification, as_stream, retain_other,
}

pub pushed-ok :
    {Ty : Type 0} (f : Description Ty → Described Ty → Described Ty)
    (r : Result (Description Ty) String) (d d' : Described Ty)
    → pushed f r d ≡ ok d'
    → (x : Description Ty) × (r ≡ ok x) × (f x d ≡ d')
pushed-ok f (ok x) d d' h = (x, refl, ap (λ r. elim r [ ok e ↦ e | err e ↦ f x d ]) h)
pushed-ok f (err e) d d' h = absurd (cc)

module _ (syn : Syntax) where
  open syn use {Ty, parse_type}

  -- The description has this name and what was read of the function.
  abbrev pub Matches :
      (name : String) (result item : Option Ty) → TraitItemFn Ty → Description Ty → Type 0
  Matches name result item m x =
      (x.rpc_name ≡ name)
      × (x.signature.sig ≡ m.sig)
      × (extract_params m.sig.inputs ≡ ok x.params)
      × (x.return_type ≡ result)
      × (x.item_type ≡ item)

  abbrev pub method_attr : TraitItemFn Ty → Result (Option String) String
  method_attr m = find_attr "method" parse_name m.attrs

  abbrev pub subscription_attr : TraitItemFn Ty → Result (Option (String × Option Ty)) String
  subscription_attr m = find_attr "subscription" (parse_item parse_type) m.attrs

  abbrev pub notification_attr : TraitItemFn Ty → Result (Option (String × Option Ty)) String
  notification_attr m = find_attr "notification" (parse_item parse_type) m.attrs

  abbrev pub stream_attr : TraitItemFn Ty → Result (Option String) String
  stream_attr m = find_attr "stream" parse_name m.attrs

  -- A function is described in the list that its first attribute asks for, in the order method,
  -- subscription, notification, stream.
  pub data Placed (m : TraitItemFn Ty) (d : Described Ty) : Type 0 where
    in_methods :
        (name : String) (x : Description Ty)
        → method_attr m ≡ ok (some name)
        → Matches name (extract_return_type syn m.sig.output) none m x
        → Memᴰ x d.methods
        → Placed m d
    in_subscriptions :
        (name : String) (item : Option Ty) (x : Description Ty)
        → method_attr m ≡ ok none
        → subscription_attr m ≡ ok (some (name, item))
        → Matches name none item m x
        → Memᴰ x d.subscriptions
        → Placed m d
    in_notifications :
        (name : String) (item : Option Ty) (x : Description Ty)
        → method_attr m ≡ ok none
        → subscription_attr m ≡ ok none
        → notification_attr m ≡ ok (some (name, item))
        → Matches name none item m x
        → Memᴰ x d.notifications
        → Placed m d
    in_streams :
        (name : String) (x : Description Ty)
        → method_attr m ≡ ok none
        → subscription_attr m ≡ ok none
        → notification_attr m ≡ ok none
        → stream_attr m ≡ ok (some name)
        → Matches name none none m x
        → Memᴰ x d.streams
        → Placed m d

  abbrev pub read_as :
      List String
      → String
      → Option Ty
      → Option Ty
      → TraitItemFn Ty
      → List (ParamInfo Ty)
      → Description Ty
  read_as paths name result item m ps = record {
    rpc_name = name;
    signature = record m { attrs = retain_other paths m.attrs };
    params = ps;
    return_type = result;
    item_type = item;
  }

  pub described_fn-Matches :
      (not_async : String) (paths : List String) (name : String) (result item : Option Ty)
      (m : TraitItemFn Ty) (x : Description Ty)
      → described_fn syn not_async paths name result item m ≡ ok x
      → Matches name result item m x
  described_fn-Matches not_async paths name result item m x h =
      let read = λ (r : Result (List (ParamInfo Ty)) String).
        and_then r (λ ps. ok (read_as paths name result item m ps)) in
      let tested = λ (b : Bool). if b then read (extract_params m.sig.inputs) else err not_async in
      elim (Bool-cases m.sig.is_async) [
        | inr not ↦
            let refused : described_fn syn not_async paths name result item m ≡ err not_async =
              ap tested not in
            absurd (cc (sym refused ∙ h))
        | inl async ↦ elim (Result-cases (extract_params m.sig.inputs)) [
          | inr (e, k) ↦
              let refused : described_fn syn not_async paths name result item m ≡ err e =
                ap tested async ∙ ap read k in
              absurd (cc (sym refused ∙ h))
          | inl (ps, k) ↦
              let made : described_fn syn not_async paths name result item m
                  ≡ ok (read_as paths name result item m ps) =
                ap tested async ∙ ap read k in
              let same : read_as paths name result item m ps ≡ x =
                ap (λ r. elim r [ ok y ↦ y | err e ↦ x ]) (sym made ∙ h) in
              subst (Matches name result item m) same (refl, refl, k, refl, refl)
        ]
      ]

  -- Nothing is taken out of a list.
  pub record Grows (d d' : Described Ty) : Type 0 where
    pub methods : (x : Description Ty) → Memᴰ x d.methods → Memᴰ x d'.methods
    pub subscriptions : (x : Description Ty) → Memᴰ x d.subscriptions → Memᴰ x d'.subscriptions
    pub notifications : (x : Description Ty) → Memᴰ x d.notifications → Memᴰ x d'.notifications
    pub streams : (x : Description Ty) → Memᴰ x d.streams → Memᴰ x d'.streams

  pub Grows-refl : (d : Described Ty) → Grows d d
  Grows-refl d = record {
    methods = λ x i. i;
    subscriptions = λ x i. i;
    notifications = λ x i. i;
    streams = λ x i. i;
  }

  pub Placed-Grows :
      (m : TraitItemFn Ty) (d d' : Described Ty) → Grows d d' → Placed m d → Placed m d'
  Placed-Grows m d d' g (in_methods name x e f i) = in_methods name x e f (g.methods x i)
  Placed-Grows m d d' g (in_subscriptions name item x e f k i) =
      in_subscriptions name item x e f k (g.subscriptions x i)
  Placed-Grows m d d' g (in_notifications name item x e f k l i) =
      in_notifications name item x e f k l (g.notifications x i)
  Placed-Grows m d d' g (in_streams name x e f k l o i) =
      in_streams name x e f k l o (g.streams x i)

  pub Grows-trans : (c d e : Described Ty) → Grows c d → Grows d e → Grows c e
  Grows-trans c d e g h = record {
    methods = λ x i. h.methods x (g.methods x i);
    subscriptions = λ x i. h.subscriptions x (g.subscriptions x i);
    notifications = λ x i. h.notifications x (g.notifications x i);
    streams = λ x i. h.streams x (g.streams x i);
  }

  pub Grows-method : (d : Described Ty) (x : Description Ty) → Grows d (as_method x d)
  Grows-method d x = record {
    methods = λ y i. Memᴰ.append_left _ i;
    subscriptions = λ y i. i;
    notifications = λ y i. i;
    streams = λ y i. i;
  }

  pub Grows-subscription : (d : Described Ty) (x : Description Ty) → Grows d (as_subscription x d)
  Grows-subscription d x = record {
    methods = λ y i. i;
    subscriptions = λ y i. Memᴰ.append_left _ i;
    notifications = λ y i. i;
    streams = λ y i. i;
  }

  pub Grows-notification : (d : Described Ty) (x : Description Ty) → Grows d (as_notification x d)
  Grows-notification d x = record {
    methods = λ y i. i;
    subscriptions = λ y i. i;
    notifications = λ y i. Memᴰ.append_left _ i;
    streams = λ y i. i;
  }

  pub Grows-stream : (d : Described Ty) (x : Description Ty) → Grows d (as_stream x d)
  Grows-stream d x = record {
    methods = λ y i. i;
    subscriptions = λ y i. i;
    notifications = λ y i. i;
    streams = λ y i. Memᴰ.append_left _ i;
  }

  pub at_end : (x : Description Ty) (xs : List (Description Ty)) → Memᴰ x (xs ++ x ∷ [])
  at_end x xs = Memᴰ.append_right xs (Memᴰ.head refl)
