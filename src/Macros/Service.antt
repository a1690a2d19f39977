-- ===== src/Macros/Service.antt =====
-- zel_macros/src/service.rs: `ServiceDescription::from_item`, which sorts the methods of a trait by
-- their attributes, or rejects the trait.
pub mod Counting
pub mod Rendering
pub mod Descriptions
pub mod Placement
pub mod Servable
pub mod Acceptance
pub mod Duplicates
use zel.Prelude.{
  ℕ, ◌+◌, ◌||◌, not, String, Bool, true, false, ◌&&◌, Option, none, some, Result, ok, err, and_then,
  List, [], ◌∷◌, ◌++◌, string_key, ◌==◌, any, if◌then◌else◌, length,
}
use zel.Macros.Attributes.{Attribute, find_attr, parse_name, parse_item}
use zel.Macros.Helpers.{Syntax, Signature, ParamInfo, extract_params, extract_return_type}

pub record TraitItemFn (Ty : Type 0) : Type 0 where
  pub attrs : List Attribute
  pub sig : Signature Ty

pub data TraitItem (Ty : Type 0) : Type 0 where
  constant : TraitItem Ty
  associated_type : TraitItem Ty
  method : TraitItemFn Ty → TraitItem Ty
  other : TraitItem Ty

-- The description of an endpoint: `return_type` is kept of a method, `item_type` of a subscription and
-- of a notification.
pub record Description (Ty : Type 0) : Type 0 where
  pub rpc_name : String
  pub signature : TraitItemFn Ty
  pub params : List (ParamInfo Ty)
  pub return_type : Option Ty
  pub item_type : Option Ty

-- The four lists of a `ServiceDescription`.
pub record Described (Ty : Type 0) : Type 0 where
  pub methods : List (Description Ty)
  pub subscriptions : List (Description Ty)
  pub notifications : List (Description Ty)
  pub streams : List (Description Ty)

pub record ServiceDescription (Ty : Type 0) : Type 0 where
  pub service_name : String
  -- As `format_ident!` writes it, which leaves out an `r#`.
  pub trait_ident : String
  pub described : Described Ty

-- `attrs.retain(…)`: without the attributes that have one of these paths.
unfoldable pub retain_other : List String → List Attribute → List Attribute
retain_other paths [] = []
retain_other paths (a ∷ rest) =
    let others = retain_other paths rest in
    if any (λ p. a.path == p) paths then others else a ∷ others

abbrev pub method_paths : List String
method_paths = "method" ∷ "subscription" ∷ []

abbrev pub notification_paths : List String
notification_paths = "method" ∷ "subscription" ∷ "notification" ∷ []

abbrev pub stream_paths : List String
stream_paths = "method" ∷ "subscription" ∷ "notification" ∷ "stream" ∷ []

abbrev is_empty : {A : Type 0} → List A → Bool
is_empty [] = true
is_empty (x ∷ xs) = false

module _ {Ty : Type 0} where
  abbrev nothing : Described Ty
  nothing = record { methods = []; subscriptions = []; notifications = []; streams = [] }

  -- `push`, of the description, onto one of the lists.
  abbrev pushed :
      (Description Ty → Described Ty → Described Ty)
      → Result (Description Ty) String
      → Described Ty
      → Result (Described Ty) String
  pushed f (ok x) d = ok (f x d)
  pushed f (err e) d = err e

  abbrev as_method : Description Ty → Described Ty → Described Ty
  as_method x d = record d { methods = d.methods ++ x ∷ [] }

  abbrev as_subscription : Description Ty → Described Ty → Described Ty
  as_subscription x d = record d { subscriptions = d.subscriptions ++ x ∷ [] }

  abbrev as_notification : Description Ty → Described Ty → Described Ty
  as_notification x d = record d { notifications = d.notifications ++ x ∷ [] }

  abbrev as_stream : Description Ty → Described Ty → Described Ty
  as_stream x d = record d { streams = d.streams ++ x ∷ [] }

  abbrev pub total : Described Ty → ℕ
  total d = length d.methods + length d.subscriptions + length d.notifications + length d.streams

  abbrev pub has_none : Described Ty → Bool
  has_none d =
      is_empty d.methods
      && is_empty d.subscriptions
      && is_empty d.notifications
      && is_empty d.streams

module _ (syn : Syntax) where
  open syn use {Ty, parse_type}

  -- The check and the parts that the four functions `from_trait_fn` share.
  abbrev described_fn :
      String
      → List String
      → String
      → Option Ty
      → Option Ty
      → TraitItemFn Ty
      → Result (Description Ty) String
  described_fn not_async paths name result item m =
      if m.sig.is_async
      then and_then (extract_params m.sig.inputs) (λ ps. ok (record {
        rpc_name = name;
        signature = record m { attrs = retain_other paths m.attrs };
        params = ps;
        return_type = result;
        item_type = item;
      }))
      else err not_async

  unfoldable pub method_from_trait_fn : String → TraitItemFn Ty → Result (Description Ty) String
  unfolding extract_params retain_other extract_return_type
  method_from_trait_fn name m =
      described_fn "RPC methods must be async" method_paths name
        (extract_return_type syn m.sig.output) none m

  unfoldable pub subscription_from_trait_fn :
      String → Option Ty → TraitItemFn Ty → Result (Description Ty) String
  unfolding extract_params retain_other
  subscription_from_trait_fn name item m =
      described_fn "Subscription methods must be async" method_paths name none item m

  unfoldable pub notification_from_trait_fn :
      String → Option Ty → TraitItemFn Ty → Result (Description Ty) String
  unfolding extract_params retain_other
  notification_from_trait_fn name item m =
      described_fn "Notification methods must be async" notification_paths name none item m

  unfoldable pub stream_from_trait_fn : String → TraitItemFn Ty → Result (Description Ty) String
  unfolding extract_params retain_other
  stream_from_trait_fn name m =
      described_fn "Stream methods must be async" stream_paths name none none m

  abbrev unsupported : TraitItem Ty → Option String
  unsupported constant = some "Associated constants not supported in service traits"
  unsupported associated_type = some "Associated types not supported in service traits"
  unsupported _ = none

  -- The first loop: no associated constants or types.
  unfoldable pub validate : List (TraitItem Ty) → Option String
  validate [] = none
  validate (item ∷ rest) = elim (unsupported item) [ some e ↦ some e | none ↦ validate rest ]

  -- The chain of `if let`s, from its end: the first attribute that is found decides.
  module _ (m : TraitItemFn Ty) (d : Described Ty) where
    abbrev stream_or_none : Result (Option String) String → Result (Described Ty) String
    stream_or_none (err e) = err e
    stream_or_none (ok (some name)) = pushed as_stream (stream_from_trait_fn name m) d
    stream_or_none (ok none) =
        err "Method must have #[method], #[subscription], #[notification], or #[stream] attribute"

    abbrev notification_or :
        Result (Option (String × Option Ty)) String → Result (Described Ty) String
    notification_or (err e) = err e
    notification_or (ok (some (name, item))) =
        pushed as_notification (notification_from_trait_fn name item m) d
    notification_or (ok none) = stream_or_none (find_attr "stream" parse_name m.attrs)

    abbrev subscription_or :
        Result (Option (String × Option Ty)) String → Result (Described Ty) String
    subscription_or (err e) = err e
    subscription_or (ok (some (name, item))) =
        pushed as_subscription (subscription_from_trait_fn name item m) d
    subscription_or (ok none) =
        notification_or (find_attr "notification" (parse_item parse_type) m.attrs)

    abbrev method_or : Result (Option String) String → Result (Described Ty) String
    method_or (err e) = err e
    method_or (ok (some name)) = pushed as_method (method_from_trait_fn name m) d
    method_or (ok none) = subscription_or (find_attr "subscription" (parse_item parse_type) m.attrs)

    unfoldable pub sort_method : Result (Described Ty) String
    unfolding method_from_trait_fn subscription_from_trait_fn notification_from_trait_fn
        stream_from_trait_fn find_attr
    sort_method = method_or (find_attr "method" parse_name m.attrs)

  unfoldable pub sort_item : TraitItem Ty → Described Ty → Result (Described Ty) String
  unfolding sort_method
  sort_item (method m) d = sort_method m d
  sort_item _ d = err "Only methods allowed in service trait"

  -- The second loop.
  unfoldable pub sort_items : List (TraitItem Ty) → Described Ty → Result (Described Ty) String
  unfolding sort_item
  sort_items [] d = ok d
  sort_items (item ∷ rest) d = elim (sort_item item d) [
    | ok d' ↦ sort_items rest d'
    | err e ↦ err e
  ]

  abbrev described_as :
      (name trait_ident : String)
      → Result (Described Ty) String
      → Result (ServiceDescription Ty) String
  described_as name trait_ident (err e) = err e
  described_as name trait_ident (ok d) =
      if has_none d
      then err "Service trait must have at least one method, subscription, notification, or stream"
      else ok (record { service_name = name; trait_ident = trait_ident; described = d })

  unfoldable pub from_item :
      (name trait_ident : String) → List (TraitItem Ty) → Result (ServiceDescription Ty) String
  unfolding validate sort_items
  from_item name trait_ident items = elim (validate items) [
    | some e ↦ err e
    | none ↦ described_as name trait_ident (sort_items items nothing)
  ]
