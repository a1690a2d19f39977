-- ===== src/Macros/Service/Acceptance.antt =====
-- Which traits the service macro accepts.
use zel.Prelude.{
  ◌≡◌, ◌∙◌, ◌↔◌, refl, ap, ◌<◌, length, arith, String, true, false, Bool-cases, none, Result, ok,
  err, is_ok, inl, inr, List, [], ◌∷◌,
}
use zel.Macros.Helpers.{Syntax}
use zel.Macros.Service.{
  TraitItem, constant, associated_type, method, other, Described, sort_method, sort_item,
  sort_items, validate, has_none, is_empty, total, nothing, from_item,
}
use zel.Macros.Service.Counting.{total-sort_items, total-from_item}
use zel.Macros.Service.Placement.{sort_items-rest, sorted_of}
use zel.Macros.Service.Servable.{IsServable, method_or-IsServable, sort_method_ok}

pub ok_of : {A E : Type 0} (r : Result A E) → is_ok r ≡ true → (a : A) × (r ≡ ok a)
ok_of (ok a) h = (a, refl)
ok_of (err e) h = absurd (cc h)

length_of_empty : {A : Type 0} (xs : List A) → is_empty xs ≡ true → length xs ≡ 0
length_of_empty [] h = refl
length_of_empty (x ∷ xs) h = absurd (cc h)

total_of_none : {Ty : Type 0} (d : Described Ty) → has_none d ≡ true → total d ≡ 0
total_of_none d h = ground (
  arith,
  length_of_empty d.methods,
  length_of_empty d.subscriptions,
  length_of_empty d.notifications,
  length_of_empty d.streams,
)

module _ (syn : Syntax) where
  open syn use {Ty}

  -- All items are functions that the macro can sort.
  abbrev pub AreServable : List (TraitItem Ty) → Type 0
  AreServable [] = Unit {0}
  AreServable (method m ∷ rest) = IsServable syn m × AreServable rest
  AreServable (_ ∷ rest) = true ≡ false

  AreServable-sort_items :
      (items : List (TraitItem Ty)) (d d' : Described Ty)
      → sort_items syn items d ≡ ok d'
      → AreServable items
  unfolding sort_item sort_method
  AreServable-sort_items [] d d' h = tt
  AreServable-sort_items (method m ∷ rest) d d' h =
      let (u, e, more) = sort_items-rest syn (method m) rest d d' h in
      (method_or-IsServable syn m d _ refl (ap is_ok e), AreServable-sort_items rest u d' more)
  AreServable-sort_items (constant ∷ rest) d d' h =
      absurd (cc (sort_items-rest syn constant rest d d' h).1)
  AreServable-sort_items (associated_type ∷ rest) d d' h =
      absurd (cc (sort_items-rest syn associated_type rest d d' h).1)
  AreServable-sort_items (other ∷ rest) d d' h =
      absurd (cc (sort_items-rest syn other rest d d' h).1)

  sort_items_ok :
      (items : List (TraitItem Ty)) (d : Described Ty)
      → AreServable items
      → (d' : Described Ty) × (sort_items syn items d ≡ ok d')
  unfolding sort_items sort_item
  sort_items_ok [] d s = (d, refl)
  sort_items_ok (method m ∷ rest) d (s, more) =
      let (u, e) = ok_of (sort_method syn m d) (sort_method_ok syn m d s) in
      let (d', k) = sort_items_ok rest u more in
      (d', ap (λ r. elim r [ ok u ↦ sort_items syn rest u | err x ↦ err x ]) e ∙ k)
  sort_items_ok (constant ∷ rest) d s = absurd (cc s)
  sort_items_ok (associated_type ∷ rest) d s = absurd (cc s)
  sort_items_ok (other ∷ rest) d s = absurd (cc s)

  validate_ok : (items : List (TraitItem Ty)) → AreServable items → validate syn items ≡ none
  unfolding validate
  validate_ok [] s = refl
  validate_ok (method m ∷ rest) (s, more) = validate_ok rest more
  validate_ok (constant ∷ rest) s = absurd (cc s)
  validate_ok (associated_type ∷ rest) s = absurd (cc s)
  validate_ok (other ∷ rest) s = absurd (cc s)

  -- The macro accepts a trait exactly if it has an item and all its items are functions that are
  -- `async`, whose parameters can be read, and that have an attribute of some kind, where the
  -- attributes that are looked for up to it, in the order method, subscription, notification, stream,
  -- can be read.
  pub from_item_ok_iff :
      (name trait_ident : String) (items : List (TraitItem Ty))
      → (is_ok (from_item syn name trait_ident items) ≡ true)
        ↔ (AreServable items × (0 < length items))
  unfolding from_item
  from_item_ok_iff name trait_ident items = (
    λ h.
        let (s, e) = ok_of (from_item syn name trait_ident items) h in
        let (_, _, some_item) = total-from_item syn name trait_ident items s e in
        (
          AreServable-sort_items items nothing s.described
              (sorted_of syn name trait_ident items s e),
          some_item,
        ),
    λ p.
        let (d, e) = sort_items_ok items nothing p.0 in
        elim (Bool-cases (has_none d)) [
          | inl n ↦
              absurd (omega (arith, total_of_none d n, total-sort_items syn items nothing d e, p.1))
          | inr n ↦ rw (from_item, validate_ok items p.0, e, n) refl
        ],
  )
