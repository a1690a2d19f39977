-- ===== src/Macros/Attributes/Parsing.antt =====
-- What the attribute parsers make of a list of `key = value` entries.
use zel.Prelude.{
  ◌≡◌, refl, ap, ◌∙◌, String, Bool, true, false, Bool-cases, inl, inr, Option, none, some, Result,
  ok, err, ok_or, and_then, List, [], ◌∷◌, string_key, ◌==◌, if◌then◌else◌, arith,
}
use zel.Macros.Attributes.{
  Lit, str, Token, ident, equals, comma, lit, text_of, name_after, missing_name, named, name_loop,
  parse_name, ItemArgs, with_item, item_after, args_after, is_key, item_loop, named_item,
  parse_item,
}

-- A key and its value, and whether a comma follows.
pub record Entry : Type 0 where
  pub key : String
  pub value : Lit
  pub has_comma : Bool

abbrev pub separated : Bool → List Token → List Token
separated true rest = comma ∷ rest
separated false rest = rest

abbrev pub print : List Entry → List Token
print [] = []
print (e ∷ es) = ident e.key ∷ equals ∷ lit e.value ∷ separated e.has_comma (print es)

abbrev pub text_and : Lit → List String → List String
text_and (str s) rest = s ∷ rest
text_and Lit.other rest = rest

-- The texts that are given for a key.
abbrev pub texts : String → List Entry → List String
texts key [] = []
texts key (e ∷ es) = let rest = texts key es in if e.key == key then text_and e.value rest else rest

-- The last of them, or what was there before.
abbrev pub last_or : {A : Type 0} → Option A → List A → Option A
last_or found [] = found
last_or found (x ∷ xs) = last_or (some x) xs

name_loop-separated :
    (k : String) (v : Lit) (c : Bool) (es : List Entry) (found : Option String)
    → name_loop (ident k ∷ equals ∷ lit v ∷ separated c (print es)) found
      ≡ name_loop (print es) (name_after k v found)
unfolding name_loop
name_loop-separated k v true es found = refl
name_loop-separated k v false [] found = refl
name_loop-separated k v false (e ∷ es) found = refl

last_or-name_after :
    (k : String) (v : Lit) (rest : List String) (found : Option String)
    → last_or (name_after k v found) rest
      ≡ last_or found (if k == "name" then text_and v rest else rest)
last_or-name_after k (str s) rest found = elim (Bool-cases (k == "name")) [
  | inl same ↦ rw same refl
  | inr different ↦ rw different refl
]
last_or-name_after k Lit.other rest found = elim (Bool-cases (k == "name")) [
  | inl same ↦ rw same refl
  | inr different ↦ rw different refl
]

name_loop-print :
    (es : List Entry) (found : Option String)
    → name_loop (print es) found ≡ ok (last_or found (texts "name" es))
unfolding name_loop
name_loop-print [] found = refl
name_loop-print (e ∷ es) found =
    name_loop-separated e.key e.value e.has_comma es found
    ∙ name_loop-print es (name_after e.key e.value found)
    ∙ ap ok (last_or-name_after e.key e.value (texts "name" es) found)

-- The arguments of a method or a stream, with or without commas: the last text that is given as the
-- name is the name, whatever other keys there are; without such a text the attribute is rejected.
pub parse_name-print :
    (es : List Entry) → parse_name (print es) ≡ ok_or (last_or none (texts "name" es)) missing_name
unfolding parse_name
parse_name-print es = ap named (name_loop-print es none)

module _ {Ty : Type 0} (parse_type : String → Result Ty String) where
  abbrev Args : Type 0
  Args = ItemArgs parse_type

  abbrev pub AllKnown : List Entry → Type 0
  AllKnown [] = Unit
  AllKnown (e ∷ es) = (is_key parse_type e.key ≡ true) × AllKnown es

  -- All of these texts have to be types; the last one counts.
  abbrev pub last_type : Option Ty → List String → Result (Option Ty) String
  last_type found [] = ok found
  last_type found (s ∷ ss) = and_then (parse_type s) (λ t. last_type (some t) ss)

  abbrev args_of : Option String → Result (Option Ty) String → Result Args String
  args_of name (ok item) = ok (record { name = name; item = item })
  args_of name (err e) = err e

  into_and_then :
      (r : Result Args String) (tokens : List Token)
      → elim r [ ok next ↦ item_loop parse_type tokens next | err e ↦ err e ]
        ≡ and_then r (item_loop parse_type tokens)
  into_and_then (ok next) tokens = refl
  into_and_then (err e) tokens = refl

  item_loop-separated :
      (k : String) (v : Lit) (c : Bool) (es : List Entry) (args : Args)
      → is_key parse_type k ≡ true
      → item_loop parse_type (ident k ∷ equals ∷ lit v ∷ separated c (print es)) args
        ≡ and_then (args_after parse_type k v args) (item_loop parse_type (print es))
  unfolding item_loop
  item_loop-separated k v true es args h =
      rw h (into_and_then (args_after parse_type k v args) (print es))
  item_loop-separated k v false [] args h = rw h (into_and_then (args_after parse_type k v args) [])
  item_loop-separated k v false (e ∷ es) args h =
      rw h (into_and_then (args_after parse_type k v args) (print (e ∷ es)))

  named_args :
      (name : Option String) (r : Result (Option Ty) String)
      → named_item parse_type (args_of name r)
        ≡ and_then r (λ item. and_then (ok_or name missing_name) (λ n. ok (n, item)))
  named_args none (ok item) = refl
  named_args (some n) (ok item) = refl
  named_args none (err e) = refl
  named_args (some n) (err e) = refl

  -- After one entry, given what comes after all of its results.
  after_entry :
      (k : String) (v : Lit) (args : Args) (names items : List String)
      (go : Args → Result Args String)
      → is_key parse_type k ≡ true
      → ((next : Args) → go next ≡ args_of (last_or next.name names) (last_type next.item items))
      → and_then (args_after parse_type k v args) go
        ≡ args_of
            (last_or args.name (if k == "name" then text_and v names else names))
            (last_type args.item (if k == "item" then text_and v items else items))
  after_entry k v args names items go known h = elim (Bool-cases (k == "name")) [
    | inl name ↦
        let other_key : (k == "item") ≡ false =
          ap (λ k. k == "item") ((string_key.same_iff k "name").0 name) in
        rw (name, other_key) (named_entry v)
    | inr no_name ↦
        let item : (k == "item") ≡ true = ground (arith, known, no_name) in
        rw (no_name, item) (item_entry v)
  ]
    where
      named_entry :
          (v : Lit)
          → go (record args { name = text_of v args.name })
            ≡ args_of (last_or args.name (text_and v names)) (last_type args.item items)
      named_entry (str s) = h _
      named_entry Lit.other = h _

      item_entry :
          (v : Lit)
          → and_then (item_after parse_type v args) go
            ≡ args_of (last_or args.name names) (last_type args.item (text_and v items))
      item_entry (str s) = typed_entry (parse_type s)
        where
          typed_entry :
              (r : Result Ty String)
              → and_then (with_item parse_type r args) go
                ≡ args_of (last_or args.name names) (and_then r (λ t. last_type (some t) items))
          typed_entry (ok t) = h _
          typed_entry (err e) = refl
      item_entry Lit.other = h _

  item_loop-print :
      (es : List Entry) (args : Args)
      → AllKnown es
      → item_loop parse_type (print es) args
        ≡ args_of (last_or args.name (texts "name" es)) (last_type args.item (texts "item" es))
  unfolding item_loop
  item_loop-print [] args h = refl
  item_loop-print (e ∷ es) args (h, hs) =
      item_loop-separated e.key e.value e.has_comma es args h
      ∙ after_entry e.key e.value args (texts "name" es) (texts "item" es)
          (item_loop parse_type (print es)) h (λ next. item_loop-print es next hs)

  -- The arguments of a subscription or a notification, with or without commas and with no key but
  -- `name` and `item`: the last text that is given as the name is the name, and the last one that is
  -- given as the item is read as its type. The attribute is rejected where one of the items is no
  -- type, and without a name.
  pub parse_item-print :
      (es : List Entry)
      → AllKnown es
      → parse_item parse_type (print es)
        ≡ and_then (last_type none (texts "item" es)) (λ item.
          and_then (ok_or (last_or none (texts "name" es)) missing_name) (λ name. ok (name, item)))
  unfolding parse_item
  parse_item-print es h =
      ap (named_item parse_type) (item_loop-print es (record { name = none; item = none }) h)
      ∙ named_args (last_or none (texts "name" es)) (last_type none (texts "item" es))
