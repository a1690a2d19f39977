-- ===== src/Macros/Attributes.antt =====
-- zel_macros/src/attributes.rs: the arguments of the attributes, read from the tokens between the
-- brackets. The crate `syn` gives the tokens, and `parse_type` stands for its `parse_str::<Type>`.
pub mod Parsing
use zel.Prelude.{
  String, Bool, ◌||◌, Option, none, some, Result, ok, err, ok_or, List, [], ◌∷◌, string_key, ◌==◌,
  if◌then◌else◌,
}

pub data Lit : Type 0 where
  str : String → Lit
  other : Lit

pub data Token : Type 0 where
  ident : String → Token
  equals : Token
  comma : Token
  lit : Lit → Token
  other : Token

abbrev pub text_of : Lit → Option String → Option String
text_of (str s) found = some s
text_of other found = found

-- A literal that is no text leaves the name as it was.
abbrev pub name_after : String → Lit → Option String → Option String
name_after key value found = if key == "name" then text_of value found else found

abbrev pub unexpected : String
unexpected = "unexpected token"

abbrev pub missing_name : String
missing_name = "Missing 'name' attribute"

-- The loop of `MethodAttrParser` and `StreamAttrParser`, which read over a key that they do not know.
unfoldable pub name_loop : List Token → Option String → Result (Option String) String
name_loop [] found = ok found
name_loop (ident k ∷ equals ∷ lit v ∷ comma ∷ rest) found = name_loop rest (name_after k v found)
name_loop (ident k ∷ equals ∷ lit v ∷ rest) found = name_loop rest (name_after k v found)
name_loop _ found = err unexpected

abbrev pub named : Result (Option String) String → Result String String
named (ok found) = ok_or found missing_name
named (err e) = err e

unfoldable pub parse_name : List Token → Result String String
unfolding name_loop
parse_name tokens = named (name_loop tokens none)

-- The loop of `ServiceAttr`, where a name that is no text is an error.
unfoldable pub service_loop : List Token → Option String → Result (Option String) String
service_loop [] found = ok found
service_loop (ident k ∷ equals ∷ lit Lit.other ∷ comma ∷ rest) found =
    let after = service_loop rest found in
    if k == "name" then err "Expected string literal for name" else after
service_loop (ident k ∷ equals ∷ lit Lit.other ∷ rest) found =
    let after = service_loop rest found in
    if k == "name" then err "Expected string literal for name" else after
service_loop (ident k ∷ equals ∷ lit v ∷ comma ∷ rest) found =
    service_loop rest (name_after k v found)
service_loop (ident k ∷ equals ∷ lit v ∷ rest) found = service_loop rest (name_after k v found)
service_loop _ found = err unexpected

unfoldable pub parse_service : List Token → Result String String
unfolding service_loop
parse_service tokens = named (service_loop tokens none)

module _ {Ty : Type 0} (parse_type : String → Result Ty String) where
  pub record ItemArgs : Type 0 where
    pub name : Option String
    pub item : Option Ty

  abbrev with_item : Result Ty String → ItemArgs → Result ItemArgs String
  with_item (ok t) args = ok (record args { item = some t })
  with_item (err e) args = err e

  abbrev item_after : Lit → ItemArgs → Result ItemArgs String
  item_after (str s) args = with_item (parse_type s) args
  item_after other args = ok args

  abbrev pub args_after : String → Lit → ItemArgs → Result ItemArgs String
  args_after key value args =
      if key == "name"
      then ok (record args { name = text_of value args.name })
      else item_after value args

  abbrev pub is_key : String → Bool
  is_key k = (k == "name") || (k == "item")

  -- The loop of `SubscriptionAttrParser` and `NotificationAttrParser`. After a key that they do not
  -- know they read no value, so that a literal there is an error.
  unfoldable pub item_loop : List Token → ItemArgs → Result ItemArgs String
  item_loop [] args = ok args
  item_loop (ident k ∷ equals ∷ lit v ∷ comma ∷ rest) args =
      if is_key k
      then elim (args_after k v args) [ ok next ↦ item_loop rest next | err e ↦ err e ]
      else err unexpected
  item_loop (ident k ∷ equals ∷ lit v ∷ rest) args =
      if is_key k
      then elim (args_after k v args) [ ok next ↦ item_loop rest next | err e ↦ err e ]
      else err unexpected
  item_loop (ident k ∷ equals ∷ comma ∷ rest) args =
      let after = item_loop rest args in if is_key k then err unexpected else after
  item_loop (ident k ∷ equals ∷ rest) args =
      let after = item_loop rest args in if is_key k then err unexpected else after
  item_loop _ args = err unexpected

  abbrev pub named_item : Result ItemArgs String → Result (String × Option Ty) String
  named_item (err e) = err e
  named_item (ok args) = elim args.name [ some n ↦ ok (n, args.item) | none ↦ err missing_name ]

  unfoldable pub parse_item : List Token → Result (String × Option Ty) String
  unfolding item_loop
  parse_item tokens = named_item (item_loop tokens (record { name = none; item = none }))

-- An attribute: the path in front, and the tokens between its brackets, or `syn`'s error where there
-- are no brackets.
pub record Attribute : Type 0 where
  pub path : String
  pub arguments : Result (List Token) String

module _ {A : Type 0} (path : String) (parse : List Token → Result A String) where
  -- `attr.parse_args().map(Some)`
  abbrev parse_args : Result (List Token) String → Result (Option A) String
  parse_args (err e) = err e
  parse_args (ok tokens) = elim (parse tokens) [ ok x ↦ ok (some x) | err e ↦ err e ]

  -- The arguments of the first attribute with this path, as `parse_method_attr` and its like find it.
  unfoldable pub find_attr : List Attribute → Result (Option A) String
  find_attr [] = ok none
  find_attr (a ∷ rest) =
      let later = find_attr rest in if a.path == path then parse_args a.arguments else later
