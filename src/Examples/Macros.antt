-- ===== src/Examples/Macros.antt =====
-- The service macro on a small trait.
use zel.Prelude.{◌≡◌, ◌↔◌, ◌<◌, is_ok, refl, String, true, none, some, ok, [], ◌∷◌, string_key}
use zel.Macros.Attributes.{ident, equals, comma, lit, str, parse_name, parse_item}
use zel.Macros.Helpers.{Syntax, Signature, receiver, typed, default, returns}
use zel.Macros.Service.{TraitItemFn, TraitItem, method, ServiceDescription, from_item}
use zel.Macros.Service.Acceptance.{AreServable, from_item_ok_iff}

-- Every text is a type, and no type is a path.
abbrev pub texts : Syntax
texts = record { Ty = String; parse_type = λ s. ok s; last_segment = λ s. none }

abbrev add_sig : Signature String
add_sig = record {
  ident = "add";
  is_async = true;
  inputs = receiver ∷ typed "a" "i32" ∷ [];
  output = returns "i32";
}

abbrev ticks_sig : Signature String
ticks_sig = record { ident = "ticks"; is_async = true; inputs = receiver ∷ []; output = default }

abbrev add : TraitItem String
add = method (record {
  attrs =
      record { path = "method"; arguments = ok (ident "name" ∷ equals ∷ lit (str "add") ∷ []) }
      ∷ [];
  sig = add_sig;
})

abbrev ticks_fn : TraitItemFn String
ticks_fn = record {
  attrs =
      record {
        path = "subscription";
        arguments = ok (
            ident "name"
            ∷ equals
            ∷ lit (str "ticks")
            ∷ comma
            ∷ ident "item"
            ∷ equals
            ∷ lit (str "u64")
            ∷ []);
      }
      ∷ [];
  sig = ticks_sig;
}

abbrev ticks : TraitItem String
ticks = method ticks_fn

abbrev described : ServiceDescription String
described = record {
  service_name = "math";
  trait_ident = "Math";
  described = record {
    methods =
        record {
          rpc_name = "add";
          signature = record { attrs = []; sig = add_sig };
          params = ("a", "i32") ∷ [];
          return_type = some "i32";
          item_type = none;
        }
        ∷ [];
    subscriptions =
        record {
          rpc_name = "ticks";
          signature = record { attrs = []; sig = ticks_sig };
          params = [];
          return_type = none;
          item_type = some "u64";
        }
        ∷ [];
    notifications = [];
    streams = [];
  };
}

accepts : from_item texts "math" "Math" (add ∷ ticks ∷ []) ≡ ok described
unfolding from_item parse_name parse_item
accepts = refl

from_item_ok_iff_example :
    (is_ok (from_item texts "math" "Math" (add ∷ ticks ∷ [])) ≡ true)
    ↔ (AreServable texts (add ∷ ticks ∷ []) × (0 < 2))
from_item_ok_iff_example = from_item_ok_iff texts "math" "Math" (add ∷ ticks ∷ [])
