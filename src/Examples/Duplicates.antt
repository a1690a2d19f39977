-- ===== src/Examples/Duplicates.antt =====
-- A trait with two methods under one name.
use zel.Prelude.{◌≡◌, refl, String, true, some, ok, [], ◌∷◌}
use zel.Server.Registry.{rpc, find_resource}
use zel.Macros.Attributes.{ident, equals, lit, str, find_attr, parse_name, Attribute}
use zel.Macros.Helpers.{extract_params, receiver, typed, returns}
use zel.Macros.Service.{TraitItemFn, Description, ServiceDescription, method, from_item}
use zel.Macros.Service.Duplicates.{IsMethod}
use zel.Macros.Server.{Task, method_callback, render_register_service_body}
use zel.Macros.Server.Duplicates.{second_method_wins}
use zel.Examples.Instances.{platform}
use zel.Examples.Macros.{texts}
use zel.Examples.Values.{trees}
use zel.Examples.Connections.{lib}
use zel.Examples.Generated.{local, server}

abbrev attribute : Attribute
attribute = record {
  path = "method";
  arguments = ok (ident "name" ∷ equals ∷ lit (str "sum") ∷ []);
}

abbrev of_two : String → TraitItemFn String
of_two name = record {
  attrs = attribute ∷ [];
  sig = record {
    ident = name;
    is_async = true;
    inputs = receiver ∷ typed "a" "i32" ∷ typed "b" "i32" ∷ [];
    output = returns "i32";
  };
}

of_two-IsMethod : (name : String) → IsMethod texts "sum" (of_two name)
unfolding parse_name extract_params find_attr
of_two-IsMethod name = record { is_async = refl; reads = refl; named = refl }

second_method_wins_example :
    (d1 d2 : Description String) × (s : ServiceDescription String) × (from_item texts "math" "Math"
        (method (of_two "add") ∷ method (of_two "add_twice") ∷ [])
      ≡ ok s)
    × (s.described.methods ≡ d1 ∷ d2 ∷ [])
    × (d1.signature.sig ≡ (of_two "add").sig)
    × (d2.signature.sig ≡ (of_two "add_twice").sig)
    × (find_resource platform lib
          (Task platform lib trees)
          (render_register_service_body platform lib trees local s server).services
          s.service_name
          d1.rpc_name
        ≡ some (rpc (method_callback platform lib trees local d2)))
second_method_wins_example =
    second_method_wins texts platform lib trees local "math" "Math" "sum" (of_two "add")
      (of_two "add_twice") server (of_two-IsMethod "add") (of_two-IsMethod "add_twice")
