-- ===== src/Macros/Items/Declarable.antt =====
-- zel_macros/src/render: items that can be declared beside each other.
use zel.Prelude.{◌↔◌, string_key, nat_key, List, [], ◌∷◌, ◌++◌, map}
use mathlib.Core.List.{Nodup}
use zel.Macros.Service.{Description}
use zel.Macros.Items.{Item}

module _ {Ty : Type 0} where
  abbrev pub AllDistinct : List (Item Ty) → Type 0
  AllDistinct [] = Unit
  AllDistinct (i ∷ items) = Nodup i.functions × AllDistinct items

  -- No two items have one name, and no two functions of an item.
  abbrev pub IsDeclarable : List (Item Ty) → Type 0
  IsDeclarable items = Nodup (map (λ i. i.name) items) × AllDistinct items

  pub AllDistinct-append :
      (xs ys : List (Item Ty)) → AllDistinct (xs ++ ys) ↔ (AllDistinct xs × AllDistinct ys)
  AllDistinct-append [] ys = (λ h. (tt, h), λ h. h.1)
  AllDistinct-append (x ∷ xs) ys =
      let rest = AllDistinct-append xs ys in
      (λ h. ((h.0, (rest.0 h.1).0), (rest.0 h.1).1), λ h. (h.0.0, rest.1 (h.0.1, h.1)))

  pub AllDistinct-map :
      (f : Description Ty → Item Ty) (ds : List (Description Ty))
      → ((d : Description Ty) → Nodup (f d).functions)
      → AllDistinct (map f ds)
  AllDistinct-map f [] h = tt
  AllDistinct-map f (d ∷ ds) h = (h d, AllDistinct-map f ds h)
