-- ===== src/Macros/Items/Clashes.antt =====
-- zel_macros/src/render: when two names of the generated code clash.
use zel.Prelude.{
  ◌≡◌, ◌↔◌, refl, sym, subst, String, string_key, nat_key, concat, some, List, [], ◌∷◌, ◌++◌, map,
  are_distinct-Nodup, Nodup-snoc_iff,
}
use mathlib.Core.List.{Mem, Nodup, Nodup-cons, map-append, map-map, append-nil}
use Prim.Native.Char.{Char}
use zel.Macros.Names.{capitalize_first, generate_typed_name}
use zel.Macros.Service.{TraitItemFn, Description, Described, ServiceDescription}
use zel.Macros.Signatures.{Quoting, render_server_trait}
use zel.Macros.Items.{
  Item, ident_of, idents, server_trait, render_typed_sink, render_typed_sinks,
  render_typed_receiver, render_typed_receivers, render_subscription_stream,
  render_notification_sender, render_client_struct, render_service,
}
use zel.Macros.Items.Functions.{if_some-inv, some-inv, name_of, render_server_trait-idents}
use zel.Macros.Items.Endings.{Group, named, all_names, AllNodup, all_names-Nodup_iff}
use zel.Macros.Items.Declarable.{IsDeclarable, AllDistinct, AllDistinct-append, AllDistinct-map}

module _ {Ty : Type 0} (quoting : Quoting Ty) (to_uppercase : Char → String) where
  -- The names of functions as they stand in the names of types.
  abbrev pub capitals : List (Description Ty) → List String
  capitals ds = map (λ d. capitalize_first to_uppercase (ident_of d)) ds

  abbrev pub HasDistinctNames : Described Ty → Type 0
  HasDistinctNames d =
      Nodup (idents d)
      × (¬ Mem "new" (idents d))
      × (¬ Mem "register_service" (idents d))
      × Nodup (capitals d.subscriptions)
      × Nodup (capitals d.notifications)

  abbrev alone : List String
  alone = "" ∷ []

  abbrev groups : Described Ty → List Group
  groups d =
      record {
        suffix = "Sink";
        stems = capitals d.subscriptions;
        key = 107083;
        ends = λ a b c d. refl;
      }
      ∷ record {
        suffix = "Receiver";
        stems = capitals d.notifications;
        key = 114105;
        ends = λ a b c d. refl;
      }
      ∷ record { suffix = "Server"; stems = alone; key = 114114; ends = λ a b c d. refl }
      ∷ record { suffix = "Client"; stems = alone; key = 116105; ends = λ a b c d. refl }
      ∷ record {
        suffix = "Stream";
        stems = capitals d.subscriptions;
        key = 109114;
        ends = λ a b c d. refl;
      }
      ∷ record {
        suffix = "Sender";
        stems = capitals d.notifications;
        key = 114110;
        ends = λ a b c d. refl;
      }
      ∷ []

  groups-AllNodup_iff :
      (d : Described Ty)
      → AllNodup (groups d) ↔ (Nodup (capitals d.subscriptions) × Nodup (capitals d.notifications))
  groups-AllNodup_iff d = (
    λ h. (h.0, h.1.0),
    λ h. let one = are_distinct-Nodup alone refl in (h.0, (h.1, (one, (one, (h.0, (h.1, tt)))))),
  )

  -- What is rendered around the server trait.
  abbrev pub items_of : ServiceDescription Ty → String × List (TraitItemFn Ty) → List (Item Ty)
  items_of s t =
      render_typed_sinks quoting to_uppercase s.trait_ident s.described.subscriptions
      ++ (render_typed_receivers quoting to_uppercase s.trait_ident s.described.notifications
          ++ server_trait quoting to_uppercase t ∷ render_client_struct quoting to_uppercase s)

  items_of-names :
      (s : ServiceDescription Ty) (t : String × List (TraitItemFn Ty))
      → t.0 ≡ concat s.trait_ident "Server"
      → map (λ i. i.name) (items_of s t) ≡ all_names s.trait_ident (groups s.described)
  unfolding render_typed_sinks render_typed_receivers render_client_struct render_typed_sink
      render_typed_receiver render_subscription_stream render_notification_sender
      generate_typed_name
  items_of-names s t e =
      let name : Item Ty → String = λ i. i.name in
      let subs = s.described.subscriptions in
      let notifs = s.described.notifications in
      let sinks = render_typed_sinks quoting to_uppercase s.trait_ident subs in
      let receivers = render_typed_receivers quoting to_uppercase s.trait_ident notifs in
      let client = render_client_struct quoting to_uppercase s in
      let streams = map (render_subscription_stream quoting to_uppercase s.trait_ident) subs in
      let senders = map (render_notification_sender quoting to_uppercase s.trait_ident) notifs in
      let stem : Description Ty → String = λ d. capitalize_first to_uppercase (ident_of d) in
      let typed : String → String → String = named s.trait_ident in
      rw
        (
          map-append name sinks (receivers ++ server_trait quoting to_uppercase t ∷ client),
          map-append name receivers (server_trait quoting to_uppercase t ∷ client),
          map-append name streams senders,
          map-map name (render_typed_sink quoting to_uppercase s.trait_ident) subs,
          map-map name (render_typed_receiver quoting to_uppercase s.trait_ident) notifs,
          map-map name (render_subscription_stream quoting to_uppercase s.trait_ident) subs,
          map-map name (render_notification_sender quoting to_uppercase s.trait_ident) notifs,
          map-map (λ a. typed a "Sink") stem subs,
          map-map (λ a. typed a "Receiver") stem notifs,
          map-map (λ a. typed a "Stream") stem subs,
          map-map (λ a. typed a "Sender") stem notifs,
          append-nil (map (λ d. typed (stem d) "Sender") notifs),
          e,
        )
        refl

  -- The functions of the typed wrappers are fixed, and distinct.
  wrappers-AllDistinct :
      (trait_name : String) (subs notifs : List (Description Ty))
      → AllDistinct (render_typed_sinks quoting to_uppercase trait_name subs)
        × AllDistinct (render_typed_receivers quoting to_uppercase trait_name notifs)
        × AllDistinct (
            map (render_subscription_stream quoting to_uppercase trait_name) subs
            ++ map (render_notification_sender quoting to_uppercase trait_name) notifs)
  unfolding render_typed_sinks render_typed_receivers render_subscription_stream
      render_notification_sender render_typed_sink render_typed_receiver
  wrappers-AllDistinct trait_name subs notifs = (
    AllDistinct-map (render_typed_sink quoting to_uppercase trait_name) subs
        (λ d. are_distinct-Nodup ("send" ∷ "close" ∷ "stream" ∷ []) refl),
    AllDistinct-map (render_typed_receiver quoting to_uppercase trait_name) notifs
        (λ d. are_distinct-Nodup ("next" ∷ "recv_stream" ∷ "send_stream" ∷ []) refl),
    (AllDistinct-append (map (render_subscription_stream quoting to_uppercase trait_name) subs)
          (map (render_notification_sender quoting to_uppercase trait_name) notifs)).1
        (
          AllDistinct-map (render_subscription_stream quoting to_uppercase trait_name) subs
              (λ d. are_distinct-Nodup ("stream" ∷ []) refl),
          AllDistinct-map (render_notification_sender quoting to_uppercase trait_name) notifs (λ d.
              are_distinct-Nodup ("send" ∷ "complete" ∷ "send_stream" ∷ "recv_stream" ∷ []) refl),
        ),
  )

  items_of-AllDistinct_iff :
      (s : ServiceDescription Ty) (t : String × List (TraitItemFn Ty))
      → map (name_of quoting to_uppercase) t.1 ≡ idents s.described
      → AllDistinct (items_of s t) ↔ (
          Nodup (idents s.described)
          × (¬ Mem "new" (idents s.described))
          × (¬ Mem "register_service" (idents s.described)))
  unfolding render_typed_sinks render_typed_receivers render_client_struct render_typed_sink
      render_typed_receiver render_subscription_stream render_notification_sender
  items_of-AllDistinct_iff s t e =
      let T = s.trait_ident in
      let subs = s.described.subscriptions in
      let notifs = s.described.notifications in
      let sinks = render_typed_sinks quoting to_uppercase T subs in
      let receivers = render_typed_receivers quoting to_uppercase T notifs in
      let server = server_trait quoting to_uppercase t in
      let (of_sinks, of_receivers, of_rest) = wrappers-AllDistinct T subs notifs in
      let client = Nodup-cons {a = "new"} {l = idents s.described} in
      let trait : Nodup server.functions
          ↔ ((¬ Mem "register_service" (idents s.described)) × Nodup (idents s.described)) =
        subst (λ ids. Nodup server.functions ↔ ((¬ Mem "register_service" ids) × Nodup ids)) e
          (Nodup-snoc_iff (map (name_of quoting to_uppercase) t.1) "register_service") in
      let all =
        AllDistinct-append sinks
          (receivers ++ server ∷ render_client_struct quoting to_uppercase s) in
      let more =
        AllDistinct-append receivers (server ∷ render_client_struct quoting to_uppercase s) in
      (
        λ h.
            let declared = (more.0 (all.0 h).1).1 in
            let own = trait.0 declared.0 in (own.1, (client.0 declared.1.0).0, own.0),
        λ (distinct, no_new, no_register). all.1 (
          of_sinks,
          more.1 (
            of_receivers,
            (trait.1 (no_register, distinct), (client.1 (no_new, distinct), of_rest)),
          ),
        ),
      )

  -- The generated code declares no name twice exactly if the functions of the trait have distinct
  -- names, none is called `new` or `register_service`, and no two subscriptions, and no two
  -- notifications, have names that are one name in camel case: whenever the code is rendered, its
  -- structs and its trait have distinct names, and the functions of each have, exactly if that holds.
  pub render_service-IsDeclarable_iff :
      (s : ServiceDescription Ty) (items : List (Item Ty))
      → render_service quoting to_uppercase s ≡ some items
      → IsDeclarable items ↔ HasDistinctNames s.described
  unfolding render_service
  render_service-IsDeclarable_iff s items h =
      let (t, et, h1) = if_some-inv (render_server_trait quoting to_uppercase s) _ items h in
      let (named, fs) = render_server_trait-idents quoting to_uppercase s t et in
      let names = all_names-Nodup_iff s.trait_ident (groups s.described) refl in
      let stems = groups-AllNodup_iff s.described in
      let functions = items_of-AllDistinct_iff s t fs in
      let same = items_of-names s t named in
      subst (λ items. IsDeclarable items ↔ HasDistinctNames s.described) (some-inv h1)
        (
          λ (n, f).
              let (distinct, no_new, no_register) = functions.0 f in
              let (subs, notifs) = stems.0 (names.0 (subst Nodup same n)) in
              (distinct, no_new, no_register, subs, notifs),
          λ (distinct, no_new, no_register, subs, notifs). (
            subst Nodup (sym same) (names.1 (stems.1 (subs, notifs))),
            functions.1 (distinct, no_new, no_register),
          ),
        )
