-- ===== src/Macros/Items.antt =====
-- zel_macros/src/render: the structs and the trait that the generated code declares (types.rs,
-- `render_client_struct` of client.rs and `render_service` of mod.rs). What their functions do is in
-- the modules Typed, Client and Server; here an item is its names.
pub mod Endings
pub mod Functions
pub mod Declarable
pub mod Clashes
use zel.Prelude.{String, concat, Option, none, some, List, [], ◌∷◌, ◌++◌, map}
use Prim.Native.Char.{Char}
use zel.Macros.Names.{generate_typed_name}
use zel.Macros.Service.{TraitItemFn, Description, Described, ServiceDescription}
use zel.Macros.Signatures.{Quoting, if_some, render_server_trait}

-- A struct, with its fields and their types, or a trait, which has none. The functions are those of
-- the `impl` block or of the trait.
pub record Item (Ty : Type 0) : Type 0 where
  pub name : String
  pub fields : List (String × String)
  pub item_type : Option Ty
  pub functions : List String

abbrev pub ident_of : {Ty : Type 0} → Description Ty → String
ident_of d = d.signature.sig.ident

-- The functions of a trait, in the order in which they are rendered.
abbrev pub idents : {Ty : Type 0} → Described Ty → List String
idents d =
    map ident_of d.methods
    ++ (map ident_of d.subscriptions ++ (map ident_of d.notifications ++ map ident_of d.streams))

module _ {Ty : Type 0} (quoting : Quoting Ty) (to_uppercase : Char → String) where
  open quoting use {type_named}

  -- Where no type of an item is given, it is the unit type.
  abbrev item_or_unit : Option Ty → Ty
  item_or_unit (some ty) = ty
  item_or_unit none = type_named "()"

  unfoldable pub render_typed_sink : (trait_name : String) → Description Ty → Item Ty
  unfolding generate_typed_name
  render_typed_sink trait_name sub = record {
    name = generate_typed_name to_uppercase trait_name (ident_of sub) "Sink";
    fields = ("inner", "zel_core::protocol::SubscriptionSink") ∷ [];
    item_type = some (item_or_unit sub.item_type);
    functions = "send" ∷ "close" ∷ "stream" ∷ [];
  }

  unfoldable pub render_typed_sinks : (trait_name : String) → List (Description Ty) → List (Item Ty)
  unfolding render_typed_sink
  render_typed_sinks trait_name subs = map (render_typed_sink trait_name) subs

  unfoldable pub render_typed_receiver : (trait_name : String) → Description Ty → Item Ty
  unfolding generate_typed_name
  render_typed_receiver trait_name notif = record {
    name = generate_typed_name to_uppercase trait_name (ident_of notif) "Receiver";
    fields =
        (
          "inner",
          "tokio_util::codec::FramedRead<iroh::endpoint::RecvStream, tokio_util::codec::LengthDelimitedCodec>",
        )
        ∷ ("sink", "zel_core::protocol::NotificationSink")
        ∷ [];
    item_type = some (item_or_unit notif.item_type);
    functions = "next" ∷ "recv_stream" ∷ "send_stream" ∷ [];
  }

  unfoldable pub render_typed_receivers :
      (trait_name : String) → List (Description Ty) → List (Item Ty)
  unfolding render_typed_receiver
  render_typed_receivers trait_name notifs = map (render_typed_receiver trait_name) notifs

  -- `poll_next` is of another `impl` block, that of `Stream`.
  unfoldable pub render_subscription_stream : (trait_name : String) → Description Ty → Item Ty
  unfolding generate_typed_name
  render_subscription_stream trait_name sub = record {
    name = generate_typed_name to_uppercase trait_name (ident_of sub) "Stream";
    fields = ("inner", "zel_core::protocol::SubscriptionStream") ∷ [];
    item_type = some (item_or_unit sub.item_type);
    functions = "stream" ∷ [];
  }

  unfoldable pub render_notification_sender : (trait_name : String) → Description Ty → Item Ty
  unfolding generate_typed_name
  render_notification_sender trait_name notif = record {
    name = generate_typed_name to_uppercase trait_name (ident_of notif) "Sender";
    fields = ("inner", "zel_core::protocol::NotificationSender") ∷ [];
    item_type = some (item_or_unit notif.item_type);
    functions = "send" ∷ "complete" ∷ "send_stream" ∷ "recv_stream" ∷ [];
  }

  abbrev pub client_struct : ServiceDescription Ty → Item Ty
  client_struct s = record {
    name = concat s.trait_ident "Client";
    fields = ("client", "zel_core::protocol::RpcClient") ∷ ("service_name", "String") ∷ [];
    item_type = none;
    functions = "new" ∷ idents s.described;
  }

  -- The struct of the client, and after it those of its streams and senders.
  unfoldable pub render_client_struct : ServiceDescription Ty → List (Item Ty)
  unfolding render_subscription_stream render_notification_sender
  render_client_struct s =
      client_struct s
      ∷ (map (render_subscription_stream s.trait_ident) s.described.subscriptions
          ++ map (render_notification_sender s.trait_ident) s.described.notifications)

  abbrev pub server_trait : String × List (TraitItemFn Ty) → Item Ty
  server_trait (trait_name, fs) = record {
    name = trait_name;
    fields = [];
    item_type = none;
    functions = map (λ f. f.sig.ident) fs ++ "register_service" ∷ [];
  }

  unfoldable pub render_service : ServiceDescription Ty → Option (List (Item Ty))
  unfolding render_server_trait render_typed_sinks render_typed_receivers render_client_struct
  render_service s = if_some (render_server_trait quoting to_uppercase s) (λ t. some (
      render_typed_sinks s.trait_ident s.described.subscriptions
      ++ (render_typed_receivers s.trait_ident s.described.notifications
          ++ server_trait t ∷ render_client_struct s)))
