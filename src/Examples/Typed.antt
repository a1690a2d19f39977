-- ===== src/Examples/Typed.antt =====
-- Typed items over the concrete transport.
use zel.Prelude.{◌≡◌, ◌↔◌, refl, Bytes, true, false, none, some, ok, List, [], ◌∷◌}
use zel.Types.Protocol.{SubscriptionMsg, NotificationMsg}
use zel.Streaming.NotificationSink.{ack}
use zel.Macros.Typed.{Item, receiver_next}
use zel.Macros.Typed.Items.{publish_items, ReadsItems, publish_items-ReadsItems}
use zel.Macros.Typed.Receiving.{Skips, stay, skip, receiver_next-ends, receiver_next_ok_iff}
use zel.Examples.Codec.{codec, put_subscription, put_notification}
use zel.Examples.Network.{Frames, net, pipe}
use zel.Examples.Values.{Tree, leaf, trees}

encoded : (m : SubscriptionMsg) → (b : Bytes) × (codec.subscription.to_vec m ≡ ok b)
encoded m = (put_subscription m, refl)

abbrev items : List Tree
items = leaf 1 ∷ leaf 2 ∷ []

publish_items-ReadsItems_example :
    (sent after : Frames) × (publish_items net codec trees true items ([], []) ≡ (ok tt, sent))
    × ReadsItems net codec trees "u64" true sent items after
    × (after.1 ≡ [])
publish_items-ReadsItems_example =
    publish_items-ReadsItems net codec trees true true pipe encoded "u64" items ([], [])
      ((tt, 0 ∷ 1 ∷ [], refl), ((tt, 0 ∷ 2 ∷ [], refl), tt)) refl

-- An error, which is ignored, and then an item.
abbrev ignored : Bytes
ignored = put_notification (NotificationMsg.error "late")

abbrev event : Bytes
event = put_notification (NotificationMsg.payload (0 ∷ 5 ∷ []))

abbrev before : Frames
before = (ignored ∷ event ∷ [], [])

reads : (m : NotificationMsg) → codec.notification.from_slice (put_notification m) ≡ ok m
reads m = codec.notification.round_trip m (put_notification m) tt refl

skips : Skips net codec trees false 1 before (event ∷ [], [])
skips =
    skip 0 before (event ∷ [], []) (event ∷ [], []) ignored (NotificationMsg.error "late") refl
      (reads (NotificationMsg.error "late")) refl (stay (event ∷ [], []))

receiver_next_ok_iff_example :
    (receiver_next net codec trees 2 "u64" true false before
      ≡ (some (some (ok (leaf 5))), ([], put_notification NotificationMsg.ack ∷ [])))
    ↔ ((trees.from_slice "u64" (0 ∷ 5 ∷ []) ≡ ok (leaf 5))
        × (ack net codec true ([], []) ≡ (ok tt, ([], put_notification NotificationMsg.ack ∷ []))))
receiver_next_ok_iff_example =
    receiver_next_ok_iff net codec trees "u64" true false 1 0 before (event ∷ [], []) ([], []) event
      (0 ∷ 5 ∷ []) (leaf 5) ([], put_notification NotificationMsg.ack ∷ []) skips refl
      (reads (NotificationMsg.payload (0 ∷ 5 ∷ [])))

-- The stream ends after the ignored message.
abbrev ending : Frames
ending = (ignored ∷ [], [])

receiver_next-ends_example :
    (item : Item net codec trees) × (end : Frames) × (receiver_next net codec trees 2 "u64" true
        false ending
      ≡ (some item, end))
receiver_next-ends_example =
    receiver_next-ends net codec trees "u64" true false 1 0 ending ([], []) ([], []) none
      (skip 0 ending ([], []) ([], []) ignored (NotificationMsg.error "late") refl
        (reads (NotificationMsg.error "late")) refl (stay ([], [])))
      refl tt
