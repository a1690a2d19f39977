-- ===== src/Macros/Typed/Receiving.antt =====
-- The typed receiver of notifications: its loop ends, and when it answers.
use zel.Prelude.{
  ℕ, zero, suc, ◌+◌, ◌≡◌, refl, sym, ap, ◌∙◌, String, Bytes, Option, none, some, Result, ok, err,
  arith, Bool, true, false,
}
use mathlib.Core.Logic.{◌↔◌}
use zel.Types.Protocol.{NotificationMsg}
use zel.Wire.{Codec}
use zel.Client.Transport.{Transport}
use zel.Streaming.NotificationSink.{NotificationError, deserialization, ack}
use zel.Macros.Values.{Values}
use zel.Macros.Typed.{Item, acknowledged, payload_item, on_message, on_frame, receiver_next}

-- Messages for which the loop takes another turn.
abbrev pub is_ignored : NotificationMsg → Bool
is_ignored (NotificationMsg.established s r) = true
is_ignored NotificationMsg.ack = true
is_ignored (NotificationMsg.error e) = true
is_ignored _ = false

module _ (net : Transport) (codec : Codec) {Ty : Type 0} (vals : Values Ty) where
  open vals use {Value, from_slice}

  -- So many frames come one after the other that decode to ignored messages.
  pub data Skips (rx : net.RecvStream) : ℕ → net.World → net.World → Type 0 where
    stay : (w : net.World) → Skips rx 0 w w
    skip :
        (n : ℕ) (w u v : net.World) (b : Bytes) (m : NotificationMsg)
        → net.next rx w ≡ (some (ok b), u)
        → codec.notification.from_slice b ≡ ok m
        → is_ignored m ≡ true
        → Skips rx n u v
        → Skips rx (suc n) w v

  on_message-ignored :
      (ty : Ty) (tx : net.SendStream) (again : net.World → Option (Item net codec vals) × net.World)
      (m : NotificationMsg) (w : net.World)
      → is_ignored m ≡ true
      → on_message net codec vals ty tx again (ok m) w ≡ again w
  on_message-ignored ty tx again (NotificationMsg.established s r) w h = refl
  on_message-ignored ty tx again (NotificationMsg.payload b) w h = absurd (cc)
  on_message-ignored ty tx again NotificationMsg.ack w h = refl
  on_message-ignored ty tx again (NotificationMsg.error e) w h = refl
  on_message-ignored ty tx again NotificationMsg.completed w h = absurd (cc)
  on_message-ignored ty tx again NotificationMsg.server_shutdown w h = absurd (cc)

  receiver_next-Skips :
      (ty : Ty) (tx : net.SendStream) (rx : net.RecvStream) (n turns : ℕ) (w v : net.World)
      → Skips rx n w v
      → receiver_next net codec vals (n + turns) ty tx rx w
        ≡ receiver_next net codec vals turns ty tx rx v
  unfolding receiver_next
  receiver_next-Skips ty tx rx zero turns w v (stay _) =
      let same : 0 + turns ≡ turns = omega arith in
      ap (λ t. receiver_next net codec vals t ty tx rx w) same
  receiver_next-Skips ty tx rx (suc n) turns w v (skip _ _ u _ b m e d i s) =
      let next_turn : suc n + turns ≡ suc (n + turns) = omega arith in
      rw (next_turn, e, d)
        (on_message-ignored ty tx (receiver_next net codec vals (n + turns) ty tx rx) m u i
          ∙ receiver_next-Skips ty tx rx n turns u v s)

  abbrev result_or : Value → Item net codec vals → Result Value String
  result_or x (some (ok v)) = ok v
  result_or x _ = ok x

  value_path :
      (x v : Value)
      → ◌≡◌ {A = Result Value String} (ok x) (ok v)
      → ◌≡◌ {A = Result Value NotificationError} (ok x) (ok v)
  value_path x v h = ap (λ r. elim r [ ok y ↦ ok y | err e ↦ ok x ]) h

  abbrev drop_some : Option (Item net codec vals) × net.World → Item net codec vals × net.World
  drop_some (some item, w) = (item, w)
  drop_some (none, w) = (none, w)

  -- A frame, or the lack of one, with which a call of `next` is over.
  abbrev pub IsFinal : Option (Result Bytes String) → Type 0
  IsFinal (some (ok b)) =
      (m : NotificationMsg) → codec.notification.from_slice b ≡ ok m → is_ignored m ≡ false
  IsFinal _ = Unit

  abbrev Over : Option (Item net codec vals) × net.World → Type 0
  Over r = (item : Item net codec vals) × (w : net.World) × (r ≡ (some item, w))

  on_message-Over :
      (ty : Ty) (tx : net.SendStream) (again : net.World → Option (Item net codec vals) × net.World)
      (r : Result NotificationMsg String) (w : net.World)
      → ((m : NotificationMsg) → r ≡ ok m → is_ignored m ≡ false)
      → Over (on_message net codec vals ty tx again r w)
  on_message-Over ty tx again (err e) w h = (some (err (deserialization e)), w, refl)
  on_message-Over ty tx again (ok (NotificationMsg.payload b)) w h =
      let p = payload_item net codec vals tx (from_slice ty b) w in (p.0, p.1, refl)
  on_message-Over ty tx again (ok NotificationMsg.completed) w h = (none, w, refl)
  on_message-Over ty tx again (ok NotificationMsg.server_shutdown) w h = (none, w, refl)
  on_message-Over ty tx again (ok (NotificationMsg.established s r)) w h = absurd (cc (h _ refl))
  on_message-Over ty tx again (ok NotificationMsg.ack) w h = absurd (cc (h _ refl))
  on_message-Over ty tx again (ok (NotificationMsg.error e)) w h = absurd (cc (h _ refl))

  on_frame-Over :
      (ty : Ty) (tx : net.SendStream) (again : net.World → Option (Item net codec vals) × net.World)
      (f : Option (Result Bytes String)) (w : net.World)
      → IsFinal f
      → Over (on_frame net codec vals ty tx again (f, w))
  on_frame-Over ty tx again none w h = (none, w, refl)
  on_frame-Over ty tx again (some (err e)) w h = (some (err _), w, refl)
  on_frame-Over ty tx again (some (ok b)) w h = on_message-Over ty tx again _ w h

  acknowledged_ok_iff :
      (x v : Value) (q : Result (Unit {0}) NotificationError × net.World) (end : net.World)
      → (acknowledged net codec vals x q ≡ (some (ok v), end))
        ↔ (◌≡◌ {A = Result Value String} (ok x) (ok v) × (q ≡ (ok tt, end)))
  acknowledged_ok_iff x v (ok _, w) end = (
    λ h. (ap (λ p. result_or x p.0) h, ap (λ p. (ok tt, p.1)) h),
    λ h. λ i. (some (value_path x v h.0 i), (h.1 i).1),
  )
  acknowledged_ok_iff x v (err e, w) end = (λ h. absurd (cc), λ h. absurd (cc h.1))

  payload_item_ok_iff :
      (tx : net.SendStream) (r : Result Value String) (v : Value) (w end : net.World)
      → (payload_item net codec vals tx r w ≡ (some (ok v), end))
        ↔ ((r ≡ ok v) × (ack net codec tx w ≡ (ok tt, end)))
  payload_item_ok_iff tx (ok x) v w end = acknowledged_ok_iff x v (ack net codec tx w) end
  payload_item_ok_iff tx (err e) v w end = (λ h. absurd (cc), λ h. absurd (cc h.0))

  module _ (ty : Ty) (tx : net.SendStream) (rx : net.RecvStream) (n spare : ℕ)
      (before mid after : net.World) where
    -- The loop of the typed receiver ends: where some frames come whose messages it ignores, and then
    -- a frame with another message, one that does not decode, an error of the transport or the end of
    -- the stream, one turn more than there are ignored frames is enough.
    pub receiver_next-ends :
        (f : Option (Result Bytes String))
        → Skips rx n before mid
        → net.next rx mid ≡ (f, after)
        → IsFinal f
        → (item : Item net codec vals) × (end : net.World) × (receiver_next net codec vals
              (n + suc spare)
              ty
              tx
              rx
              before
            ≡ (some item, end))
    unfolding receiver_next
    receiver_next-ends f s e h =
        let (item, end, k) =
          on_frame-Over ty tx (receiver_next net codec vals spare ty tx rx) f after h in
        (
          item,
          end,
          receiver_next-Skips ty tx rx n (suc spare) before mid s
              ∙ ap (on_frame net codec vals ty tx (receiver_next net codec vals spare ty tx rx)) e
              ∙ k,
        )

    -- The typed receiver hands an item over exactly if the payload decodes to it and an
    -- acknowledgment has been sent; ignored messages before the payload change nothing of that.
    pub receiver_next_ok_iff :
        (b d : Bytes) (v : Value) (end : net.World)
        → Skips rx n before mid
        → net.next rx mid ≡ (some (ok b), after)
        → codec.notification.from_slice b ≡ ok (NotificationMsg.payload d)
        → (receiver_next net codec vals (n + suc spare) ty tx rx before ≡ (some (some (ok v)), end))
          ↔ ((from_slice ty d ≡ ok v) × (ack net codec tx after ≡ (ok tt, end)))
    unfolding receiver_next
    receiver_next_ok_iff b d v end s e k =
        let p = payload_item net codec vals tx (from_slice ty d) after in
        let reached : receiver_next net codec vals (n + suc spare) ty tx rx before
            ≡ (some p.0, p.1) =
          receiver_next-Skips ty tx rx n (suc spare) before mid s ∙ rw (e, k) refl in
        let (f, g) = payload_item_ok_iff tx (from_slice ty d) v after end in
        (λ h. f (ap drop_some (sym reached ∙ h)), λ h. reached ∙ ap (λ q. (some q.0, q.1)) (g h))
