-- ===== src/Macros/Client/Bodies.antt =====
-- What the generated client sends to open a subscription, a notification or a stream, and what the
-- generated server calls then.
use zel.Prelude.{◌≡◌, refl, ap, Bytes, Option, none, some, Result, ok, err, List, [], ◌∷◌}
use zel.Types.Protocol.{Body}
use zel.Platform.{Platform}
use zel.Breaker.Library.{BreakerLib}
use zel.Context.{RequestContext}
use zel.Client.Operations.{or_default, subscribe_body}
use zel.Client.Errors.{ClientError}
use zel.Macros.Service.{Description}
use zel.Macros.Values.{Values, AreFaithful}
use zel.Macros.Codegen.{
  types_of, present, generate_param_serialization, generate_param_serialization_optional,
}
use zel.Macros.Codegen.Delivery.{deserialization-serialization}
use zel.Macros.Server.{Invocation, invocation, subscription_data, notification_data, stream_data}

present-ok :
    (r : Result Bytes ClientError) (body : Option Bytes)
    → present r ≡ ok body
    → r ≡ ok (or_default body)
present-ok (ok b) body h = ap (λ r. elim r [ ok o ↦ ok (or_default o) | err e ↦ ok b ]) h
present-ok (err e) body h = absurd (cc)

module _ {Ty : Type 0} (vals : Values Ty) where
  open vals use {Value, IsFaithful}

  -- Left out, the optional body stands for the empty one.
  serialization-optional :
      (args : List Value) (body : Option Bytes)
      → generate_param_serialization_optional vals args ≡ ok body
      → generate_param_serialization vals args ≡ ok (or_default body)
  unfolding generate_param_serialization generate_param_serialization_optional
  serialization-optional [] body h = ap (λ r. elim r [ ok o ↦ ok (or_default o) | err e ↦ ok [] ]) h
  serialization-optional (v ∷ []) body h = present-ok _ body h
  serialization-optional (v ∷ w ∷ vs) body h = present-ok _ body h

  module _ (io : Platform) {F : Type 0} (lib : BreakerLib F) where
    abbrev pub call_of : Description Ty → RequestContext io → List Value → Invocation io lib vals
    call_of d ctx args = record { rust_method = d.signature.sig.ident; ctx = ctx; args = args }

    -- Arguments that JSON keeps, written by the client for a subscription, a notification or a
    -- stream, and put into the body that the client sends for it: from this body the server calls
    -- the user's method with the same arguments.
    pub invocation-serialization :
        (d : Description Ty) (ctx : RequestContext io) (args : List Value) (body : Option Bytes)
        → AreFaithful IsFaithful (types_of d.params) args
        → generate_param_serialization_optional vals args ≡ ok body
        → (invocation io lib vals d ctx (subscription_data (subscribe_body body))
            ≡ ok (call_of d ctx args))
          × (invocation io lib vals d ctx (notification_data (Body.notify (or_default body)))
              ≡ ok (call_of d ctx args))
          × (invocation io lib vals d ctx (stream_data (Body.stream (or_default body)))
              ≡ ok (call_of d ctx args))
    unfolding invocation subscription_data notification_data stream_data
    invocation-serialization d ctx args none a h =
        let made : invocation io lib vals d ctx [] ≡ ok (call_of d ctx args) =
          rw
            (
              invocation,
              deserialization-serialization vals d.params args [] a
                  (serialization-optional args none h),
            )
            refl in
        (made, made, made)
    invocation-serialization d ctx args (some b) a h =
        let made : invocation io lib vals d ctx b ≡ ok (call_of d ctx args) =
          rw
            (
              invocation,
              deserialization-serialization vals d.params args b a
                  (serialization-optional args (some b) h),
            )
            refl in
        (made, made, made)
