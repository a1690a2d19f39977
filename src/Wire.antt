-- ===== src/Wire.antt =====
-- serde_json, as the program uses it: each message becomes bytes and comes back. An error is kept as
-- its text.
use zel.Prelude.{◌≡◌, ◌≢◌, String, Bytes, some, Result, ok, err, [], ◌∷◌}
use zel.Types.Protocol.{Request, Response, SubscriptionMsg, NotificationMsg}
use zel.Types.Errors.{ResourceError, callback_error}

-- `to_vec` and `from_slice` of a type, and the values that survive the round trip.
pub record Serde {A : Type 0} (IsFaithful : A → Type 0) : Type 0 where
  pub to_vec : A → Result Bytes String
  pub from_slice : Bytes → Result A String
  pub round_trip : (a : A) (b : Bytes) → IsFaithful a → to_vec a ≡ ok b → from_slice b ≡ ok a

abbrev pub Always {ℓ} : {A : Type ℓ} → A → Type 0
Always a = Unit

-- The JSON text `null`.
abbrev pub null_text : Bytes
null_text = 110 ∷ 117 ∷ 108 ∷ 108 ∷ []

-- A context that is present and `null` is read back as an absent one.
abbrev pub HasPlainContext : Result Response ResourceError → Type 0
HasPlainContext (err (callback_error m s (some c))) = c ≢ null_text
HasPlainContext _ = Unit

pub record Codec : Type 0 where
  pub request : Serde {A = Request} Always
  pub response : Serde HasPlainContext
  pub subscription : Serde {A = SubscriptionMsg} Always
  pub notification : Serde {A = NotificationMsg} Always
