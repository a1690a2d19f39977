-- ===== src/Examples/Codec.antt =====
-- A concrete codec for the examples, in place of serde_json: a tag, then the fields. Its encoder
-- fails on no message.
use zel.Prelude.{
  ℕ, zero, suc, ◌≡◌, refl, sym, ap, ◌∙◌, Option, none, some, Result, ok, err, Bytes, String, [],
  ◌∷◌,
}
use zel.Types.Protocol.{Request, Body, SubscriptionMsg, NotificationMsg}
use zel.Types.Errors.{
  ErrorSeverity, infrastructure, system_failure, application, service_not_found, resource_not_found,
  callback_error, serialization_error, circuit_breaker_open,
}
use zel.Wire.{Serde, Codec}
use zel.Handlers.Guard.{ResourceResponse}
use zel.Examples.Text.{put, get, get-put}

-- Reads a text and goes on with the rest.
abbrev with_text :
    {A : Type 0} → Option (String × Bytes) → (String → Bytes → Result A String) → Result A String
with_text none f = err "no text"
with_text (some (s, rest)) f = f s rest

with_text-put :
    {A : Type 0} (s : String) (rest : Bytes) (f : String → Bytes → Result A String)
    → with_text (get (put s rest)) f ≡ f s rest
with_text-put s rest f = ap (λ o. with_text o f) (get-put s rest)

module _ {A : Type 0} (make : String → String → Bytes → Result A String) where
  -- Two texts and the rest.
  abbrev two_texts : Bytes → Result A String
  two_texts b = with_text (get b) (λ s more. with_text (get more) (λ r rest. make s r rest))

  two_texts-put : (s r : String) (rest : Bytes) → two_texts (put s (put r rest)) ≡ make s r rest
  two_texts-put s r rest =
      with_text-put s (put r rest) (λ s more. with_text (get more) (λ r rest. make s r rest))
      ∙ with_text-put r rest (λ r rest. make s r rest)

abbrev put_body : Body → Bytes
put_body Body.subscribe = 0 ∷ []
put_body (Body.rpc b) = 1 ∷ b
put_body (Body.stream b) = 2 ∷ b
put_body (Body.notify b) = 3 ∷ b

abbrev get_body : Bytes → Result Body String
get_body (zero ∷ b) = ok Body.subscribe
get_body (suc zero ∷ b) = ok (Body.rpc b)
get_body (suc (suc zero) ∷ b) = ok (Body.stream b)
get_body (suc (suc (suc zero)) ∷ b) = ok (Body.notify b)
get_body _ = err "no body"

get_body-put_body : (b : Body) → get_body (put_body b) ≡ ok b
get_body-put_body Body.subscribe = refl
get_body-put_body (Body.rpc b) = refl
get_body-put_body (Body.stream b) = refl
get_body-put_body (Body.notify b) = refl

abbrev request_of : String → String → Result Body String → Result Request String
request_of s r (ok b) = ok (record { service = s; resource = r; body = b })
request_of s r (err e) = err e

abbrev pub put_request : Request → Bytes
put_request q = put q.service (put q.resource (put_body q.body))

abbrev get_request : Bytes → Result Request String
get_request = two_texts (λ s r rest. request_of s r (get_body rest))

pub get_request-put_request : (q : Request) → get_request (put_request q) ≡ ok q
get_request-put_request q =
    two_texts-put (λ s r rest. request_of s r (get_body rest)) q.service q.resource
      (put_body q.body)
    ∙ ap (request_of q.service q.resource) (get_body-put_body q.body)

abbrev severity_code : ErrorSeverity → ℕ
severity_code infrastructure = 0
severity_code system_failure = 1
severity_code application = 2

abbrev severity_of : ℕ → ErrorSeverity
severity_of zero = infrastructure
severity_of (suc zero) = system_failure
severity_of _ = application

severity_of-severity_code : (s : ErrorSeverity) → severity_of (severity_code s) ≡ s
severity_of-severity_code infrastructure = refl
severity_of-severity_code system_failure = refl
severity_of-severity_code application = refl

abbrev pub put_response : ResourceResponse → Bytes
put_response (ok r) = 0 ∷ r.payload
put_response (err (service_not_found s)) = 1 ∷ put s []
put_response (err (resource_not_found s r)) = 2 ∷ put s (put r [])
put_response (err (callback_error m v none)) = 3 ∷ severity_code v ∷ put m []
put_response (err (callback_error m v (some c))) = 4 ∷ severity_code v ∷ put m c
put_response (err (serialization_error m)) = 5 ∷ put m []
put_response (err (circuit_breaker_open p)) = 6 ∷ put p []

abbrev get_response : Bytes → Result ResourceResponse String
get_response (zero ∷ b) = ok (ok (record { payload = b }))
get_response (suc zero ∷ b) = with_text (get b) (λ s _. ok (err (service_not_found s)))
get_response (suc (suc zero) ∷ b) = two_texts (λ s r _. ok (err (resource_not_found s r))) b
get_response (suc (suc (suc zero)) ∷ v ∷ b) =
    with_text (get b) (λ m _. ok (err (callback_error m (severity_of v) none)))
get_response (suc (suc (suc (suc zero))) ∷ v ∷ b) =
    with_text (get b) (λ m c. ok (err (callback_error m (severity_of v) (some c))))
get_response (suc (suc (suc (suc (suc zero)))) ∷ b) =
    with_text (get b) (λ m _. ok (err (serialization_error m)))
get_response (suc (suc (suc (suc (suc (suc zero))))) ∷ b) =
    with_text (get b) (λ p _. ok (err (circuit_breaker_open p)))
get_response _ = err "no response"

pub get_response-put_response : (r : ResourceResponse) → get_response (put_response r) ≡ ok r
get_response-put_response (ok r) = refl
get_response-put_response (err (service_not_found s)) =
    with_text-put s [] (λ s _. ok (err (service_not_found s)))
get_response-put_response (err (resource_not_found s r)) =
    two_texts-put (λ s r _. ok (err (resource_not_found s r))) s r []
get_response-put_response (err (callback_error m v none)) =
    with_text-put m [] (λ m _. ok (err (callback_error m (severity_of (severity_code v)) none)))
    ∙ ap (λ v. ok (err (callback_error m v none))) (severity_of-severity_code v)
get_response-put_response (err (callback_error m v (some c))) =
    with_text-put m c (λ m c. ok (err (callback_error m (severity_of (severity_code v)) (some c))))
    ∙ ap (λ v. ok (err (callback_error m v (some c)))) (severity_of-severity_code v)
get_response-put_response (err (serialization_error m)) =
    with_text-put m [] (λ m _. ok (err (serialization_error m)))
get_response-put_response (err (circuit_breaker_open p)) =
    with_text-put p [] (λ p _. ok (err (circuit_breaker_open p)))

abbrev pub put_subscription : SubscriptionMsg → Bytes
put_subscription (SubscriptionMsg.established s r) = 0 ∷ put s (put r [])
put_subscription (SubscriptionMsg.payload b) = 1 ∷ b
put_subscription SubscriptionMsg.stopped = 2 ∷ []
put_subscription SubscriptionMsg.server_shutdown = 3 ∷ []

abbrev get_subscription : Bytes → Result SubscriptionMsg String
get_subscription (zero ∷ b) = two_texts (λ s r _. ok (SubscriptionMsg.established s r)) b
get_subscription (suc zero ∷ b) = ok (SubscriptionMsg.payload b)
get_subscription (suc (suc zero) ∷ b) = ok SubscriptionMsg.stopped
get_subscription (suc (suc (suc zero)) ∷ b) = ok SubscriptionMsg.server_shutdown
get_subscription _ = err "no message"

pub get_subscription-put_subscription :
    (m : SubscriptionMsg) → get_subscription (put_subscription m) ≡ ok m
get_subscription-put_subscription (SubscriptionMsg.established s r) =
    two_texts-put (λ s r _. ok (SubscriptionMsg.established s r)) s r []
get_subscription-put_subscription (SubscriptionMsg.payload b) = refl
get_subscription-put_subscription SubscriptionMsg.stopped = refl
get_subscription-put_subscription SubscriptionMsg.server_shutdown = refl

abbrev pub put_notification : NotificationMsg → Bytes
put_notification (NotificationMsg.established s r) = 0 ∷ put s (put r [])
put_notification (NotificationMsg.payload b) = 1 ∷ b
put_notification NotificationMsg.ack = 2 ∷ []
put_notification (NotificationMsg.error e) = 3 ∷ put e []
put_notification NotificationMsg.completed = 4 ∷ []
put_notification NotificationMsg.server_shutdown = 5 ∷ []

abbrev get_notification : Bytes → Result NotificationMsg String
get_notification (zero ∷ b) = two_texts (λ s r _. ok (NotificationMsg.established s r)) b
get_notification (suc zero ∷ b) = ok (NotificationMsg.payload b)
get_notification (suc (suc zero) ∷ b) = ok NotificationMsg.ack
get_notification (suc (suc (suc zero)) ∷ b) =
    with_text (get b) (λ e _. ok (NotificationMsg.error e))
get_notification (suc (suc (suc (suc zero))) ∷ b) = ok NotificationMsg.completed
get_notification (suc (suc (suc (suc (suc zero)))) ∷ b) = ok NotificationMsg.server_shutdown
get_notification _ = err "no message"

pub get_notification-put_notification :
    (m : NotificationMsg) → get_notification (put_notification m) ≡ ok m
get_notification-put_notification (NotificationMsg.established s r) =
    two_texts-put (λ s r _. ok (NotificationMsg.established s r)) s r []
get_notification-put_notification (NotificationMsg.payload b) = refl
get_notification-put_notification NotificationMsg.ack = refl
get_notification-put_notification (NotificationMsg.error e) =
    with_text-put e [] (λ e _. ok (NotificationMsg.error e))
get_notification-put_notification NotificationMsg.completed = refl
get_notification-put_notification NotificationMsg.server_shutdown = refl

-- Encoder and decoder of a type, from a round trip.
abbrev serde :
    {A : Type 0} {IsFaithful : A → Type 0} (write : A → Bytes) (read : Bytes → Result A String)
    → ((a : A) → read (write a) ≡ ok a)
    → Serde IsFaithful
serde write read back = record {
  to_vec = λ a. ok (write a);
  from_slice = read;
  round_trip = λ a b _ e. ap (λ r. elim r [ ok c ↦ read c | err m ↦ err m ]) (sym e) ∙ back a;
}

abbrev pub codec : Codec
codec = record {
  request = serde put_request get_request get_request-put_request;
  response = serde put_response get_response get_response-put_response;
  subscription = serde put_subscription get_subscription get_subscription-put_subscription;
  notification = serde put_notification get_notification get_notification-put_notification;
}
