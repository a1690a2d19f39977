-- ===== src/Classify/Rules.antt =====
-- What the default rules decide, on every error.
use zel.Prelude.{
  ◌≡◌, ◌≢◌, ◌↔◌, refl, ◌∙◌, String, inl, inr, true, List, [], ◌∷◌, arith, any, Bool-cases,
}
use zel.Types.Errors.{ErrorSeverity, infrastructure, system_failure, application}
use zel.Classify.{
  Kind, marker, Cause, Error, chain, context, default, is_marker, is_infrastructure, classify,
  is_infrastructure_error, as_system_failure, as_application_error, as_application,
  as_infrastructure, default_classifier,
}

-- An error type that stands for a failure of the infrastructure, among the causes.
pub data HasInfrastructure : List Cause → Type 0 where
  here :
      {c : Cause} {cs : List Cause} → is_infrastructure c.kind ≡ true → HasInfrastructure (c ∷ cs)
  there : {c : Cause} {cs : List Cause} → HasInfrastructure cs → HasInfrastructure (c ∷ cs)

HasInfrastructure-of_any :
    (cs : List Cause) → any (λ c. is_infrastructure c.kind) cs ≡ true → HasInfrastructure cs
HasInfrastructure-of_any [] h = absurd (cc)
HasInfrastructure-of_any (c ∷ cs) h = elim (Bool-cases (is_infrastructure c.kind)) [
  | inl first ↦ here first
  | inr later ↦ there (HasInfrastructure-of_any cs (ground arith))
]

any_of_HasInfrastructure :
    {cs : List Cause} → HasInfrastructure cs → any (λ c. is_infrastructure c.kind) cs ≡ true
any_of_HasInfrastructure (here h) = ground arith
any_of_HasInfrastructure (there h) = ground (arith, any_of_HasInfrastructure h)

is_marker_iff : (k : Kind) → (is_marker k ≡ true) ↔ (k ≡ marker)
is_marker_iff k = (λ h. ground arith, λ h. ground arith)

-- The three ways through the rules.
data Verdict (e : Error) : Type 0 where
  marked : e.wrapped.kind ≡ marker → classify default e ≡ system_failure → Verdict e
  broken :
      e.wrapped.kind ≢ marker
      → HasInfrastructure (chain e)
      → classify default e ≡ infrastructure
      → Verdict e
  plain :
      e.wrapped.kind ≢ marker
      → ¬ HasInfrastructure (chain e)
      → classify default e ≡ application
      → Verdict e

verdict : (e : Error) → Verdict e
unfolding classify is_infrastructure_error
verdict e = elim (Bool-cases (is_marker e.wrapped.kind)) [
  | inl m ↦ marked ((is_marker_iff _).0 m) (ground arith)
  | inr n ↦ elim (Bool-cases (any (λ c. is_infrastructure c.kind) (chain e))) [
    | inl h ↦ broken (λ q. cc ((is_marker_iff _).1 q)) (HasInfrastructure-of_any _ h) (ground arith)
    | inr h ↦
        plain (λ q. cc ((is_marker_iff _).1 q)) (λ i. cc (any_of_HasInfrastructure i))
          (ground arith)
  ]
]

-- The default rules decide on every error, whatever contexts are put around it: it is a system failure
-- exactly when the error beneath the contexts is the marker; it is of the infrastructure exactly when
-- that is not so and some member of its chain is of an infrastructure type; and it is of the
-- application exactly when neither holds. A marker among the sources of another error is not seen.
pub classify-default_iff :
    (e : Error)
    → ((classify default e ≡ system_failure) ↔ (e.wrapped.kind ≡ marker))
      × ((classify default e ≡ infrastructure)
          ↔ ((e.wrapped.kind ≢ marker) × HasInfrastructure (chain e)))
      × ((classify default e ≡ application)
          ↔ ((e.wrapped.kind ≢ marker) × (¬ HasInfrastructure (chain e))))
classify-default_iff e = elim (verdict e) [
  | marked m c ↦ (
    (λ h. m, λ h. c),
    (λ h. absurd (cc), λ h. absurd (h.0 m)),
    (λ h. absurd (cc), λ h. absurd (h.0 m)),
  )
  | broken n i c ↦ (
    (λ h. absurd (cc), λ h. absurd (n h)),
    (λ h. (n, i), λ h. c),
    (λ h. absurd (cc), λ h. absurd (h.1 i)),
  )
  | plain n i c ↦ (
    (λ h. absurd (cc), λ h. absurd (n h)),
    (λ h. absurd (cc), λ h. absurd (i h.1)),
    (λ h. (n, i), λ h. c),
  )
]

-- What a program puts on an error on its way out.
pub data Layer : Type 0 where
  with_context : String → Layer
  marked_application : Layer
  marked_application_briefly : Layer
  marked_infrastructure : Layer
  marked_system_failure : Layer

abbrev pub put : Layer → Error → Error
unfolding as_application_error as_application as_infrastructure as_system_failure
put (with_context text) e = context text e
put marked_application e = as_application_error e
put marked_application_briefly e = as_application e
put marked_infrastructure e = as_infrastructure e
put marked_system_failure e = as_system_failure e

-- The outermost layer comes first.
abbrev pub put_all : List Layer → Error → Error
put_all [] e = e
put_all (l ∷ ls) e = put l (put_all ls e)

-- The severity that the layers ask for, over that of the error beneath them.
abbrev pub asked : List Layer → ErrorSeverity → ErrorSeverity
asked [] s = s
asked (marked_system_failure ∷ ls) s = system_failure
asked (marked_infrastructure ∷ ls) s = infrastructure
asked (with_context text ∷ ls) s = asked ls s
asked (marked_application ∷ ls) s = asked ls s
asked (marked_application_briefly ∷ ls) s = asked ls s

classify-context :
    (text : String) (e : Error) → classify default (context text e) ≡ classify default e
unfolding classify default_classifier is_infrastructure_error
classify-context text e = refl

classify-as_infrastructure : (e : Error) → classify default (as_infrastructure e) ≡ infrastructure
unfolding classify default_classifier is_infrastructure_error as_infrastructure
classify-as_infrastructure e = refl

classify-as_system_failure : (e : Error) → classify default (as_system_failure e) ≡ system_failure
unfolding classify default_classifier is_infrastructure_error as_system_failure
classify-as_system_failure e = refl

-- What the default rules decide on an error that contexts and markings were put on, in any order and
-- number: the outermost marking as infrastructure or as a system failure decides, whatever contexts
-- and markings as an application error lie around it; without such a marking, the error is classified
-- as it was before. A marking as an application error changes nothing.
pub classify-layers :
    (ls : List Layer) (e : Error) → classify default (put_all ls e) ≡ asked ls (classify default e)
unfolding put as_application_error as_application
classify-layers [] e = refl
classify-layers (with_context text ∷ ls) e =
    classify-context text (put_all ls e) ∙ classify-layers ls e
classify-layers (marked_application ∷ ls) e = classify-layers ls e
classify-layers (marked_application_briefly ∷ ls) e = classify-layers ls e
classify-layers (marked_infrastructure ∷ ls) e = classify-as_infrastructure (put_all ls e)
classify-layers (marked_system_failure ∷ ls) e = classify-as_system_failure (put_all ls e)
