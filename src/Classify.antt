-- ===== src/Classify.antt =====
-- zel_core/src/protocol/error_classification.rs: which errors trip a circuit breaker. An
-- `anyhow::Error` is an error with its type and its text, the contexts that were put around it, and
-- the chain of its sources.
pub mod Rules
use zel.Prelude.{String, Bool, true, false, ◌||◌, List, [], ◌∷◌, concat, any, if◌then◌else◌}
use zel.Types.Errors.{ErrorSeverity, infrastructure, system_failure, application}

-- The error types that the default rules tell apart, and all the others.
pub data Kind : Type 0 where
  marker io elapsed connect_error read_error write_error connection_error other : Kind

pub record Cause : Type 0 where
  pub kind : Kind
  pub text : String

-- The texts of the contexts, outermost first, the error that they are put around, and its sources.
pub record Error : Type 0 where
  pub contexts : List String
  pub wrapped : Cause
  pub sources : List Cause

-- A context is a member of the chain, of a type of its own.
abbrev pub chain_from : List String → List Cause → List Cause
chain_from [] causes = causes
chain_from (text ∷ texts) causes = record { kind = other; text = text } ∷ chain_from texts causes

-- `error.chain()`
abbrev pub chain : Error → List Cause
chain e = chain_from e.contexts (e.wrapped ∷ e.sources)

abbrev pub first_text : List String → String → String
first_text [] text = text
first_text (context ∷ contexts) text = context

-- `error.to_string()`
abbrev pub to_string : Error → String
to_string e = first_text e.contexts e.wrapped.text

-- `anyhow!("{}", message)`
abbrev pub anyhow : String → Error
anyhow m = record { contexts = []; wrapped = record { kind = other; text = m }; sources = [] }

-- `error.context(text)`
abbrev pub context : String → Error → Error
context text e = record e { contexts = text ∷ e.contexts }

pub data ErrorClassifier : Type 0 where
  default : ErrorClassifier
  all_errors : ErrorClassifier
  custom : (Error → ErrorSeverity) → ErrorClassifier

abbrev pub is_marker : Kind → Bool
is_marker marker = true
is_marker _ = false

abbrev pub is_infrastructure : Kind → Bool
is_infrastructure marker = false
is_infrastructure io = true
is_infrastructure elapsed = true
is_infrastructure connect_error = true
is_infrastructure read_error = true
is_infrastructure write_error = true
is_infrastructure connection_error = true
is_infrastructure other = false

unfoldable pub is_infrastructure_error : Error → Bool
is_infrastructure_error e = any (λ c. is_infrastructure c.kind) (chain e)

-- `error.is::<SystemFailureMarker>()`, which sees the error that the contexts are put around, and
-- none of its sources.
abbrev pub is_marked : Error → Bool
is_marked e = is_marker e.wrapped.kind

unfoldable pub default_classifier : Error → ErrorSeverity
default_classifier e =
    if is_marked e
    then system_failure
    else if is_infrastructure_error e
    then infrastructure
    else application

unfoldable pub classify : ErrorClassifier → Error → ErrorSeverity
unfolding default_classifier
classify default e = default_classifier e
classify all_errors e = system_failure
classify (custom f) e = f e

-- The marker's text comes before that of the error it marks, which becomes its source.
unfoldable pub as_system_failure : Error → Error
as_system_failure e = record {
  contexts = [];
  wrapped = record { kind = marker; text = concat "System failure: " (to_string e) };
  sources = chain e;
}

unfoldable pub as_application_error : Error → Error
as_application_error e = e

unfoldable pub as_application : Error → Error
as_application e = e

-- A new I/O error that keeps only the text.
unfoldable pub as_infrastructure : Error → Error
as_infrastructure e = record {
  contexts = [];
  wrapped = record { kind = io; text = to_string e };
  sources = [];
}
