-- ===== src/Examples/Parts.antt =====
-- The classification of errors at concrete inputs.
use zel.Prelude.{List, ◌≡◌, ◌≢◌, ◌↔◌, [], ◌∷◌}
use zel.Types.Errors.{infrastructure, system_failure, application}
use zel.Classify.{Kind, Error, chain, default, classify}
use zel.Classify.Rules.{
  HasInfrastructure, Layer, with_context, marked_application, marked_system_failure, put_all,
  classify-default_iff, classify-layers,
}

-- An error of the application under a context, caused by an I/O error.
abbrev broken_pipe : Error
broken_pipe = record {
  contexts = "on request 7" ∷ [];
  wrapped = record { kind = Kind.other; text = "cannot save" };
  sources = record { kind = Kind.io; text = "broken pipe" } ∷ [];
}

classify-default_iff_example :
    ((classify default broken_pipe ≡ system_failure) ↔ (Kind.other ≡ Kind.marker))
    × ((classify default broken_pipe ≡ infrastructure)
        ↔ ((Kind.other ≢ Kind.marker) × HasInfrastructure (chain broken_pipe)))
    × ((classify default broken_pipe ≡ application)
        ↔ ((Kind.other ≢ Kind.marker) × (¬ HasInfrastructure (chain broken_pipe))))
classify-default_iff_example = classify-default_iff broken_pipe

abbrev layers : List Layer
layers =
    marked_application
    ∷ with_context "while saving"
    ∷ marked_system_failure
    ∷ with_context "on disk 2"
    ∷ []

classify-layers_example : classify default (put_all layers broken_pipe) ≡ system_failure
classify-layers_example = classify-layers layers broken_pipe
