-- ===== src/Validate/Run.antt =====
-- The body of `main` in tools/validate.py, from the loop over the actions to the exit code. The
-- check of one action against schema.json is jsonschema's, so it is a parameter.
pub mod Passes
use corporate_actions.Prelude.{
  ℕ, String, Bool, true, false, not, Option, none, some, List, [], ◌∷◌, ◌++◌, map, any, report,
  length, ltb, ◌==◌, if◌then◌else◌,
}
use corporate_actions.Floats.{Floats}
use corporate_actions.Model.{Action}
use corporate_actions.Validate.Temporal.{TemporalError, validate_temporal}
use corporate_actions.Validate.Arithmetic.{ArithmeticError, validate_arithmetic}
use corporate_actions.Validate.ActionId.{IdError, validate_action_id_format, type_names}
use corporate_actions.Validate.References.{
  Registries, ReferenceError, ProvenanceError, RedistributionError, validate_cross_reference,
  validate_provenance, validate_redistribution,
}
use corporate_actions.Validate.Unique.{validate_uniqueness}
use corporate_actions.Validate.Semantic.{DuplicateEvent, validate_semantic_uniqueness}

-- `action_type not in ALLOWED_ACTION_TYPES`
abbrev pub is_allowed : Option String → Bool
is_allowed none = false
is_allowed (some t) = any (λ name. t == name) type_names

-- the list that `isin_warnings` was bound to
abbrev pub warnings_after : Option (List ReferenceError) → List ReferenceError
warnings_after none = []
warnings_after (some w) = w

module _ (F : Floats) (S : Type 0) where
  open F use {Num}

  -- an entry of `all_errors`, by the layer that found it
  pub data LayerError : Type 0 where
    type_not_allowed : LayerError
    schema : S → LayerError
    temporal : TemporalError → LayerError
    arithmetic : ArithmeticError → LayerError
    id_format : IdError → LayerError
    reference : ReferenceError → LayerError
    provenance : ProvenanceError → LayerError
    redistribution : RedistributionError → LayerError
    duplicate_id : String → LayerError
    duplicate_event : DuplicateEvent F → LayerError
    coverage : ℕ → LayerError

  -- `raised` is the KeyError of the arithmetic layer, which ends the program
  pub data Outcome : Type 0 where
    raised : Outcome
    finished : List LayerError → List ReferenceError → Outcome

  -- the parameters of a run
  pub record Setup : Type 0 where
    pub schema_errors : Action Num → List S
    pub known : Registries
    pub strict_isin : Bool
    pub min_actions : ℕ

  -- the layers before the arithmetic one, and those after it but for the cross-references
  unfoldable pub early_errors : Setup → Action Num → List LayerError
  early_errors s a =
      report (not (is_allowed a.action_type)) type_not_allowed
      ++ (map schema (s.schema_errors a) ++ map temporal (validate_temporal a))

  unfoldable pub late_errors : Setup → List ReferenceError → Action Num → List LayerError
  late_errors s warnings a =
      map id_format (validate_action_id_format F a)
      ++ (map reference (validate_cross_reference s.known s.strict_isin (some warnings) a).0
          ++ (map provenance (validate_provenance a)
              ++ map redistribution (validate_redistribution a)))

  -- a KeyError leaves the loop
  abbrev pub or_raise : Option (List ArithmeticError) → (List ArithmeticError → Outcome) → Outcome
  or_raise none continue = raised
  or_raise (some found) continue = continue found

  unfoldable pub validate_each :
      Setup → List (Action Num) → List LayerError → List ReferenceError → Outcome
  unfolding early_errors late_errors
  validate_each s [] errors warnings = finished errors warnings
  validate_each s (a ∷ rest) errors warnings = or_raise (validate_arithmetic F a) λ found.
      validate_each s rest
        (errors ++ (early_errors s a ++ (map arithmetic found ++ late_errors s warnings a)))
        (warnings_after (validate_cross_reference s.known s.strict_isin (some warnings) a).1)

  -- the layers that look at all the actions
  unfoldable pub registry_errors : Setup → List (Action Num) → List LayerError
  registry_errors s actions =
      map duplicate_id (validate_uniqueness actions)
      ++ (map duplicate_event (validate_semantic_uniqueness F actions)
          ++ report (ltb (length actions) s.min_actions) (coverage (length actions)))

  abbrev pub add_errors : List LayerError → Outcome → Outcome
  add_errors more raised = raised
  add_errors more (finished errors warnings) = finished (errors ++ more) warnings

  unfoldable pub validate_actions : Setup → List (Action Num) → Outcome
  unfolding validate_each registry_errors
  validate_actions s actions =
      add_errors (registry_errors s actions) (validate_each s actions [] [])

  -- a traceback ends the program with code 1 too
  unfoldable pub exit_code : Outcome → ℕ
  exit_code raised = 1
  exit_code (finished [] warnings) = 0
  exit_code (finished (e ∷ errors) warnings) = 1
