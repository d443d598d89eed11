-- ===== src/Validate/References.antt =====
-- The layers of tools/validate.py that look at one action and at given sets: cross-references,
-- provenance, redistribution.
use corporate_actions.Prelude.{
  String, Bool, true, false, not, ◌||◌, Option, none, some, List, [], ◌∷◌, ◌++◌, report, ◌==◌,
  if◌then◌else◌,
}
use corporate_actions.Prelude.Text.{codes, given, is_prefix}
use corporate_actions.Model.{provenance_or_empty, Action}
use corporate_actions.Redistribution.{redistribution_for, category_text}

pub data ReferenceError : Type 0 where
  isin_not_found currency_not_active exchange_not_found : String → ReferenceError

-- The three registries, as the sets of what they list.
pub record Registries : Type 0 where
  pub isins : String → Bool
  pub currencies : String → Bool
  pub mics : String → Bool

-- `if x and x not in known: errors.append(…)`
abbrev pub unknown :
    (String → ReferenceError) → (String → Bool) → Option String → List ReferenceError
unknown e known none = []
unknown e known (some x) = report (not (known x)) (e x)

-- `isin_warnings.append`, where a list was passed
abbrev pub warn : List ReferenceError → Option (List ReferenceError) → Option (List ReferenceError)
warn found none = none
warn found (some warnings) = some (warnings ++ found)

abbrev pub takes_warnings : Option (List ReferenceError) → Bool
takes_warnings none = false
takes_warnings (some w) = true

module _ {N : Type 0} where
  -- the errors, and the list of warnings after the call
  unfoldable pub validate_cross_reference :
      Registries
      → Bool
      → Option (List ReferenceError)
      → Action N
      → List ReferenceError × Option (List ReferenceError)
  validate_cross_reference known strict warnings a =
      let missing = unknown isin_not_found known.isins (given a.isin) in
      let rest =
        unknown currency_not_active known.currencies (given a.currency)
        ++ unknown exchange_not_found known.mics (given a.exchange) in
      if strict || not (takes_warnings warnings)
      then (missing ++ rest, warnings)
      else (rest, warn missing warnings)

pub data ProvenanceError : Type 0 where
  source_url_required : ProvenanceError
  source_url_not_http : String → ProvenanceError

abbrev pub is_http : String → Bool
is_http url = is_prefix (codes "http://") (codes url) || is_prefix (codes "https://") (codes url)

pub data RedistributionError : Type 0 where
  missing_redistribution redistribution_restricted redistribution_differs : RedistributionError

module _ {N : Type 0} where
  unfoldable pub validate_provenance : Action N → List ProvenanceError
  unfolding is_prefix
  validate_provenance a = elim (given (provenance_or_empty a.provenance).source_url) [
    | none ↦ source_url_required ∷ []
    | some url ↦ report (not (is_http url)) (source_url_not_http url)
  ]

  unfoldable pub validate_redistribution : Action N → List RedistributionError
  unfolding redistribution_for category_text
  validate_redistribution a = elim (given a.redistribution) [
    | none ↦ missing_redistribution ∷ []
    | some value ↦
        if value == "restricted"
        then redistribution_restricted ∷ []
        else report
            (not (
              value
              == category_text (redistribution_for (provenance_or_empty a.provenance).source)))
            redistribution_differs
  ]
