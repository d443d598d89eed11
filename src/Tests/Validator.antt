-- ===== src/Tests/Validator.antt =====
-- The validator and the ratio texts on sample data.
use corporate_actions.Registry.Queries.{Instrument}
use corporate_actions.Validate.Load.{
  Item, items, other, load_identifiers_registry, load_exchange_calendar_registry,
  build_ticker_isin_index,
}
use corporate_actions.Prelude.Text.{codes}
use corporate_actions.Prelude.{◌≡◌, ◌↔◌, refl, ◌≤◌, String, true, none, some, [], ◌∷◌, All, length}
use corporate_actions.Tests.Sample.{
  fixed_point, split_action, split_dates, dividend_action, twin_action, setup, actions,
}
use corporate_actions.Ratio.{matches_ratio, parse_ratio, show}
use corporate_actions.Validate.ActionId.{validate_action_id_format}
use corporate_actions.Validate.References.{
  validate_cross_reference, validate_provenance, validate_redistribution,
}
use corporate_actions.Ratio.Parse.{parse_ratio-show}
use corporate_actions.Validate.Temporal.{validate_temporal}
use corporate_actions.Validate.Temporal.Chain.{IsTimely, validate_temporal-nil_iff}
use corporate_actions.Validate.Unique.{
  ids_of, Distinct, validate_uniqueness, validate_uniqueness-nil_iff,
}
use corporate_actions.Validate.Semantic.{validate_semantic_uniqueness}
use corporate_actions.Validate.Semantic.Groups.{no_twins, validate_semantic_uniqueness-nil_iff}
use corporate_actions.Validate.Arithmetic.{validate_arithmetic}
use corporate_actions.Validate.Run.{validate_actions, exit_code}
use corporate_actions.Validate.Run.Passes.{IsSound, exit_code-validate_actions}

accepts_sample :
    exit_code fixed_point String (validate_actions fixed_point String setup actions) ≡ 0
unfolding exit_code validate_actions validate_arithmetic validate_temporal matches_ratio
    validate_action_id_format validate_cross_reference validate_provenance validate_redistribution
    validate_uniqueness validate_semantic_uniqueness
accepts_sample = refl

rejects_twins :
    exit_code fixed_point String
      (validate_actions fixed_point String setup (dividend_action ∷ twin_action ∷ []))
    ≡ 1
unfolding exit_code validate_actions validate_arithmetic validate_temporal matches_ratio
    validate_action_id_format validate_cross_reference validate_provenance validate_redistribution
    validate_uniqueness validate_semantic_uniqueness
rejects_twins = refl

exit_code-validate_actions_example :
    (exit_code fixed_point String (validate_actions fixed_point String setup actions) ≡ 0) ↔ (
      All (IsSound fixed_point String setup) actions
      × Distinct (ids_of actions)
      × (no_twins fixed_point actions ≡ true)
      × (2 ≤ length actions))
exit_code-validate_actions_example = exit_code-validate_actions fixed_point String setup actions

validate_temporal-nil_iff_example :
    (validate_temporal split_action ≡ []) ↔ IsTimely "SPLIT" split_dates
validate_temporal-nil_iff_example = validate_temporal-nil_iff split_action "SPLIT" refl

validate_uniqueness-nil_iff_example : (validate_uniqueness actions ≡ []) ↔ Distinct (ids_of actions)
validate_uniqueness-nil_iff_example = validate_uniqueness-nil_iff actions

validate_semantic_uniqueness-nil_iff_example :
    (validate_semantic_uniqueness fixed_point (dividend_action ∷ twin_action ∷ []) ≡ [])
    ↔ (no_twins fixed_point (dividend_action ∷ twin_action ∷ []) ≡ true)
validate_semantic_uniqueness-nil_iff_example =
    validate_semantic_uniqueness-nil_iff fixed_point (dividend_action ∷ twin_action ∷ [])

parse_ratio-show_example : parse_ratio (some "10:3") ≡ some (10, 3)
unfolding show
parse_ratio-show_example = parse_ratio-show 10 3 "10:3" refl

abbrev no_item : Item
no_item = record { isin = none; ticker = none; mic = none; code = none }

-- the first key is no list, and the second one is taken
loaded_isins :
    load_identifiers_registry (
      ("instruments", other)
      ∷ ("identifiers", items (none ∷ some (record no_item { isin = some "US0378331005" }) ∷ []))
      ∷ [])
    ≡ "US0378331005" ∷ []
unfolding load_identifiers_registry
loaded_isins = refl

-- a list under another key, whose first element has no code
loaded_mics :
    load_exchange_calendar_registry (
      ("meta", other)
      ∷ ("rows", items (some no_item ∷ some (record no_item { code = some (some "XNYS") }) ∷ []))
      ∷ [])
    ≡ some ("XNYS" ∷ [])
unfolding load_exchange_calendar_registry
loaded_mics = refl

abbrev listed : String → Instrument
listed isin = record { ticker = some "aapl"; exchange = some "XNAS"; isin = some isin }

-- two ISINs for one listing are a ValueError, and a repetition is none
conflicting_listings :
    build_ticker_isin_index (listed "US0378331005" ∷ listed "US5949181045" ∷ []) [] ≡ none
unfolding build_ticker_isin_index
conflicting_listings = refl

repeated_listing :
    build_ticker_isin_index (listed "US0378331005" ∷ listed "US0378331005" ∷ []) []
    ≡ some (((codes "AAPL", codes "XNAS"), "US0378331005") ∷ [])
unfolding build_ticker_isin_index
repeated_listing = refl
