-- ===== src/Tests/Deriving.antt =====
-- The derivation of impacts and redistribution values and the rewriting of ids, on sample data.
use corporate_actions.Prelude.{
  ◌≡◌, ◌↔◌, refl, String, true, false, none, some, List, [], ◌∷◌, All, ◌≢◌,
}
use corporate_actions.Prelude.Int.{ℤ, pos}
use corporate_actions.Model.{Action}
use corporate_actions.Tests.Sample.{
  fixed_point, fixed_eq_refl, split_action, split_dates, dividend_action, actions,
}
use corporate_actions.Ratio.{str}
use corporate_actions.Validate.ActionId.{
  validate_action_id_format, match_classes, isin_classes, date_classes,
}
use corporate_actions.Validate.References.{validate_redistribution}
use corporate_actions.Validate.Unique.{validate_uniqueness}
use corporate_actions.Validate.Arithmetic.{validate_arithmetic}
use corporate_actions.Model.{number}
use corporate_actions.Impacts.{split_of, cash_of, derive_impact, derive_impacts}
use corporate_actions.Impacts.Write.{
  writing, checking, derive_impacts-all_or_nothing, written_is_derived,
}
use corporate_actions.Impacts.Stable.{Integral, written_is_stable}
use corporate_actions.Redistribution.Run.{computed, derive_redistribution}
use corporate_actions.Redistribution.Run.Agrees
use corporate_actions.Redistribution.Run.Agrees.{AreActions, on_disk, check-agrees, write-agrees}
use corporate_actions.Rewrite.{
  build_canonical_id, discriminator, ratio_discriminator, is_canonical, new_ids, Run, rewrite,
}
use corporate_actions.Rewrite.Shape.{Fits}
use corporate_actions.Rewrite.Valid.{build_canonical_id-valid}
use corporate_actions.Yahoo.Build.Split.{IsShown}
use corporate_actions.Rewrite.Again.{
  left_on_disk, rewrite-canonical, rewrite_again, rewrite_refuses,
}
use corporate_actions.Validate.ActionId.{ratio_differs}
use corporate_actions.Prelude.{ap, none≢some}

abbrev untyped_action : Action ℤ
untyped_action = record dividend_action { action_type = none }

-- an amount beyond the range of the floats, which the validator passes and which has no impact
abbrev huge_dividend : Action ℤ
huge_dividend = record dividend_action { amount = some (number (pos 10_000_000_000_000_000)) }

huge_is_valid : validate_arithmetic fixed_point huge_dividend ≡ some []
unfolding validate_arithmetic
huge_is_valid = refl

huge_has_none : derive_impact fixed_point huge_dividend ≡ none
unfolding derive_impact
huge_has_none = refl

derive_impacts-all_or_nothing_example :
    derive_impacts fixed_point (writing fixed_point) true (split_action ∷ untyped_action ∷ [])
    ≡ record { code = 1; written = none }
unfolding derive_impact
derive_impacts-all_or_nothing_example =
    derive_impacts-all_or_nothing fixed_point (writing fixed_point) true
      (split_action ∷ untyped_action ∷ []) refl

abbrev derived : List (Action ℤ)
derived =
    record split_action { impact = some (split_of fixed_point 4 1) }
    ∷ record dividend_action { impact = some (cash_of fixed_point (pos 2500)) }
    ∷ []

derive_impacts-sample :
    (derive_impacts fixed_point (writing fixed_point) true actions).written ≡ some derived
unfolding derive_impacts
derive_impacts-sample = refl

written_is_derived_example : All (λ a. derive_impact fixed_point a ≡ a.impact) derived
written_is_derived_example =
    written_is_derived fixed_point (writing fixed_point) true actions derived derive_impacts-sample

fixed_point-Integral : Integral fixed_point
fixed_point-Integral = record {
  of_int_refl = λ n. fixed_eq_refl (fixed_point.of_int n);
  quot_refl = λ n d. fixed_eq_refl (fixed_point.quot n d);
}

written_is_stable_example :
    (derive_impacts fixed_point (checking fixed_point) false derived
      ≡ record { code = 0; written = none })
    × (derive_impacts fixed_point (writing fixed_point) true derived
        ≡ record { code = 0; written = some derived })
written_is_stable_example =
    written_is_stable fixed_point fixed_point-Integral (writing fixed_point) true false actions
      derived (refl, (refl, tt)) derive_impacts-sample

abbrev unmarked_action : Action ℤ
unmarked_action = record split_action { redistribution = none }

check-agrees_example :
    ((derive_redistribution Agrees.checking true
        (some split_action ∷ some unmarked_action ∷ [])).code
      ≡ 0)
    ↔ ((actions : List (Action ℤ)) × AreActions
          (some split_action ∷ some unmarked_action ∷ [])
          actions
        × (actions ≢ [])
        × All (λ b. validate_redistribution b ≡ []) actions)
check-agrees_example = check-agrees true (some split_action ∷ some unmarked_action ∷ [])

write-agrees_example :
    (actions : List (Action ℤ)) × AreActions (some split_action ∷ some unmarked_action ∷ []) actions
    × All
        (λ b. validate_redistribution b ≡ [])
        (on_disk
          (derive_redistribution Agrees.writing true
            (some split_action ∷ some unmarked_action ∷ []))
          actions)
unfolding derive_redistribution computed
write-agrees_example = write-agrees true (some split_action ∷ some unmarked_action ∷ []) refl

-- an element that is no object ends the run with code 2
no_object_stops :
    derive_redistribution Agrees.writing true (some split_action ∷ none ∷ [])
    ≡ record { code = 2; written = none }
unfolding derive_redistribution
no_object_stops = refl

-- the split under an id that is not canonical
abbrev misnamed : List (Action ℤ)
misnamed = record split_action { action_id = some "aapl-split" } ∷ dividend_action ∷ []

rewrite-sample :
    rewrite fixed_point false true true misnamed ≡ record { code = 0; written = some actions }
unfolding rewrite build_canonical_id ratio_discriminator is_canonical
rewrite-sample = refl

rewrite-canonical_example :
    All
      (λ a. build_canonical_id fixed_point a ≡ a.action_id)
      (left_on_disk fixed_point (rewrite fixed_point false true true misnamed) misnamed)
    × (validate_uniqueness
          (left_on_disk fixed_point (rewrite fixed_point false true true misnamed) misnamed)
        ≡ [])
rewrite-canonical_example =
    rewrite-canonical fixed_point true true misnamed
      (ap (λ (r : Run fixed_point). r.code) rewrite-sample)

rewrite_again_example :
    rewrite fixed_point false true true
      (left_on_disk fixed_point (rewrite fixed_point false true true misnamed) misnamed)
    ≡ record { code = 0; written = none }
rewrite_again_example =
    rewrite_again fixed_point true true misnamed
      (ap (λ (r : Run fixed_point). r.code) rewrite-sample)

-- an action without a type has no canonical id
rewrite_refuses_example :
    rewrite fixed_point false true true (untyped_action ∷ []) ≡ record { code = 1; written = none }
unfolding new_ids build_canonical_id
rewrite_refuses_example =
    rewrite_refuses fixed_point false true true (untyped_action ∷ []) (λ ids h d. none≢some h)

-- The canonical id of a ratio with a leading zero drops the zero, and the validator wants it kept.
abbrev padded_action : Action ℤ
padded_action = record split_action { ratio = some "04:1" }

leading_zero :
    (build_canonical_id fixed_point padded_action ≡ some "US0378331005-SPLIT-2020-08-31-4-1")
    × (validate_action_id_format fixed_point padded_action ≡ ratio_differs ∷ [])
unfolding build_canonical_id ratio_discriminator is_canonical validate_action_id_format
leading_zero = (refl, refl)

four_to_one-IsShown : IsShown "4:1"
unfolding str
four_to_one-IsShown = record { num = 4; den = 1; positive = refl; shown = refl }

split_isin-Fits : Fits isin_classes "US0378331005"
unfolding match_classes
split_isin-Fits = refl

split_date-Fits : Fits date_classes "2020-08-31"
unfolding match_classes
split_date-Fits = refl

split_discriminator : discriminator fixed_point "SPLIT" split_action ≡ some "4-1"
unfolding discriminator
split_discriminator = refl

build_canonical_id-valid_example :
    (id : String) × (build_canonical_id fixed_point split_action ≡ some id)
    × (validate_action_id_format fixed_point (record split_action { action_id = some id }) ≡ [])
build_canonical_id-valid_example =
    build_canonical_id-valid fixed_point split_action "US0378331005" "SPLIT" "2020-08-31" "4-1"
      split_dates refl refl refl refl split_isin-Fits split_date-Fits refl four_to_one-IsShown
      split_discriminator refl
