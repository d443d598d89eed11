-- ===== src/Validate/Temporal.antt =====
-- `validate_temporal` of tools/validate.py: the order of an action's dates.
pub mod Chain
use corporate_actions.Prelude.{
  String, Bool, true, false, not, ◌||◌, Option, none, some, List, [], ◌∷◌, ◌++◌, report, ◌==◌,
  if◌then◌else◌,
}
use corporate_actions.Prelude.Text.{str_lt, str_le, str_ne, given, is_some}
use corporate_actions.Model.{Dates, dates_or_empty, Action}

-- one constructor for each message
pub data TemporalError : Type 0 where
  missing_action_type missing_announcement missing_effective_date : TemporalError
  announcement_after_effective_date announcement_after_ex_date : TemporalError
  ex_date_not_effective_date record_date_after_ex_date : TemporalError
  ex_date_not_before_record_date record_date_after_effective_date : TemporalError
  delisting_has_ex_date delisting_has_record_date : TemporalError

-- `x and y and test(x, y)`
abbrev pub both : (String → String → Bool) → Option String → Option String → Bool
both test none y = false
both test (some x) none = false
both test (some x) (some y) = test x y

-- `x > y` and `x >= y`
abbrev pub after : String → String → Bool
after x y = str_lt y x

abbrev pub not_before : String → String → Bool
not_before x y = str_le y x

-- the dates that hold a text other than the empty one
abbrev pub given_dates : Dates → Dates
given_dates d = record {
  announcement = given d.announcement;
  ex_date = given d.ex_date;
  record_date = given d.record_date;
  effective_date = given d.effective_date;
}

abbrev pub is_split : String → Bool
is_split t = t == "SPLIT" || t == "REVERSE_SPLIT"

abbrev pub is_dividend : String → Bool
is_dividend t = t == "DIVIDEND" || t == "SPECIAL_DIVIDEND"

-- announcement <= ex_date, ex_date = effective_date: what SPLIT and SPINOFF share
unfoldable pub ex_date_errors : Dates → List TemporalError
ex_date_errors d =
    report (both after d.announcement d.ex_date) announcement_after_ex_date
    ++ report (both str_ne d.ex_date d.effective_date) ex_date_not_effective_date

unfoldable pub dividend_errors : Dates → List TemporalError
dividend_errors d =
    report (both after d.announcement d.ex_date) announcement_after_ex_date
    ++ report (both not_before d.ex_date d.record_date) ex_date_not_before_record_date
    ++ report (both after d.record_date d.effective_date) record_date_after_effective_date

unfoldable pub delisting_errors : Dates → List TemporalError
delisting_errors d =
    report (is_some d.ex_date) delisting_has_ex_date
    ++ report (is_some d.record_date) delisting_has_record_date

unfoldable pub type_errors : String → Dates → List TemporalError
unfolding ex_date_errors dividend_errors delisting_errors
type_errors t d =
    if is_split t
    then ex_date_errors d ++ report (both after d.record_date d.ex_date) record_date_after_ex_date
    else if is_dividend t
    then dividend_errors d
    else if t == "SYMBOL_CHANGE"
    then []
    else if t == "SPINOFF"
    then ex_date_errors d
    else if t == "DELISTING"
    then delisting_errors d
    else []

-- the checks before the rules of the type
unfoldable pub basic_errors : Dates → List TemporalError
basic_errors d =
    report (not (is_some d.announcement)) missing_announcement
    ++ report (not (is_some d.effective_date)) missing_effective_date
    ++ report (both after d.announcement d.effective_date) announcement_after_effective_date

module _ {N : Type 0} where
  unfoldable pub validate_temporal : Action N → List TemporalError
  unfolding basic_errors type_errors
  validate_temporal a =
      let d = given_dates (dates_or_empty a.dates) in
      elim (given a.action_type) [
        | none ↦ missing_action_type ∷ []
        | some t ↦ basic_errors d ++ type_errors t d
      ]
