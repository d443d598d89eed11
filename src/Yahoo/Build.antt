-- ===== src/Yahoo/Build.antt =====
-- The actions that tools/fetch_yahoo_actions.py builds from the rows of an answer.
pub mod Split
pub mod Valid
use Prim.Native.String.{◌++◌}
use corporate_actions.Prelude.{
  ℕ, zero, suc, String, Bool, true, false, not, ◌&&◌, ◌||◌, Option, none, some, List, [], ◌∷◌, ◌==◌,
  ltb, if◌then◌else◌,
}
use corporate_actions.Prelude.Int.{ℤ, pos, negsuc}
use corporate_actions.Prelude.Text.{codes, given, split}
use corporate_actions.Floats.{Floats}
use corporate_actions.Model.{number, Impact, Action}
use corporate_actions.Ratio.{str, two_ints}
use corporate_actions.Yahoo.{
  Stamp, Target, timestamp_to_iso, is_early, str_int, is_zero, yahoo, event_dates,
}

-- a timestamp with the value at it; `none` where `float` refuses the value
pub record Row (N : Type 0) : Type 0 where
  pub stamp : Stamp
  pub value : Option N

-- the answer of yfinance for a ticker; a table that is None counts as an empty one
pub record Events (N : Type 0) : Type 0 where
  pub dividends : List (Row N)
  pub splits : List (Row N)

-- what a row comes to: nothing, an exception, or an action
pub data Taken (N : Type 0) : Type 0 where
  skipped raised : Taken N
  taken : Action N → Taken N

abbrev pub put_taken : {N : Type 0} → Taken N → Option (List (Action N)) → Option (List (Action N))
put_taken skipped rest = rest
put_taken raised rest = none
put_taken (taken a) none = none
put_taken (taken a) (some rest) = some (a ∷ rest)

-- the fields that both kinds of actions share
abbrev pub event : {N : Type 0} → Target → String → Action N
event t date = record {
  isin = some t.isin;
  action_id = none;
  action_type = none;
  ratio = none;
  amount = none;
  currency = none;
  exchange = none;
  dates = some (event_dates date);
  status = some "COMPLETED";
  redistribution = none;
  provenance = some (yahoo t.ticker);
  impact = none;
}

-- the two parts of a fraction, where both are positive
unfoldable pub fraction_text : Option (ℤ × ℕ) → Option String
unfolding str
fraction_text none = none
fraction_text (some (pos num, den)) =
    if ltb 0 num && ltb 0 den then some (str num ++ ":" ++ str den) else none
fraction_text (some (negsuc num, den)) = none

module _ (F : Floats) where
  open F use {Num, of_int, le, quot, round, fixed}

  -- `Fraction(x).limit_denominator(100)`, its numerator and its denominator; `none` where it raises
  module _ (limit_denominator : Num → Option (ℤ × ℕ)) where
    unfoldable pub ratio_to_string : Option Num → Option String
    unfolding fraction_text
    ratio_to_string none = none
    ratio_to_string (some ratio) =
        if le ratio (of_int (pos 0)) then none else fraction_text (limit_denominator ratio)

  unfoldable pub build_dividend_action : Target → String → Num → Action Num
  build_dividend_action t date amount = record (event t date) {
    action_id = some (t.isin ++ "-" ++ "DIVIDEND" ++ "-" ++ date ++ "-" ++ fixed 4 amount);
    action_type = some "DIVIDEND";
    amount = some (number (round 6 amount));
    currency = some t.currency;
    impact = some (record {
      price_multiplier = some (of_int (pos 1));
      share_multiplier = some (of_int (pos 1));
      cash_adjustment = some (round 6 amount);
    });
  }

  -- the action from the two ints of the ratio; the ratio is one that `ratio_to_string` wrote, a
  -- fraction of a float with a denominator up to 100, of which neither quotient overflows
  abbrev pub split_action : Target → String → String → ℤ → ℤ → Action Num
  split_action t date ratio num den = record (event t date) {
    action_id =
        some (t.isin ++ "-" ++ "SPLIT" ++ "-" ++ date ++ "-" ++ str_int num ++ "-" ++ str_int den);
    action_type = some "SPLIT";
    ratio = some ratio;
    impact = some (record {
      price_multiplier = some (quot den num);
      share_multiplier = some (quot num den);
      cash_adjustment = some (of_int (pos 0));
    });
  }

  -- `none` is ValueError, where the text has not two parts or a part is no int, or
  -- ZeroDivisionError
  unfoldable pub build_split_action : Target → String → String → Option (Action Num)
  unfolding split two_ints str
  build_split_action t date ratio = elim (two_ints (split b':' (codes ratio))) [
    | none ↦ none
    | some (num, den) ↦
        if is_zero num || is_zero den then none else some (split_action t date ratio num den)
  ]

  -- the date of a row that is in the window
  abbrev pub row_date : Option String → Row Num → Option String
  row_date min_date row = elim (given (timestamp_to_iso row.stamp)) [
    | none ↦ none
    | some date ↦ if is_early min_date date then none else some date
  ]

  -- one round of the loop over the dividends
  unfoldable pub take_dividend : Target → Option String → Row Num → Taken Num
  unfolding timestamp_to_iso build_dividend_action
  take_dividend t min_date row = elim (row_date min_date row) [
    | none ↦ skipped
    | some date ↦ elim row.value [
      | none ↦ skipped
      | some amount ↦
          if le amount (of_int (pos 0))
          then skipped
          else taken (build_dividend_action t date amount)
    ]
  ]

  abbrev pub built : Option (Action Num) → Taken Num
  built none = raised
  built (some a) = taken a

  module _ (limit_denominator : Num → Option (ℤ × ℕ)) where
    -- one round of the loop over the splits
    unfoldable pub take_split : Target → Option String → Row Num → Taken Num
    unfolding timestamp_to_iso ratio_to_string build_split_action
    take_split t min_date row = elim (row_date min_date row) [
      | none ↦ skipped
      | some date ↦ elim row.value [
        | none ↦ skipped
        | some ratio ↦ elim (ratio_to_string limit_denominator (some ratio)) [
          | none ↦ skipped
          | some text ↦ built (build_split_action t date text)
        ]
      ]
    ]

    unfoldable pub dividends_and_then :
        Target
        → Option String
        → List (Row Num)
        → Option (List (Action Num))
        → Option (List (Action Num))
    unfolding take_dividend
    dividends_and_then t min_date [] rest = rest
    dividends_and_then t min_date (row ∷ rows) rest =
        put_taken (take_dividend t min_date row) (dividends_and_then t min_date rows rest)

    unfoldable pub splits_of : Target → Option String → List (Row Num) → Option (List (Action Num))
    unfolding take_split
    splits_of t min_date [] = some []
    splits_of t min_date (row ∷ rows) =
        put_taken (take_split t min_date row) (splits_of t min_date rows)

    -- `fetch_actions_for_ticker`, on the answer of `_fetch_events`
    unfoldable pub actions_of : Target → Option String → Events Num → Option (List (Action Num))
    unfolding dividends_and_then splits_of
    actions_of t min_date events =
        dividends_and_then t min_date events.dividends (splits_of t min_date events.splits)
