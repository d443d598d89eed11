-- ===== src/Tests/Fetching.antt =====
-- Witnesses and tests of the Yahoo fetcher and of the list that a fetcher writes.
use corporate_actions.Prelude.{
  ◌≡◌, refl, ℕ, ◌≤◌, String, true, Option, none, some, List, [], ◌∷◌, ◌==◌, any, All, length, eqb,
  if◌then◌else◌, ◌&&◌,
}
use corporate_actions.Prelude.Int.{ℤ, pos}
use corporate_actions.Prelude.Sort.{IsSorted}
use corporate_actions.Model.{Dates, Action}
use corporate_actions.Impacts.{derive_impact}
use corporate_actions.Validate.ActionId.{◌>>=◌}
use corporate_actions.Validate.Unique.{validate_uniqueness}
use corporate_actions.Validate.Arithmetic.{validate_arithmetic}
use corporate_actions.Rewrite.{build_canonical_id, if_canonical}
use corporate_actions.Calendar.{strptime}
use corporate_actions.Fetch.{id_of, output, output_le}
use corporate_actions.Fetch.Output.{output-IsSorted}
use corporate_actions.Yahoo.{Target, File, parsed, loaded, load_instruments, with_date, plain}
use corporate_actions.Yahoo.Build.{Events, ratio_to_string, build_split_action}
use corporate_actions.Yahoo.Build.Split.{build_split_action-agrees}
use corporate_actions.Yahoo.Attempts.{fetch_events, fetch_events_lem, first_answer, max_delay}
use corporate_actions.Yahoo.Run.{Settings, ended, raised, main, selected}
use corporate_actions.Yahoo.Run.Written.{IsFetched, code_for, main-written}
use corporate_actions.Tests.Sample.{fixed_point, split_action, dividend_action, twin_action}
use corporate_actions.Tests.Limiting.{fixed_point-Arithmetic}

abbrev ex_date_of : Dates → Option String
ex_date_of d = d.ex_date

abbrev fetched : List (Action ℤ)
fetched = dividend_action ∷ split_action ∷ dividend_action ∷ twin_action ∷ []

output-IsSorted_example :
    (validate_uniqueness (output ex_date_of fetched) ≡ [])
    × IsSorted (output_le ex_date_of) (output ex_date_of fetched)
    × ((i : String)
        → any (λ (a : Action ℤ). id_of a == i) (output ex_date_of fetched)
          ≡ any (λ (a : Action ℤ). id_of a == i) fetched)
output-IsSorted_example = output-IsSorted ex_date_of fetched

-- the second dividend is dropped, and the split of 2020 comes first
fetched_output : output ex_date_of fetched ≡ split_action ∷ dividend_action ∷ twin_action ∷ []
unfolding output
fetched_output = refl

-- what `limit_denominator` gives of 4, 0.5 and other numbers
abbrev fraction : ℤ → Option (ℤ × ℕ)
fraction (pos n) =
    if eqb n 40000 then some (pos 4, 1) else if eqb n 5000 then some (pos 1, 2) else none
fraction _ = none

abbrev apple : Target
apple = record { isin = "US0378331005"; ticker = "AAPL"; currency = "USD" }

four_to_one : ratio_to_string fixed_point fraction (some (pos 40000)) ≡ some "4:1"
unfolding ratio_to_string
four_to_one = refl

build_split_action-agrees_example :
    (a : Action ℤ) × (build_split_action fixed_point apple "2020-08-31" "4:1" ≡ some a)
    × (validate_arithmetic fixed_point a ≡ some [])
    × (derive_impact fixed_point a ≡ a.impact)
    × (build_canonical_id fixed_point a ≡ (a.action_id >>= if_canonical fixed_point))
build_split_action-agrees_example =
    build_split_action-agrees fixed_point fraction apple "2020-08-31" "4:1" (pos 40000)
      (λ num den e. refl) four_to_one refl refl

-- the first two attempts fail, and the third one gives a split and two dividends
abbrev events : Events ℤ
events = record {
  dividends =
      record { stamp = plain (some "1999-05-11"); value = some (pos 2500) }
      ∷ record { stamp = with_date (some "2021-02-05") none; value = some (pos 2500) }
      ∷ record { stamp = plain (some "2022-02-05"); value = none }
      ∷ [];
  splits = record { stamp = plain (some "2020-08-31"); value = some (pos 40000) } ∷ [];
}

abbrev answer : String → ℕ → Option (Events ℤ)
answer ticker k = if ticker == "AAPL" && eqb k 2 then some events else none

fetch_events_lem_example :
    ((fetch_events fixed_point (answer "AAPL") (λ k. pos 5000)).answer
      ≡ first_answer (answer "AAPL") (0 ∷ 1 ∷ 2 ∷ []))
    × (length (fetch_events fixed_point (answer "AAPL") (λ k. pos 5000)).slept ≤ 2)
    × All
        (λ d. fixed_point.le d (max_delay fixed_point) ≡ true)
        (fetch_events fixed_point (answer "AAPL") (λ k. pos 5000)).slept
fetch_events_lem_example =
    fetch_events_lem fixed_point (answer "AAPL") (λ k. pos 5000) fixed_point-Arithmetic

fetch_events_run :
    (fetch_events fixed_point (answer "AAPL") (λ k. pos 5000)).slept ≡ pos 25000 ∷ pos 45000 ∷ []
unfolding fetch_events
fetch_events_run = refl

-- two instruments; the second one's ticker is never answered
abbrev identifiers : File
identifiers = parsed none (
    some (
      some (record {
        isin = some "US0378331005";
        ticker = some "aapl";
        currency = none;
        listings = some (some (record { status = some "PRIMARY"; currency = some "USD" }) ∷ []);
      })
      ∷ none
      ∷ some (record {
        isin = some "US5949181045";
        ticker = some "MSFT";
        currency = some "USD";
        listings = none;
      })
      ∷ []))

abbrev microsoft : Target
microsoft = record { isin = "US5949181045"; ticker = "MSFT"; currency = "USD" }

identifiers_loaded : load_instruments identifiers ≡ loaded (apple ∷ microsoft ∷ [])
unfolding load_instruments
identifiers_loaded = refl

abbrev settings : Settings ℤ
settings = record {
  rate_limit = pos 50000;
  rate_burst = pos 100000;
  min_date = "2000-01-01";
  ticker_offset = pos 0;
  ticker_limit = none;
  has_yfinance = true;
  can_write = true;
}

settings_selected :
    selected settings.ticker_offset settings.ticker_limit (apple ∷ microsoft ∷ [])
    ≡ some (apple ∷ microsoft ∷ [])
unfolding selected
settings_selected = refl

settings_dated : strptime settings.min_date ≡ true
unfolding strptime
settings_dated = refl

main-written_example :
    (actions : List (Action ℤ)) × (main fixed_point fraction answer
        (λ k. pos 5000)
        settings
        (pos 0)
        identifiers
      ≡ ended
          (code_for fixed_point fraction answer (λ k. pos 5000) (apple ∷ microsoft ∷ []))
          (some actions))
    × (validate_uniqueness actions ≡ [])
    × All (IsFetched (some "2000-01-01")) actions
main-written_example =
    main-written fixed_point fraction answer (λ k. pos 5000) settings (pos 0) identifiers
      (apple ∷ microsoft ∷ []) apple (microsoft ∷ []) refl refl refl refl refl settings_dated
      identifiers_loaded settings_selected

-- one ticker failed
main-written_code :
    code_for fixed_point fraction answer (λ k. pos 5000) (apple ∷ microsoft ∷ []) ≡ 1
main-written_code = refl

-- a burst of less than one token, which the checks let pass, ends in a traceback
half_token_raises :
    main fixed_point fraction answer
      (λ k. pos 5000)
      (record settings { rate_burst = pos 5000 })
      (pos 0)
      identifiers
    ≡ raised
unfolding main
half_token_raises = refl
