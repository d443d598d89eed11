-- ===== src/Tests/Querying.antt =====
-- The Python registry on sample data.
use corporate_actions.Prelude.{arith, ◌≡◌, ◌↔◌, refl, Bool, none, some, List, [], ◌∷◌, map, All}
use corporate_actions.Prelude.Int.{ℤ, pos}
use corporate_actions.Tests.Sample.{fixed_point, split_action, actions}
use corporate_actions.Validate.Unique.{Distinct}
use corporate_actions.Registry.{
  Entry, object, ok as accepted, from_dict, check_items, of_entries, load, by_isin, by_action_type,
  by_action_id,
}
use corporate_actions.Registry.Lookup.{select, lookups-select}
use corporate_actions.Registry.Load.{
  given_ids, AllIdentified, check_items-ok_iff, FindsItself, by_action_id-load,
}
use corporate_actions.Registry.Prices.{
  Bar, AdjustedBar, default_adjust_for, is_iso_date, check_bars, sort_bars, keep_wanted,
  adjust_prices,
}
use corporate_actions.Registry.Prices.{Checked}
use corporate_actions.Prelude.Sort.{count, filter}
use corporate_actions.Registry.Prices.Sorted.{
  IsAscending, bar_date, dated, adjust_prices-IsAscending,
}
use corporate_actions.Registry.Prices.Applied.{HasTrail, quoted, adjust_prices-trail}
use corporate_actions.Registry.Queries.{
  ok, err, invalid_as_of, Instrument, date_in, by_date_range, by_ticker,
}
use corporate_actions.Registry.Queries.Sorted.{
  is_within, IsChronological, by_date_range-IsChronological,
}
use corporate_actions.Registry.Queries.{known_as_of}
use corporate_actions.Registry.Queries.Known.{is_known_of, known_as_of-filter}
use corporate_actions.Registry.Queries.Ticker.{last_isin, by_ticker-last}
use corporate_actions.Prelude.{◌&&◌, String, if◌then◌else◌}
use corporate_actions.Prelude.Text.{upper}

abbrev entries : List (Entry ℤ)
entries = map from_dict actions

lookups-select_example :
    (by_isin (of_entries entries) "US0378331005" ≡ select (λ e. e.isin) "US0378331005" entries)
    × (by_action_type (of_entries entries) "US0378331005"
        ≡ select (λ e. e.action_type) "US0378331005" entries)
lookups-select_example = lookups-select entries "US0378331005"

check_items-ok_iff_example : (check_items 0 [] (map object actions) ≡ accepted actions) ↔ (
    (map object actions ≡ map object actions)
    × AllIdentified actions
    × Distinct (given_ids actions))
check_items-ok_iff_example = check_items-ok_iff (map object actions) actions

by_action_id-load_example :
    All (FindsItself (by_action_id (of_entries entries))) (of_entries entries).actions
unfolding load
by_action_id-load_example = by_action_id-load (map object actions) (of_entries entries) refl

-- two bars in the wrong order: before the split, and after it
abbrev bars : List (Bar fixed_point)
bars =
    record { date = some "2020-09-01"; raw = some (pos 1340000) }
    ∷ record { date = some "2020-08-28"; raw = some (pos 4992300) }
    ∷ []

abbrev adjusted : List (AdjustedBar fixed_point)
adjusted =
    record {
      date = "2020-08-28";
      raw = pos 4992300;
      adjusted = pos 1245575;
      applied =
          some "US0378331005-SPLIT-2020-08-31-4-1"
          ∷ some "US0378331005-DIVIDEND-2021-02-11-0.2500"
          ∷ [];
    }
    ∷ record {
      date = "2020-09-01";
      raw = pos 1340000;
      adjusted = pos 1337500;
      applied = some "US0378331005-DIVIDEND-2021-02-11-0.2500" ∷ [];
    }
    ∷ []

adjust_prices-trail_example :
    All (HasTrail fixed_point (keep_wanted fixed_point default_adjust_for entries)) adjusted
    × (map (quoted fixed_point) adjusted
        ≡ sort_bars fixed_point (("2020-09-01", pos 1340000) ∷ ("2020-08-28", pos 4992300) ∷ []))
unfolding adjust_prices of_entries from_dict by_isin check_bars is_iso_date
adjust_prices-trail_example =
    adjust_prices-trail fixed_point (of_entries entries) "US0378331005" bars default_adjust_for
      (("2020-09-01", pos 1340000) ∷ ("2020-08-28", pos 4992300) ∷ []) adjusted (λ h. ground arith)
      refl refl

by_date_range-IsChronological_example :
    (out : List (Entry ℤ)) × (by_date_range
        (of_entries entries)
        (some "2020-08-31")
        (some "2020-12-31")
        "ex_date"
      ≡ ok out)
    × IsChronological "ex_date" out
    × ((p : Entry ℤ → Bool)
        → count p out
          ≡ count
              (λ e.
                is_within (some "2020-08-31") (some "2020-12-31") (date_in "ex_date" e.dates)
                && p e)
              (of_entries entries).actions)
unfolding is_iso_date
by_date_range-IsChronological_example =
    by_date_range-IsChronological "ex_date" (of_entries entries) (some "2020-08-31")
      (some "2020-12-31") refl refl refl

-- the split on the first day of the range
split_in_range :
    by_date_range (of_entries entries) (some "2020-08-31") (some "2020-12-31") "ex_date"
    ≡ ok (map from_dict (split_action ∷ []))
unfolding by_date_range of_entries from_dict is_iso_date
split_in_range = refl

abbrev instruments : List Instrument
instruments =
    record { ticker = some "AAPL"; exchange = some "XNAS"; isin = some "US0378331005" }
    ∷ record { ticker = none; exchange = some "XNAS"; isin = some "US5949181045" }
    ∷ []

by_ticker-last_example :
    by_ticker (of_entries entries) instruments "aapl" "xnas"
    ≡ elim (last_isin (upper "aapl", upper "xnas") instruments none) [
      | none ↦ []
      | some isin ↦ by_isin (of_entries entries) isin
    ]
by_ticker-last_example = by_ticker-last (of_entries entries) instruments "aapl" "xnas"

finds_lower_case : by_ticker (of_entries entries) instruments "aapl" "xnas" ≡ entries
unfolding by_ticker of_entries from_dict upper
finds_lower_case = refl

abbrev unsorted : List (Checked fixed_point)
unsorted = ("2020-09-01", pos 1340000) ∷ ("2020-08-28", pos 4992300) ∷ []

adjust_prices-IsAscending_example :
    IsAscending (map (bar_date fixed_point) (map (quoted fixed_point) adjusted))
    × ((d : String)
        → dated fixed_point d (map (quoted fixed_point) adjusted) ≡ dated fixed_point d unsorted)
unfolding adjust_prices of_entries from_dict by_isin check_bars is_iso_date
adjust_prices-IsAscending_example =
    adjust_prices-IsAscending fixed_point (of_entries entries) "US0378331005" bars
      default_adjust_for unsorted adjusted (λ h. ground arith) refl refl

known_as_of-filter_example : known_as_of (of_entries entries) "US0378331005" "2020-12-31" ≡ (
    if is_iso_date "2020-12-31"
    then ok (filter (is_known_of "US0378331005" "2020-12-31") entries)
    else err (invalid_as_of "2020-12-31"))
known_as_of-filter_example = known_as_of-filter entries "US0378331005" "2020-12-31"

-- at the end of 2020 the split is known, and the dividend of 2021 is not
known_in_2020 :
    known_as_of (of_entries entries) "US0378331005" "2020-12-31"
    ≡ ok (map from_dict (split_action ∷ []))
unfolding known_as_of of_entries from_dict is_iso_date
known_in_2020 = refl
