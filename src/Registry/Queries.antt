-- ===== src/Registry/Queries.antt =====
-- `by_date_range`, `known_as_of` and `by_ticker` of
-- wrappers/python/corporate_actions_registry/registry.py.
pub mod Sorted
pub mod Known
pub mod Ticker
use corporate_actions.Prelude.{
  ℕ, String, Bool, true, false, not, ◌&&◌, ◌||◌, Option, none, some, List, [], ◌∷◌, any, ◌==◌,
  if◌then◌else◌,
}
use corporate_actions.Prelude.Text.{given, or_else, str_lt, str_le, upper, codes_eq}
use corporate_actions.Prelude.Sort.{sort}
use corporate_actions.Model.{Dates}
use corporate_actions.Registry.{Entry, Registry, by_isin}
use corporate_actions.Registry.Prices.{is_iso_date}

-- the ValueErrors
pub data QueryError : Type 0 where
  invalid_date_field : String → QueryError
  invalid_start invalid_end : String → QueryError
  invalid_as_of : String → QueryError

pub data Queried {ℓ} (A : Type ℓ) : Type ℓ where
  ok : A → Queried A
  err : QueryError → Queried A

-- VALID_DATE_FIELDS
abbrev pub valid_date_fields : List String
valid_date_fields = "announcement" ∷ "ex_date" ∷ "record_date" ∷ "effective_date" ∷ []

-- `getattr(dates, date_field, None)`
abbrev pub date_in : String → Dates → Option String
date_in field d =
    if field == "announcement"
    then d.announcement
    else if field == "ex_date"
    then d.ex_date
    else if field == "record_date"
    then d.record_date
    else if field == "effective_date"
    then d.effective_date
    else none

-- `value and not _ISO_DATE_RE.match(value)`
abbrev pub is_bad_bound : Option String → Bool
is_bad_bound bound = elim (given bound) [ none ↦ false | some x ↦ not (is_iso_date x) ]

abbrev pub starts_by : Option String → String → Bool
starts_by start value = elim (given start) [ none ↦ true | some x ↦ not (str_lt value x) ]

abbrev pub ends_by : Option String → String → Bool
ends_by end value = elim (given end) [ none ↦ true | some x ↦ not (str_lt x value) ]

abbrev pub in_range : Option String → Option String → Option String → Bool
in_range start end none = false
in_range start end (some value) = starts_by start value && ends_by end value

-- `none` for the bounds that were not given, and for null
abbrev pub text_of : Option String → String
text_of o = or_else o ""

module _ {N : Type 0} where
  -- the key that the result is sorted by, and the order of two tuples
  abbrev pub sort_key : String → Entry N → String × String
  sort_key field e = (text_of (date_in field e.dates), text_of e.action_id)

abbrev pub key_le : String × String → String × String → Bool
key_le (d, i) (d', i') = str_lt d d' || (d == d' && str_le i i')

module _ {N : Type 0} where
  abbrev pub entry_le : String → Entry N → Entry N → Bool
  entry_le field e x = key_le (sort_key field e) (sort_key field x)

  -- the loop over all actions
  abbrev pub keep_in_range :
      Option String → Option String → String → List (Entry N) → List (Entry N)
  keep_in_range start end field [] = []
  keep_in_range start end field (e ∷ rest) =
      let others = keep_in_range start end field rest in
      if in_range start end (date_in field e.dates) then e ∷ others else others

  unfoldable pub by_date_range :
      Registry N → Option String → Option String → String → Queried (List (Entry N))
  unfolding sort is_iso_date
  by_date_range r start end field =
      if not (any (λ name. field == name) valid_date_fields)
      then err (invalid_date_field field)
      else if is_bad_bound start
      then err (invalid_start (text_of start))
      else if is_bad_bound end
      then err (invalid_end (text_of end))
      else ok (sort (entry_le field) (keep_in_range start end field r.actions))

  abbrev pub keep_known : String → List (Entry N) → List (Entry N)
  keep_known as_of [] = []
  keep_known as_of (e ∷ rest) =
      let others = keep_known as_of rest in
      elim (given e.dates.announcement) [
        | none ↦ others
        | some x ↦ if str_le x as_of then e ∷ others else others
      ]

  unfoldable pub known_as_of : Registry N → String → String → Queried (List (Entry N))
  unfolding is_iso_date by_isin
  known_as_of r isin as_of =
      if is_iso_date as_of
      then ok (keep_known as_of (by_isin r isin))
      else err (invalid_as_of as_of)

-- an object of the `instruments` array of identifiers.json
pub record Instrument : Type 0 where
  pub ticker : Option String
  pub exchange : Option String
  pub isin : Option String

-- the index: keys (TICKER, EXCHANGE), in upper case
abbrev pub Index : Type 0
Index = List ((List ℕ × List ℕ) × String)

abbrev pub same_listing : List ℕ × List ℕ → List ℕ × List ℕ → Bool
same_listing (t, x) (t', x') = codes_eq t t' && codes_eq x x'

unfoldable pub find_listing : List ℕ × List ℕ → Index → Option String
unfolding codes_eq
find_listing k [] = none
find_listing k ((j, isin) ∷ rest) = if same_listing j k then some isin else find_listing k rest

-- `index[key] = isin`
unfoldable pub put_listing : List ℕ × List ℕ → String → Index → Index
unfolding codes_eq
put_listing k isin [] = (k, isin) ∷ []
put_listing k isin ((j, old) ∷ rest) =
    if same_listing j k then (j, isin) ∷ rest else (j, old) ∷ put_listing k isin rest

-- one round of the loop of `_build_ticker_index`
unfoldable pub index_instrument : Instrument → Index → Index
unfolding put_listing upper
index_instrument i index = elim (given i.ticker) [
  | none ↦ index
  | some t ↦ elim (given i.exchange) [
    | none ↦ index
    | some x ↦ elim (given i.isin) [
      | none ↦ index
      | some isin ↦ put_listing (upper t, upper x) isin index
    ]
  ]
]

unfoldable pub build_ticker_index : List Instrument → Index → Index
unfolding index_instrument
build_ticker_index [] index = index
build_ticker_index (i ∷ rest) index = build_ticker_index rest (index_instrument i index)

module _ {N : Type 0} where
  -- `by_ticker`, on the instruments of the file that the path resolves to
  unfoldable pub by_ticker : Registry N → List Instrument → String → String → List (Entry N)
  unfolding build_ticker_index find_listing by_isin upper
  by_ticker r instruments ticker exchange =
      elim (find_listing (upper ticker, upper exchange) (build_ticker_index instruments [])) [
        | none ↦ []
        | some isin ↦ by_isin r isin
      ]
