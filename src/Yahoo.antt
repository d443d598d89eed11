-- ===== src/Yahoo.antt =====
-- tools/fetch_yahoo_actions.py: the instruments, the events of a ticker and the actions built from
-- them. What the package yfinance answers, and what `Fraction.limit_denominator` gives, are
-- parameters.
pub mod Build
pub mod Attempts
pub mod Run
use Prim.Native.String.{◌++◌}
use corporate_actions.Prelude.{
  ℕ, zero, suc, String, Bool, true, false, not, ◌&&◌, ◌||◌, Option, none, some, List, [], ◌∷◌, ◌==◌,
  if◌then◌else◌,
}
use corporate_actions.Prelude.Int.{ℤ, pos, negsuc}
use corporate_actions.Prelude.Text.{codes, given, str_lt, split, upper_text}
use corporate_actions.Floats.{Floats}
use corporate_actions.Model.{Dates, Provenance, number, Impact, Action}
use corporate_actions.Calendar.{strptime}
use corporate_actions.Ratio.{str, two_ints}

-- a listing of an instrument, and an element of `listings` that may be no object
pub record Listing : Type 0 where
  pub status : Option String
  pub currency : Option String

-- an object of `instruments`; a `listings` that is no list counts as missing
pub record Instrument : Type 0 where
  pub isin : Option String
  pub ticker : Option String
  pub currency : Option String
  pub listings : Option (List (Option Listing))

-- what reading the file gives: `instruments` and `identifiers`, whose elements that are no objects
-- are `none`
pub data File : Type 0 where
  not_found malformed : File
  parsed : Option (List (Option Instrument)) → Option (List (Option Instrument)) → File

-- an (isin, ticker, currency) triple
pub record Target : Type 0 where
  pub isin : String
  pub ticker : String
  pub currency : String

-- `sys.exit(code)`, or the result
pub data Loaded : Type 0 where
  exits : ℕ → Loaded
  loaded : List Target → Loaded

-- `x or y` on two lists
abbrev pub list_or {ℓ} : {A : Type ℓ} → Option (List A) → List A → List A
list_or none ys = ys
list_or (some []) ys = ys
list_or (some (x ∷ xs)) ys = x ∷ xs

-- the currency of the first PRIMARY listing that has one
unfoldable pub primary_currency : List (Option Listing) → Option String
primary_currency [] = none
primary_currency (none ∷ rest) = primary_currency rest
primary_currency (some l ∷ rest) =
    let later = primary_currency rest in
    elim l.status [
      | none ↦ later
      | some s ↦
          if s == "PRIMARY"
          then (elim (given l.currency) [ none ↦ later | some c ↦ some c ])
          else later
    ]

abbrev pub first_currency : List (Option Listing) → Option String
first_currency [] = none
first_currency (none ∷ rest) = none
first_currency (some l ∷ rest) = l.currency

unfoldable pub listed_currency : Option (List (Option Listing)) → Option String
unfolding primary_currency
listed_currency none = none
listed_currency (some listings) = elim (primary_currency listings) [
  | none ↦ given (first_currency listings)
  | some c ↦ some c
]

unfoldable pub currency_of : Instrument → String
unfolding listed_currency
currency_of i = elim (given i.currency) [
  | some c ↦ c
  | none ↦ elim (listed_currency i.listings) [ none ↦ "USD" | some c ↦ c ]
]

-- the loop over the instruments
unfoldable pub targets_of : List (Option Instrument) → List Target
unfolding currency_of upper_text
targets_of [] = []
targets_of (none ∷ rest) = targets_of rest
targets_of (some i ∷ rest) =
    let others = targets_of rest in
    elim (given i.isin) [
      | none ↦ others
      | some isin ↦ elim (given i.ticker) [
        | none ↦ others
        | some t ↦ record { isin = isin; ticker = upper_text t; currency = currency_of i } ∷ others
      ]
    ]

unfoldable pub load_instruments : File → Loaded
unfolding targets_of
load_instruments not_found = exits 3
load_instruments malformed = exits 2
load_instruments (parsed instruments identifiers) =
    elim (list_or instruments (list_or identifiers [])) [
      | [] ↦ exits 2
      | i ∷ rest ↦ loaded (targets_of (i ∷ rest))
    ]

-- A timestamp: None, an object with a `date` method (what `.date().isoformat()` gives, `none` where
-- it raises, and what `strftime` gives), or one without.
pub data Stamp : Type 0 where
  missing : Stamp
  with_date : Option String → Option String → Stamp
  plain : Option String → Stamp

unfoldable pub timestamp_to_iso : Stamp → Option String
timestamp_to_iso missing = none
timestamp_to_iso (with_date none formatted) = formatted
timestamp_to_iso (with_date (some iso) formatted) = some iso
timestamp_to_iso (plain formatted) = formatted

-- `min_date and date_str < min_date`
abbrev pub is_early : Option String → String → Bool
is_early min_date date = elim (given min_date) [ none ↦ false | some m ↦ str_lt date m ]

-- `str(n)` of an int
abbrev pub str_int : ℤ → String
str_int (pos n) = str n
str_int (negsuc n) = "-" ++ str (suc n)

abbrev pub is_zero : ℤ → Bool
is_zero (pos zero) = true
is_zero (pos (suc n)) = false
is_zero (negsuc n) = false

-- the provenance of an action from Yahoo
abbrev pub yahoo : String → Provenance
yahoo ticker = record {
  source = some "Yahoo Finance (yfinance)";
  source_url = some ("https://finance.yahoo.com/quote/" ++ ticker ++ "/history");
  verification_source = none;
  verification_url = none;
}

-- the announcement, the ex date and the effective date are the date of the event
abbrev pub event_dates : String → Dates
event_dates date = record {
  announcement = some date;
  ex_date = some date;
  record_date = none;
  effective_date = some date;
}
