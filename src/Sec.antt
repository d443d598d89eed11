-- ===== src/Sec.antt =====
-- tools/fetch_sec_edgar_actions.py: the instruments, what is extracted from a filing, and the
-- actions built from it. What the regular expressions find in the text of a filing is given.
pub mod Words
pub mod Agrees
pub mod Filings
pub mod Client
use Prim.Native.String.{◌++◌, count}
use Prim.Native.Char.{code}
use mathlib.Core.List
use corporate_actions.Prelude.{
  ℕ, zero, suc, ◌-◌, ◌+◌, String, Bool, true, false, not, ◌&&◌, ◌||◌, Option, none, some, List, [],
  ◌∷◌, any, all, length, ◌==◌, eqb, leb, if◌then◌else◌,
}
use corporate_actions.Prelude.Int.{ℤ, pos, negsuc}
use corporate_actions.Prelude.Text.{
  codes, codes_eq, given, lower, int, is_blank, or_else, upper_text,
}
use corporate_actions.Floats.{Floats}
use corporate_actions.Model.{Dates, Provenance, Impact, Action}
use corporate_actions.Calendar.{make_date}
use corporate_actions.Ratio.{str}
use corporate_actions.Validate.Unique.{member}
use corporate_actions.Impacts.{neutral}
use corporate_actions.Sec.Words.{months, common_english_words}

-- `s.lstrip()`, `s.rstrip()` and `s.lstrip("0")`
unfoldable pub drop_blanks : String → String
drop_blanks String.[] = ""
drop_blanks (String.◌∷◌ c s) =
    let rest = drop_blanks s in if is_blank (code c) then rest else String.◌∷◌ c s

unfoldable pub drop_last_blanks : String → String
drop_last_blanks String.[] = ""
drop_last_blanks (String.◌∷◌ c s) =
    let rest = drop_last_blanks s in
    if is_blank (code c) && rest == "" then "" else String.◌∷◌ c rest

unfoldable pub drop_zeros : String → String
drop_zeros String.[] = ""
drop_zeros (String.◌∷◌ c s) =
    let rest = drop_zeros s in if eqb (code c) b'0' then rest else String.◌∷◌ c s

abbrev pub zeros : ℕ → String
zeros zero = ""
zeros (suc n) = "0" ++ zeros n

-- `s.zfill(n)`: the zeros come after a sign
unfoldable pub zfill : ℕ → String → String
zfill n String.[] = zeros n
zfill n (String.◌∷◌ c s) =
    if eqb (code c) b'+' || eqb (code c) b'-'
    then String.◌∷◌ c (zeros (n - suc (count s)) ++ s)
    else zeros (n - suc (count s)) ++ String.◌∷◌ c s

unfoldable pub normal_cik : String → String
unfolding drop_blanks drop_last_blanks drop_zeros zfill
normal_cik cik = zfill 10 (drop_zeros (drop_last_blanks (drop_blanks cik)))

-- an object of `instruments`; the CIK is the text that `str` gives of it
pub record Instrument : Type 0 where
  pub isin : Option String
  pub ticker : Option String
  pub cik : Option String

-- an (isin, ticker, cik) triple
pub record Target : Type 0 where
  pub isin : String
  pub ticker : String
  pub cik : String

-- the loop of `load_instruments`
unfoldable pub targets_of : List Instrument → List Target
unfolding normal_cik upper_text
targets_of [] = []
targets_of (i ∷ rest) =
    let others = targets_of rest in
    elim (given i.isin) [
      | none ↦ others
      | some isin ↦ elim (given i.ticker) [
        | none ↦ others
        | some ticker ↦ elim i.cik [
          | none ↦ others
          | some cik ↦
              if normal_cik cik == "0000000000"
              then others
              else record { isin = isin; ticker = upper_text ticker; cik = normal_cik cik } ∷ others
        ]
      ]
    ]

-- `MONTHS.get(month_str.lower())`
unfoldable pub month_of : List (String × ℕ) → String → Option ℕ
unfolding lower codes_eq
month_of [] name = none
month_of ((m, n) ∷ rest) name =
    let others = month_of rest name in if codes_eq (codes m) (lower name) then some n else others

-- a number with zeros before it
abbrev pub padded : ℕ → ℕ → String
padded width n = zeros (width - count (str n)) ++ str n

-- `date(year, month, day).isoformat()`: `none` is ValueError
unfoldable pub iso_date : ℤ → ℕ → ℤ → Option String
unfolding make_date str
iso_date (pos y) m (pos d) = elim (make_date (pos y) (pos m) (pos d)) [
  | none ↦ none
  | some day ↦ some (padded 4 y ++ "-" ++ padded 2 m ++ "-" ++ padded 2 d)
]
iso_date (pos y) m (negsuc d) = none
iso_date (negsuc y) m d = none

unfoldable pub parse_date : String → String → String → Option String
unfolding month_of int iso_date
parse_date month_str day_str year_str = elim (month_of months month_str) [
  | none ↦ none
  | some m ↦ elim (int (codes year_str)) [
    | none ↦ none
    | some y ↦ elim (int (codes day_str)) [ none ↦ none | some d ↦ iso_date y m d ]
  ]
]

-- What the expressions find in a filing's text: for each strong and each weak trigger the symbols
-- of its matches (with their places), for each date pattern the groups of its first match, whether
-- each delisting trigger matches, and whether an anchor is near a place.
pub record Filing : Type 0 where
  pub strong : List (List String)
  pub weak : List (List (String × ℕ))
  pub dates : List (Option (String × String × String))
  pub delisting : List Bool
  pub has_filing_context : ℕ → Bool

unfoldable pub extract_effective_date : List (Option (String × String × String)) → Option String
unfolding parse_date
extract_effective_date [] = none
extract_effective_date (none ∷ rest) = extract_effective_date rest
extract_effective_date (some (month, day, year) ∷ rest) =
    let later = extract_effective_date rest in
    elim (given (parse_date month day year)) [ none ↦ later | some iso ↦ some iso ]

-- `1 <= len(symbol) <= 6 and symbol.isalpha()`
abbrev pub is_letter : ℕ → Bool
is_letter c = (leb b'A' c && leb c b'Z') || (leb b'a' c && leb c b'z')

unfoldable pub is_symbol : String → Bool
is_symbol s = let cs = codes s in leb 1 (length cs) && leb (length cs) 6 && all is_letter cs

unfoldable pub first_strong : List String → Option String
unfolding is_symbol
first_strong [] = none
first_strong (s ∷ rest) = let later = first_strong rest in if is_symbol s then some s else later

unfoldable pub first_weak : (ℕ → Bool) → List (String × ℕ) → Option String
unfolding is_symbol
first_weak context [] = none
first_weak context ((s, place) ∷ rest) =
    let later = first_weak context rest in
    if is_symbol s && not (member s common_english_words) && context place then some s else later

-- the first result of a list of patterns
abbrev pub first_of {ℓ} : {A : Type ℓ} → (A → Option String) → List A → Option String
first_of f [] = none
first_of f (x ∷ rest) = elim (f x) [ none ↦ first_of f rest | some s ↦ some s ]

unfoldable pub extract_new_symbol : Filing → Option String
unfolding first_strong first_weak
extract_new_symbol f = elim (first_of first_strong f.strong) [
  | some s ↦ some s
  | none ↦ first_of (first_weak f.has_filing_context) f.weak
]

abbrev pub found {ℓ} : {A : Type ℓ} → List A → Bool
found [] = false
found (x ∷ rest) = true

unfoldable pub is_delisting : Filing → Bool
is_delisting f = any (λ b. b) f.delisting

unfoldable pub is_symbol_change : Filing → Bool
is_symbol_change f = any found f.strong || any found f.weak

-- `accession.replace("-", "")`
unfoldable pub drop_dashes : String → String
drop_dashes String.[] = ""
drop_dashes (String.◌∷◌ c s) =
    let rest = drop_dashes s in if eqb (code c) b'-' then rest else String.◌∷◌ c rest

-- `cik.lstrip("0") or "0"`
abbrev pub short_cik : String → String
short_cik cik = or_else (some (drop_zeros cik)) "0"

unfoldable pub filing_url : String → String → String → String
unfolding drop_zeros drop_dashes
filing_url cik accession primary_doc =
    "https://www.sec.gov/Archives/edgar/data/"
    ++ short_cik cik
    ++ "/"
    ++ drop_dashes accession
    ++ "/"
    ++ primary_doc

-- a row of a company's filings
pub record Row : Type 0 where
  pub form : String
  pub accession : String
  pub primary_doc : String
  pub filing_date : String

-- `extract_effective_date(text) or filing_date`
abbrev pub effective_of : Row → Filing → String
effective_of row f = or_else (extract_effective_date f.dates) row.filing_date

module _ (F : Floats) where
  open F use {Num}

  -- the action that both builders return, of a type and with a discriminator
  abbrev pub filed_action : Target → Row → Filing → String → String → Action Num
  filed_action t row f type_name discriminator = record {
    isin = some t.isin;
    action_id =
        some (t.isin ++ "-" ++ type_name ++ "-" ++ effective_of row f ++ "-" ++ discriminator);
    action_type = some type_name;
    ratio = none;
    amount = none;
    currency = none;
    exchange = none;
    dates = some (record {
      announcement = some row.filing_date;
      ex_date = none;
      record_date = none;
      effective_date = some (effective_of row f);
    });
    status = some "COMPLETED";
    redistribution = none;
    provenance = some (record {
      source = some "SEC EDGAR";
      source_url = some (filing_url t.cik row.accession row.primary_doc);
      verification_source = none;
      verification_url = none;
    });
    impact = some (neutral F);
  }

  unfoldable pub build_symbol_change : Target → Row → Filing → Option (Action Num)
  unfolding extract_new_symbol extract_effective_date filing_url upper_text
  build_symbol_change t row f = elim (given (extract_new_symbol f)) [
    | none ↦ none
    | some s ↦
        if s == upper_text t.ticker
        then none
        else some (filed_action t row f "SYMBOL_CHANGE" "SYMBOL")
  ]

  unfoldable pub build_delisting : Target → Row → Filing → Action Num
  unfolding extract_effective_date filing_url
  build_delisting t row f = filed_action t row f "DELISTING" "DELISTED"

  abbrev pub listed : Option (Action Num) → List (Action Num)
  listed none = []
  listed (some a) = a ∷ []

  -- the two tests of a filing's text in the loop of `main`
  unfoldable pub take_filing : Target → Row → Filing → List (Action Num)
  unfolding is_symbol_change is_delisting build_symbol_change build_delisting
  take_filing t row f =
      List.◌++◌ (if is_symbol_change f then listed (build_symbol_change t row f) else [])
        (if is_delisting f then build_delisting t row f ∷ [] else [])
