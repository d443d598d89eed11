-- ===== src/Tests/Filing.antt =====
-- Witnesses and tests of the SEC fetcher.
use corporate_actions.Prelude.{
  ◌≡◌, refl, ◌≤◌, ℕ, zero, suc, String, Bool, true, false, Option, none, some, List, [], ◌∷◌, All,
  ◌==◌, if◌then◌else◌,
}
use corporate_actions.Prelude.Int.{ℤ, pos}
use corporate_actions.Model.{Action}
use corporate_actions.Validate.Temporal.{validate_temporal, announcement_after_effective_date}
use corporate_actions.Sec.{
  Target, Row, Filing, take_filing, targets_of, extract_new_symbol, parse_date, build_delisting,
  filing_url,
}
use corporate_actions.Sec.Agrees.{Agrees, take_filing-Agrees}
use corporate_actions.Sec.Filings.{Columns, Submissions, ended, broken, fetch_all_filings, main}
use corporate_actions.Sec.Client.{Response, Reply, answered, failed, is_cacheable, get}
use corporate_actions.Sec.Client.Cached.{get_again}
use corporate_actions.Tests.Sample.{fixed_point}

abbrev meta : Target
meta = record { isin = "US30303M1027"; ticker = "FB"; cik = "0001326801" }

abbrev filed_row : Row
filed_row = record {
  form = "8-K";
  accession = "0001326801-22-000070";
  primary_doc = "meta.htm";
  filing_date = "2022-05-31";
}

-- the change of a symbol on June 9, 2022, and a delisting
abbrev filing : Filing
filing = record {
  strong = [] ∷ ("META" ∷ []) ∷ [];
  weak = (("IS", 10) ∷ []) ∷ [];
  dates = none ∷ some ("June", "9", "2022") ∷ [];
  delisting = false ∷ true ∷ [];
  has_filing_context = λ place. true;
}

take_filing-Agrees_example :
    All (Agrees fixed_point meta filed_row filing) (take_filing fixed_point meta filed_row filing)
take_filing-Agrees_example = take_filing-Agrees fixed_point meta filed_row filing refl refl

-- both actions are taken
listed_ids : List (Action ℤ) → List (Option String)
listed_ids [] = []
listed_ids (a ∷ rest) = a.action_id ∷ listed_ids rest

taken_ids :
    listed_ids (take_filing fixed_point meta filed_row filing)
    ≡ some "US30303M1027-SYMBOL_CHANGE-2022-06-09-SYMBOL"
      ∷ some "US30303M1027-DELISTING-2022-06-09-DELISTED"
      ∷ []
unfolding take_filing listed_ids
taken_ids = refl

-- a date in the text that lies before the filing date: the validator refuses the action
early_filing_refused :
    validate_temporal (
      build_delisting fixed_point meta filed_row
        (record filing { dates = some ("Jan", "3", "2012") ∷ [] }))
    ≡ announcement_after_effective_date ∷ []
unfolding validate_temporal build_delisting
early_filing_refused = refl

-- a weak match that is an English word is passed over
weak_word : extract_new_symbol (record filing { strong = [] }) ≡ none
unfolding extract_new_symbol
weak_word = refl

parse_date_examples :
    (parse_date "Sept" "30" "2020" ≡ some "2020-09-30") × (parse_date "June" "31" "2020" ≡ none)
unfolding parse_date
parse_date_examples = (refl, refl)

meta_url :
    filing_url meta.cik filed_row.accession filed_row.primary_doc
    ≡ "https://www.sec.gov/Archives/edgar/data/1326801/000132680122000070/meta.htm"
unfolding filing_url
meta_url = refl

meta_target :
    targets_of (
      record { isin = some "US30303M1027"; ticker = some "fb"; cik = some "1326801" }
      ∷ record { isin = some "US0000000000"; ticker = some "X"; cik = some "0" }
      ∷ [])
    ≡ meta ∷ []
unfolding targets_of
meta_target = refl

abbrev submissions : String → Option Submissions
submissions cik =
    if cik == meta.cik
    then some (record {
      recent = record {
        forms = "10-K" ∷ "8-K" ∷ [];
        accessions = "1" ∷ filed_row.accession ∷ [];
        docs = "a.htm" ∷ "meta.htm" ∷ [];
        filing_dates = "2022-02-01" ∷ "2022-05-31" ∷ [];
      };
      files = some "older.json" ∷ [];
    })
    else none

-- the archive repeats a row
abbrev archive : String → Option Columns
archive name = some (record {
  forms = "8-K" ∷ [];
  accessions = filed_row.accession ∷ [];
  docs = "again.htm" ∷ [];
  filing_dates = "2022-05-31" ∷ [];
})

main_run :
    main fixed_point submissions archive
      (λ cik accession. some filing)
      (record {
        rate_limit = pos 60000;
        rate_burst = pos 100000;
        min_date = "2019-01-01";
        cik_limit = none;
        can_write = true;
      })
      (pos 0)
      (record { isin = some "US30303M1027"; ticker = some "fb"; cik = some "1326801" } ∷ [])
    ≡ ended 0 (
        some (elim (take_filing fixed_point meta filed_row filing) [
          | a ∷ b ∷ [] ↦ b ∷ a ∷ []
          | _ ↦ []
        ]))
unfolding main take_filing
main_run = refl

-- columns of different lengths end in an IndexError
short_column :
    fetch_all_filings
      (λ name. none)
      (some (record {
        recent = record { forms = []; accessions = "1" ∷ []; docs = []; filing_dates = [] };
        files = [];
      }))
    ≡ broken
unfolding fetch_all_filings
short_column = refl

-- the first attempt fails, and the second one is answered
abbrev page : Response
page = record {
  status_code = 200;
  headers = ("Content-Type", "text/html") ∷ [];
  encoding = some "ISO-8859-1";
  content = "<html>";
}

abbrev second_time : String → ℕ → Reply
second_time url zero = failed
second_time url (suc n) = answered page

abbrev index_url : String
index_url = "https://www.sec.gov/Archives/edgar/data/1326801/1/index.json"

index_cacheable : is_cacheable index_url ≡ true
unfolding is_cacheable
index_cacheable = refl

abbrev never_raises : Response → Bool
never_raises r = false

index_answered : (get never_raises second_time index_url []).response ≡ some page
unfolding get
index_answered = refl

get_again_example :
    ((get never_raises second_time index_url []).requests ≤ 3)
    × (get never_raises
          (λ url k. failed)
          index_url
          (get never_raises second_time index_url []).cache
        ≡ record {
          response =
              some
                (record { status_code = 200; headers = []; encoding = none; content = "<html>" });
          cache = (get never_raises second_time index_url []).cache;
          requests = 0;
        })
get_again_example =
    get_again never_raises second_time (λ url k. failed) index_url [] page index_cacheable
      index_answered
