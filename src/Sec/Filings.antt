-- ===== src/Sec/Filings.antt =====
-- `fetch_all_filings` and `main` of tools/fetch_sec_edgar_actions.py. What the client gets and
-- decodes is given.
use corporate_actions.Prelude.{
  ℕ, zero, suc, ◌-◌, String, Bool, not, ◌||◌, Option, none, some, List, [], ◌∷◌, ◌++◌, take, length,
  ◌==◌, if◌then◌else◌,
}
use corporate_actions.Prelude.Int.{ℤ, pos, negsuc}
use corporate_actions.Prelude.Text.{str_lt, given}
use corporate_actions.Floats.{Floats}
use corporate_actions.Model.{Dates, Action}
use corporate_actions.Limiter.{Bucket, new_bucket, is_refused}
use corporate_actions.Fetch.{output, exit_code}
use corporate_actions.Validate.Unique.{member}
use corporate_actions.Sec.{Instrument, Target, targets_of, Filing, Row, take_filing}

-- the four lists that stand side by side
pub record Columns : Type 0 where
  pub forms : List String
  pub accessions : List String
  pub docs : List String
  pub filing_dates : List String

abbrev pub extend : Columns → Columns → Columns
extend m a = record {
  forms = m.forms ++ a.forms;
  accessions = m.accessions ++ a.accessions;
  docs = m.docs ++ a.docs;
  filing_dates = m.filing_dates ++ a.filing_dates;
}

-- the loop over the archives: a name that is missing, or an archive that cannot be read, is skipped
unfoldable pub with_archives : (String → Option Columns) → List (Option String) → Columns → Columns
with_archives archive [] merged = merged
with_archives archive (name ∷ rest) merged = elim (given name) [
  | none ↦ with_archives archive rest merged
  | some n ↦ elim (archive n) [
    | none ↦ with_archives archive rest merged
    | some a ↦ with_archives archive rest (extend merged a)
  ]
]

abbrev pub head : List String → Option String
head [] = none
head (x ∷ xs) = some x

abbrev pub tail : List String → List String
tail [] = []
tail (x ∷ xs) = xs

-- `merged[k][i]` for the three other columns; `none` is IndexError
abbrev pub row_at : String → Option String → Option String → Option String → Option Row
row_at acc (some form) (some doc) (some day) =
    some (record { form = form; accession = acc; primary_doc = doc; filing_date = day })
row_at acc _ _ _ = none

abbrev pub put_row : Option Row → Option (List Row) → Option (List Row)
put_row none rest = none
put_row (some r) none = none
put_row (some r) (some rest) = some (r ∷ rest)

-- the loop that keeps the first row of an accession number
unfoldable pub dedupe_rows :
    List String → List String → List String → List String → List String → Option (List Row)
dedupe_rows seen forms [] docs days = some []
dedupe_rows seen forms (acc ∷ accessions) docs days =
    let known = member acc seen in
    let rest =
      dedupe_rows (if known then seen else acc ∷ seen) (tail forms) accessions (tail docs)
        (tail days) in
    if known then rest else put_row (row_at acc (head forms) (head docs) (head days)) rest

-- a response of the submissions endpoint: the recent filings, and the names of the archives
pub record Submissions : Type 0 where
  pub recent : Columns
  pub files : List (Option String)

-- no submissions, an exception, or the rows
pub data Fetched : Type 0 where
  unavailable broken : Fetched
  rows : List Row → Fetched

abbrev pub fetched_of : Option (List Row) → Fetched
fetched_of none = broken
fetched_of (some found) = rows found

unfoldable pub fetch_all_filings : (String → Option Columns) → Option Submissions → Fetched
unfolding with_archives dedupe_rows
fetch_all_filings archive none = unavailable
fetch_all_filings archive (some s) =
    let m = with_archives archive s.files s.recent in
    fetched_of (dedupe_rows [] m.forms m.accessions m.docs m.filing_dates)

-- `instruments[:cik_limit]`, unless the limit is missing or 0
unfoldable pub limited : Option ℤ → List Target → List Target
limited none targets = targets
limited (some (pos zero)) targets = targets
limited (some (pos (suc n))) targets = take (suc n) targets
limited (some (negsuc n)) targets = take (length targets - suc n) targets

pub record Settings (N : Type 0) : Type 0 where
  pub rate_limit : N
  pub rate_burst : N
  pub min_date : String
  pub cik_limit : Option ℤ
  pub can_write : Bool

pub record Tally (N : Type 0) : Type 0 where
  pub actions : List (Action N)
  pub errors : List String
  pub processed : ℕ

-- a traceback, or the exit code with what is written
pub data Ended (N : Type 0) : Type 0 where
  raised : Ended N
  ended : ℕ → Option (List (Action N)) → Ended N

module _ (F : Floats) (submissions : String → Option Submissions)
    (archive : String → Option Columns) (filing_text : String → String → Option Filing) where
  open F use {Num, of_int}

  -- the loop over the rows of a company
  unfoldable pub actions_of_rows : Target → String → List Row → List (Action Num)
  unfolding take_filing
  actions_of_rows t min_date [] = []
  actions_of_rows t min_date (row ∷ rest) =
      let later = actions_of_rows t min_date rest in
      if not (row.form == "8-K") || str_lt row.filing_date min_date || row.primary_doc == ""
      then later
      else elim (filing_text t.cik row.accession) [
        | none ↦ later
        | some f ↦ take_filing F t row f ++ later
      ]

  -- one round of the loop over the instruments; `none` is an exception
  abbrev pub after_fetch : String → Target → Fetched → Tally Num → Option (Tally Num)
  after_fetch min_date t unavailable tally =
      some (record tally { errors = tally.errors ++ t.ticker ∷ [] })
  after_fetch min_date t broken tally = none
  after_fetch min_date t (rows found) tally = some (record tally {
    actions = tally.actions ++ actions_of_rows t min_date found;
    processed = suc tally.processed;
  })

  unfoldable pub fetch_loop : Bucket F → String → List Target → Tally Num → Option (Tally Num)
  unfolding fetch_all_filings actions_of_rows
  fetch_loop bucket min_date [] tally = some tally
  fetch_loop bucket min_date (t ∷ rest) tally =
      if is_refused F (of_int (pos 1)) bucket
      then none
      else elim (after_fetch min_date t (fetch_all_filings archive (submissions t.cik)) tally) [
        | none ↦ none
        | some next ↦ fetch_loop bucket min_date rest next
      ]

  unfoldable pub write_output : Bool → Option (Tally Num) → Ended Num
  unfolding output exit_code
  write_output can_write none = raised
  write_output can_write (some tally) =
      if can_write
      then ended (exit_code tally.processed tally.errors)
          (some (output (λ (d : Dates). d.effective_date) tally.actions))
      else ended 3 none

  abbrev pub run_targets : Settings Num → Bucket F → List Target → Ended Num
  run_targets s bucket [] = ended 3 none
  run_targets s bucket (t ∷ rest) = write_output s.can_write (
      fetch_loop bucket s.min_date (t ∷ rest) (record { actions = []; errors = []; processed = 0 }))

  -- `main` on the instruments of the file
  unfoldable pub main : Settings Num → Num → List Instrument → Ended Num
  unfolding new_bucket targets_of limited fetch_loop write_output
  main s now instruments = elim (new_bucket F s.rate_limit (some s.rate_burst) now) [
    | none ↦ raised
    | some bucket ↦ run_targets s bucket (limited s.cik_limit (targets_of instruments))
  ]
