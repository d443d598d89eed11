-- ===== src/Build/Sql.antt =====
-- `_sql_escape` and `render_sql` of tools/build.py.
pub mod Read
use Prim.Native.String.{◌++◌}
use Prim.Native.Char.{code}
use corporate_actions.Prelude.{
  String, Bool, true, false, Option, none, some, List, [], ◌∷◌, eqb, if◌then◌else◌,
}
use mathlib.Core.List
use corporate_actions.Model.{
  Dates, dates_or_empty, Provenance, provenance_or_empty, Value, number, flag, text, other, Impact,
  Action,
}

-- `str(value)` of a number, and of a list or an object
pub record Printer (N : Type 0) : Type 0 where
  pub of_number : N → String
  pub of_other : Bool → String

-- `s.replace("'", "''")`
unfoldable pub double_quotes : String → String
double_quotes String.[] = ""
double_quotes (String.◌∷◌ c s) =
    let rest = double_quotes s in
    if eqb (code c) 39 then String.◌∷◌ c (String.◌∷◌ c rest) else String.◌∷◌ c rest

abbrev pub quote : String → String
quote s = "'" ++ double_quotes s ++ "'"

-- `", ".join(values)` and `"\n".join(lines)`
abbrev pub join : String → List String → String
join sep [] = ""
join sep (s ∷ []) = s
join sep (s ∷ t ∷ rest) = s ++ sep ++ join sep (t ∷ rest)

module _ {N : Type 0} (printer : Printer N) where
  unfoldable pub sql_escape : Option (Value N) → String
  unfolding double_quotes
  sql_escape none = "NULL"
  sql_escape (some (flag true)) = "1"
  sql_escape (some (flag false)) = "0"
  sql_escape (some (number x)) = printer.of_number x
  sql_escape (some (text s)) = quote s
  sql_escape (some (other b)) = quote (printer.of_other b)

  abbrev pub as_text : Option String → Option (Value N)
  as_text none = none
  as_text (some s) = some (text s)

  abbrev pub as_number : Option N → Option (Value N)
  as_number none = none
  as_number (some x) = some (number x)

  abbrev pub no_impact : Impact N
  no_impact = record { price_multiplier = none; share_multiplier = none; cash_adjustment = none }

  -- `action.get("impact") or {}`
  abbrev pub impact_or_empty : Option (Impact N) → Impact N
  impact_or_empty none = no_impact
  impact_or_empty (some i) = i

  -- the columns of a row after the first; the structural check has seen that the keys of the first
  -- three columns are there
  abbrev pub later_columns : Action N → List (Option (Value N))
  later_columns a =
      let dates = dates_or_empty a.dates in
      let provenance = provenance_or_empty a.provenance in
      let impact = impact_or_empty a.impact in
      as_text a.isin
      ∷ as_text a.action_type
      ∷ as_text dates.announcement
      ∷ as_text dates.ex_date
      ∷ as_text dates.record_date
      ∷ as_text dates.effective_date
      ∷ as_text a.ratio
      ∷ a.amount
      ∷ as_text a.currency
      ∷ as_text a.status
      ∷ as_text provenance.source
      ∷ as_text provenance.source_url
      ∷ as_text provenance.verification_source
      ∷ as_number impact.price_multiplier
      ∷ as_number impact.share_multiplier
      ∷ as_number impact.cash_adjustment
      ∷ []

  abbrev pub columns : Action N → List (Option (Value N))
  columns a = as_text a.action_id ∷ later_columns a

  unfoldable pub escaped : List (Option (Value N)) → List String
  unfolding sql_escape
  escaped [] = []
  escaped (v ∷ vs) = sql_escape v ∷ escaped vs

  unfoldable pub insert_line : Action N → String
  unfolding escaped
  insert_line a =
      "INSERT INTO corporate_actions VALUES (" ++ join ", " (escaped (columns a)) ++ ");"

  unfoldable pub insert_lines : List (Action N) → List String
  unfolding insert_line
  insert_lines [] = []
  insert_lines (a ∷ rest) = insert_line a ∷ insert_lines rest

  abbrev pub create_table : String
  create_table =
      "CREATE TABLE corporate_actions (\n" ++ "    action_id TEXT PRIMARY KEY,\n"
      ++ "    isin TEXT NOT NULL,\n" ++ "    action_type TEXT NOT NULL,\n"
      ++ "    announcement_date TEXT,\n" ++ "    ex_date TEXT,\n" ++ "    record_date TEXT,\n"
      ++ "    effective_date TEXT,\n" ++ "    ratio TEXT,\n" ++ "    amount REAL,\n"
      ++ "    currency TEXT,\n" ++ "    status TEXT,\n" ++ "    source TEXT,\n"
      ++ "    source_url TEXT,\n" ++ "    verification_source TEXT,\n"
      ++ "    price_multiplier REAL,\n" ++ "    share_multiplier REAL,\n"
      ++ "    cash_adjustment REAL\n" ++ ");"

  -- `none` is ValueError
  unfoldable pub render_sql : List (Action N) → Option String
  unfolding insert_lines
  render_sql [] = none
  render_sql (a ∷ rest) = some (
      join "\n" (
        "-- Corporate Actions Registry SQL Dump"
        ∷ "-- Generated by tools/build.py"
        ∷ "BEGIN TRANSACTION;"
        ∷ "DROP TABLE IF EXISTS corporate_actions;"
        ∷ create_table
        ∷ List.◌++◌ (insert_lines (a ∷ rest)) ("COMMIT;" ∷ []))
      ++ "\n")
