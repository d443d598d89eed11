-- ===== src/Model.antt =====
-- The data: one entry of the `actions` array of actions.json (schema.json, and the classes of
-- wrappers/python/corporate_actions_registry/models.py). `none` stands for a missing key and for
-- null, which `.get` does not tell apart. Texts are texts, as the schema has them; an amount may
-- hold any JSON value, since the code tests its type.
use corporate_actions.Prelude.{String, Bool, true, false, not, Option, none, some, if◌then◌else◌}
use corporate_actions.Prelude.Int.{pos}
use corporate_actions.Floats.{Floats}

pub record Dates : Type 0 where
  pub announcement : Option String
  pub ex_date : Option String
  pub record_date : Option String
  pub effective_date : Option String

abbrev pub no_dates : Dates
no_dates = record { announcement = none; ex_date = none; record_date = none; effective_date = none }

-- `action.get("dates") or {}`
abbrev pub dates_or_empty : Option Dates → Dates
dates_or_empty none = no_dates
dates_or_empty (some d) = d

pub record Provenance : Type 0 where
  pub source : Option String
  pub source_url : Option String
  pub verification_source : Option String
  pub verification_url : Option String

abbrev pub no_provenance : Provenance
no_provenance = record {
  source = none;
  source_url = none;
  verification_source = none;
  verification_url = none;
}

-- `action.get("provenance") or {}`
abbrev pub provenance_or_empty : Option Provenance → Provenance
provenance_or_empty none = no_provenance
provenance_or_empty (some p) = p

-- A JSON value other than null; `other` is a list or an object, with its truth value.
pub data Value (N : Type 0) : Type 0 where
  number : N → Value N
  flag : Bool → Value N
  text : String → Value N
  other : Bool → Value N

pub record Impact (N : Type 0) : Type 0 where
  pub price_multiplier : Option N
  pub share_multiplier : Option N
  pub cash_adjustment : Option N

pub record Action (N : Type 0) : Type 0 where
  pub isin : Option String
  pub action_id : Option String
  pub action_type : Option String
  pub ratio : Option String
  pub amount : Option (Value N)
  pub currency : Option String
  pub exchange : Option String
  pub dates : Option Dates
  pub status : Option String
  pub redistribution : Option String
  pub provenance : Option Provenance
  pub impact : Option (Impact N)

module _ (F : Floats) where
  open F use {Num, of_int, of_text}

  -- bool(v)
  abbrev pub truthy : Value Num → Bool
  truthy (number x) = not (F.eq x (of_int (pos 0)))
  truthy (flag b) = b
  truthy (text s) = elim s [ String.[] ↦ false | String.◌∷◌ _ _ ↦ true ]
  truthy (other b) = b

  -- float(v) of a value for which it raises no OverflowError: `none` is TypeError or ValueError
  abbrev pub to_float : Value Num → Option Num
  to_float (number x) = some x
  to_float (flag true) = some (of_int (pos 1))
  to_float (flag false) = some (of_int (pos 0))
  to_float (text s) = of_text s
  to_float (other _) = none

  -- float(v) raises OverflowError
  abbrev pub overflows_float : Value Num → Bool
  overflows_float (number x) = F.is_huge x
  overflows_float (flag b) = false
  overflows_float (text s) = false
  overflows_float (other b) = false

  -- float(v): `none` is an exception
  abbrev pub float_value : Value Num → Option Num
  float_value v = if overflows_float v then none else to_float v
