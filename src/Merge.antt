-- ===== src/Merge.antt =====
-- tools/merge_fetched.py: fetched actions are merged into the registry.
pub mod Keys
pub mod Sound
pub mod Again
pub mod Run
use corporate_actions.Prelude.{
  String, Bool, true, false, not, ◌&&◌, ◌||◌, Option, none, some, List, [], ◌∷◌, ◌++◌, any, ◌==◌,
  if◌then◌else◌,
}
use corporate_actions.Prelude.Int.{pos}
use corporate_actions.Prelude.Text.{given, or_else}
use corporate_actions.Floats.{Floats}
use corporate_actions.Model.{Value, Dates, dates_or_empty, Action, float_value}
use corporate_actions.Validate.Semantic.{DuplicateEvent, validate_semantic_uniqueness}

-- `family`: a missing type is the empty text
unfoldable pub family : Option String → String
family none = ""
family (some t) =
    if t == "DIVIDEND" || t == "SPECIAL_DIVIDEND"
    then "DIVIDEND"
    else if t == "SPLIT" || t == "REVERSE_SPLIT"
    then "SPLIT"
    else t

-- `.get(key, "")`
abbrev pub text_or_empty : Option String → String
text_or_empty none = ""
text_or_empty (some s) = s

-- `dates.get("ex_date") or dates.get("effective_date") or ""`
unfoldable pub event_date : Dates → String
event_date d = or_else d.ex_date (or_else d.effective_date "")

module _ (F : Floats) where
  open F use {Num, of_int, round, eq}

  -- the tuples by which actions are matched
  pub record FuzzyKey : Type 0 where
    pub isin : String
    pub kind : String
    pub date : String
    pub ratio : String
    pub amount : Num

  pub record RejectKey : Type 0 where
    pub isin : String
    pub family : String
    pub date : String
    pub amount : Num

  abbrev pub same_fuzzy : FuzzyKey → FuzzyKey → Bool
  same_fuzzy k l =
      k.isin == l.isin
      && k.kind == l.kind
      && k.date == l.date
      && k.ratio == l.ratio
      && eq k.amount l.amount

  abbrev pub same_reject : RejectKey → RejectKey → Bool
  same_reject k l =
      k.isin == l.isin && k.family == l.family && k.date == l.date && eq k.amount l.amount

  -- `_amount`: `none` is the SystemExit on an amount that is no number, or an OverflowError, which
  -- both end the run with code 1
  unfoldable pub rounded_amount : Option (Value Num) → Option Num
  rounded_amount none = some (of_int (pos 0))
  rounded_amount (some v) = elim (float_value F v) [ none ↦ none | some x ↦ some (round 4 x) ]

  unfoldable pub fuzzy_key : Action Num → Option FuzzyKey
  unfolding rounded_amount event_date
  fuzzy_key a = elim (rounded_amount a.amount) [
    | none ↦ none
    | some x ↦ some (record {
      isin = text_or_empty a.isin;
      kind = text_or_empty a.action_type;
      date = event_date (dates_or_empty a.dates);
      ratio = or_else a.ratio "";
      amount = x;
    })
  ]

  unfoldable pub reject_key : Action Num → Option RejectKey
  unfolding rounded_amount event_date family
  reject_key a = elim (rounded_amount a.amount) [
    | none ↦ none
    | some x ↦ some (record {
      isin = text_or_empty a.isin;
      family = family a.action_type;
      date = event_date (dates_or_empty a.dates);
      amount = x;
    })
  ]

  -- the set of the keys of the current actions
  unfoldable pub fuzzy_keys : List (Action Num) → Option (List FuzzyKey)
  unfolding fuzzy_key
  fuzzy_keys [] = some []
  fuzzy_keys (a ∷ rest) = elim (fuzzy_key a) [
    | none ↦ none
    | some k ↦ elim (fuzzy_keys rest) [ none ↦ none | some ks ↦ some (k ∷ ks) ]
  ]

  abbrev pub is_empty : {A : Type 0} → List A → Bool
  is_empty [] = true
  is_empty (x ∷ xs) = false

  -- the variables of the loop
  pub record Merge : Type 0 where
    pub existing : List FuzzyKey
    pub working : List (Action Num)
    pub added : List (Action Num)
    pub rejected_removed : List (Action Num)
    pub rejected_semantic : List (Action Num)

  abbrev pub is_known : FuzzyKey → Merge → Bool
  is_known k m = any (same_fuzzy k) m.existing

  -- the semantic layer, where it could be imported, finds something in the trial list
  unfoldable pub fails_semantic : Bool → List (Action Num) → Bool
  unfolding validate_semantic_uniqueness
  fails_semantic have trial = have && not (is_empty (validate_semantic_uniqueness F trial))

  -- the rest of the round, once the candidate's two keys are known
  unfoldable pub merge_keyed :
      Bool → List RejectKey → Action Num → FuzzyKey → RejectKey → Merge → Merge
  unfolding fails_semantic
  merge_keyed have rejects c k r m =
      if any (same_reject r) rejects
      then record m { rejected_removed = m.rejected_removed ++ c ∷ [] }
      else if fails_semantic have (m.working ++ c ∷ [])
      then record m { rejected_semantic = m.rejected_semantic ++ c ∷ [] }
      else record m {
        working = m.working ++ c ∷ [];
        existing = k ∷ m.existing;
        added = m.added ++ c ∷ [];
      }

  -- one round of the loop over the fetched actions
  unfoldable pub merge_step : Bool → List RejectKey → Action Num → Merge → Option Merge
  unfolding fuzzy_key reject_key merge_keyed
  merge_step have rejects c m = elim (fuzzy_key c) [
    | none ↦ none
    | some k ↦
        if is_known k m
        then some m
        else elim (reject_key c) [ none ↦ none | some r ↦ some (merge_keyed have rejects c k r m) ]
  ]

  abbrev pub or_exit : Option Merge → (Merge → Option Merge) → Option Merge
  or_exit none continue = none
  or_exit (some m) continue = continue m

  unfoldable pub merge_loop : Bool → List RejectKey → List (Action Num) → Merge → Option Merge
  unfolding merge_step
  merge_loop have rejects [] m = some m
  merge_loop have rejects (c ∷ rest) m =
      or_exit (merge_step have rejects c m) λ m'. merge_loop have rejects rest m'

  abbrev pub start : List (Action Num) → List FuzzyKey → Merge
  start current keys = record {
    existing = keys;
    working = current;
    added = [];
    rejected_removed = [];
    rejected_semantic = [];
  }

  -- `merge`: `none` is the SystemExit
  unfoldable pub merge :
      Bool → List (Action Num) → List (Action Num) → List RejectKey → Option Merge
  unfolding fuzzy_keys merge_loop
  merge have current fetched rejects = elim (fuzzy_keys current) [
    | none ↦ none
    | some keys ↦ merge_loop have rejects fetched (start current keys)
  ]
