-- ===== src/Merge/Run.antt =====
-- The reject list and `main` of tools/merge_fetched.py.
pub mod Written
use corporate_actions.Prelude.{
  ℕ, String, Bool, true, false, not, ◌&&◌, ◌||◌, Option, none, some, List, [], ◌∷◌, ◌++◌,
  if◌then◌else◌,
}
use corporate_actions.Prelude.Int.{pos}
use corporate_actions.Prelude.Text.{or_else}
use corporate_actions.Floats.{Floats}
use corporate_actions.Model.{Value, Action, truthy, float_value}
use corporate_actions.Merge.{RejectKey, Merge, family, text_or_empty, is_empty, merge}

-- an entry of _removed_actions.json
pub record Removed (N : Type 0) : Type 0 where
  pub isin : Option String
  pub action_type : Option String
  pub ex_date : Option String
  pub effective_date : Option String
  pub amount : Option (Value N)

-- the reject list as it is read; an element that is no object is `none`
pub data RejectFile (N : Type 0) : Type 0 where
  no_file invalid_json no_removed_list : RejectFile N
  removed_list : List (Option (Removed N)) → RejectFile N

-- a file of actions as it is read
pub data ActionsFile (N : Type 0) : Type 0 where
  not_found malformed no_actions : ActionsFile N
  holding : List (Action N) → ActionsFile N

-- the flags, whether the semantic layer could be imported, and whether the write succeeds
pub record Settings : Type 0 where
  pub strict : Bool
  pub dry_run : Bool
  pub have_semantic : Bool
  pub can_write : Bool

-- what a run does: its exit code (1 for an exception that nothing catches), and what it writes
pub record Run (N : Type 0) : Type 0 where
  pub code : ℕ
  pub written : Option (List (Action N))

abbrev pub stopped : {N : Type 0} → ℕ → Run N
stopped code = record { code = code; written = none }

module _ (F : Floats) where
  open F use {Num, of_int, round}

  -- `float(entry.get("amount") or 0.0)`: `none` is an exception, which is not caught
  abbrev pub entry_amount : Option (Value Num) → Option Num
  entry_amount none = some (of_int (pos 0))
  entry_amount (some v) = if truthy F v then float_value F v else some (of_int (pos 0))

  unfoldable pub reject_key_from_entry : Removed Num → Option (RejectKey F)
  unfolding family
  reject_key_from_entry e = elim (entry_amount e.amount) [
    | none ↦ none
    | some x ↦ some (record {
      isin = text_or_empty e.isin;
      family = family e.action_type;
      date = or_else e.ex_date (or_else e.effective_date "");
      amount = round 4 x;
    })
  ]

  unfoldable pub reject_keys : List (Option (Removed Num)) → Option (List (RejectKey F))
  unfolding reject_key_from_entry
  reject_keys [] = some []
  reject_keys (none ∷ rest) = reject_keys rest
  reject_keys (some e ∷ rest) = elim (reject_key_from_entry e) [
    | none ↦ none
    | some k ↦ elim (reject_keys rest) [ none ↦ none | some ks ↦ some (k ∷ ks) ]
  ]

  unfoldable pub load_reject_set : RejectFile Num → Option (List (RejectKey F))
  unfolding reject_keys
  load_reject_set no_file = some []
  load_reject_set invalid_json = some []
  load_reject_set no_removed_list = some []
  load_reject_set (removed_list entries) = reject_keys entries

  -- the exit code of `--strict`
  abbrev pub strict_code : Settings → Merge F → ℕ
  strict_code s m =
      if s.strict && not (is_empty F m.rejected_removed && is_empty F m.rejected_semantic)
      then 1
      else 0

  -- from the merge on
  unfoldable pub finish : Settings → List (Action Num) → Merge F → Run Num
  finish s current m =
      if s.dry_run || is_empty F m.added
      then stopped (strict_code s m)
      else if s.can_write
      then record { code = strict_code s m; written = some (current ++ m.added) }
      else stopped 1

  unfoldable pub run_loaded :
      Settings → List (Action Num) → List (Action Num) → RejectFile Num → Run Num
  unfolding load_reject_set merge finish
  run_loaded s current fetched removed = elim (load_reject_set removed) [
    | none ↦ stopped 1
    | some rejects ↦ elim (merge F s.have_semantic current fetched rejects) [
      | none ↦ stopped 1
      | some m ↦ finish s current m
    ]
  ]

  -- a file that cannot be read ends the run at once; a missing list, after both files are read
  unfoldable pub main : Settings → ActionsFile Num → ActionsFile Num → RejectFile Num → Run Num
  unfolding run_loaded
  main s not_found fetched removed = stopped 3
  main s malformed fetched removed = stopped 2
  main s no_actions not_found removed = stopped 3
  main s no_actions malformed removed = stopped 2
  main s no_actions no_actions removed = stopped 2
  main s no_actions (holding fetched) removed = stopped 2
  main s (holding current) not_found removed = stopped 3
  main s (holding current) malformed removed = stopped 2
  main s (holding current) no_actions removed = stopped 2
  main s (holding current) (holding fetched) removed = run_loaded s current fetched removed
