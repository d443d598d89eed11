-- ===== src/Redistribution/Run.antt =====
-- `main` of tools/derive_redistribution.py, once the `actions` list is loaded.
pub mod Agrees
use corporate_actions.Prelude.{
  ℕ, String, Bool, true, false, not, Option, none, some, List, [], ◌∷◌, any, ◌==◌, if◌then◌else◌,
}
use corporate_actions.Model.{Action}
use corporate_actions.Redistribution.{Category, category_text, redistribution_for, extract_source}

-- the flags of the command line that decide what a run does
pub record Flags : Type 0 where
  pub check : Bool
  pub dry_run : Bool

-- what a run does: its exit code, and the actions that it writes, where it writes
pub record Run (N : Type 0) : Type 0 where
  pub code : ℕ
  pub written : Option (List (Action N))

module _ {N : Type 0} where
  -- the first pass: the value for an action
  unfoldable pub computed : Action N → String
  unfolding extract_source redistribution_for category_text
  computed a = category_text (redistribution_for (extract_source a))

  abbrev pub is_restricted : Action N → Bool
  is_restricted a = computed a == "restricted"

  -- `actual != expected`
  unfoldable pub is_stale : Action N → Bool
  is_stale a = elim a.redistribution [ none ↦ true | some actual ↦ not (actual == computed a) ]

  -- the write pass
  unfoldable pub set_redistribution : Action N → Action N
  unfolding is_stale
  set_redistribution a = if is_stale a then record a { redistribution = some (computed a) } else a

  unfoldable pub set_all : List (Action N) → List (Action N)
  unfolding set_redistribution
  set_all [] = []
  set_all (a ∷ rest) = set_redistribution a ∷ set_all rest

  -- the elements, where all of them are objects
  unfoldable pub all_objects : List (Option (Action N)) → Option (List (Action N))
  all_objects [] = some []
  all_objects (none ∷ rest) = none
  all_objects (some a ∷ rest) = elim (all_objects rest) [
    | none ↦ none
    | some actions ↦ some (a ∷ actions)
  ]

  -- the passes over a list of objects; `can_write` tells that the write raises no OSError
  unfoldable pub process : Flags → Bool → List (Action N) → Run N
  unfolding set_all
  process flags can_write [] = record { code = 2; written = none }
  process flags can_write (a ∷ rest) =
      let actions = a ∷ rest in
      if any is_restricted actions
      then record { code = 1; written = none }
      else if flags.check
      then record { code = if any is_stale actions then 1 else 0; written = none }
      else if flags.dry_run
      then record { code = 0; written = none }
      else if not (any is_stale actions)
      then record { code = 0; written = none }
      else if can_write
      then record { code = 0; written = some (set_all actions) }
      else record { code = 3; written = none }

  -- `none` is an element that is no object
  unfoldable pub derive_redistribution : Flags → Bool → List (Option (Action N)) → Run N
  unfolding all_objects process
  derive_redistribution flags can_write items = elim (all_objects items) [
    | none ↦ record { code = 2; written = none }
    | some actions ↦ process flags can_write actions
  ]
