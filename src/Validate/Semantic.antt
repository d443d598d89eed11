-- ===== src/Validate/Semantic.antt =====
-- `validate_semantic_uniqueness` of tools/validate.py: no two actions describe one event.
-- The actions are grouped by ISIN and family in a dict, which keeps the order of insertion, and
-- every pair of a group is compared.
pub mod Groups
pub mod Twins
use corporate_actions.Prelude.{
  ℕ, String, Bool, true, false, not, ◌&&◌, ◌||◌, Option, none, some, List, [], ◌∷◌, ◌++◌, ltb, ◌==◌,
  if◌then◌else◌,
}
use corporate_actions.Prelude.Int.{pos}
use corporate_actions.Prelude.Text.{given}
use corporate_actions.Floats.{Floats}
use corporate_actions.Model.{Dates, dates_or_empty, Action, truthy, to_float}
use corporate_actions.Calendar.{parse_date, days_apart}

-- the two families that are collapsed; any other type is its own family
unfoldable pub family : String → String
family t =
    if t == "DIVIDEND" || t == "SPECIAL_DIVIDEND"
    then "DIVIDEND"
    else if t == "SPLIT" || t == "REVERSE_SPLIT"
    then "SPLIT"
    else t

-- what two events of a family are compared by
pub data Magnitude (N : Type 0) : Type 0 where
  cash : N → Magnitude N
  shares : String → Magnitude N

-- the dict's key: ISIN and family
abbrev pub Key : Type 0
Key = String × String

abbrev pub key_eq : Key → Key → Bool
key_eq (i, f) (j, g) = i == j && f == g

module _ (F : Floats) where
  open F use {Num, of_int, decimal, sub, abs, lt}

  -- `a.get("isin")` and `a.get("action_type")`, if both are there
  unfoldable pub event_key : Action Num → Option Key
  unfolding family
  event_key a = elim (given a.isin) [
    | none ↦ none
    | some i ↦ elim (given a.action_type) [ none ↦ none | some t ↦ some (i, family t) ]
  ]

  -- `float(a.get("amount") or 0.0)`
  unfoldable pub amount_or_zero : Action Num → Option Num
  amount_or_zero a = elim a.amount [
    | none ↦ some (of_int (pos 0))
    | some v ↦ if truthy F v then to_float F v else some (of_int (pos 0))
  ]

  unfoldable pub comparable : String → Action Num → Option (Magnitude Num)
  unfolding amount_or_zero
  comparable fam a =
      if fam == "DIVIDEND"
      then elim (amount_or_zero a) [ none ↦ none | some x ↦ some (cash x) ]
      else if fam == "SPLIT"
      then elim (given a.ratio) [ none ↦ none | some r ↦ some (shares r) ]
      else none

  -- dividends within a cent, splits by the text of the ratio
  unfoldable pub is_match : Magnitude Num → Magnitude Num → Bool
  is_match (cash x) (cash y) = lt (abs (sub x y)) (decimal 1 2)
  is_match (cash x) (shares r) = false
  is_match (shares r) (cash y) = false
  is_match (shares r) (shares s) = r == s

  unfoldable pub both_match : Option (Magnitude Num) → Option (Magnitude Num) → Bool
  unfolding is_match
  both_match none v = false
  both_match (some u) none = false
  both_match (some u) (some v) = is_match u v

  -- both dates parse, and lie at most five days apart
  unfoldable pub close : Option ℕ → Option ℕ → Bool
  close none q = false
  close (some p) none = false
  close (some p) (some q) = not (ltb 5 (days_apart p q))

  abbrev effective_day : Action Num → Option ℕ
  effective_day a = parse_date (dates_or_empty a.dates).effective_date

  -- the body of the loop over the pairs of a group
  unfoldable pub is_duplicate : String → Action Num → Action Num → Bool
  unfolding close both_match comparable parse_date
  is_duplicate fam a b =
      close (effective_day a) (effective_day b) && both_match (comparable fam a) (comparable fam b)

  -- one error names both actions, the key that they share and the value of the first
  pub record DuplicateEvent : Type 0 where
    pub first : Option String
    pub second : Option String
    pub key : Key
    pub value : Option (Magnitude Num)

  abbrev pub Group : Type 0
  Group = Key × List (Action Num)

  -- `by_key[key].append(a)`
  unfoldable pub add_to_group : Key → Action Num → List Group → List Group
  add_to_group k a [] = (k, a ∷ []) ∷ []
  add_to_group k a ((j, group) ∷ groups) =
      if key_eq j k then (j, group ++ a ∷ []) ∷ groups else (j, group) ∷ add_to_group k a groups

  unfoldable pub file_action : Action Num → List Group → List Group
  unfolding event_key add_to_group
  file_action a groups = elim (event_key a) [ none ↦ groups | some k ↦ add_to_group k a groups ]

  unfoldable pub group_actions : List Group → List (Action Num) → List Group
  unfolding file_action
  group_actions groups [] = groups
  group_actions groups (a ∷ rest) = group_actions (file_action a groups) rest

  -- the errors for the pairs that begin with `a`
  unfoldable pub pair_errors : Key → Action Num → List (Action Num) → List DuplicateEvent
  unfolding is_duplicate
  pair_errors k a [] = []
  pair_errors k a (b ∷ rest) =
      (if is_duplicate k.1 a b
        then record { first = a.action_id; second = b.action_id; key = k; value = comparable k.1 a }
          ∷ []
        else [])
      ++ pair_errors k a rest

  -- `combinations(group, 2)`
  unfoldable pub combination_errors : Key → List (Action Num) → List DuplicateEvent
  unfolding pair_errors
  combination_errors k [] = []
  combination_errors k (a ∷ rest) = pair_errors k a rest ++ combination_errors k rest

  abbrev pub has_magnitude : String → Bool
  has_magnitude fam = fam == "DIVIDEND" || fam == "SPLIT"

  unfoldable pub group_errors : List Group → List DuplicateEvent
  unfolding combination_errors
  group_errors [] = []
  group_errors ((k, group) ∷ groups) =
      (if has_magnitude k.1 then combination_errors k group else []) ++ group_errors groups

  unfoldable pub validate_semantic_uniqueness : List (Action Num) → List DuplicateEvent
  unfolding group_actions group_errors
  validate_semantic_uniqueness actions = group_errors (group_actions [] actions)
