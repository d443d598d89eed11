-- ===== src/Validate/Unique.antt =====
-- `validate_uniqueness` of tools/validate.py: no action_id stands twice.
use corporate_actions.Prelude.{
  String, ◌≡◌, refl, ◌↔◌, Bool, false, ◌||◌, Option, none, some, List, [], ◌∷◌, ◌++◌, any, report,
  ◌==◌, eq_iff, if◌then◌else◌, arith,
}
use corporate_actions.Model.{Action}

-- `x in seen`
abbrev pub member : String → List String → Bool
member x seen = any (λ y. x == y) seen

-- one round: the error for an id that was seen, and the set after it
unfoldable pub uniqueness_from : List String → List (Option String) → List String
uniqueness_from seen [] = []
uniqueness_from seen (none ∷ ids) = uniqueness_from seen ids
uniqueness_from seen (some i ∷ ids) =
    report (member i seen) i ++ uniqueness_from (if member i seen then seen else i ∷ seen) ids

module _ {N : Type 0} where
  abbrev pub ids_of : List (Action N) → List (Option String)
  ids_of [] = []
  ids_of (a ∷ more) = a.action_id ∷ ids_of more

  -- the ids that occur again, in the order in which they are met
  unfoldable pub validate_uniqueness : List (Action N) → List String
  unfolding uniqueness_from
  validate_uniqueness actions = uniqueness_from [] (ids_of actions)

-- Every id that is given differs from all the later ones.
abbrev pub occurs : String → List (Option String) → Bool
occurs i [] = false
occurs i (none ∷ ids) = occurs i ids
occurs i (some j ∷ ids) = i == j || occurs i ids

abbrev pub Distinct : List (Option String) → Type 0
Distinct [] = Unit
Distinct (none ∷ ids) = Distinct ids
Distinct (some i ∷ ids) = (occurs i ids ≡ false) × Distinct ids

-- no given id is in the set
abbrev pub Fresh : List String → List (Option String) → Type 0
Fresh seen [] = Unit
Fresh seen (none ∷ ids) = Fresh seen ids
Fresh seen (some i ∷ ids) = (member i seen ≡ false) × Fresh seen ids

pub Fresh-cons :
    (i : String) (seen : List String) (ids : List (Option String))
    → Fresh (i ∷ seen) ids ↔ (Fresh seen ids × (occurs i ids ≡ false))
Fresh-cons i seen [] = ground arith
Fresh-cons i seen (none ∷ ids) = Fresh-cons i seen ids
Fresh-cons i seen (some j ∷ ids) = ground (arith, Fresh-cons i seen ids, eq_iff i j, eq_iff j i)

uniqueness_from-nil_iff :
    (seen : List String) (ids : List (Option String))
    → (uniqueness_from seen ids ≡ []) ↔ (Fresh seen ids × Distinct ids)
unfolding uniqueness_from
uniqueness_from-nil_iff seen [] = ground arith
uniqueness_from-nil_iff seen (none ∷ ids) = uniqueness_from-nil_iff seen ids
uniqueness_from-nil_iff seen (some i ∷ ids) =
    ground (arith, uniqueness_from-nil_iff (i ∷ seen) ids, Fresh-cons i seen ids)

pub Fresh-nil : (ids : List (Option String)) → Fresh [] ids
Fresh-nil [] = tt
Fresh-nil (none ∷ ids) = Fresh-nil ids
Fresh-nil (some i ∷ ids) = (refl, Fresh-nil ids)

module _ {N : Type 0} (actions : List (Action N)) where
  -- The uniqueness layer finds nothing exactly when the action_ids that are given are distinct.
  pub validate_uniqueness-nil_iff : (validate_uniqueness actions ≡ []) ↔ Distinct (ids_of actions)
  unfolding validate_uniqueness
  validate_uniqueness-nil_iff =
      ground (arith, uniqueness_from-nil_iff [] (ids_of actions), Fresh-nil (ids_of actions))
