-- ===== src/Build.antt =====
-- tools/build.py: the structural check of the data, the flat form of an action, and `main`, which
-- renders all artifacts before it writes one. The texts of the two JSON files and of the CSV file
-- are the work of Python's json and csv modules, which are parameters.
pub mod Sql
pub mod Flat
pub mod Run
pub mod Checked
use Prim.Native.String
use corporate_actions.Prelude.{
  ℕ, zero, suc, ◌+◌, String, Bool, true, false, not, ◌&&◌, ◌||◌, Option, none, some, List, [], ◌∷◌,
  ◌++◌, ◌==◌, any, report, if◌then◌else◌,
}
use corporate_actions.Model.{Value}

-- a value inside a nested object: null or a scalar, or an object or a list
pub data Sub (N : Type 0) : Type 0 where
  plain : Option (Value N) → Sub N
  structured : Sub N

-- a value of an action
pub data Field (N : Type 0) : Type 0 where
  scalar : Option (Value N) → Field N
  array : Field N
  object : List (String × Sub N) → Field N

abbrev pub Object : Type 0 → Type 0
Object N = List (String × Field N)

-- the loaded JSON; an element of `actions` that is no object is `none`
pub data Top (N : Type 0) : Type 0 where
  not_object missing_actions not_list : Top N
  actions : List (Option (Object N)) → Top N

pub data BuildError : Type 0 where
  top_not_object no_actions_key actions_not_list empty_list : BuildError
  action_not_object dates_not_object : ℕ → BuildError
  missing_field missing_date : ℕ → String → BuildError

-- `key in d`
abbrev pub has_key {ℓ} : {A : Type ℓ} → String → List (String × A) → Bool
has_key key [] = false
has_key key ((k, v) ∷ rest) = k == key || has_key key rest

-- `d.get(key)`
abbrev pub get {ℓ} : {A : Type ℓ} → String → List (String × A) → Option A
get key [] = none
get key ((k, v) ∷ rest) = let later = get key rest in if k == key then some v else later

-- `d[key] = v`: an old key keeps its place
abbrev pub put {ℓ} : {A : Type ℓ} → String → A → List (String × A) → List (String × A)
put key v [] = (key, v) ∷ []
put key v ((k, w) ∷ rest) =
    let later = put key v rest in if k == key then (k, v) ∷ rest else (k, w) ∷ later

-- the errors of the names that a dictionary lacks
abbrev pub lacking {ℓ} :
    {A : Type ℓ} → (String → BuildError) → List String → List (String × A) → List BuildError
lacking e [] d = []
lacking e (name ∷ names) d = report (not (has_key name d)) (e name) ++ lacking e names d

abbrev pub required_fields : List String
required_fields = "isin" ∷ "action_id" ∷ "action_type" ∷ "dates" ∷ []

-- `f"{key}_{subkey}"`
abbrev pub joined : String → String → String
joined key subkey = String.◌++◌ key (String.◌++◌ "_" subkey)

module _ {N : Type 0} where
  unfoldable pub dates_errors : ℕ → Option (Field N) → List BuildError
  dates_errors i none = dates_not_object i ∷ []
  dates_errors i (some (scalar v)) = dates_not_object i ∷ []
  dates_errors i (some array) = dates_not_object i ∷ []
  dates_errors i (some (object d)) =
      lacking (missing_date i) ("announcement" ∷ "effective_date" ∷ []) d

  unfoldable pub item_errors : ℕ → Option (Object N) → List BuildError
  unfolding dates_errors
  item_errors i none = action_not_object i ∷ []
  item_errors i (some a) =
      lacking (missing_field i) required_fields a ++ dates_errors i (get "dates" a)

  unfoldable pub items_errors : ℕ → List (Option (Object N)) → List BuildError
  unfolding item_errors
  items_errors i [] = []
  items_errors i (a ∷ rest) = item_errors i a ++ items_errors (suc i) rest

  unfoldable pub validate_actions_data : Top N → List BuildError
  unfolding items_errors
  validate_actions_data not_object = top_not_object ∷ []
  validate_actions_data missing_actions = no_actions_key ∷ []
  validate_actions_data not_list = actions_not_list ∷ []
  validate_actions_data (actions []) = empty_list ∷ []
  validate_actions_data (actions (a ∷ rest)) = items_errors 0 (a ∷ rest)

  -- one level of nesting becomes one flat dictionary; `none` is ValueError
  unfoldable pub put_subs :
      String
      → List (String × Sub N)
      → List (String × Option (Value N))
      → Option (List (String × Option (Value N)))
  put_subs key [] flat = some flat
  put_subs key ((k, structured) ∷ rest) flat = none
  put_subs key ((k, plain v) ∷ rest) flat = put_subs key rest (put (joined key k) v flat)

  unfoldable pub put_field :
      String
      → Field N
      → List (String × Option (Value N))
      → Option (List (String × Option (Value N)))
  unfolding put_subs
  put_field key (scalar v) flat = some (put key v flat)
  put_field key array flat = none
  put_field key (object subs) flat = put_subs key subs flat

  unfoldable pub flatten_from :
      List (String × Option (Value N)) → Object N → Option (List (String × Option (Value N)))
  unfolding put_field
  flatten_from flat [] = some flat
  flatten_from flat ((key, v) ∷ rest) = elim (put_field key v flat) [
    | none ↦ none
    | some flat' ↦ flatten_from flat' rest
  ]

  unfoldable pub flatten_action : Object N → Option (List (String × Option (Value N)))
  unfolding flatten_from
  flatten_action a = flatten_from [] a
