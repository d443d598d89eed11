-- ===== src/Registry.antt =====
-- wrappers/python/corporate_actions_registry: the data classes of models.py, and the loading and
-- the lookups of `CorporateActionsRegistry` in registry.py. Values are immutable here, so the deep
-- copies that the methods return are the values themselves.
pub mod Lookup
pub mod Load
pub mod Prices
pub mod Queries
use corporate_actions.Prelude.{
  ℕ, suc, ◌+◌, String, Bool, true, false, not, ◌&&◌, ◌||◌, Option, none, some, List, [], ◌∷◌, ◌++◌,
  map, length, ◌==◌, if◌then◌else◌,
}
use corporate_actions.Prelude.Text.{given, is_some}
use corporate_actions.Model.{
  Value, Dates, no_dates, dates_or_empty, Provenance, provenance_or_empty, Impact, Action,
}

module _ {N : Type 0} where
  abbrev pub no_impact : Impact N
  no_impact = record { price_multiplier = none; share_multiplier = none; cash_adjustment = none }

  -- `Impact.from_dict`
  abbrev pub impact_or_empty : Option (Impact N) → Impact N
  impact_or_empty none = no_impact
  impact_or_empty (some i) = i

-- `class Action` of models.py: the nested objects are always there
pub record Entry (N : Type 0) : Type 0 where
  pub isin : Option String
  pub action_id : Option String
  pub action_type : Option String
  pub ratio : Option String
  pub amount : Option (Value N)
  pub currency : Option String
  pub dates : Dates
  pub status : Option String
  pub redistribution : Option String
  pub provenance : Provenance
  pub impact : Impact N

-- an element of the `actions` array: an object, or another JSON value
pub data Item (N : Type 0) : Type 0 where
  object : Action N → Item N
  no_object : Item N

-- the ValueErrors of the structural pass, with the index at which they are raised
pub data LoadError : Type 0 where
  not_an_object : ℕ → LoadError
  duplicate_action_id : ℕ → String → ℕ → LoadError
  no_identifier : ℕ → LoadError

pub data Loaded {ℓ} (A : Type ℓ) : Type ℓ where
  ok : A → Loaded A
  err : LoadError → Loaded A

-- a dict with text keys, in order of insertion
module _ {ℓ} {V : Type ℓ} where
  unfoldable pub lookup : String → List (String × V) → Option V
  lookup k [] = none
  lookup k ((j, v) ∷ d) = if j == k then some v else lookup k d

  -- `d[k] = v`
  unfoldable pub insert : String → V → List (String × V) → List (String × V)
  insert k v [] = (k, v) ∷ []
  insert k v ((j, w) ∷ d) = if j == k then (j, v) ∷ d else (j, w) ∷ insert k v d

  -- `d.setdefault(k, []).append(v)`
  unfoldable pub append_to : String → V → List (String × List V) → List (String × List V)
  append_to k v [] = (k, v ∷ []) ∷ []
  append_to k v ((j, vs) ∷ d) = if j == k then (j, vs ++ v ∷ []) ∷ d else (j, vs) ∷ append_to k v d

  -- `d.get(k, [])`
  abbrev pub list_or_empty : Option (List V) → List V
  list_or_empty none = []
  list_or_empty (some vs) = vs

-- the fields that `_build_indexes` fills
pub record Registry (N : Type 0) : Type 0 where
  pub actions : List (Entry N)
  pub index_by_isin : List (String × List (Entry N))
  pub index_by_type : List (String × List (Entry N))
  pub index_by_id : List (String × Entry N)

module _ {N : Type 0} where
  -- `Action.from_dict`
  unfoldable pub from_dict : Action N → Entry N
  from_dict a = record {
    isin = a.isin;
    action_id = a.action_id;
    action_type = a.action_type;
    ratio = a.ratio;
    amount = a.amount;
    currency = a.currency;
    dates = dates_or_empty a.dates;
    status = a.status;
    redistribution = a.redistribution;
    provenance = provenance_or_empty a.provenance;
    impact = impact_or_empty a.impact;
  }

  -- the last test of a round: an entry needs an ISIN or an id
  abbrev pub has_identifier : Action N → Bool
  has_identifier a = is_some (given a.isin) || is_some (given a.action_id)

  abbrev pub identified : ℕ → Action N → Loaded (List (Action N)) → Loaded (List (Action N))
  identified i a rest = if has_identifier a then rest else err (no_identifier i)

  abbrev pub put_action : Action N → Loaded (List (Action N)) → Loaded (List (Action N))
  put_action a (ok rest) = ok (a ∷ rest)
  put_action a (err e) = err e

  -- the structural pass from index `i` on, with the ids that were seen and where
  unfoldable pub check_items : ℕ → List (String × ℕ) → List (Item N) → Loaded (List (Action N))
  unfolding lookup insert
  check_items i seen [] = ok []
  check_items i seen (no_object ∷ items) = err (not_an_object i)
  check_items i seen (object a ∷ items) = elim (given a.action_id) [
    | none ↦ identified i a (put_action a (check_items (i + 1) seen items))
    | some aid ↦ elim (lookup aid seen) [
      | some first ↦ err (duplicate_action_id i aid first)
      | none ↦ identified i a (put_action a (check_items (i + 1) (insert aid i seen) items))
    ]
  ]

  abbrev pub index_list :
      Option String → Entry N → List (String × List (Entry N)) → List (String × List (Entry N))
  index_list none e d = d
  index_list (some k) e d = append_to k e d

  abbrev pub index_one : Option String → Entry N → List (String × Entry N) → List (String × Entry N)
  index_one none e d = d
  index_one (some k) e d = insert k e d

  -- `_build_indexes`: one round, and the loop
  unfoldable pub index_entry : Entry N → Registry N → Registry N
  unfolding append_to insert
  index_entry e r = record r {
    index_by_isin = index_list (given e.isin) e r.index_by_isin;
    index_by_type = index_list (given e.action_type) e r.index_by_type;
    index_by_id = index_one (given e.action_id) e r.index_by_id;
  }

  unfoldable pub build_indexes : List (Entry N) → Registry N → Registry N
  unfolding index_entry
  build_indexes [] r = r
  build_indexes (e ∷ rest) r = build_indexes rest (index_entry e r)

  abbrev pub unindexed : List (Entry N) → Registry N
  unindexed actions = record {
    actions = actions;
    index_by_isin = [];
    index_by_type = [];
    index_by_id = [];
  }

  unfoldable pub of_entries : List (Entry N) → Registry N
  unfolding build_indexes
  of_entries actions = build_indexes actions (unindexed actions)

  abbrev pub registry_of : Loaded (List (Action N)) → Loaded (Registry N)
  registry_of (ok actions) = ok (of_entries (map from_dict actions))
  registry_of (err e) = err e

  -- `__init__`, once the `actions` array is read
  unfoldable pub load : List (Item N) → Loaded (Registry N)
  unfolding check_items of_entries from_dict
  load items = registry_of (check_items 0 [] items)

  unfoldable pub by_isin : Registry N → String → List (Entry N)
  unfolding lookup
  by_isin r isin = list_or_empty (lookup isin r.index_by_isin)

  unfoldable pub by_action_type : Registry N → String → List (Entry N)
  unfolding lookup
  by_action_type r kind = list_or_empty (lookup kind r.index_by_type)

  unfoldable pub by_action_id : Registry N → String → Option (Entry N)
  unfolding lookup
  by_action_id r id = lookup id r.index_by_id

  -- `count` and `__len__`
  unfoldable pub count : Registry N → ℕ
  count r = length r.actions
