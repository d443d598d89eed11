-- ===== src/Registry/Lookup.antt =====
-- What the indexes hold: each lookup is a search of the list of actions.
use mathlib.Core.List.{append_assoc, append-nil}
use corporate_actions.Prelude.{
  ◌≡◌, refl, sym, ap, ◌∙◌, String, Bool, true, false, Option, none, some, List, [], ◌∷◌, ◌++◌,
  arith, if◌then◌else◌, ◌==◌, eq_iff, Option-cases, inl, inr,
}
use corporate_actions.Prelude.Text.{given}
use corporate_actions.Registry.{
  Entry, Registry, lookup, insert, append_to, list_or_empty, index_list, index_one, index_entry,
  build_indexes, unindexed, of_entries, by_isin, by_action_type, by_action_id,
}

module _ {ℓ} {V : Type ℓ} where
  pub lookup-insert :
      (k j : String) (v : V) (d : List (String × V))
      → lookup j (insert k v d) ≡ (if k == j then some v else lookup j d)
  unfolding lookup insert
  lookup-insert k j v [] = refl
  lookup-insert k j v ((i, w) ∷ d) =
      ground (arith, lookup-insert k j v d, eq_iff i k, eq_iff i j, eq_iff k j)

  -- the list under a key, once a value was appended under another or the same
  lookup-append_to :
      (k j : String) (v : V) (d : List (String × List V))
      → list_or_empty (lookup j (append_to k v d))
        ≡ (if k == j then list_or_empty (lookup j d) ++ v ∷ [] else list_or_empty (lookup j d))
  unfolding lookup append_to
  lookup-append_to k j v [] = ground arith
  lookup-append_to k j v ((i, vs) ∷ d) =
      ground (arith, lookup-append_to k j v d, eq_iff i k, eq_iff i j, eq_iff k j)

-- the field holds the key
abbrev pub holds : String → Option String → Bool
holds k o = elim (given o) [ none ↦ false | some j ↦ j == k ]

module _ {N : Type 0} where
  -- the entries whose field holds the key, in the order of the list
  abbrev pub select : (Entry N → Option String) → String → List (Entry N) → List (Entry N)
  select field k [] = []
  select field k (e ∷ rest) =
      let others = select field k rest in if holds k (field e) then e ∷ others else others

  -- the last entry that has the id
  abbrev pub find_last : String → List (Entry N) → Option (Entry N) → Option (Entry N)
  find_last k [] found = found
  find_last k (e ∷ rest) found = find_last k rest (if holds k e.action_id then some e else found)

  index_list-holds :
      (k : String) (o : Option String) (e : Entry N) (d : List (String × List (Entry N)))
      → list_or_empty (lookup k (index_list (given o) e d))
        ≡ (if holds k o then list_or_empty (lookup k d) ++ e ∷ [] else list_or_empty (lookup k d))
  index_list-holds k o e d = elim (Option-cases (given o)) [
    | inl h ↦ ground arith
    | inr (j, h) ↦ ground (arith, lookup-append_to j k e d)
  ]

  index_one-holds :
      (k : String) (o : Option String) (e : Entry N) (d : List (String × Entry N))
      → lookup k (index_one (given o) e d) ≡ (if holds k o then some e else lookup k d)
  index_one-holds k o e d = elim (Option-cases (given o)) [
    | inl h ↦ ground arith
    | inr (j, h) ↦ ground (arith, lookup-insert j k e d)
  ]

  step_append :
      (b : Bool) (xs : List (Entry N)) (e : Entry N) (ys : List (Entry N))
      → (if b then xs ++ e ∷ [] else xs) ++ ys ≡ xs ++ (if b then e ∷ ys else ys)
  step_append true xs e ys = append_assoc xs (e ∷ []) ys
  step_append false xs e ys = refl

  build_indexes-isin :
      (k : String) (actions : List (Entry N)) (r : Registry N)
      → list_or_empty (lookup k (build_indexes actions r).index_by_isin)
        ≡ list_or_empty (lookup k r.index_by_isin) ++ select (λ e. e.isin) k actions
  unfolding build_indexes index_entry
  build_indexes-isin k [] r = sym (append-nil _)
  build_indexes-isin k (e ∷ rest) r =
      build_indexes-isin k rest (index_entry e r)
      ∙ (ap (λ (xs : List (Entry N)). xs ++ select (λ x. x.isin) k rest)
            (index_list-holds k e.isin e r.index_by_isin)
          ∙ step_append (holds k e.isin) _ e _)

  build_indexes-type :
      (k : String) (actions : List (Entry N)) (r : Registry N)
      → list_or_empty (lookup k (build_indexes actions r).index_by_type)
        ≡ list_or_empty (lookup k r.index_by_type) ++ select (λ e. e.action_type) k actions
  unfolding build_indexes index_entry
  build_indexes-type k [] r = sym (append-nil _)
  build_indexes-type k (e ∷ rest) r =
      build_indexes-type k rest (index_entry e r)
      ∙ (ap (λ (xs : List (Entry N)). xs ++ select (λ x. x.action_type) k rest)
            (index_list-holds k e.action_type e r.index_by_type)
          ∙ step_append (holds k e.action_type) _ e _)

  build_indexes-id :
      (k : String) (actions : List (Entry N)) (r : Registry N)
      → lookup k (build_indexes actions r).index_by_id
        ≡ find_last k actions (lookup k r.index_by_id)
  unfolding build_indexes index_entry
  build_indexes-id k [] r = refl
  build_indexes-id k (e ∷ rest) r =
      build_indexes-id k rest (index_entry e r)
      ∙ ap (find_last k rest) (index_one-holds k e.action_id e r.index_by_id)

  build_indexes-actions :
      (actions : List (Entry N)) (r : Registry N) → (build_indexes actions r).actions ≡ r.actions
  unfolding build_indexes index_entry
  build_indexes-actions [] r = refl
  build_indexes-actions (e ∷ rest) r = build_indexes-actions rest (index_entry e r)

  pub of_entries-actions : (actions : List (Entry N)) → (of_entries actions).actions ≡ actions
  unfolding of_entries
  of_entries-actions actions = build_indexes-actions actions (unindexed actions)

  -- The lookup by ISIN gives exactly the actions that have the ISIN, in the order of the file, and
  -- the lookup by type those of the type.
  pub lookups-select :
      (actions : List (Entry N)) (k : String)
      → (by_isin (of_entries actions) k ≡ select (λ e. e.isin) k actions)
        × (by_action_type (of_entries actions) k ≡ select (λ e. e.action_type) k actions)
  unfolding by_isin by_action_type of_entries
  lookups-select actions k = (
    build_indexes-isin k actions (unindexed actions),
    build_indexes-type k actions (unindexed actions),
  )

  pub by_action_id-find_last :
      (actions : List (Entry N)) (k : String)
      → by_action_id (of_entries actions) k ≡ find_last k actions none
  unfolding by_action_id of_entries
  by_action_id-find_last actions k = build_indexes-id k actions (unindexed actions)
