-- ===== src/Registry/Load.antt =====
-- What the structural pass of the constructor accepts, and what follows for the lookup by id.
use mathlib.Core.Path.{fun_ext}
use corporate_actions.Prelude.{
  ℕ, ◌+◌, ◌≡◌, ◌↔◌, refl, sym, ap, ◌∙◌, String, true, false, Option, none, some, List, [], ◌∷◌, map,
  arith, All, All-imp, if◌then◌else◌, eq_iff, Option-cases, Bool-cases, inl, inr,
}
use corporate_actions.Prelude.Text.{given}
use corporate_actions.Model.{Action}
use corporate_actions.Validate.Unique.{occurs, Distinct}
use corporate_actions.Registry.{
  Entry, Item, object, no_object, LoadError, duplicate_action_id, Loaded, ok, err, lookup, insert,
  from_dict, has_identifier, identified, put_action, check_items, Registry, of_entries, registry_of,
  load, by_action_id,
}
use corporate_actions.Registry.Lookup.{
  lookup-insert, holds, find_last, by_action_id-find_last, of_entries-actions,
}

module _ {N : Type 0} where
  -- the ids that are given, as the pass reads them
  abbrev pub given_ids : List (Action N) → List (Option String)
  given_ids [] = []
  given_ids (a ∷ rest) = given a.action_id ∷ given_ids rest

-- no given id is among those seen
abbrev Unseen : List (String × ℕ) → List (Option String) → Type 0
Unseen seen [] = Unit
Unseen seen (none ∷ ids) = Unseen seen ids
Unseen seen (some i ∷ ids) = (lookup i seen ≡ none) × Unseen seen ids

Unseen-insert :
    (i : String) (n : ℕ) (seen : List (String × ℕ)) (ids : List (Option String))
    → Unseen (insert i n seen) ids ↔ (Unseen seen ids × (occurs i ids ≡ false))
Unseen-insert i n seen [] = ground arith
Unseen-insert i n seen (none ∷ ids) = Unseen-insert i n seen ids
Unseen-insert i n seen (some j ∷ ids) =
    ground (arith, Unseen-insert i n seen ids, lookup-insert i j n seen, eq_iff i j)

Unseen-nil : (ids : List (Option String)) → Unseen [] ids
unfolding lookup
Unseen-nil [] = tt
Unseen-nil (none ∷ ids) = Unseen-nil ids
Unseen-nil (some i ∷ ids) = (refl, Unseen-nil ids)

module _ {N : Type 0} where
  -- every action has an ISIN or an id
  abbrev pub AllIdentified : List (Action N) → Type 0
  AllIdentified = All (λ a. has_identifier a ≡ true)

  -- what an accepted array is: objects only, each with an identifier, no given id twice
  record IsAccepted (seen : List (String × ℕ)) (items : List (Item N)) (actions : List (Action N))
      : Type 0 where
    objects : items ≡ map object actions
    identifiers : AllIdentified actions
    distinct : Distinct (given_ids actions)
    unseen : Unseen seen (given_ids actions)

  ok_inj : {xs ys : List (Action N)} → ◌≡◌ {A = Loaded (List (Action N))} (ok xs) (ok ys) → xs ≡ ys
  ok_inj h = cc

  identified-ok :
      (i : ℕ) (a : Action N) (r : Loaded (List (Action N))) (actions : List (Action N))
      → identified i a (put_action a r) ≡ ok actions
      → (has_identifier a ≡ true)
        × ((rest : List (Action N)) × (r ≡ ok rest) × (actions ≡ a ∷ rest))
  identified-ok i a (ok rest) actions h = elim (Bool-cases (has_identifier a)) [
    | inl e ↦ (e, (rest, refl, ground arith))
    | inr e ↦ ground arith
  ]
  identified-ok i a (err x) actions h = ground arith

  check_items-unnamed :
      (i : ℕ) (seen : List (String × ℕ)) (a : Action N) (items : List (Item N))
      → given a.action_id ≡ none
      → check_items i seen (object a ∷ items)
        ≡ identified i a (put_action a (check_items (i + 1) seen items))
  unfolding check_items
  check_items-unnamed i seen a items e = ground arith

  check_items-fresh :
      (i : ℕ) (seen : List (String × ℕ)) (a : Action N) (items : List (Item N)) (aid : String)
      → given a.action_id ≡ some aid
      → lookup aid seen ≡ none
      → check_items i seen (object a ∷ items)
        ≡ identified i a (put_action a (check_items (i + 1) (insert aid i seen) items))
  unfolding check_items
  check_items-fresh i seen a items aid e f = ground arith

  check_items-again :
      (i : ℕ) (seen : List (String × ℕ)) (a : Action N) (items : List (Item N)) (aid : String)
      (first : ℕ)
      → given a.action_id ≡ some aid
      → lookup aid seen ≡ some first
      → check_items i seen (object a ∷ items) ≡ err (duplicate_action_id i aid first)
  unfolding check_items
  check_items-again i seen a items aid first e f = ground arith

  err≢ok :
      {e : LoadError} {actions : List (Action N)}
      → ◌≡◌ {A = Loaded (List (Action N))} (err e) (ok actions)
      → ⊥
  err≢ok h = cc

  check_items-IsAccepted :
      (i : ℕ) (seen : List (String × ℕ)) (items : List (Item N)) (actions : List (Action N))
      → check_items i seen items ≡ ok actions
      → IsAccepted seen items actions
  unfolding check_items
  check_items-IsAccepted i seen [] actions h =
      rw (← ok_inj h) (record { objects = refl; identifiers = tt; distinct = tt; unseen = tt })
  check_items-IsAccepted i seen (no_object ∷ items) actions h = absurd (err≢ok h)
  check_items-IsAccepted i seen (object a ∷ items) actions h =
      elim (Option-cases (given a.action_id)) [
        | inl e ↦
            let (id, (rest, q, p)) =
              identified-ok i a (check_items (i + 1) seen items) actions
                (sym (check_items-unnamed i seen a items e) ∙ h) in
            let k = check_items-IsAccepted (i + 1) seen items rest q in
            rw p (record {
              objects = ap (λ (t : List (Item N)). object a ∷ t) k.objects;
              identifiers = (id, k.identifiers);
              distinct = rw e k.distinct;
              unseen = rw e k.unseen;
            })
        | inr (aid, e) ↦ elim (Option-cases (lookup aid seen)) [
          | inr (first, f) ↦
              absurd (err≢ok (sym (check_items-again i seen a items aid first e f) ∙ h))
          | inl f ↦
              let (id, (rest, q, p)) =
                identified-ok i a (check_items (i + 1) (insert aid i seen) items) actions
                  (sym (check_items-fresh i seen a items aid e f) ∙ h) in
              let k = check_items-IsAccepted (i + 1) (insert aid i seen) items rest q in
              let (unseen, once) = (Unseen-insert aid i seen (given_ids rest)).0 k.unseen in
              rw p (record {
                objects = ap (λ (t : List (Item N)). object a ∷ t) k.objects;
                identifiers = (id, k.identifiers);
                distinct = rw e (once, k.distinct);
                unseen = rw e (f, unseen);
              })
        ]
      ]

  -- The converse, for an array of objects.
  check_items-accepts :
      (i : ℕ) (seen : List (String × ℕ)) (actions : List (Action N))
      → AllIdentified actions
      → Distinct (given_ids actions)
      → Unseen seen (given_ids actions)
      → check_items i seen (map object actions) ≡ ok actions
  unfolding check_items
  check_items-accepts i seen [] id d u = refl
  check_items-accepts i seen (a ∷ rest) id d u = elim (Option-cases (given a.action_id)) [
    | inl e ↦
        check_items-unnamed i seen a (map object rest) e
        ∙ rw (check_items-accepts (i + 1) seen rest id.1 (rw e at d) (rw e at u), id.0)
    | inr (aid, e) ↦
        let d' : (occurs aid (given_ids rest) ≡ false) × Distinct (given_ids rest) = rw e at d in
        let u' : (lookup aid seen ≡ none) × Unseen seen (given_ids rest) = rw e at u in
        check_items-fresh i seen a (map object rest) aid e u'.0
        ∙ rw (
          check_items-accepts (i + 1) (insert aid i seen) rest id.1 d'.1
              ((Unseen-insert aid i seen (given_ids rest)).1 (u'.1, d'.0)),
          id.0,
        )
  ]

  -- The structural pass accepts an array, as the list of its actions, exactly when all of its
  -- elements are objects, every one has an ISIN or an id, and no given id stands twice.
  pub check_items-ok_iff :
      (items : List (Item N)) (actions : List (Action N))
      → (check_items 0 [] items ≡ ok actions)
        ↔ ((items ≡ map object actions) × AllIdentified actions × Distinct (given_ids actions))
  check_items-ok_iff items actions = (
    λ h.
        let k = check_items-IsAccepted 0 [] items actions h in
        (k.objects, k.identifiers, k.distinct),
    λ (o, id, d). rw o (check_items-accepts 0 [] actions id d (Unseen-nil (given_ids actions))),
  )

  -- the entry is what the lookup of its own id finds
  abbrev pub FindsItself : (String → Option (Entry N)) → Entry N → Type 0
  FindsItself find e = elim (given e.action_id) [ none ↦ Unit {0} | some id ↦ find id ≡ some e ]

  find_last-absent :
      (k : String) (rest : List (Action N)) (found : Option (Entry N))
      → occurs k (given_ids rest) ≡ false
      → find_last k (map from_dict rest) found ≡ found
  unfolding from_dict
  find_last-absent k [] found h = refl
  find_last-absent k (a ∷ rest) found h = elim (Option-cases (given a.action_id)) [
    | inl e ↦ ground (arith, find_last-absent k rest found)
    | inr (j, e) ↦ ground (arith, find_last-absent k rest found, eq_iff j k, eq_iff k j)
  ]

  -- the search of a list finds the entry, whatever the search was begun with
  abbrev FoundIn : List (Entry N) → Entry N → Type 0
  FoundIn entries e =
      (found : String → Option (Entry N)) → FindsItself (λ id. find_last id entries (found id)) e

  FoundIn-head :
      (a : Action N) (rest : List (Action N))
      → Distinct (given_ids (a ∷ rest))
      → FoundIn (map from_dict (a ∷ rest)) (from_dict a)
  unfolding from_dict
  FoundIn-head a rest d found = elim (Option-cases (given a.action_id)) [
    | inl e ↦ rw (e, FindsItself) tt
    | inr (j, e) ↦
        let d' : (occurs j (given_ids rest) ≡ false) × Distinct (given_ids rest) = rw e at d in
        rw (e, FindsItself)
          (ground (arith, e, eq_iff j j, find_last-absent j rest (some (from_dict a)), d'.0))
  ]

  Distinct-tail :
      (a : Action N) (rest : List (Action N))
      → Distinct (given_ids (a ∷ rest))
      → Distinct (given_ids rest)
  Distinct-tail a rest d = elim (Option-cases (given a.action_id)) [
    | inl e ↦ rw e at d
    | inr (j, e) ↦
        let d' : (occurs j (given_ids rest) ≡ false) × Distinct (given_ids rest) = rw e at d in d'.1
  ]

  All-FoundIn :
      (actions : List (Action N))
      → Distinct (given_ids actions)
      → All (FoundIn (map from_dict actions)) (map from_dict actions)
  All-FoundIn [] d = tt
  All-FoundIn (a ∷ rest) d = (
    FoundIn-head a rest d,
    All-imp (FoundIn (map from_dict rest)) (FoundIn (map from_dict (a ∷ rest)))
        (λ e p found.
          p (λ id. if holds id (from_dict a).action_id then some (from_dict a) else found id))
        (map from_dict rest) (All-FoundIn rest (Distinct-tail a rest d)),
  )

  load-actions :
      (items : List (Item N)) (r : Registry N)
      → load items ≡ ok r
      → (actions : List (Action N)) × (check_items 0 [] items ≡ ok actions)
        × (r ≡ of_entries (map from_dict actions))
  unfolding load
  load-actions items r h = go (check_items 0 [] items) refl h
    where
      go :
          (checked : Loaded (List (Action N)))
          → check_items 0 [] items ≡ checked
          → registry_of checked ≡ ok r
          → (actions : List (Action N)) × (check_items 0 [] items ≡ ok actions)
            × (r ≡ of_entries (map from_dict actions))
      go (ok actions) e k = (actions, e, ground arith)
      go (err x) e k = ground arith

  -- In a registry that was loaded, every action with an id is the one that `by_action_id` returns
  -- for that id.
  pub by_action_id-load :
      (items : List (Item N)) (r : Registry N)
      → load items ≡ ok r
      → All (FindsItself (by_action_id r)) r.actions
  unfolding of_entries
  by_action_id-load items r h =
      let (actions, c, e) = load-actions items r h in
      let (_, _, d) = (check_items-ok_iff items actions).0 c in
      rw e (
        rw (of_entries-actions (map from_dict actions)) (
          All-imp (FoundIn (map from_dict actions))
            (FindsItself (by_action_id (of_entries (map from_dict actions))))
            (λ x p. rw (fun_ext (by_action_id-find_last (map from_dict actions))) (p (λ _. none)))
            (map from_dict actions) (All-FoundIn actions d)))
