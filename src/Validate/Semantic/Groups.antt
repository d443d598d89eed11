-- ===== src/Validate/Semantic/Groups.antt =====
-- The grouping does not matter: the semantic layer finds something exactly when some action of
-- the list describes the event of a later one.
use corporate_actions.Prelude.{
  ◌≡◌, refl, ◌↔◌, String, Bool, true, false, not, ◌&&◌, ◌||◌, none, some, List, [], ◌∷◌, ◌++◌,
  arith, all, eq_iff, if◌then◌else◌, Bool-cases, Option-cases, append-nil_iff, all-append, inl, inr,
}
use corporate_actions.Floats.{Floats}
use corporate_actions.Model.{Action}
use corporate_actions.Validate.Semantic.{
  Key, key_eq, event_key, is_duplicate, Group, add_to_group, file_action, group_actions,
  pair_errors, combination_errors, has_magnitude, group_errors, validate_semantic_uniqueness,
}

key_eq-eq : (k l : Key) → key_eq k l ≡ true → k ≡ l
key_eq-eq (i, f) (j, g) h = ground (arith, eq_iff i j, eq_iff f g)

key_eq_refl : (k : Key) → key_eq k k ≡ true
key_eq_refl (i, f) = ground (arith, eq_iff i i, eq_iff f f)

key_eq_comm : (k l : Key) → key_eq k l ≡ key_eq l k
key_eq_comm (i, f) (j, g) = ground (arith, eq_iff i j, eq_iff j i, eq_iff f g, eq_iff g f)

key_eq_join : (j k l : Key) → key_eq j l ≡ true → key_eq k l ≡ true → key_eq j k ≡ true
key_eq_join j k l p q = rw (key_eq-eq j l p, key_eq-eq k l q) (key_eq_refl l)

module _ (F : Floats) where
  open F use {Num}

  -- the two actions have one key, of a family that is compared, and pass the pair test
  abbrev pub same_event : Action Num → Action Num → Bool
  same_event a b = elim (event_key F a) [
    | none ↦ false
    | some k ↦ elim (event_key F b) [
      | none ↦ false
      | some l ↦ key_eq k l && (has_magnitude F k.1 && is_duplicate F k.1 a b)
    ]
  ]

  -- no action of the list describes the event of a later one
  abbrev pub no_twins : List (Action Num) → Bool
  no_twins [] = true
  no_twins (a ∷ rest) = all (λ b. not (same_event a b)) rest && no_twins rest

  abbrev differs : String → Action Num → Action Num → Bool
  differs fam a b = not (is_duplicate F fam a b)

  abbrev no_pairs : String → List (Action Num) → Bool
  no_pairs fam [] = true
  no_pairs fam (a ∷ rest) = all (differs fam a) rest && no_pairs fam rest

  abbrev is_clean : List (Group F) → Bool
  is_clean [] = true
  is_clean ((k, group) ∷ groups) =
      (not (has_magnitude F k.1) || no_pairs k.1 group) && is_clean groups

  abbrev group_of : Key → List (Group F) → List (Action Num)
  group_of k [] = []
  group_of k ((j, group) ∷ groups) = if key_eq j k then group else group_of k groups

  -- nothing filed so far describes the event of `c`
  abbrev fits_key : Key → Action Num → List (Group F) → Bool
  fits_key k c groups = not (has_magnitude F k.1) || all (λ b. differs k.1 b c) (group_of k groups)

  abbrev fits : Action Num → List (Group F) → Bool
  fits c groups = elim (event_key F c) [ none ↦ true | some k ↦ fits_key k c groups ]

  no_pairs-snoc :
      (fam : String) (a : Action Num) (group : List (Action Num))
      → no_pairs fam (group ++ a ∷ []) ≡ (no_pairs fam group && all (λ b. differs fam b a) group)
  no_pairs-snoc fam a [] = refl
  no_pairs-snoc fam a (b ∷ rest) =
      ground (arith, no_pairs-snoc fam a rest, all-append (differs fam b) rest (a ∷ []))

  is_clean-add :
      (k : Key) (a : Action Num) (groups : List (Group F))
      → is_clean (add_to_group F k a groups) ≡ (is_clean groups && fits_key k a groups)
  unfolding add_to_group
  is_clean-add k a [] = ground arith
  is_clean-add k a ((j, group) ∷ groups) = elim (Bool-cases (key_eq j k)) [
    | inl e ↦ rw (key_eq-eq j k e) (rw (key_eq_refl k) (ground (arith, no_pairs-snoc k.1 a group)))
    | inr e ↦ rw e (ground (arith, is_clean-add k a groups))
  ]

  group_of-add :
      (k l : Key) (a : Action Num) (groups : List (Group F))
      → group_of l (add_to_group F k a groups)
        ≡ (if key_eq k l then group_of l groups ++ a ∷ [] else group_of l groups)
  unfolding add_to_group
  group_of-add k l a [] = ground arith
  group_of-add k l a ((j, group) ∷ groups) = elim (Bool-cases (key_eq j k)) [
    | inl e ↦ rw (key_eq-eq j k e) (rw (key_eq_refl k) (ground arith))
    | inr e ↦ rw e (ground (arith, group_of-add k l a groups, key_eq_join j k l))
  ]

  fits_key-add :
      (k l : Key) (a c : Action Num) (groups : List (Group F))
      → fits_key l c (add_to_group F k a groups) ≡ (
          fits_key l c groups
          && not (key_eq k l && (has_magnitude F k.1 && is_duplicate F k.1 a c)))
  fits_key-add k l a c groups = rw (group_of-add k l a groups) (elim (Bool-cases (key_eq k l)) [
    | inl same ↦ rw (key_eq-eq k l same) (
        rw (key_eq_refl l)
          (ground (arith, all-append (λ b. differs l.1 b c) (group_of l groups) (a ∷ []))))
    | inr other ↦ rw other (ground arith)
  ])

  fits-file :
      (a c : Action Num) (groups : List (Group F))
      → fits c (file_action F a groups) ≡ (fits c groups && not (same_event a c))
  unfolding file_action
  fits-file a c groups = elim (Option-cases (event_key F a)) [
    | inl e ↦ ground arith
    | inr (k, e) ↦ elim (Option-cases (event_key F c)) [
      | inl e' ↦ ground arith
      | inr (l, e') ↦ ground (arith, fits_key-add k l a c groups)
    ]
  ]

  is_clean-file :
      (a : Action Num) (groups : List (Group F))
      → is_clean (file_action F a groups) ≡ (is_clean groups && fits a groups)
  unfolding file_action
  is_clean-file a groups = elim (Option-cases (event_key F a)) [
    | inl e ↦ ground arith
    | inr (k, e) ↦ ground (arith, is_clean-add k a groups)
  ]

  all-fits-file :
      (a : Action Num) (groups : List (Group F)) (rest : List (Action Num))
      → all (λ c. fits c (file_action F a groups)) rest
        ≡ (all (λ c. fits c groups) rest && all (λ c. not (same_event a c)) rest)
  all-fits-file a groups [] = refl
  all-fits-file a groups (c ∷ rest) =
      rw (fits-file a c groups) (ground (arith, all-fits-file a groups rest))

  is_clean-group_actions :
      (groups : List (Group F)) (actions : List (Action Num))
      → is_clean (group_actions F groups actions)
        ≡ (is_clean groups && all (λ c. fits c groups) actions && no_twins actions)
  unfolding group_actions
  is_clean-group_actions groups [] = ground arith
  is_clean-group_actions groups (a ∷ rest) =
      rw (is_clean-group_actions (file_action F a groups) rest)
        (rw (is_clean-file a groups) (rw (all-fits-file a groups rest) (ground arith)))

  all-fits-nil : (actions : List (Action Num)) → all (λ c. fits c []) actions ≡ true
  all-fits-nil [] = refl
  all-fits-nil (c ∷ rest) = ground (arith, all-fits-nil rest)

  pair_errors-nil :
      (k : Key) (a : Action Num) (rest : List (Action Num))
      → (pair_errors F k a rest ≡ []) ↔ (all (differs k.1 a) rest ≡ true)
  unfolding pair_errors
  pair_errors-nil k a [] = ground arith
  pair_errors-nil k a (b ∷ rest) = ground (arith, pair_errors-nil k a rest)

  combination_errors-nil :
      (k : Key) (group : List (Action Num))
      → (combination_errors F k group ≡ []) ↔ (no_pairs k.1 group ≡ true)
  unfolding combination_errors
  combination_errors-nil k [] = ground arith
  combination_errors-nil k (a ∷ rest) = ground (
    arith,
    pair_errors-nil k a rest,
    combination_errors-nil k rest,
    append-nil_iff (pair_errors F k a rest) (combination_errors F k rest),
  )

  group_errors-nil :
      (groups : List (Group F)) → (group_errors F groups ≡ []) ↔ (is_clean groups ≡ true)
  unfolding group_errors
  group_errors-nil [] = ground arith
  group_errors-nil ((k, group) ∷ groups) = ground (
    arith,
    combination_errors-nil k group,
    group_errors-nil groups,
    append-nil_iff (combination_errors F k group) (group_errors F groups),
  )

  -- The semantic layer finds nothing exactly when no action of the list describes the event of a
  -- later one: the same
  -- ISIN and family, which is that of dividends or of splits, dates at most five days apart,
  -- matching values.
  pub validate_semantic_uniqueness-nil_iff :
      (actions : List (Action Num))
      → (validate_semantic_uniqueness F actions ≡ []) ↔ (no_twins actions ≡ true)
  unfolding validate_semantic_uniqueness
  validate_semantic_uniqueness-nil_iff actions = ground (
    arith,
    group_errors-nil (group_actions F [] actions),
    is_clean-group_actions [] actions,
    all-fits-nil actions,
  )
