-- ===== src/Rewrite/Again.antt =====
-- What a run of `rewrite` leaves on the disk.
use corporate_actions.Prelude.{
  ◌≡◌, ◌↔◌, refl, sym, ap, ◌∙◌, String, Bool, true, false, Option, none, some, List, [], ◌∷◌, map,
  arith, All, eq_iff, if◌then◌else◌, Option-cases, Bool-cases, inl, inr, some_inj,
}
use corporate_actions.Floats.{Floats}
use corporate_actions.Model.{Action}
use corporate_actions.Validate.ActionId.{◌>>=◌}
use corporate_actions.Validate.Unique.{
  member, occurs, ids_of, Distinct, Fresh, Fresh-cons, Fresh-nil, validate_uniqueness,
  validate_uniqueness-nil_iff,
}
use corporate_actions.Rewrite.{
  build_canonical_id, discriminator, new_ids, collisions, none_of, changes, any_changes, apply_ids,
  Run, apply_changes, rewrite,
}

member-occurs : (i : String) (ids : List String) → member i ids ≡ occurs i (map some ids)
member-occurs i [] = refl
member-occurs i (j ∷ ids) = ground (arith, member-occurs i ids)

-- No collision is reported exactly when the ids are distinct.
collisions-nil_iff :
    (seen ids : List String)
    → Fresh seen (map some ids)
    → (collisions seen ids ≡ []) ↔ Distinct (map some ids)
unfolding collisions
collisions-nil_iff seen [] f = ground arith
collisions-nil_iff seen (i ∷ ids) f = ground (
  arith,
  member-occurs i ids,
  Fresh-cons i seen (map some ids),
  collisions-nil_iff (i ∷ seen) ids,
)

none_of_iff : (ids : List String) → (none_of ids ≡ true) ↔ (ids ≡ [])
none_of_iff [] = ground arith
none_of_iff (i ∷ ids) = ground arith

module _ (F : Floats) where
  open F use {Num}

  -- the id of an action does not enter its canonical id
  build_canonical_id-id :
      (a : Action Num) (x : Option String)
      → build_canonical_id F (record a { action_id = x }) ≡ build_canonical_id F a
  unfolding build_canonical_id discriminator
  build_canonical_id-id a x = refl

  -- the action after its id is set
  abbrev renamed : Action Num → String → Action Num
  renamed a id = if changes F a id then record a { action_id = some id } else a

  renamed-id : (a : Action Num) (id : String) → (renamed a id).action_id ≡ some id
  renamed-id a id = elim (Option-cases a.action_id) [
    | inl e ↦ ground (arith, e)
    | inr (old, e) ↦ ground (arith, e, eq_iff old id)
  ]

  renamed-canonical :
      (a : Action Num) (id : String)
      → build_canonical_id F a ≡ some id
      → build_canonical_id F (renamed a id) ≡ some id
  renamed-canonical a id h = go (changes F a id)
    where
      go :
          (b : Bool)
          → build_canonical_id F (if b then record a { action_id = some id } else a) ≡ some id
      go true = build_canonical_id-id a (some id) ∙ h
      go false = h

  -- the first pass on a list, by its parts
  new_ids-cons :
      (a : Action Num) (rest : List (Action Num)) (ids : List String)
      → new_ids F (a ∷ rest) ≡ some ids
      → (id : String) × (more : List String) × (ids ≡ id ∷ more)
        × (build_canonical_id F a ≡ some id)
        × (new_ids F rest ≡ some more)
  unfolding new_ids
  new_ids-cons a rest ids h = go (build_canonical_id F a) refl (new_ids F rest) refl h
    where
      go :
          (x : Option String)
          → build_canonical_id F a ≡ x
          → (y : Option (List String)) → new_ids F rest ≡ y
          → (x >>= λ id. y >>= λ more. some (id ∷ more)) ≡ some ids
          → (id : String) × (more : List String) × (ids ≡ id ∷ more)
            × (build_canonical_id F a ≡ some id)
            × (new_ids F rest ≡ some more)
      go none p y q k = ground arith
      go (some id) p none q k = ground arith
      go (some id) p (some more) q k = (id, more, sym (some_inj k), p, q)

  -- what holds of the list once the ids are set
  record IsSettled (actions : List (Action Num)) (ids : List String) : Type 0 where
    computed : new_ids F actions ≡ some ids
    given_ids : ids_of actions ≡ map some ids
    unchanged : any_changes F actions ids ≡ false
    canonical : All (λ a. build_canonical_id F a ≡ a.action_id) actions

  IsSettled-cons :
      (a : Action Num) (rest : List (Action Num)) (id : String) (ids : List String)
      → build_canonical_id F a ≡ some id
      → a.action_id ≡ some id
      → IsSettled rest ids
      → IsSettled (a ∷ rest) (id ∷ ids)
  unfolding new_ids any_changes
  IsSettled-cons a rest id ids e f s = record {
    computed = rw (e, new_ids) (rw s.computed refl);
    given_ids = rw (f, s.given_ids) refl;
    unchanged = rw f (ground (arith, s.unchanged, eq_iff id id));
    canonical = (e ∙ sym f, s.canonical);
  }

  apply_ids-IsSettled :
      (actions : List (Action Num)) (ids : List String)
      → new_ids F actions ≡ some ids
      → IsSettled (apply_ids F actions ids) ids
  unfolding apply_ids new_ids any_changes
  apply_ids-IsSettled [] ids h =
      rw (← some_inj h)
        (record { computed = refl; given_ids = refl; unchanged = refl; canonical = tt })
  apply_ids-IsSettled (a ∷ rest) ids h =
      let (id, more, p, e, r) = new_ids-cons a rest ids h in
      rw p (
        IsSettled-cons (renamed a id) (apply_ids F rest more) id more (renamed-canonical a id e)
          (renamed-id a id) (apply_ids-IsSettled rest more r))

  apply_ids-unchanged :
      (actions : List (Action Num)) (ids : List String)
      → any_changes F actions ids ≡ false
      → apply_ids F actions ids ≡ actions
  unfolding apply_ids any_changes
  apply_ids-unchanged [] ids h = refl
  apply_ids-unchanged (a ∷ rest) [] h = refl
  apply_ids-unchanged (a ∷ rest) (id ∷ ids) h = elim (Bool-cases (changes F a id)) [
    | inl e ↦ ground arith
    | inr e ↦ ground (arith, apply_ids-unchanged rest ids)
  ]

  -- the list on the disk after a run
  abbrev pub left_on_disk : Run F → List (Action Num) → List (Action Num)
  left_on_disk r actions = elim r.written [ none ↦ actions | some out ↦ out ]

  -- What a run that changes the disk, or finds it right, leaves behind.
  abbrev Outcome : List (Action Num) → List (Action Num) → Type 0
  Outcome actions out =
      (ids : List String) × (collisions [] ids ≡ [])
      × (out ≡ apply_ids F actions ids)
      × (new_ids F actions ≡ some ids)

  apply_changes-on_disk :
      (can_back_up can_write : Bool) (actions : List (Action Num)) (ids : List String)
      → (apply_changes F false can_back_up can_write actions ids).code ≡ 0
      → left_on_disk (apply_changes F false can_back_up can_write actions ids) actions
        ≡ apply_ids F actions ids
  unfolding apply_changes
  apply_changes-on_disk true true actions ids h = elim (Bool-cases (any_changes F actions ids)) [
    | inl e ↦ rw (e, apply_changes) refl
    | inr e ↦ rw (e, apply_changes) (sym (apply_ids-unchanged actions ids e))
  ]
  apply_changes-on_disk true false actions ids h = elim (Bool-cases (any_changes F actions ids)) [
    | inl e ↦ ground arith
    | inr e ↦ rw (e, apply_changes) (sym (apply_ids-unchanged actions ids e))
  ]
  apply_changes-on_disk false w actions ids h = elim (Bool-cases (any_changes F actions ids)) [
    | inl e ↦ ground arith
    | inr e ↦ rw (e, apply_changes) (sym (apply_ids-unchanged actions ids e))
  ]

  rewrite-Outcome :
      (can_back_up can_write : Bool) (actions : List (Action Num))
      → (rewrite F false can_back_up can_write actions).code ≡ 0
      → Outcome actions (left_on_disk (rewrite F false can_back_up can_write actions) actions)
  unfolding rewrite
  rewrite-Outcome b w actions h = elim (Option-cases (new_ids F actions)) [
    | inl e ↦ ground arith
    | inr (ids, e) ↦ elim (Bool-cases (none_of (collisions [] ids))) [
      | inr f ↦ ground arith
      | inl f ↦
          let same : rewrite F false b w actions ≡ apply_changes F false b w actions ids =
            rw (e, rewrite) (rw (f, rewrite) refl) in
          (
            ids,
            (none_of_iff (collisions [] ids)).0 f,
            ap (λ (r : Run F). left_on_disk r actions) same
                ∙ apply_changes-on_disk b w actions ids (ap (λ (r : Run F). r.code) (sym same) ∙ h),
            e,
          )
    ]
  ]

  -- A run that is no dry one and exits with 0 leaves a list on the disk in which every action's id
  -- is its canonical one, and in which the validator's uniqueness layer finds nothing.
  pub rewrite-canonical :
      (can_back_up can_write : Bool) (actions : List (Action Num))
      → (rewrite F false can_back_up can_write actions).code ≡ 0
      → All
          (λ a. build_canonical_id F a ≡ a.action_id)
          (left_on_disk (rewrite F false can_back_up can_write actions) actions)
        × (validate_uniqueness
              (left_on_disk (rewrite F false can_back_up can_write actions) actions)
            ≡ [])
  rewrite-canonical b w actions h =
      let (ids, c, o, e) = rewrite-Outcome b w actions h in
      let s = apply_ids-IsSettled actions ids e in
      rw o (
        s.canonical,
        (validate_uniqueness-nil_iff (apply_ids F actions ids)).1
            (rw s.given_ids ((collisions-nil_iff [] ids (Fresh-nil (map some ids))).0 c)),
      )

  -- A second run after a run that is no dry one and exits with 0 is a no-op: it exits with 0 and
  -- writes nothing.
  pub rewrite_again :
      (can_back_up can_write : Bool) (actions : List (Action Num))
      → (rewrite F false can_back_up can_write actions).code ≡ 0
      → rewrite F false can_back_up can_write
          (left_on_disk (rewrite F false can_back_up can_write actions) actions)
        ≡ record { code = 0; written = none }
  unfolding rewrite apply_changes
  rewrite_again b w actions h =
      let (ids, c, o, e) = rewrite-Outcome b w actions h in
      let s = apply_ids-IsSettled actions ids e in
      rw o (
        rw (s.computed, rewrite)
          (rw ((none_of_iff (collisions [] ids)).1 c, rewrite)
            (rw (s.unchanged, apply_changes) refl)))

  -- An action without a canonical id, or two with the same one, stop the run: code 1, and nothing
  -- is written, whatever the flag.
  pub rewrite_refuses :
      (dry_run can_back_up can_write : Bool) (actions : List (Action Num))
      → ((ids : List String) → new_ids F actions ≡ some ids → Distinct (map some ids) → ⊥)
      → rewrite F dry_run can_back_up can_write actions ≡ record { code = 1; written = none }
  unfolding rewrite
  rewrite_refuses d b w actions h = elim (Option-cases (new_ids F actions)) [
    | inl e ↦ rw (e, rewrite) refl
    | inr (ids, e) ↦ elim (Bool-cases (none_of (collisions [] ids))) [
      | inr f ↦ rw (e, rewrite) (rw (f, rewrite) refl)
      | inl f ↦ absurd (
          h ids e (
            (collisions-nil_iff [] ids (Fresh-nil (map some ids))).0
              ((none_of_iff (collisions [] ids)).0 f)))
    ]
  ]
