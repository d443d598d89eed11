-- ===== src/Redistribution/Run/Agrees.antt =====
-- The tool and the validator's redistribution layer agree.
use corporate_actions.Prelude.{
  ◌≡◌, ◌↔◌, refl, ap, String, Bool, true, false, none, some, List, [], ◌∷◌, any, arith, All, ◌==◌,
  eq_iff, Option-cases, Bool-cases, inl, inr, Option, map, ◌∙◌, ◌≢◌, some_inj, none≢some,
}
use corporate_actions.Model.{Action, provenance_or_empty}
use corporate_actions.Redistribution.{Category, category_text, redistribution_for, extract_source}
use corporate_actions.Redistribution.Run.{
  Flags, computed, is_restricted, is_stale, set_redistribution, set_all, Run, all_objects, process,
  derive_redistribution,
}
use corporate_actions.Validate.References.{validate_redistribution}

abbrev pub checking : Flags
checking = record { check = true; dry_run = false }

abbrev pub writing : Flags
writing = record { check = false; dry_run = false }

module _ {N : Type 0} where
  -- the source that the layer reads is the one that the tool reads
  source-extract :
      (a : Action N)
      → category_text (redistribution_for (provenance_or_empty a.provenance).source) ≡ computed a
  unfolding computed extract_source
  source-extract a = elim (Option-cases a.provenance) [
    | inl e ↦ rw (e, extract_source) refl
    | inr (p, e) ↦ rw (e, extract_source) refl
  ]

  computed-nonempty : (a : Action N) → (computed a == "") ≡ false
  unfolding computed category_text
  computed-nonempty a = go (redistribution_for (extract_source a))
    where
      go : (c : Category) → (category_text c == "") ≡ false
      go Category.public_domain = refl
      go Category.facts_only = refl
      go Category.secondary_source = refl
      go Category.restricted = refl

  -- The layer finds nothing exactly when the action's value is the computed one, and that one is
  -- not "restricted".
  validate_redistribution-nil :
      (a : Action N)
      → (validate_redistribution a ≡ []) ↔ ((is_restricted a ≡ false) × (is_stale a ≡ false))
  unfolding validate_redistribution is_stale
  validate_redistribution-nil a = elim (Option-cases a.redistribution) [
    | inl e ↦ ground (arith, e)
    | inr (v, e) ↦ ground (
      arith,
      e,
      source-extract a,
      computed-nonempty a,
      eq_iff v "restricted",
      eq_iff v (computed a),
      eq_iff v "",
    )
  ]

  All-nil :
      (actions : List (Action N))
      → All (λ a. validate_redistribution a ≡ []) actions
        ↔ ((any is_restricted actions ≡ false) × (any is_stale actions ≡ false))
  All-nil [] = ground arith
  All-nil (a ∷ rest) = ground (arith, validate_redistribution-nil a, All-nil rest)

  -- the elements are those actions
  abbrev pub AreActions : List (Option (Action N)) → List (Action N) → Type 0
  AreActions items actions = items ≡ map some actions

  all_objects-some :
      (items : List (Option (Action N))) (actions : List (Action N))
      → all_objects items ≡ some actions
      → AreActions items actions
  unfolding all_objects
  all_objects-some [] actions h = let e : [] ≡ actions = some_inj h in rw (← e) refl
  all_objects-some (none ∷ rest) actions h = absurd (none≢some h)
  all_objects-some (some a ∷ rest) actions h = elim (Option-cases (all_objects rest)) [
    | inl e ↦ absurd (none≢some (rw (e, all_objects) at h))
    | inr (others, e) ↦
        let same : a ∷ others ≡ actions = some_inj (rw (e, all_objects) at h) in
        rw (← same)
          (ap (λ (xs : List (Option (Action N))). some a ∷ xs) (all_objects-some rest others e))
  ]

  all_objects-map : (actions : List (Action N)) → all_objects (map some actions) ≡ some actions
  unfolding all_objects
  all_objects-map [] = refl
  all_objects-map (a ∷ rest) = rw (all_objects-map rest, all_objects) refl

  derive-actions :
      (flags : Flags) (can_write : Bool) (items : List (Option (Action N)))
      (actions : List (Action N))
      → AreActions items actions
      → derive_redistribution flags can_write items ≡ process flags can_write actions
  unfolding derive_redistribution
  derive-actions flags can_write items actions h =
      rw (h, derive_redistribution) (rw (all_objects-map actions, derive_redistribution) refl)

  -- A run that exits with 0 has read objects only.
  derive-objects :
      (flags : Flags) (can_write : Bool) (items : List (Option (Action N)))
      → (derive_redistribution flags can_write items).code ≡ 0
      → (actions : List (Action N)) × AreActions items actions
  unfolding derive_redistribution
  derive-objects flags can_write items h = elim (Option-cases (all_objects items)) [
    | inl e ↦ absurd (ground (arith, h, e))
    | inr (actions, e) ↦ (actions, all_objects-some items actions e)
  ]

  process-check :
      (can_write : Bool) (actions : List (Action N))
      → ((process checking can_write actions).code ≡ 0)
        ↔ ((actions ≢ []) × All (λ b. validate_redistribution b ≡ []) actions)
  unfolding process
  process-check can_write [] = ground arith
  process-check can_write (a ∷ rest) = ground (arith, All-nil (a ∷ rest))

  -- `--check` exits with 0 exactly when the list is not empty, all its elements are objects, and the
  -- validator's redistribution layer finds nothing in any of these actions.
  pub check-agrees :
      (can_write : Bool) (items : List (Option (Action N)))
      → ((derive_redistribution checking can_write items).code ≡ 0) ↔ (
          (actions : List (Action N)) × AreActions items actions
          × (actions ≢ [])
          × All (λ b. validate_redistribution b ≡ []) actions)
  check-agrees can_write items = (
    λ h.
        let (actions, e) = derive-objects checking can_write items h in
        let (full, clean) =
          (process-check can_write actions).0
            (rw (derive-actions checking can_write items actions e) at h) in
        (actions, e, full, clean),
    λ (actions, e, full, clean).
        ap (λ (r : Run N). r.code) (derive-actions checking can_write items actions e)
        ∙ (process-check can_write actions).1 (full, clean),
  )

  -- the list on the disk after a run
  abbrev pub on_disk : Run N → List (Action N) → List (Action N)
  on_disk r actions = elim r.written [ none ↦ actions | some out ↦ out ]

  computed-set : (a : Action N) → computed (set_redistribution a) ≡ computed a
  unfolding set_redistribution computed extract_source
  computed-set a = elim (Bool-cases (is_stale a)) [ inl e ↦ rw e refl | inr e ↦ rw e refl ]

  stale-set : (a : Action N) → is_stale (set_redistribution a) ≡ false
  unfolding set_redistribution is_stale computed extract_source
  stale-set a = elim (Bool-cases (is_stale a)) [ inl e ↦ rw e (fresh a) | inr e ↦ rw e e ]
    where
      fresh : (b : Action N) → is_stale (record b { redistribution = some (computed b) }) ≡ false
      fresh b = ground (arith, (eq_iff (computed b) (computed b)).1 refl)

  set_all-clean :
      (actions : List (Action N))
      → any is_restricted actions ≡ false
      → (any is_restricted (set_all actions) ≡ false) × (any is_stale (set_all actions) ≡ false)
  unfolding set_all
  set_all-clean [] h = (refl, refl)
  set_all-clean (a ∷ rest) h = ground (
    arith,
    set_all-clean rest,
    stale-set a,
    ap (λ (v : String). v == "restricted") (computed-set a),
  )

  process-write :
      (can_write : Bool) (actions : List (Action N))
      → (process writing can_write actions).code ≡ 0
      → All
          (λ b. validate_redistribution b ≡ [])
          (on_disk (process writing can_write actions) actions)
  unfolding process
  process-write can_write [] h = ground arith
  process-write can_write (a ∷ rest) h = elim (Bool-cases (any is_restricted (a ∷ rest))) [
    | inl e ↦ ground arith
    | inr e ↦ elim (Bool-cases (any is_stale (a ∷ rest))) [
      | inr f ↦ rw (e, f) ((All-nil (a ∷ rest)).1 (e, f))
      | inl f ↦ elim (Bool-cases can_write) [
        | inl w ↦ rw (e, f, w) ((All-nil (set_all (a ∷ rest))).1 (set_all-clean (a ∷ rest) e))
        | inr w ↦ ground arith
      ]
    ]
  ]

  -- A run without flags that exits with 0 has read objects only, and leaves a list on the disk in
  -- which the validator's redistribution layer finds nothing.
  pub write-agrees :
      (can_write : Bool) (items : List (Option (Action N)))
      → (derive_redistribution writing can_write items).code ≡ 0
      → (actions : List (Action N)) × AreActions items actions
        × All
            (λ b. validate_redistribution b ≡ [])
            (on_disk (derive_redistribution writing can_write items) actions)
  write-agrees can_write items h =
      let (actions, e) = derive-objects writing can_write items h in
      let same = derive-actions writing can_write items actions e in
      (actions, e, rw same (process-write can_write actions (rw same at h)))

  -- One action whose source has no rule stops the run: code 1, and nothing is written.
  pub restricted_stops :
      (flags : Flags) (can_write : Bool) (actions : List (Action N))
      → any is_restricted actions ≡ true
      → process flags can_write actions ≡ record { code = 1; written = none }
  unfolding process
  restricted_stops flags can_write [] h = ground arith
  restricted_stops flags can_write (a ∷ rest) h = ground arith
