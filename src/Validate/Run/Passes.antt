-- ===== src/Validate/Run/Passes.antt =====
-- The validator exits with 0 exactly when every layer passes.
use corporate_actions.Prelude.{
  inl, inr, ℕ, ◌≤◌, ◌≡◌, refl, sym, ap, ◌∙◌, ◌↔◌, Bool, true, false, some, List, [], ◌∷◌, ◌++◌, map,
  report, length, ltb, arith, All, append-nil_iff, Option-cases, some_inj, none≢some,
}
use corporate_actions.Floats.{Floats}
use corporate_actions.Model.{Action}
use corporate_actions.Validate.Temporal.{validate_temporal}
use corporate_actions.Validate.Arithmetic.{ArithmeticError, validate_arithmetic}
use corporate_actions.Validate.ActionId.{validate_action_id_format}
use corporate_actions.Validate.References.{
  ReferenceError, Registries, validate_cross_reference, validate_provenance,
  validate_redistribution,
}
use corporate_actions.Validate.Unique.{
  Distinct, ids_of, validate_uniqueness, validate_uniqueness-nil_iff,
}
use corporate_actions.Validate.Semantic.{validate_semantic_uniqueness}
use corporate_actions.Validate.Semantic.Groups.{no_twins, validate_semantic_uniqueness-nil_iff}
use corporate_actions.Validate.Run.{
  is_allowed, warnings_after, LayerError, schema, temporal, arithmetic, id_format, reference,
  provenance, redistribution, duplicate_id, duplicate_event, coverage, finished, Setup,
  early_errors, late_errors, validate_each, registry_errors, add_errors, validate_actions,
  exit_code,
}

map-nil_iff {ℓ κ} :
    {A : Type ℓ} {B : Type κ} (f : A → B) (xs : List A) → (map f xs ≡ []) ↔ (xs ≡ [])
map-nil_iff f [] = (λ _. refl, λ _. refl)
map-nil_iff f (x ∷ xs) = ground arith

report-nil_iff {ℓ} : {E : Type ℓ} (b : Bool) (e : E) → (report b e ≡ []) ↔ (b ≡ false)
report-nil_iff true e = ground arith
report-nil_iff false e = ground arith

map-append-nil {ℓ κ} :
    {A : Type ℓ} {B : Type κ} (f : A → B) (xs : List A) (ys : List B)
    → (map f xs ++ ys ≡ []) ↔ ((xs ≡ []) × (ys ≡ []))
map-append-nil f [] ys = ground arith
map-append-nil f (x ∷ xs) ys = ground arith

four_maps-nil :
    {A B C E D : Type 0} (f : A → D) (g : B → D) (h : C → D) (k : E → D) (xs : List A) (ys : List B)
    (zs : List C) (ws : List E)
    → (map f xs ++ (map g ys ++ (map h zs ++ map k ws)) ≡ [])
      ↔ ((xs ≡ []) × (ys ≡ []) × (zs ≡ []) × (ws ≡ []))
four_maps-nil f g h k xs ys zs ws = ground (
  arith,
  map-append-nil f xs (map g ys ++ (map h zs ++ map k ws)),
  map-append-nil g ys (map h zs ++ map k ws),
  map-append-nil h zs (map k ws),
  map-nil_iff k ws,
)

1≢0 : ◌≡◌ {A = ℕ} 1 0 → ⊥
1≢0 h = cc

-- the errors of the cross-reference layer do not depend on the warnings collected before
module _ {N : Type 0} (known : Registries) (strict : Bool) (a : Action N) where
  cross_errors-warnings :
      (w : List ReferenceError)
      → (validate_cross_reference known strict (some w) a).0
        ≡ (validate_cross_reference known strict (some []) a).0
  unfolding validate_cross_reference
  cross_errors-warnings w = ground arith

module _ (F : Floats) (S : Type 0) (s : Setup F S) where
  open F use {Num}

  -- One action passes every layer that looks at it alone.
  pub record IsSound (a : Action Num) : Type 0 where
    pub allowed : is_allowed a.action_type ≡ true
    pub fits_schema : s.schema_errors a ≡ []
    pub timely : validate_temporal a ≡ []
    pub computes : validate_arithmetic F a ≡ some []
    pub identified : validate_action_id_format F a ≡ []
    pub refers : (validate_cross_reference s.known s.strict_isin (some []) a).0 ≡ []
    pub sourced : validate_provenance a ≡ []
    pub redistributed : validate_redistribution a ≡ []

  abbrev Error : Type 0
  Error = LayerError F S

  early_errors-nil :
      (a : Action Num)
      → (early_errors F S s a ≡ []) ↔ (
          (is_allowed a.action_type ≡ true) × (s.schema_errors a ≡ []) × (validate_temporal a ≡ []))
  unfolding early_errors
  early_errors-nil a = ground (
    arith,
    map-nil_iff {B = Error} schema (s.schema_errors a),
    map-nil_iff {B = Error} temporal (validate_temporal a),
    append-nil_iff (map {B = Error} schema (s.schema_errors a))
        (map {B = Error} temporal (validate_temporal a)),
  )

  late_errors-nil :
      (w : List ReferenceError) (a : Action Num)
      → (late_errors F S s w a ≡ []) ↔ (
          (validate_action_id_format F a ≡ [])
          × ((validate_cross_reference s.known s.strict_isin (some []) a).0 ≡ [])
          × (validate_provenance a ≡ [])
          × (validate_redistribution a ≡ []))
  unfolding late_errors
  late_errors-nil w a =
      rw (cross_errors-warnings s.known s.strict_isin a w, late_errors)
        (four_maps-nil {D = Error} id_format reference provenance redistribution
          (validate_action_id_format F a)
          (validate_cross_reference s.known s.strict_isin (some []) a).0 (validate_provenance a)
          (validate_redistribution a))

  registry_errors-nil :
      (actions : List (Action Num))
      → (registry_errors F S s actions ≡ []) ↔ (
          Distinct (ids_of actions)
          × (no_twins F actions ≡ true)
          × (s.min_actions ≤ length actions))
  unfolding registry_errors
  registry_errors-nil actions = ground (
    arith,
    validate_uniqueness-nil_iff actions,
    validate_semantic_uniqueness-nil_iff F actions,
    map-nil_iff {B = Error} duplicate_id (validate_uniqueness actions),
    map-nil_iff {B = Error} duplicate_event (validate_semantic_uniqueness F actions),
    append-nil_iff (map {B = Error} duplicate_id (validate_uniqueness actions)) (
        map {B = Error} duplicate_event (validate_semantic_uniqueness F actions)
        ++ report {A = Error} (ltb (length actions) s.min_actions) (coverage (length actions))),
    append-nil_iff (map {B = Error} duplicate_event (validate_semantic_uniqueness F actions))
        (report {A = Error} (ltb (length actions) s.min_actions) (coverage (length actions))),
  )

  exit_code-zero_iff :
      (errors : List Error) (w : List ReferenceError)
      → (exit_code F S (finished errors w) ≡ 0) ↔ (errors ≡ [])
  unfolding exit_code
  exit_code-zero_iff [] w = ground arith
  exit_code-zero_iff (e ∷ errors) w = ground arith

  IsSound-iff :
      (a : Action Num) (found : List ArithmeticError) (w : List ReferenceError)
      → validate_arithmetic F a ≡ some found
      → (early_errors F S s a ++ (map {B = Error} arithmetic found ++ late_errors F S s w a) ≡ [])
        ↔ IsSound a
  IsSound-iff a found w h = (
    λ e.
        let (early, now, late) = three_parts.0 e in
        let (allowed, fits, timely) = (early_errors-nil a).0 early in
        let (identified, refers, sourced, redistributed) = (late_errors-nil w a).0 late in
        record {
          allowed = allowed;
          fits_schema = fits;
          timely = timely;
          computes = h ∙ ap some now;
          identified = identified;
          refers = refers;
          sourced = sourced;
          redistributed = redistributed;
        },
    λ r. three_parts.1 (
      (early_errors-nil a).1 (r.allowed, r.fits_schema, r.timely),
      some_inj (sym h ∙ r.computes),
      (late_errors-nil w a).1 (r.identified, r.refers, r.sourced, r.redistributed),
    ),
  )
    where
      three_parts :
          (early_errors F S s a ++ (map {B = Error} arithmetic found ++ late_errors F S s w a) ≡ [])
          ↔ ((early_errors F S s a ≡ []) × (found ≡ []) × (late_errors F S s w a ≡ []))
      three_parts = ground (
        arith,
        append-nil_iff (early_errors F S s a)
            (map {B = Error} arithmetic found ++ late_errors F S s w a),
        map-append-nil {B = Error} arithmetic found (late_errors F S s w a),
      )

  exit_code-validate_each :
      (actions : List (Action Num)) (more errors : List Error) (w : List ReferenceError)
      → (exit_code F S (add_errors F S more (validate_each F S s actions errors w)) ≡ 0)
        ↔ ((errors ≡ []) × All IsSound actions × (more ≡ []))
  unfolding validate_each exit_code
  exit_code-validate_each [] more errors w =
      ground (arith, exit_code-zero_iff (errors ++ more) w, append-nil_iff errors more)
  exit_code-validate_each (a ∷ rest) more errors w = elim (Option-cases (validate_arithmetic F a)) [
    | inl e ↦
        rw (e, validate_each)
          (λ h. absurd (1≢0 h), λ r. absurd (none≢some (sym e ∙ r.1.0.computes)))
    | inr (found, e) ↦
        let now =
          early_errors F S s a ++ (map {B = Error} arithmetic found ++ late_errors F S s w a) in
        let ih =
          exit_code-validate_each rest more (errors ++ now)
            (warnings_after (validate_cross_reference s.known s.strict_isin (some w) a).1) in
        let sound = IsSound-iff a found w e in
        let parts = append-nil_iff errors now in
        rw (e, validate_each)
          (
            λ h. let (x, y, z) = ih.0 h in let (p, q) = parts.0 x in (p, (sound.0 q, y), z),
            λ (p, (q, y), z). ih.1 (parts.1 (p, sound.1 q), y, z),
          )
  ]

  -- The validator exits with 0 exactly when every action passes every layer of its own, the given
  -- action_ids are distinct, no action describes the event of a later one, and there are as many
  -- actions as required.
  pub exit_code-validate_actions :
      (actions : List (Action Num))
      → (exit_code F S (validate_actions F S s actions) ≡ 0) ↔ (
          All IsSound actions
          × Distinct (ids_of actions)
          × (no_twins F actions ≡ true)
          × (s.min_actions ≤ length actions))
  unfolding validate_actions
  exit_code-validate_actions actions =
      let all = exit_code-validate_each actions (registry_errors F S s actions) [] [] in
      let whole = registry_errors-nil actions in
      (
        λ h.
            let (_, sound, r) = all.0 h in
            let (ids, events, size) = whole.0 r in (sound, ids, events, size),
        λ (sound, ids, events, size). all.1 (refl, sound, whole.1 (ids, events, size)),
      )
