-- ===== src/Impacts/Write.antt =====
-- The run of tools/derive_impacts.py writes all impacts or nothing, and only derived
-- ones.
use corporate_actions.Prelude.{
  ◌≡◌, refl, sym, ◌∙◌, Bool, true, false, Option, none, some, List, [], ◌∷◌, arith, Option-cases,
  inl, inr, none≢some, any, All,
}
use corporate_actions.Floats.{Floats}
use corporate_actions.Model.{Impact, Action}
use corporate_actions.Impacts.{
  impact_of_type, derive_impact, put_impact, compute_impacts, apply_impacts, Flags, finish,
  derive_impacts,
}

module _ (F : Floats) where
  open F use {Num}

  -- the impact that an action holds is not read
  derive_impact-impact :
      (a : Action Num) (o : Option (Impact Num))
      → derive_impact F (record a { impact = o }) ≡ derive_impact F a
  unfolding derive_impact impact_of_type
  derive_impact-impact a o = refl

  pub compute_impacts-apply :
      (actions : List (Action Num)) (computed : List (Impact Num))
      → compute_impacts F actions ≡ some computed
      → compute_impacts F (apply_impacts F actions computed) ≡ some computed
  unfolding compute_impacts apply_impacts
  compute_impacts-apply [] computed h = h
  compute_impacts-apply (a ∷ rest) [] h = h
  compute_impacts-apply (a ∷ rest) (i ∷ computed) h =
      rw (derive_impact-impact a (some i)) (ground (arith, compute_impacts-apply rest computed))

  pub apply_impacts-apply :
      (actions : List (Action Num)) (computed : List (Impact Num))
      → apply_impacts F (apply_impacts F actions computed) computed
        ≡ apply_impacts F actions computed
  unfolding apply_impacts
  apply_impacts-apply [] computed = refl
  apply_impacts-apply (a ∷ rest) [] = refl
  apply_impacts-apply (a ∷ rest) (i ∷ computed) = rw (apply_impacts-apply rest computed)

  abbrev pub fails : Action Num → Bool
  fails a = elim (derive_impact F a) [ none ↦ true | some _ ↦ false ]

  abbrev pub writing : Flags
  writing = record { check = false; dry_run = false }

  abbrev pub checking : Flags
  checking = record { check = true; dry_run = false }

  compute_impacts-fails :
      (actions : List (Action Num)) → any fails actions ≡ true → compute_impacts F actions ≡ none
  unfolding compute_impacts
  compute_impacts-fails [] h = cc
  compute_impacts-fails (a ∷ rest) h = elim (Option-cases (derive_impact F a)) [
    | inl e ↦ ground arith
    | inr (i, e) ↦ ground (arith, compute_impacts-fails rest)
  ]

  -- One action without an impact stops the run: code 1, and nothing is written, whatever the flags.
  pub derive_impacts-all_or_nothing :
      (flags : Flags) (can_write : Bool) (actions : List (Action Num))
      → any fails actions ≡ true
      → derive_impacts F flags can_write actions ≡ record { code = 1; written = none }
  unfolding derive_impacts
  derive_impacts-all_or_nothing flags can_write actions h =
      ground (arith, compute_impacts-fails actions h)

  pub derive_impacts-computed :
      (flags : Flags) (can_write : Bool) (actions : List (Action Num))
      (computed : List (Impact Num))
      → compute_impacts F actions ≡ some computed
      → derive_impacts F flags can_write actions ≡ finish F flags can_write actions computed
  unfolding derive_impacts
  derive_impacts-computed flags can_write actions computed h = ground arith

  derive_impacts-stopped :
      (flags : Flags) (can_write : Bool) (actions : List (Action Num))
      → compute_impacts F actions ≡ none
      → (derive_impacts F flags can_write actions).written ≡ none
  unfolding derive_impacts
  derive_impacts-stopped flags can_write actions h = ground arith

  finish-written :
      (flags : Flags) (can_write : Bool) (actions out : List (Action Num))
      (computed : List (Impact Num))
      → (finish F flags can_write actions computed).written ≡ some out
      → out ≡ apply_impacts F actions computed
  unfolding finish
  finish-written flags can_write actions out computed h = ground arith

  -- Only the computed impacts are ever written.
  pub derive_impacts-written :
      (flags : Flags) (can_write : Bool) (actions out : List (Action Num))
      → (derive_impacts F flags can_write actions).written ≡ some out
      → (computed : List (Impact Num)) × (compute_impacts F actions ≡ some computed)
        × (out ≡ apply_impacts F actions computed)
  derive_impacts-written flags can_write actions out h =
      elim (Option-cases (compute_impacts F actions)) [
        | inl e ↦ absurd (none≢some (sym (derive_impacts-stopped flags can_write actions e) ∙ h))
        | inr (computed, e) ↦ (
          computed,
          e,
          finish-written flags can_write actions out computed
              (rw (derive_impacts-computed flags can_write actions computed e) at h),
        )
      ]

  put_impact-cons :
      (x : Option (Impact Num)) (y : Option (List (Impact Num))) → put_impact F x y ≡ some [] → ⊥
  put_impact-cons none y h = cc
  put_impact-cons (some i) none h = cc
  put_impact-cons (some i) (some is) h = ground arith

  pub put_impact_parts :
      (x : Option (Impact Num)) (y : Option (List (Impact Num))) {i : Impact Num}
      {is : List (Impact Num)}
      → put_impact F x y ≡ some (i ∷ is)
      → (x ≡ some i) × (y ≡ some is)
  put_impact_parts none y h = ground arith
  put_impact_parts (some i) none h = ground arith
  put_impact_parts (some i) (some is) h = ground arith

  apply_impacts-derived :
      (actions : List (Action Num)) (computed : List (Impact Num))
      → compute_impacts F actions ≡ some computed
      → All (λ a. derive_impact F a ≡ a.impact) (apply_impacts F actions computed)
  unfolding compute_impacts apply_impacts
  apply_impacts-derived [] computed h = tt
  apply_impacts-derived (a ∷ rest) [] h =
      absurd (put_impact-cons (derive_impact F a) (compute_impacts F rest) h)
  apply_impacts-derived (a ∷ rest) (i ∷ computed) h = (
    derive_impact-impact a (some i)
        ∙ (put_impact_parts (derive_impact F a) (compute_impacts F rest) h).0,
    apply_impacts-derived rest computed
        (put_impact_parts (derive_impact F a) (compute_impacts F rest) h).1,
  )

  -- Whatever a run writes, each action in it holds the impact that is derived from it.
  pub written_is_derived :
      (flags : Flags) (can_write : Bool) (actions out : List (Action Num))
      → (derive_impacts F flags can_write actions).written ≡ some out
      → All (λ a. derive_impact F a ≡ a.impact) out
  written_is_derived flags can_write actions out h =
      let (computed, e, q) = derive_impacts-written flags can_write actions out h in
      rw q (apply_impacts-derived actions computed e)
