-- ===== src/Impacts/Stable.antt =====
-- What a run of tools/derive_impacts.py has written passes its own check.
use corporate_actions.Prelude.{
  ◌≡◌, refl, ◌∙◌, Bool, true, false, Option, none, some, List, [], ◌∷◌, arith, Option-cases, inl,
  inr, none≢some, some_inj, All, ℕ, String, ◌&&◌, if◌then◌else◌,
}
use corporate_actions.Prelude.Int.{ℤ, pos}
use corporate_actions.Prelude.Text.{given}
use corporate_actions.Floats.{Floats}
use corporate_actions.Model.{Impact, Action, float_value}
use corporate_actions.Ratio.{parse_ratio}
use corporate_actions.Validate.Temporal.{is_split, is_dividend}
use corporate_actions.Impacts.{
  neutral, is_neutral, split_impact, cash_impact, impact_of_type, derive_impact, compute_impacts,
  same_number, in_step, apply_impacts, Flags, finish, derive_impacts,
}
use corporate_actions.Impacts.Write.{
  writing, checking, compute_impacts-apply, apply_impacts-apply, derive_impacts-computed,
  derive_impacts-written, put_impact_parts,
}

module _ (F : Floats) where
  open F use {Num, eq, of_int, quot}

  -- the amount of the action equals itself, as all numbers but NaN do
  abbrev pub is_comparable : Action Num → Bool
  is_comparable a = elim a.amount [
    | none ↦ true
    | some v ↦ elim (float_value F v) [ none ↦ true | some x ↦ eq x x ]
  ]

  -- all numbers of the impact equal themselves
  abbrev steady : Impact Num → Bool
  steady i =
      same_number F i.price_multiplier i.price_multiplier
      && same_number F i.share_multiplier i.share_multiplier
      && same_number F i.cash_adjustment i.cash_adjustment

  in_step-apply :
      (actions : List (Action Num)) (computed : List (Impact Num))
      → All (λ i. steady i ≡ true) computed
      → in_step F (apply_impacts F actions computed) computed ≡ true
  unfolding in_step apply_impacts
  in_step-apply [] computed s = refl
  in_step-apply (a ∷ rest) [] s = refl
  in_step-apply (a ∷ rest) (i ∷ computed) s = ground (arith, in_step-apply rest computed s.1, s.0)

  -- The numbers that come from integers, and their quotients, are never NaN.
  pub record Integral : Type 0 where
    pub of_int_refl : (n : ℤ) → eq (of_int n) (of_int n) ≡ true
    pub quot_refl : (n d : ℤ) → eq (quot n d) (quot n d) ≡ true

  module _ (laws : Integral) where
    split_impact-steady :
        (o : Option (ℕ × ℕ)) (i : Impact Num) → split_impact F o ≡ some i → steady i ≡ true
    unfolding split_impact
    split_impact-steady none i h = absurd (none≢some h)
    split_impact-steady (some (new, old)) i h =
        (ground (
          arith,
          laws.of_int_refl (pos 0),
          laws.quot_refl (pos old) (pos new),
          laws.quot_refl (pos new) (pos old),
        ))

    cash_impact-steady :
        (a : Action Num) (i : Impact Num)
        → is_comparable a ≡ true
        → cash_impact F a.amount ≡ some i
        → steady i ≡ true
    unfolding cash_impact
    cash_impact-steady a i c h = ground (arith, laws.of_int_refl (pos 1))

    impact_of_type-steady :
        (t : String) (a : Action Num) (i : Impact Num)
        → is_comparable a ≡ true
        → impact_of_type F t a ≡ some i
        → steady i ≡ true
    unfolding impact_of_type
    impact_of_type-steady t a i c h =
        go (is_split t) (is_dividend t) (is_neutral t) (split_impact F (parse_ratio a.ratio))
          (split_impact-steady (parse_ratio a.ratio) i) (cash_impact F a.amount)
          (cash_impact-steady a i c) h
      where
        go :
            (s d n : Bool) (x : Option (Impact Num))
            → (x ≡ some i → steady i ≡ true)
            → (y : Option (Impact Num)) → (y ≡ some i → steady i ≡ true)
            → (if s then x else if d then y else if n then some (neutral F) else none) ≡ some i
            → steady i ≡ true
        go true d n x p y q k = p k
        go false true n x p y q k = q k
        go false false false x p y q k = absurd (none≢some k)
        go false false true x p y q k =
            let e : neutral F ≡ i = some_inj k in
            rw (← e) (ground (arith, laws.of_int_refl (pos 1), laws.of_int_refl (pos 0)))

    derive_impact-steady :
        (a : Action Num) (i : Impact Num)
        → is_comparable a ≡ true
        → derive_impact F a ≡ some i
        → steady i ≡ true
    unfolding derive_impact
    derive_impact-steady a i c h = elim (Option-cases (given a.action_type)) [
      | inl e ↦ absurd (none≢some (rw (e, derive_impact) at h))
      | inr (t, e) ↦ impact_of_type-steady t a i c (rw (e, derive_impact) at h)
    ]

    compute_impacts-steady :
        (actions : List (Action Num)) (computed : List (Impact Num))
        → All (λ a. is_comparable a ≡ true) actions
        → compute_impacts F actions ≡ some computed
        → All (λ i. steady i ≡ true) computed
    unfolding compute_impacts
    compute_impacts-steady [] computed c h = rw (← some_inj h) tt
    compute_impacts-steady (a ∷ rest) [] c h = tt
    compute_impacts-steady (a ∷ rest) (i ∷ computed) c h =
        let (e, es) = put_impact_parts F (derive_impact F a) (compute_impacts F rest) h in
        (derive_impact-steady a i c.0 e, compute_impacts-steady rest computed c.1 es)

    finish-check :
        (can_write : Bool) (actions : List (Action Num)) (computed : List (Impact Num))
        → All (λ i. steady i ≡ true) computed
        → finish F (checking F) can_write (apply_impacts F actions computed) computed
          ≡ record { code = 0; written = none }
    unfolding finish
    finish-check can_write actions computed s = rw (in_step-apply actions computed s)

    finish-again :
        (actions : List (Action Num)) (computed : List (Impact Num))
        → finish F (writing F) true (apply_impacts F actions computed) computed
          ≡ record { code = 0; written = some (apply_impacts F actions computed) }
    unfolding finish
    finish-again actions computed = rw (apply_impacts-apply F actions computed)

    -- Where the numbers that come from integers equal themselves, and no amount is NaN, that is,
    -- each equals itself as a number: what a run has written passes `--check`, and a second run that
    -- can write writes the same.
    pub written_is_stable :
        (flags : Flags) (can_write can_write' : Bool) (actions out : List (Action Num))
        → All (λ a. is_comparable a ≡ true) actions
        → (derive_impacts F flags can_write actions).written ≡ some out
        → (derive_impacts F (checking F) can_write' out ≡ record { code = 0; written = none })
          × (derive_impacts F (writing F) true out ≡ record { code = 0; written = some out })
    written_is_stable flags can_write can_write' actions out c h =
        let (computed, e, q) = derive_impacts-written F flags can_write actions out h in
        let again = compute_impacts-apply F actions computed e in
        let done = apply_impacts F actions computed in
        rw q (
          derive_impacts-computed F (checking F) can_write' done computed again
              ∙ finish-check can_write' actions computed
                  (compute_impacts-steady actions computed c e),
          derive_impacts-computed F (writing F) true done computed again
              ∙ finish-again actions computed,
        )
