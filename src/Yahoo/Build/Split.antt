-- ===== src/Yahoo/Build/Split.antt =====
-- A split that is built from a ratio: its ratio, its impact and its id.
use Prim.Native.String.{◌++◌}
use corporate_actions.Prelude.{
  ◌≡◌, refl, sym, ap, ◌∙◌, ℕ, String, true, false, ◌&&◌, ◌||◌, Option, none, some, List, [], ◌∷◌,
  arith, ltb, zero, suc, any, eqb, Bool-cases, inl, inr, some_inj, none≢some,
}
use corporate_actions.Prelude.Int.{ℤ, pos, negsuc}
use corporate_actions.Prelude.Text.{codes, given, codes-append, split}
use corporate_actions.Floats.{Floats}
use corporate_actions.Model.{Action}
use corporate_actions.Ratio.{str, show, two_ints, full_match, both_positive}
use corporate_actions.Ratio.Digits.{
  all_digits, show-all_digits, show-nonempty, value_from-show, int-digits,
}
use corporate_actions.Ratio.Shown.{codes-str}
use corporate_actions.Ratio.Parse.{
  given-nonempty, nonempty-ratio_text, ratio_text, two_ints-ratio_text, parse_ratio-show,
  full_match-ratio_text,
}
use corporate_actions.Impacts.{derive_impact, impact_of_type, split_impact}
use corporate_actions.Validate.ActionId.{◌>>=◌}
use corporate_actions.Validate.Arithmetic.{validate_arithmetic, ratio_errors}
use corporate_actions.Rewrite
use corporate_actions.Rewrite.{
  build_canonical_id, if_canonical, discriminator, ratio_discriminator, before_colon, after_colon,
  isdigit,
}
use corporate_actions.Yahoo.{Target, is_zero}
use corporate_actions.Yahoo.Build.{fraction_text, ratio_to_string, build_split_action, split_action}

-- the text that an f-string writes for a ratio
abbrev pub shown_ratio : ℕ → ℕ → String
shown_ratio num den = str num ++ ":" ++ str den

pub codes-shown_ratio :
    (num den : ℕ) → codes (shown_ratio num den) ≡ ratio_text (show num) (show den)
codes-shown_ratio num den =
    codes-append (str num) (":" ++ str den)
    ∙ rw (codes-str num, codes-append ":" (str den)) (rw (codes-str den) refl)

pub two_ints-shown_ratio :
    (num den : ℕ) → two_ints (split b':' (codes (shown_ratio num den))) ≡ some (pos num, pos den)
two_ints-shown_ratio num den = rw (codes-shown_ratio num den) (
    two_ints-ratio_text (show num) (show den) (show-all_digits num) (show-all_digits den)
      (show-nonempty num) (show-nonempty den)
    ∙ rw (value_from-show num, value_from-show den) refl)

-- What `ratio_to_string` writes is the text of two positive numbers.
pub record IsShown (text : String) : Type 0 where
  pub num : ℕ
  pub den : ℕ
  pub positive : (ltb 0 num && ltb 0 den) ≡ true
  pub shown : text ≡ shown_ratio num den

fraction_text-IsShown :
    (o : Option (ℤ × ℕ)) (text : String)
    → fraction_text o ≡ some text
    → (m : IsShown text) × (o ≡ some (pos m.num, m.den))
unfolding fraction_text
fraction_text-IsShown none text h = cc
fraction_text-IsShown (some (negsuc num, den)) text h = cc
fraction_text-IsShown (some (pos num, den)) text h = elim (Bool-cases (ltb 0 num && ltb 0 den)) [
  | inl e ↦
      (record { num = num; den = den; positive = e; shown = sym (some_inj (rw e at h)) }, refl)
  | inr e ↦ absurd (none≢some (rw e at h))
]

module _ (F : Floats) (limit_denominator : F.Num → Option (ℤ × ℕ)) where
  open F use {Num, of_int, le}

  ratio_to_string-fraction :
      (ratio : Num) (text : String)
      → ratio_to_string F limit_denominator (some ratio) ≡ some text
      → (m : IsShown text) × (limit_denominator ratio ≡ some (pos m.num, m.den))
  unfolding ratio_to_string
  ratio_to_string-fraction ratio text h = elim (Bool-cases (le ratio (of_int (pos 0)))) [
    | inl e ↦ absurd (none≢some (rw e at h))
    | inr e ↦ fraction_text-IsShown (limit_denominator ratio) text (rw e at h)
  ]

  pub ratio_to_string-IsShown :
      (ratio : Num) (text : String)
      → ratio_to_string F limit_denominator (some ratio) ≡ some text
      → IsShown text
  ratio_to_string-IsShown ratio text h = (ratio_to_string-fraction ratio text h).0

pub two_ints-text :
    (text : String) (m : IsShown text)
    → two_ints (split b':' (codes text)) ≡ some (pos m.num, pos m.den)
two_ints-text text m =
    ap (λ (r : String). two_ints (split b':' (codes r))) m.shown ∙ two_ints-shown_ratio m.num m.den

two_ints_shown : (num den : ℕ) → two_ints (show num ∷ show den ∷ []) ≡ some (pos num, pos den)
unfolding two_ints
two_ints_shown num den =
    rw (int-digits (show num) (show-all_digits num) (show-nonempty num), two_ints)
      (rw (int-digits (show den) (show-all_digits den) (show-nonempty den), two_ints)
        (rw (value_from-show num, value_from-show den) refl))

nonzero_parts :
    (num den : ℕ)
    → (ltb 0 num && ltb 0 den) ≡ true
    → (is_zero (pos num) || is_zero (pos den)) ≡ false
nonzero_parts zero den h = absurd (ground arith)
nonzero_parts (suc num) zero h = absurd (ground arith)
nonzero_parts (suc num) (suc den) h = refl

before_colon-run : (s t : List ℕ) → all_digits s ≡ true → before_colon (ratio_text s t) ≡ s
before_colon-run [] t h = refl
before_colon-run (c ∷ s) t h = ground (arith, before_colon-run s t)

after_colon-run : (s t : List ℕ) → all_digits s ≡ true → after_colon (ratio_text s t) ≡ t
after_colon-run [] t h = refl
after_colon-run (c ∷ s) t h = ground (arith, after_colon-run s t)

has_colon : (s t : List ℕ) → any (λ c. eqb c b':') (ratio_text s t) ≡ true
has_colon [] t = refl
has_colon (c ∷ s) t = ground (arith, has_colon s t)

pub ratio_discriminator-shown :
    (text : String) (m : IsShown text)
    → ratio_discriminator (some text) ≡ some (str m.num ++ "-" ++ str m.den)
unfolding ratio_discriminator both_positive Rewrite.ratio_text
ratio_discriminator-shown text m =
    let n = show m.num in
    let d = show m.den in
    let whole : codes text ≡ ratio_text n d = ap codes m.shown ∙ codes-shown_ratio m.num m.den in
    let front : before_colon (codes text) ≡ n =
      ap before_colon whole ∙ before_colon-run n d (show-all_digits m.num) in
    let back : after_colon (codes text) ≡ d =
      ap after_colon whole ∙ after_colon-run n d (show-all_digits m.num) in
    let colon : any (λ c. eqb c b':') (codes text) ≡ true =
      ap (any (λ c. eqb c b':')) whole ∙ has_colon n d in
    let ints : two_ints (before_colon (codes text) ∷ after_colon (codes text) ∷ [])
        ≡ some (pos m.num, pos m.den) =
      rw (front, back) (two_ints_shown m.num m.den) in
    let digits : (isdigit (before_colon (codes text)) && isdigit (after_colon (codes text)))
        ≡ true =
      rw
        (
          front,
          back,
          show-all_digits m.num,
          show-all_digits m.den,
          show-nonempty m.num,
          show-nonempty m.den,
        )
        refl in
    ground (arith, ints, digits, colon, m.positive)

ratio_errors-shown : (text : String) → IsShown text → ratio_errors (some text) ≡ []
unfolding ratio_errors
ratio_errors-shown text m =
    let n = show m.num in
    let d = show m.den in
    let whole : codes text ≡ ratio_text n d = ap codes m.shown ∙ codes-shown_ratio m.num m.den in
    let full : full_match (codes text) ≡ true =
      ap full_match whole
      ∙ full_match-ratio_text n d (show-all_digits m.num) (show-all_digits m.den)
          (show-nonempty m.num) (show-nonempty m.den) in
    ground (
      arith,
      full,
      two_ints-text text m,
      m.positive,
      given-nonempty text (rw whole (nonempty-ratio_text n d)),
    )

module _ (F : Floats) where
  open F use {Num, of_int, overflows}

  pub build_split_action-shown :
      (t : Target) (date text : String) (m : IsShown text)
      → build_split_action F t date text ≡ some (split_action F t date text (pos m.num) (pos m.den))
  unfolding build_split_action
  build_split_action-shown t date text m =
      rw (two_ints-text text m, build_split_action) (rw (nonzero_parts m.num m.den m.positive) refl)

  split_action-impact :
      (t : Target) (date text : String) (m : IsShown text)
      → (overflows (pos m.num) (pos m.den) || overflows (pos m.den) (pos m.num)) ≡ false
      → derive_impact F (split_action F t date text (pos m.num) (pos m.den))
        ≡ (split_action F t date text (pos m.num) (pos m.den)).impact
  unfolding derive_impact impact_of_type split_impact
  split_action-impact t date text m o =
      rw
        (
          parse_ratio-show m.num m.den text (ap codes m.shown ∙ codes-shown_ratio m.num m.den),
          m.positive,
        )
        (rw (o, split_impact) refl)

  split_action-canonical :
      (t : Target) (date text : String) (m : IsShown text)
      → given (some t.isin) ≡ some t.isin
      → given (some date) ≡ some date
      → build_canonical_id F (split_action F t date text (pos m.num) (pos m.den))
        ≡ if_canonical F
            (t.isin ++ "-" ++ "SPLIT" ++ "-" ++ date ++ "-" ++ str m.num ++ "-" ++ str m.den)
  unfolding build_canonical_id discriminator
  split_action-canonical t date text m h k = rw (h, k, ratio_discriminator-shown text m) refl

  -- Where dividing the two parts of the fraction of the ratio, either way, does not overflow, as of
  -- a float it never does: a ratio that `ratio_to_string` writes is one that a split is built from: the action passes the
  -- arithmetic layer of the validator, has the impact that derive_impacts derives from it, and, where
  -- the ISIN and the date are not empty, the id that rewrite_action_ids builds, if that id is well
  -- formed.
  pub build_split_action-agrees :
      (limit_denominator : Num → Option (ℤ × ℕ)) (t : Target) (date text : String) (ratio : Num)
      → ((num : ℤ) (den : ℕ)
          → limit_denominator ratio ≡ some (num, den)
          → (overflows num (pos den) || overflows (pos den) num) ≡ false)
      → ratio_to_string F limit_denominator (some ratio) ≡ some text
      → given (some t.isin) ≡ some t.isin
      → given (some date) ≡ some date
      → (a : Action Num) × (build_split_action F t date text ≡ some a)
        × (validate_arithmetic F a ≡ some [])
        × (derive_impact F a ≡ a.impact)
        × (build_canonical_id F a ≡ (a.action_id >>= if_canonical F))
  unfolding validate_arithmetic
  build_split_action-agrees limit_denominator t date text ratio o h k l =
      let (m, e) = ratio_to_string-fraction F limit_denominator ratio text h in
      (
        split_action F t date text (pos m.num) (pos m.den),
        build_split_action-shown t date text m,
        ap some (ratio_errors-shown text m),
        split_action-impact t date text m (o (pos m.num) m.den e),
        split_action-canonical t date text m k l,
      )
