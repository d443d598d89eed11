-- ===== src/Validate/Arithmetic.antt =====
-- `validate_arithmetic` of tools/validate.py: ratios and amounts are positive.
use corporate_actions.Prelude.{
  String, Bool, true, not, ◌||◌, Option, none, some, List, [], ◌∷◌, report, ltb, if◌then◌else◌,
}
use corporate_actions.Prelude.Int.{ℤ, pos, negsuc}
use corporate_actions.Prelude.Text.{codes, given, split}
use corporate_actions.Floats.{Floats}
use corporate_actions.Model.{Value, number, flag, text, other, Action}
use corporate_actions.Ratio.{full_match, two_ints}
use corporate_actions.Validate.Temporal.{is_split, is_dividend}

pub data ArithmeticError : Type 0 where
  requires_ratio invalid_ratio_format ratio_not_positive ratio_not_integers : ArithmeticError
  requires_amount amount_not_number amount_not_positive : ArithmeticError

-- `n <= 0`
abbrev pub not_positive : ℤ → Bool
not_positive (pos n) = not (ltb 0 n)
not_positive (negsuc n) = true

-- A text that matches has two parts; `none` is the ValueError of `int`.
abbrev pub part_errors : Option (ℤ × ℤ) → List ArithmeticError
part_errors none = ratio_not_integers ∷ []
part_errors (some (n, d)) = report (not_positive n || not_positive d) ratio_not_positive

unfoldable pub ratio_errors : Option String → List ArithmeticError
unfolding split two_ints
ratio_errors ratio = elim (given ratio) [
  | none ↦ requires_ratio ∷ []
  | some r ↦
      if full_match (codes r)
      then part_errors (two_ints (split b':' (codes r)))
      else invalid_ratio_format ∷ []
]

module _ (F : Floats) where
  open F use {Num, of_int, le}

  unfoldable pub amount_errors : Option (Value Num) → List ArithmeticError
  amount_errors none = requires_amount ∷ []
  amount_errors (some (number x)) = report (le x (of_int (pos 0))) amount_not_positive
  amount_errors (some (flag b)) = report (not b) amount_not_positive
  amount_errors (some (text s)) = amount_not_number ∷ []
  amount_errors (some (other b)) = amount_not_number ∷ []

  -- `none` is the KeyError of `action["action_type"]`
  unfoldable pub validate_arithmetic : Action Num → Option (List ArithmeticError)
  unfolding ratio_errors amount_errors
  validate_arithmetic a = elim a.action_type [
    | none ↦ none
    | some t ↦
        if is_split t
        then some (ratio_errors a.ratio)
        else if is_dividend t
        then some (amount_errors a.amount)
        else some []
  ]
