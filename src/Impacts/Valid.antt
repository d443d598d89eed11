-- ===== src/Impacts/Valid.antt =====
-- Which actions that the validator's arithmetic layer passes have an impact.
use corporate_actions.Prelude.{
  ℕ, ◌≡◌, ◌↔◌, String, Bool, true, false, not, ◌&&◌, Option, none, some, if◌then◌else◌,
}
use corporate_actions.Prelude.Int.{pos}
use corporate_actions.Floats.{Floats}
use corporate_actions.Model.{Value, Impact, Action, overflows_float}
use corporate_actions.Ratio.{parse_ratio}
use corporate_actions.Validate.Temporal.{is_split, is_dividend}

-- The laws of comparison that the tools rely on.
pub record Comparison (F : Floats) : Type 0 where
  pub le_of_lt : (x y : F.Num) → F.lt x y ≡ true → F.le x y ≡ true
  pub one_not_negative : F.lt (F.of_int (pos 1)) (F.of_int (pos 0)) ≡ false

module _ (F : Floats) where
  open F use {Num, overflows}

  -- the amount, where there is one, is no int beyond the range of the floats
  abbrev pub amount_fits : Option (Value Num) → Bool
  amount_fits none = true
  amount_fits (some v) = not (overflows_float F v)

  -- neither quotient of the two parts of the ratio overflows
  abbrev pub ratio_fits : Option (ℕ × ℕ) → Bool
  ratio_fits none = true
  ratio_fits (some (new, old)) =
      not (overflows (pos new) (pos old)) && not (overflows (pos old) (pos new))

  -- the numbers that an impact of the type is computed from are in range
  abbrev pub fits : String → Action Num → Bool
  fits t a =
      if is_split t
      then ratio_fits (parse_ratio a.ratio)
      else if is_dividend t
      then amount_fits a.amount
      else true

  -- there is an impact exactly where the numbers are in range
  abbrev pub HasImpact : Option (Impact Num) → Bool → Type 0
  HasImpact o b = ((i : Impact Num) × (o ≡ some i)) ↔ (b ≡ true)
