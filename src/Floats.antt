-- ===== src/Floats.antt =====
-- Python's numbers, ints and floats, as the program uses them: an interface, since IEEE arithmetic is the
-- language's. Every module that reads an amount or a price takes it as a section parameter.
use corporate_actions.Prelude.{ℕ, String, Bool, Option}
use corporate_actions.Prelude.Int.{ℤ}

pub record Floats : Type 1 where
  pub Num : Type 0
  -- float(n), a decimal literal n * 10 ** -k, and float(s) on a text (`none` is ValueError)
  pub of_int : ℤ → Num
  pub decimal : ℕ → ℕ → Num
  pub of_text : String → Option Num
  -- comparisons
  pub lt : Num → Num → Bool
  pub le : Num → Num → Bool
  pub eq : Num → Num → Bool
  -- an int beyond the range of the floats, of which float() raises OverflowError
  pub is_huge : Num → Bool
  -- arithmetic; `quot` is the true division of two ints whose divisor is not 0, where it does not
  -- raise OverflowError, which `overflows` tells
  pub add : Num → Num → Num
  pub sub : Num → Num → Num
  pub mul : Num → Num → Num
  pub div : Num → Num → Num
  pub quot : ℤ → ℤ → Num
  pub overflows : ℤ → ℤ → Bool
  pub abs : Num → Num
  -- round(x, k) and f"{x:.kf}"
  pub round : ℕ → Num → Num
  pub fixed : ℕ → Num → String
