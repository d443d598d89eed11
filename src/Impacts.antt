-- ===== src/Impacts.antt =====
-- tools/derive_impacts.py: the impact of an action, and the run over the whole registry.
pub mod Valid
pub mod Write
pub mod Stable
use corporate_actions.Prelude.{
  ℕ, String, Bool, true, false, not, ◌&&◌, ◌||◌, Option, none, some, List, [], ◌∷◌, all, ◌==◌,
  if◌then◌else◌,
}
use corporate_actions.Prelude.Int.{pos}
use corporate_actions.Prelude.Text.{given}
use corporate_actions.Floats.{Floats}
use corporate_actions.Model.{Value, Impact, Action, float_value}
use corporate_actions.Ratio.{parse_ratio}
use corporate_actions.Validate.Temporal.{is_split, is_dividend}

-- the types that get the neutral impact
abbrev pub is_neutral : String → Bool
is_neutral t = t == "SYMBOL_CHANGE" || t == "DELISTING" || t == "SPINOFF" || t == "MERGER"

-- the flags of the command line
pub record Flags : Type 0 where
  pub check : Bool
  pub dry_run : Bool

module _ (F : Floats) where
  open F use {Num, of_int, quot, overflows, lt, eq}

  abbrev pub neutral : Impact Num
  neutral = record {
    price_multiplier = some (of_int (pos 1));
    share_multiplier = some (of_int (pos 1));
    cash_adjustment = some (of_int (pos 0));
  }

  abbrev pub split_of : ℕ → ℕ → Impact Num
  split_of new old = record {
    price_multiplier = some (quot (pos old) (pos new));
    share_multiplier = some (quot (pos new) (pos old));
    cash_adjustment = some (of_int (pos 0));
  }

  abbrev pub cash_of : Num → Impact Num
  cash_of x = record neutral { cash_adjustment = some x }

  -- `none` is also the OverflowError of a quotient
  unfoldable pub split_impact : Option (ℕ × ℕ) → Option (Impact Num)
  split_impact none = none
  split_impact (some (new, old)) =
      if overflows (pos new) (pos old) || overflows (pos old) (pos new)
      then none
      else some (split_of new old)

  -- `none` is also the OverflowError of the amount

  unfoldable pub cash_impact : Option (Value Num) → Option (Impact Num)
  cash_impact none = none
  cash_impact (some v) = elim (float_value F v) [
    | none ↦ none
    | some x ↦ if lt x (of_int (pos 0)) then none else some (cash_of x)
  ]

  unfoldable pub impact_of_type : String → Action Num → Option (Impact Num)
  unfolding split_impact cash_impact parse_ratio
  impact_of_type t a =
      if is_split t
      then split_impact (parse_ratio a.ratio)
      else if is_dividend t
      then cash_impact a.amount
      else if is_neutral t
      then some neutral
      else none

  -- `derive_impact`: `none` is a warning and None, or an OverflowError that is not caught; either way
  -- the run writes nothing and ends with code 1
  unfoldable pub derive_impact : Action Num → Option (Impact Num)
  unfolding impact_of_type
  derive_impact a = elim (given a.action_type) [ none ↦ none | some t ↦ impact_of_type t a ]

  -- the loop of `main` that computes every impact; `none` where an action failed
  abbrev pub put_impact :
      Option (Impact Num) → Option (List (Impact Num)) → Option (List (Impact Num))
  put_impact none rest = none
  put_impact (some i) none = none
  put_impact (some i) (some is) = some (i ∷ is)

  unfoldable pub compute_impacts : List (Action Num) → Option (List (Impact Num))
  unfolding derive_impact
  compute_impacts [] = some []
  compute_impacts (a ∷ rest) = put_impact (derive_impact a) (compute_impacts rest)

  -- `actual != expected`, as dicts of numbers; a derived impact has all three keys
  abbrev pub same_number : Option Num → Option Num → Bool
  same_number none none = true
  same_number none (some y) = false
  same_number (some x) none = false
  same_number (some x) (some y) = eq x y

  abbrev pub same_impact : Option (Impact Num) → Impact Num → Bool
  same_impact none expected = false
  same_impact (some actual) expected =
      same_number actual.price_multiplier expected.price_multiplier
      && same_number actual.share_multiplier expected.share_multiplier
      && same_number actual.cash_adjustment expected.cash_adjustment

  unfoldable pub in_step : List (Action Num) → List (Impact Num) → Bool
  in_step [] is = true
  in_step (a ∷ rest) [] = true
  in_step (a ∷ rest) (i ∷ is) = same_impact a.impact i && in_step rest is

  -- `actions[i]["impact"] = impact`
  unfoldable pub apply_impacts : List (Action Num) → List (Impact Num) → List (Action Num)
  apply_impacts [] is = []
  apply_impacts (a ∷ rest) [] = a ∷ rest
  apply_impacts (a ∷ rest) (i ∷ is) = record a { impact = some i } ∷ apply_impacts rest is

  -- what a run does: its exit code, and the actions that it writes, where it writes
  pub record Run : Type 0 where
    pub code : ℕ
    pub written : Option (List (Action Num))

  -- `main`, once the `actions` list is loaded; `can_write` tells that the write raises no OSError
  unfoldable pub finish : Flags → Bool → List (Action Num) → List (Impact Num) → Run
  unfolding in_step apply_impacts
  finish flags can_write actions is =
      if flags.check
      then record { code = if in_step actions is then 0 else 1; written = none }
      else if flags.dry_run
      then record { code = 0; written = none }
      else if can_write
      then record { code = 0; written = some (apply_impacts actions is) }
      else record { code = 3; written = none }

  unfoldable pub derive_impacts : Flags → Bool → List (Action Num) → Run
  unfolding compute_impacts finish
  derive_impacts flags can_write actions = elim (compute_impacts actions) [
    | none ↦ record { code = 1; written = none }
    | some is ↦ finish flags can_write actions is
  ]
