-- ===== src/Registry/Prices.antt =====
-- `adjust_prices` of wrappers/python/corporate_actions_registry/registry.py.
pub mod Applied
pub mod Sorted
use corporate_actions.Prelude.{
  ℕ, zero, suc, String, Bool, true, false, not, ◌&&◌, ◌||◌, Option, none, some, List, [], ◌∷◌, ◌++◌,
  any, ◌==◌, if◌then◌else◌,
}
use corporate_actions.Prelude.Int.{ℤ, pos, negsuc}
use corporate_actions.Prelude.Text.{codes, given, split, str_le}
use corporate_actions.Prelude.Sort.{sort}
use corporate_actions.Floats.{Floats}
use corporate_actions.Model.{Value, float_value, Dates}
use corporate_actions.Ratio.{two_ints, at_dollar}
use corporate_actions.Validate.ActionId.{match_classes, date_classes}
use corporate_actions.Validate.Temporal.{is_split, is_dividend}
use corporate_actions.Registry.{Entry, Registry, by_isin}

-- `_ISO_DATE_RE.match`: the date, and `$` behind it
abbrev pub ends_at_dollar : Option (List ℕ × List ℕ) → Bool
ends_at_dollar none = false
ends_at_dollar (some (date, rest)) = at_dollar rest

unfoldable pub is_iso_date : String → Bool
unfolding match_classes
is_iso_date s = ends_at_dollar (match_classes date_classes (codes s))

-- DEFAULT_ADJUST_FOR
abbrev pub default_adjust_for : List String
default_adjust_for = "SPLIT" ∷ "REVERSE_SPLIT" ∷ "DIVIDEND" ∷ "SPECIAL_DIVIDEND" ∷ []

-- the exceptions: two checks of the input, an amount that float() refuses, and the OverflowError of
-- a quotient
pub data PriceError : Type 0 where
  invalid_date missing_raw bad_amount bad_quotient : PriceError

pub data Priced {ℓ} (A : Type ℓ) : Type ℓ where
  ok : A → Priced A
  err : PriceError → Priced A

infixl 5 ◌>>=◌ ◌>>◌
abbrev pub ◌>>=◌ {ℓ κ} : {A : Type ℓ} {B : Type κ} → Priced A → (A → Priced B) → Priced B
ok a >>= f = f a
err e >>= f = err e

abbrev pub ◌>>◌ {ℓ} : {B : Type ℓ} → Priced (Unit {0}) → Priced B → Priced B
m >> k = m >>= λ _. k

-- `a.action_type in adjust_for`
abbrev pub wanted : List String → Option String → Bool
wanted types none = false
wanted types (some t) = any (λ name. t == name) types

-- `if not ex_date: continue`, `if ex_date <= date: continue`
abbrev pub still_ahead : String → Option String → Bool
still_ahead date ex_date = elim (given ex_date) [ none ↦ false | some x ↦ not (str_le x date) ]

module _ (F : Floats) where
  open F use {Num, of_int, quot, overflows, mul, sub}

  pub record Bar : Type 0 where
    pub date : Option String
    pub raw : Option Num

  pub record AdjustedBar : Type 0 where
    pub date : String
    pub raw : Num
    pub adjusted : Num
    pub applied : List (Option String)

  -- `int(old_s) / int(new_s)`, and 1.0 where that raises ValueError or ZeroDivisionError
  abbrev pub divide : ℤ → ℤ → Priced Num
  divide old new = if overflows old new then err bad_quotient else ok (quot old new)

  abbrev pub quotient : Option (ℤ × ℤ) → Priced Num
  quotient none = ok (of_int (pos 1))
  quotient (some (pos zero, old)) = ok (of_int (pos 1))
  quotient (some (pos (suc n), old)) = divide old (pos (suc n))
  quotient (some (negsuc n, old)) = divide old (negsuc n)

  -- `_action_price_multiplier`
  unfoldable pub price_multiplier : Entry Num → Priced Num
  unfolding two_ints split
  price_multiplier e = elim e.impact.price_multiplier [
    | some m ↦ ok m
    | none ↦
        if elim e.action_type [ none ↦ false | some t ↦ is_split t ]
        then (elim (given e.ratio) [
          | none ↦ ok (of_int (pos 1))
          | some r ↦ quotient (two_ints (split b':' (codes r)))
        ])
        else ok (of_int (pos 1))
  ]

  abbrev pub or_bad_amount : Option Num → Priced Num
  or_bad_amount none = err bad_amount
  or_bad_amount (some x) = ok x

  -- `_action_cash_adjustment`
  unfoldable pub cash_adjustment : Entry Num → Priced Num
  cash_adjustment e = elim e.impact.cash_adjustment [
    | some x ↦ ok x
    | none ↦
        if elim e.action_type [ none ↦ false | some t ↦ is_dividend t ]
        then (elim e.amount [
          | none ↦ ok (of_int (pos 0))
          | some v ↦ or_bad_amount (float_value F v)
        ])
        else ok (of_int (pos 0))
  ]

  -- the effect of an action of a type on the price and the trail
  unfoldable pub apply_type :
      String → Entry Num → Num × List (Option String) → Priced (Num × List (Option String))
  unfolding price_multiplier cash_adjustment
  apply_type t e (adjusted, applied) =
      if is_split t
      then (do factor ← price_multiplier e; ok (mul adjusted factor, applied ++ e.action_id ∷ []))
      else if is_dividend t
      then (do cash ← cash_adjustment e; ok (sub adjusted cash, applied ++ e.action_id ∷ []))
      else ok (adjusted, applied)

  -- one round of the inner loop
  unfoldable pub apply_entry :
      String → Entry Num → Num × List (Option String) → Priced (Num × List (Option String))
  unfolding apply_type
  apply_entry date e state =
      if still_ahead date e.dates.ex_date
      then (elim e.action_type [ none ↦ ok state | some t ↦ apply_type t e state ])
      else ok state

  unfoldable pub apply_entries :
      String → List (Entry Num) → Num × List (Option String) → Priced (Num × List (Option String))
  unfolding apply_entry
  apply_entries date [] state = ok state
  apply_entries date (e ∷ rest) state = do
    state' ← apply_entry date e state
    apply_entries date rest state'

  -- the bars that pass the two checks, in order
  abbrev pub Checked : Type 0
  Checked = String × Num

  unfoldable pub check_bar : Bar → Priced Checked
  unfolding is_iso_date
  check_bar p = elim p.date [
    | none ↦ err invalid_date
    | some date ↦
        if is_iso_date date
        then (elim p.raw [ none ↦ err missing_raw | some raw ↦ ok (date, raw) ])
        else err invalid_date
  ]

  unfoldable pub check_bars : List Bar → Priced (List Checked)
  unfolding check_bar
  check_bars [] = ok []
  check_bars (p ∷ rest) = do bar ← check_bar p; bars ← check_bars rest; ok (bar ∷ bars)

  -- `sorted(prices, key=date)`
  abbrev pub bar_le : Checked → Checked → Bool
  bar_le p q = str_le p.0 q.0

  unfoldable pub sort_bars : List Checked → List Checked
  unfolding sort
  sort_bars = sort bar_le

  unfoldable pub adjust_bar : List (Entry Num) → Checked → Priced AdjustedBar
  unfolding apply_entries
  adjust_bar actions (date, raw) = do
    (adjusted, applied) ← apply_entries date actions (raw, [])
    ok (record { date = date; raw = raw; adjusted = adjusted; applied = applied })

  unfoldable pub adjust_bars : List (Entry Num) → List Checked → Priced (List AdjustedBar)
  unfolding adjust_bar
  adjust_bars actions [] = ok []
  adjust_bars actions (p ∷ rest) = do
    bar ← adjust_bar actions p
    bars ← adjust_bars actions rest
    ok (bar ∷ bars)

  abbrev pub keep_wanted : List String → List (Entry Num) → List (Entry Num)
  keep_wanted types [] = []
  keep_wanted types (e ∷ rest) =
      let others = keep_wanted types rest in
      if wanted types e.action_type then e ∷ others else others

  -- an unknown ISIN gives no bars
  abbrev pub adjust_known :
      List String → List (Entry Num) → List Checked → Priced (List AdjustedBar)
  adjust_known types [] bars = ok []
  adjust_known types (e ∷ rest) bars = adjust_bars (keep_wanted types (e ∷ rest)) (sort_bars bars)

  unfoldable pub adjust_prices :
      Registry Num → String → List Bar → List String → Priced (List AdjustedBar)
  unfolding check_bars by_isin adjust_bars sort_bars
  adjust_prices r isin prices types = do
    bars ← check_bars prices
    adjust_known types (by_isin r isin) bars
