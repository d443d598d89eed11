-- ===== src/Validate/ActionId.antt =====
-- `validate_action_id_format` of tools/validate.py, with the expression
-- CANONICAL_ACTION_ID_RE: {isin}-{TYPE}-{effective_date}-{discriminator}.
use corporate_actions.Prelude.{
  ℕ, String, Bool, true, false, not, ◌&&◌, ◌||◌, Option, none, some, List, [], ◌∷◌, ◌++◌, map,
  report, any, eqb, leb, ◌==◌, if◌then◌else◌,
}
use corporate_actions.Prelude.Int.{pos}
use corporate_actions.Prelude.Text.{codes, codes_eq, given, is_digit}
use corporate_actions.Floats.{Floats}
use corporate_actions.Model.{Value, number, flag, text, other, dates_or_empty, Action}
use corporate_actions.Ratio.{nonempty, at_dollar}

-- the groups of a match, as code points
pub record IdParts : Type 0 where
  pub isin : List ℕ
  pub kind : List ℕ
  pub date : List ℕ
  pub disc : List ℕ

abbrev pub is_capital : ℕ → Bool
is_capital c = leb b'A' c && leb c b'Z'

abbrev pub is_capital_or_digit : ℕ → Bool
is_capital_or_digit c = is_capital c || is_digit c

abbrev pub is_dash : ℕ → Bool
is_dash c = eqb c b'-'

-- a sequence of character classes: what it matches, and what follows
abbrev pub put_front : ℕ → Option (List ℕ × List ℕ) → Option (List ℕ × List ℕ)
put_front c none = none
put_front c (some (s, rest)) = some (c ∷ s, rest)

unfoldable pub match_classes : List (ℕ → Bool) → List ℕ → Option (List ℕ × List ℕ)
match_classes [] s = some ([], s)
match_classes (p ∷ ps) [] = none
match_classes (p ∷ ps) (c ∷ s) =
    let rest = match_classes ps s in if p c then put_front c rest else none

-- [A-Z]{2}[A-Z0-9]{9}[0-9], and \d{4}-\d{2}-\d{2}
abbrev pub isin_classes : List (ℕ → Bool)
isin_classes =
    is_capital ∷ is_capital ∷ is_capital_or_digit ∷ is_capital_or_digit ∷ is_capital_or_digit
    ∷ is_capital_or_digit ∷ is_capital_or_digit ∷ is_capital_or_digit ∷ is_capital_or_digit
    ∷ is_capital_or_digit ∷ is_capital_or_digit ∷ is_digit ∷ []

abbrev pub date_classes : List (ℕ → Bool)
date_classes =
    is_digit ∷ is_digit ∷ is_digit ∷ is_digit ∷ is_dash ∷ is_digit ∷ is_digit ∷ is_dash ∷ is_digit
    ∷ is_digit ∷ []

-- what follows a given text, and a given text with a dash behind it
unfoldable pub drop_prefix : List ℕ → List ℕ → Option (List ℕ)
drop_prefix [] s = some s
drop_prefix (c ∷ p) [] = none
drop_prefix (c ∷ p) (d ∷ s) = let rest = drop_prefix p s in if eqb c d then rest else none

abbrev pub type_names : List String
type_names =
    "SPLIT" ∷ "REVERSE_SPLIT" ∷ "DIVIDEND" ∷ "SPECIAL_DIVIDEND" ∷ "SYMBOL_CHANGE" ∷ "SPINOFF"
    ∷ "DELISTING" ∷ "MERGER" ∷ []

-- the alternatives of the type, with the dash that ends them; no two of them match one text
unfoldable pub match_type : List String → List ℕ → Option (List ℕ × List ℕ)
unfolding drop_prefix
match_type [] s = none
match_type (t ∷ ts) s =
    let others = match_type ts s in
    elim (drop_prefix (codes t ++ b'-' ∷ []) s) [ none ↦ others | some rest ↦ some (codes t, rest) ]

-- `.+$`: a line, and its end
abbrev pub take_line : List ℕ → List ℕ
take_line [] = []
take_line (c ∷ s) = let rest = take_line s in if eqb c 10 then [] else c ∷ rest

abbrev pub drop_line : List ℕ → List ℕ
drop_line [] = []
drop_line (c ∷ s) = let rest = drop_line s in if eqb c 10 then c ∷ s else rest

unfoldable pub match_disc : List ℕ → Option (List ℕ)
match_disc s =
    if nonempty (take_line s) && at_dollar (drop_line s) then some (take_line s) else none

infixl 5 ◌>>=◌
abbrev pub ◌>>=◌ {ℓ κ} : {A : Type ℓ} {B : Type κ} → Option A → (A → Option B) → Option B
none >>= k = none
some a >>= k = k a

unfoldable pub match_id : List ℕ → Option IdParts
unfolding match_classes match_type drop_prefix match_disc
match_id s = do
  (isin, s₁) ← match_classes isin_classes s
  s₂ ← drop_prefix (b'-' ∷ []) s₁
  (kind, s₃) ← match_type type_names s₂
  (date, s₄) ← match_classes date_classes s₃
  s₅ ← drop_prefix (b'-' ∷ []) s₄
  disc ← match_disc s₅
  some (record { isin = isin; kind = kind; date = date; disc = disc })

pub data IdError : Type 0 where
  not_canonical isin_differs type_differs date_differs : IdError
  ratio_differs amount_differs not_symbol not_delisted : IdError

-- `if field and group != field: errors.append(e)`
unfoldable pub group_errors : IdError → List ℕ → Option String → List IdError
unfolding codes_eq
group_errors e group field = elim (given field) [
  | none ↦ []
  | some x ↦ report (not (codes_eq group (codes x))) e
]

-- `ratio.replace(":", "-")`
abbrev pub colon_to_dash : ℕ → ℕ
colon_to_dash c = if eqb c b':' then b'-' else c

unfoldable pub ratio_disc_errors : List ℕ → Option String → List IdError
unfolding codes_eq
ratio_disc_errors disc none = []
ratio_disc_errors disc (some r) =
    if any (λ c. eqb c b':') (codes r)
    then report (not (codes_eq disc (map colon_to_dash (codes r)))) ratio_differs
    else []

module _ (F : Floats) where
  open F use {Num, of_int, fixed}

  -- an amount that `isinstance(amount, (int, float))` accepts, as a float
  abbrev pub as_number : Option (Value Num) → Option Num
  as_number none = none
  as_number (some (number x)) = some x
  as_number (some (flag true)) = some (of_int (pos 1))
  as_number (some (flag false)) = some (of_int (pos 0))
  as_number (some (text s)) = none
  as_number (some (other b)) = none

  unfoldable pub amount_disc_errors : List ℕ → Option (Value Num) → List IdError
  unfolding codes_eq
  amount_disc_errors disc amount = elim (as_number amount) [
    | none ↦ []
    | some x ↦ report (not (codes_eq disc (codes (fixed 4 x)))) amount_differs
  ]

  unfoldable pub disc_errors : List ℕ → Action Num → String → List IdError
  unfolding ratio_disc_errors amount_disc_errors
  disc_errors disc a t =
      if t == "SPLIT" || t == "REVERSE_SPLIT" || t == "SPINOFF"
      then ratio_disc_errors disc a.ratio
      else if t == "DIVIDEND" || t == "SPECIAL_DIVIDEND"
      then amount_disc_errors disc a.amount
      else if t == "SYMBOL_CHANGE"
      then report (not (codes_eq disc (codes "SYMBOL"))) not_symbol
      else if t == "DELISTING"
      then report (not (codes_eq disc (codes "DELISTED"))) not_delisted
      else []

  unfoldable pub part_errors : IdParts → Action Num → List IdError
  unfolding group_errors disc_errors
  part_errors m a =
      group_errors isin_differs m.isin a.isin
      ++ (group_errors type_differs m.kind a.action_type
          ++ (group_errors date_differs m.date (dates_or_empty a.dates).effective_date
              ++ elim a.action_type [ none ↦ [] | some t ↦ disc_errors m.disc a t ]))

  unfoldable pub validate_action_id_format : Action Num → List IdError
  unfolding match_id part_errors
  validate_action_id_format a = elim (given a.action_id) [
    | none ↦ []
    | some i ↦ elim (match_id (codes i)) [ none ↦ not_canonical ∷ [] | some m ↦ part_errors m a ]
  ]
