-- ===== src/Rewrite.antt =====
-- tools/rewrite_action_ids.py: the canonical id of an action, and `rewrite` once the `actions` list
-- is loaded.
pub mod Again
pub mod Shape
pub mod Valid
use Prim.Native.String.{◌++◌}
use corporate_actions.Prelude.{
  ℕ, zero, suc, ◌-◌, String, Bool, true, false, not, ◌&&◌, ◌||◌, Option, none, some, List, [], ◌∷◌,
  any, all, eqb, ◌==◌, if◌then◌else◌, ltb,
}
use corporate_actions.Prelude.Text.{codes, given, is_digit, is_some}
use corporate_actions.Floats.{Floats}
use corporate_actions.Model.{Value, number, flag, text, other, Action}
use corporate_actions.Ratio.{nonempty, two_ints, both_positive, str}
use corporate_actions.Validate.ActionId.{
  match_classes, isin_classes, date_classes, drop_prefix, match_disc, is_capital, ◌>>=◌,
}
use corporate_actions.Validate.Unique.{member}

-- `ratio.partition(":")`, without the separator
abbrev pub before_colon : List ℕ → List ℕ
before_colon [] = []
before_colon (c ∷ s) = let rest = before_colon s in if eqb c b':' then [] else c ∷ rest

abbrev pub after_colon : List ℕ → List ℕ
after_colon [] = []
after_colon (c ∷ s) = let rest = after_colon s in if eqb c b':' then s else rest

-- `str.isdigit`
abbrev pub isdigit : List ℕ → Bool
isdigit s = nonempty s && all is_digit s

-- `[A-Z_]+`, and what follows it
abbrev pub is_type_code : ℕ → Bool
is_type_code c = is_capital c || eqb c b'_'

abbrev pub drop_type : List ℕ → List ℕ
drop_type [] = []
drop_type (c ∷ s) = let rest = drop_type s in if is_type_code c then rest else c ∷ s

unfoldable pub match_type_run : List ℕ → Option (List ℕ)
match_type_run [] = none
match_type_run (c ∷ s) = if is_type_code c then some (drop_type s) else none

-- `CANONICAL_RE.match`
unfoldable pub is_canonical : List ℕ → Bool
unfolding match_classes drop_prefix match_type_run match_disc
is_canonical s =
    elim (do
      (isin, s₁) ← match_classes isin_classes s
      s₂ ← drop_prefix (b'-' ∷ []) s₁
      s₃ ← match_type_run s₂
      s₄ ← drop_prefix (b'-' ∷ []) s₃
      (date, s₅) ← match_classes date_classes s₄
      s₆ ← drop_prefix (b'-' ∷ []) s₅
      match_disc s₆) [ none ↦ false | some disc ↦ true ]

-- the discriminator of a ratio; `none` is a RewriteError, here and below
unfoldable pub ratio_text : Option (ℕ × ℕ) → Option String
unfolding str
ratio_text none = none
ratio_text (some (num, den)) = some (str num ++ "-" ++ str den)

unfoldable pub ratio_discriminator : Option String → Option String
unfolding two_ints both_positive ratio_text
ratio_discriminator none = none
ratio_discriminator (some r) =
    let num_s = before_colon (codes r) in
    let den_s = after_colon (codes r) in
    if any (λ c. eqb c b':') (codes r) && (isdigit num_s && isdigit den_s)
    then (elim (two_ints (num_s ∷ den_s ∷ [])) [
      | none ↦ none
      | some (n, d) ↦ ratio_text (both_positive n d)
    ])
    else none

-- `report_collisions`: the ids with more than one place, each once; the code returns their number
unfoldable pub collisions : List String → List String → List String
collisions seen [] = []
collisions seen (id ∷ ids) =
    let others = collisions (id ∷ seen) ids in
    if not (member id seen) && member id ids then id ∷ others else others

abbrev pub none_of : List String → Bool
none_of [] = true
none_of (id ∷ ids) = false

module _ (F : Floats) where
  open F use {Num, fixed}

  unfoldable pub amount_discriminator : Option (Value Num) → Option String
  amount_discriminator none = none
  amount_discriminator (some (number x)) = some (fixed 4 x)
  amount_discriminator (some (flag b)) = none
  amount_discriminator (some (text s)) = none
  amount_discriminator (some (other b)) = none

  unfoldable pub discriminator : String → Action Num → Option String
  unfolding ratio_discriminator amount_discriminator
  discriminator t a =
      if t == "SPLIT" || t == "REVERSE_SPLIT" || t == "SPINOFF"
      then ratio_discriminator a.ratio
      else if t == "DIVIDEND" || t == "SPECIAL_DIVIDEND"
      then amount_discriminator a.amount
      else if t == "SYMBOL_CHANGE"
      then some "SYMBOL"
      else if t == "DELISTING"
      then some "DELISTED"
      else none

  -- the last test of the id that was put together
  unfoldable pub if_canonical : String → Option String
  unfolding is_canonical
  if_canonical id = if is_canonical (codes id) then some id else none

  unfoldable pub build_canonical_id : Action Num → Option String
  unfolding discriminator if_canonical
  build_canonical_id a = do
    isin ← given a.isin
    t ← given a.action_type
    dates ← a.dates
    effective ← given dates.effective_date
    disc ← discriminator t a
    if_canonical (isin ++ "-" ++ t ++ "-" ++ effective ++ "-" ++ disc)

  -- the first pass
  unfoldable pub new_ids : List (Action Num) → Option (List String)
  unfolding build_canonical_id
  new_ids [] = some []
  new_ids (a ∷ rest) = do id ← build_canonical_id a; ids ← new_ids rest; some (id ∷ ids)

  -- `old_id != new_id`
  abbrev pub changes : Action Num → String → Bool
  changes a new = elim a.action_id [ none ↦ true | some old ↦ not (old == new) ]

  unfoldable pub any_changes : List (Action Num) → List String → Bool
  any_changes [] ids = false
  any_changes (a ∷ rest) [] = false
  any_changes (a ∷ rest) (id ∷ ids) = changes a id || any_changes rest ids

  unfoldable pub apply_ids : List (Action Num) → List String → List (Action Num)
  apply_ids [] ids = []
  apply_ids (a ∷ rest) [] = a ∷ rest
  apply_ids (a ∷ rest) (id ∷ ids) =
      (if changes a id then record a { action_id = some id } else a) ∷ apply_ids rest ids

  -- what a run does: its exit code, and the actions that it writes, where it writes
  pub record Run : Type 0 where
    pub code : ℕ
    pub written : Option (List (Action Num))

  -- whether the backup and the write succeed is given
  unfoldable pub apply_changes : Bool → Bool → Bool → List (Action Num) → List String → Run
  unfolding any_changes apply_ids
  apply_changes dry_run can_back_up can_write actions ids =
      if dry_run
      then record { code = 0; written = none }
      else if not (any_changes actions ids)
      then record { code = 0; written = none }
      else if not can_back_up
      then record { code = 3; written = none }
      else if not can_write
      then record { code = 3; written = none }
      else record { code = 0; written = some (apply_ids actions ids) }

  unfoldable pub rewrite : Bool → Bool → Bool → List (Action Num) → Run
  unfolding new_ids collisions apply_changes
  rewrite dry_run can_back_up can_write actions = elim (new_ids actions) [
    | none ↦ record { code = 1; written = none }
    | some ids ↦
        if none_of (collisions [] ids)
        then apply_changes dry_run can_back_up can_write actions ids
        else record { code = 1; written = none }
  ]
