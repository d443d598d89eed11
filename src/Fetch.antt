-- ===== src/Fetch.antt =====
-- What the two fetchers, tools/fetch_yahoo_actions.py and tools/fetch_sec_edgar_actions.py, do
-- alike: the list of actions that `main` writes, and its exit code.
pub mod Output
use corporate_actions.Prelude.{
  ℕ, String, Bool, true, false, ◌||◌, Option, none, some, List, [], ◌∷◌, eqb, if◌then◌else◌,
}
use corporate_actions.Prelude.Sort.{sort}
use corporate_actions.Model.{Dates, dates_or_empty, Action}
use corporate_actions.Validate.Unique.{member}
use corporate_actions.Registry.Queries.{key_le, text_of}

module _ {N : Type 0} where
  -- `act["action_id"]`; every built action has one
  abbrev pub id_of : Action N → String
  id_of a = elim a.action_id [ none ↦ "" | some id ↦ id ]

  -- the loop that keeps the first action of an id
  unfoldable pub dedupe : List String → List (Action N) → List (Action N)
  dedupe seen [] = []
  dedupe seen (a ∷ rest) =
      let known = member (id_of a) seen in
      let others = dedupe (if known then seen else id_of a ∷ seen) rest in
      if known then others else a ∷ others

  module _ (date_of : Dates → Option String) where
    -- `(dates.get(field) or "", action_id)`
    abbrev pub output_key : Action N → String × String
    output_key a = (text_of (date_of (dates_or_empty a.dates)), id_of a)

    abbrev pub output_le : Action N → Action N → Bool
    output_le a b = key_le (output_key a) (output_key b)

    unfoldable pub output : List (Action N) → List (Action N)
    unfolding dedupe sort
    output actions = sort output_le (dedupe [] actions)

-- the exit code after the file is written: how many instruments were read, and which failed
unfoldable pub exit_code : ℕ → List String → ℕ
exit_code processed [] = if eqb processed 0 then 3 else 0
exit_code processed (e ∷ errors) = if eqb processed 0 then 3 else 1
