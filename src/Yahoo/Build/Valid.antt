-- ===== src/Yahoo/Build/Valid.antt =====
-- What the layers of the validator find in the actions from Yahoo.
use Prim.Native.String.{◌++◌}
use mathlib.Core.List
use corporate_actions.Prelude.{
  ◌≡◌, refl, ◌⊎◌, inl, inr, String, true, false, Option, none, some, List, [], ◌∷◌, All, ◌==◌,
  eq_iff, arith, ℕ, Bool-cases, Option-cases, some_inj, none≢some,
}
use corporate_actions.Prelude.Int.{ℤ, pos}
use corporate_actions.Prelude.Text.{codes, codes-append, given, str_lt, is_prefix}
use corporate_actions.Floats.{Floats}
use corporate_actions.Model.{Action}
use corporate_actions.Ratio.Parse.{given-nonempty}
use corporate_actions.Validate.Temporal.{
  validate_temporal, basic_errors, type_errors, ex_date_errors, dividend_errors,
}
use corporate_actions.Validate.References.{validate_provenance, is_http}
use corporate_actions.Yahoo.{Target, timestamp_to_iso, is_early, yahoo, event_dates}
use corporate_actions.Yahoo.Build.{
  Row, Events, Taken, skipped, raised, taken, put_taken, ratio_to_string, build_dividend_action,
  row_date, take_dividend, take_split, dividends_and_then, splits_of, actions_of,
}
use corporate_actions.Yahoo.Build.Split.{ratio_to_string-IsShown, build_split_action-shown}

pub str_lt_irrefl : (s : String) → str_lt s s ≡ false
str_lt_irrefl s = ground (arith, eq_iff s s)

given_again : (o : Option String) (s : String) → given o ≡ some s → given (some s) ≡ some s
given_again none s h = cc
given_again (some r) s h = ground (arith, h)

-- An action that stands for an event of Yahoo on a date of the window.
pub record IsEvent {N : Type 0} (min_date : Option String) (t : Target) (a : Action N)
    : Type 0 where
  pub date : String
  pub given_date : given (some date) ≡ some date
  pub inside : is_early min_date date ≡ false
  pub dated : a.dates ≡ some (event_dates date)
  pub kind : (a.action_type ≡ some "DIVIDEND") ⊎ (a.action_type ≡ some "SPLIT")
  pub origin : a.provenance ≡ some (yahoo t.ticker)

is_same : (s : String) → (s == s) ≡ true
is_same s = (eq_iff s s).1 refl

url_text-codes :
    (ticker : String)
    → codes ("https://finance.yahoo.com/quote/" ++ ticker ++ "/history")
      ≡ List.◌++◌ (codes "https://finance.yahoo.com/quote/") (codes (ticker ++ "/history"))
url_text-codes ticker = codes-append "https://finance.yahoo.com/quote/" (ticker ++ "/history")

module _ {N : Type 0} {min_date : Option String} {t : Target} (a : Action N) where
  pub IsEvent-temporal : IsEvent min_date t a → validate_temporal a ≡ []
  unfolding validate_temporal basic_errors type_errors ex_date_errors dividend_errors
  IsEvent-temporal e = elim e.kind [
    | inl k ↦ rw (k, e.dated) (rw e.given_date (rw (str_lt_irrefl e.date) refl))
    | inr k ↦ rw (k, e.dated) (rw e.given_date (rw (str_lt_irrefl e.date, is_same e.date) refl))
  ]

  pub IsEvent-provenance : IsEvent min_date t a → validate_provenance a ≡ []
  unfolding validate_provenance is_prefix
  IsEvent-provenance e =
      let url = "https://finance.yahoo.com/quote/" ++ t.ticker ++ "/history" in
      let http : is_http url ≡ true = rw (url_text-codes t.ticker) refl in
      let here : given (some url) ≡ some url =
        given-nonempty url (rw (url_text-codes t.ticker) refl) in
      rw e.origin (ground (arith, here, http))

row_date-inside :
    (F : Floats) (min_date : Option String) (row : Row F.Num) (date : String)
    → row_date F min_date row ≡ some date
    → (given (some date) ≡ some date) × (is_early min_date date ≡ false)
row_date-inside F min_date row date h = elim (Option-cases (given (timestamp_to_iso row.stamp))) [
  | inl e ↦ absurd (none≢some (rw (e, row_date) at h))
  | inr (d, e) ↦ elim (Bool-cases (is_early min_date d)) [
    | inl k ↦ absurd (none≢some (rw k at (rw (e, row_date) at h)))
    | inr k ↦
        let same : d ≡ date = some_inj (rw k at (rw (e, row_date) at h)) in
        rw (← same) (given_again (timestamp_to_iso row.stamp) d e, k)
  ]
]

module _ (F : Floats) (limit_denominator : F.Num → Option (ℤ × ℕ)) (min_date : Option String)
    (t : Target) where
  open F use {Num, of_int, le}

  -- A row comes to nothing or to an action that stands for an event, and raises nothing.
  abbrev IsSound : Taken Num → Type 0
  IsSound skipped = Unit
  IsSound raised = ⊥
  IsSound (taken a) = IsEvent min_date t a

  take_dividend-IsSound : (row : Row Num) → IsSound (take_dividend F t min_date row)
  unfolding take_dividend build_dividend_action
  take_dividend-IsSound row = elim (Option-cases (row_date F min_date row)) [
    | inl e ↦ rw (e, take_dividend) tt
    | inr (date, e) ↦ elim (Option-cases row.value) [
      | inl k ↦ rw (e, take_dividend) (rw (k, take_dividend) tt)
      | inr (amount, k) ↦ elim (Bool-cases (le amount (of_int (pos 0)))) [
        | inl l ↦ rw (e, take_dividend) (rw (k, take_dividend) (rw (l, take_dividend) tt))
        | inr l ↦
            let (some_date, inside) = row_date-inside F min_date row date e in
            rw (e, take_dividend)
              (rw (k, take_dividend)
                (rw (l, take_dividend)
                  (record {
                    date = date;
                    given_date = some_date;
                    inside = inside;
                    dated = refl;
                    kind = inl refl;
                    origin = refl;
                  })))
      ]
    ]
  ]

  take_split-IsSound : (row : Row Num) → IsSound (take_split F limit_denominator t min_date row)
  unfolding take_split
  take_split-IsSound row = elim (Option-cases (row_date F min_date row)) [
    | inl e ↦ rw (e, take_split) tt
    | inr (date, e) ↦ elim (Option-cases row.value) [
      | inl k ↦ rw (e, take_split) (rw (k, take_split) tt)
      | inr (ratio, k) ↦ elim (Option-cases (ratio_to_string F limit_denominator (some ratio))) [
        | inl l ↦ rw (e, take_split) (rw (k, take_split) (rw (l, take_split) tt))
        | inr (text, l) ↦
            let (some_date, inside) = row_date-inside F min_date row date e in
            let m = ratio_to_string-IsShown F limit_denominator ratio text l in
            rw (e, take_split)
              (rw (k, take_split)
                (rw (l, take_split)
                  (rw (build_split_action-shown F t date text m) (record {
                    date = date;
                    given_date = some_date;
                    inside = inside;
                    dated = refl;
                    kind = inr refl;
                    origin = refl;
                  }))))
      ]
    ]
  ]

  -- a list of actions, all of which stand for events
  abbrev pub AreEvents : Option (List (Action Num)) → Type 0
  AreEvents o =
      (actions : List (Action Num)) × (o ≡ some actions) × All (IsEvent min_date t) actions

  put_taken-AreEvents :
      (x : Taken Num) (rest : Option (List (Action Num)))
      → IsSound x
      → AreEvents rest
      → AreEvents (put_taken x rest)
  put_taken-AreEvents skipped rest h k = k
  put_taken-AreEvents raised rest h k = absurd h
  put_taken-AreEvents (taken a) rest h (actions, e, all) = rw e (a ∷ actions, refl, (h, all))

  splits_of-AreEvents :
      (rows : List (Row Num)) → AreEvents (splits_of F limit_denominator t min_date rows)
  unfolding splits_of
  splits_of-AreEvents [] = ([], refl, tt)
  splits_of-AreEvents (row ∷ rows) =
      put_taken-AreEvents (take_split F limit_denominator t min_date row)
        (splits_of F limit_denominator t min_date rows) (take_split-IsSound row)
        (splits_of-AreEvents rows)

  dividends-AreEvents :
      (rows : List (Row Num)) (rest : Option (List (Action Num)))
      → AreEvents rest
      → AreEvents (dividends_and_then F limit_denominator t min_date rows rest)
  unfolding dividends_and_then
  dividends-AreEvents [] rest h = h
  dividends-AreEvents (row ∷ rows) rest h =
      put_taken-AreEvents (take_dividend F t min_date row)
        (dividends_and_then F limit_denominator t min_date rows rest) (take_dividend-IsSound row)
        (dividends-AreEvents rows rest h)

  pub actions_of-AreEvents :
      (events : Events Num) → AreEvents (actions_of F limit_denominator t min_date events)
  unfolding actions_of
  actions_of-AreEvents events =
      dividends-AreEvents events.dividends (splits_of F limit_denominator t min_date events.splits)
        (splits_of-AreEvents events.splits)
