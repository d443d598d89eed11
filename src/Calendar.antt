-- ===== src/Calendar.antt =====
-- Python's `datetime.date`, as far as the validator uses it: which triples are dates, and the day
-- number of a date in the proleptic Gregorian calendar. `parse_date` is in tools/validate.py.
use corporate_actions.Prelude.{
  ℕ, ◌+◌, ◌-◌, ◌*◌, ◌/◌, ◌%◌, String, ◌≡◌, refl, Bool, true, false, not, ◌&&◌, ◌||◌, Option, none,
  some, List, [], ◌∷◌, leb, ltb, eqb, if◌then◌else◌,
}
use corporate_actions.Prelude.Int.{ℤ, pos, negsuc}
use corporate_actions.Prelude.Text.{codes, given, split, int, is_digit}

abbrev pub is_leap : ℕ → Bool
is_leap y = eqb (y % 4) 0 && (not (eqb (y % 100) 0) || eqb (y % 400) 0)

unfoldable pub days_in_month : ℕ → ℕ → ℕ
days_in_month y m =
    if eqb m 2
    then (if is_leap y then 29 else 28)
    else if eqb m 4 || eqb m 6 || eqb m 9 || eqb m 11
    then 30
    else 31

-- the days of a common year that lie before a month
unfoldable pub days_before_month : ℕ → ℕ
days_before_month m =
    if leb m 1
    then 0
    else if eqb m 2
    then 31
    else if eqb m 3
    then 59
    else if eqb m 4
    then 90
    else if eqb m 5
    then 120
    else if eqb m 6
    then 151
    else if eqb m 7
    then 181
    else if eqb m 8
    then 212
    else if eqb m 9
    then 243
    else if eqb m 10
    then 273
    else if eqb m 11
    then 304
    else 334

-- `date.toordinal()`
unfoldable pub ordinal : ℕ → ℕ → ℕ → ℕ
unfolding days_before_month
ordinal y m d =
    let p = y - 1 in
    p * 365
    + p / 4
    + p / 400
    - p / 100
    + days_before_month m
    + (if ltb 2 m && is_leap y then 1 else 0)
    + d

-- `date(y, m, d)`: `none` is ValueError
unfoldable pub make_date : ℤ → ℤ → ℤ → Option ℕ
unfolding ordinal days_in_month
make_date (pos y) (pos m) (pos d) =
    if leb 1 y && leb y 9999 && leb 1 m && leb m 12 && leb 1 d && leb d (days_in_month y m)
    then some (ordinal y m d)
    else none
make_date (pos y) (pos m) (negsuc d) = none
make_date (pos y) (negsuc m) d = none
make_date (negsuc y) m d = none

-- `y, m, d = map(int, parts)`
unfoldable pub date_of_parts : List (List ℕ) → Option ℕ
unfolding int make_date
date_of_parts (y ∷ m ∷ d ∷ []) = elim (int y) [
  | none ↦ none
  | some y' ↦ elim (int m) [
    | none ↦ none
    | some m' ↦ elim (int d) [ none ↦ none | some d' ↦ make_date y' m' d' ]
  ]
]
date_of_parts _ = none

-- the day number of an ISO date; `none` where the text is missing, empty or no date
unfoldable pub parse_date : Option String → Option ℕ
unfolding split date_of_parts
parse_date s = elim (given s) [ none ↦ none | some t ↦ date_of_parts (split b'-' (codes t)) ]

-- `datetime.strptime(s, "%Y-%m-%d")` raises nothing: four digits, then a month and a day of one or
-- two, where a blank may stand for the first digit of the day
abbrev pub is_number : List ℕ → Bool
is_number (c ∷ []) = is_digit c
is_number (c ∷ d ∷ []) = is_digit c && is_digit d
is_number _ = false

abbrev pub is_day : List ℕ → Bool
is_day (c ∷ d ∷ []) = (is_digit c || eqb c 32) && is_digit d
is_day s = is_number s

abbrev pub is_year : List ℕ → Bool
is_year (a ∷ b ∷ c ∷ d ∷ []) = is_digit a && is_digit b && is_digit c && is_digit d
is_year _ = false

unfoldable pub reads_as_date : List (List ℕ) → Bool
unfolding date_of_parts
reads_as_date (y ∷ m ∷ d ∷ []) =
    is_year y
    && is_number m
    && is_day d
    && elim (date_of_parts (y ∷ m ∷ d ∷ [])) [ none ↦ false | some n ↦ true ]
reads_as_date _ = false

unfoldable pub strptime : String → Bool
unfolding split reads_as_date
strptime s = reads_as_date (split b'-' (codes s))

strptime_examples :
    (strptime "2020-01-05" ≡ true) × (strptime "2020-9-1" ≡ true) × (strptime "2020-02-30" ≡ false)
unfolding strptime
strptime_examples = (refl, refl, refl)

-- `abs((a - b).days)`
abbrev pub days_apart : ℕ → ℕ → ℕ
days_apart a b = (a - b) + (b - a)

parse_date_examples :
    (parse_date (some "1970-01-01") ≡ some 719163)
    × (parse_date (some "2024-02-30") ≡ none)
    × (parse_date (some "2024-02-29") ≡ some 738945)
unfolding parse_date
parse_date_examples = (refl, refl, refl)
