-- ===== src/Ratio.antt =====
-- The text of a ratio, "new:old": the regular expressions that the tools match it by
-- (tools/validate.py uses `fullmatch`, tools/derive_impacts.py `match` with a final `$`), and
-- `parse_ratio` of tools/derive_impacts.py.
pub mod Digits
pub mod Parse
pub mod Shown
use Prim.Native.String
use corporate_actions.Prelude.{
  ℕ, ◌+◌, ◌*◌, ◌-◌, ◌/◌, ◌%◌, zero, suc, ◌≡◌, refl, String, Bool, true, false, not, ◌&&◌, ◌||◌,
  Option, none, some, List, [], ◌∷◌, ◌++◌, eqb, ltb, if◌then◌else◌, ◌==◌,
}
use corporate_actions.Prelude.Int.{ℤ, pos, negsuc}
use corporate_actions.Prelude.Text.{codes, given, is_digit, split, int}

abbrev pub nonempty : List ℕ → Bool
nonempty [] = false
nonempty (c ∷ s) = true

-- the longest run of digits, `\d+`, and what follows it
abbrev pub take_digits : List ℕ → List ℕ
take_digits [] = []
take_digits (c ∷ s) = let rest = take_digits s in if is_digit c then c ∷ rest else []

abbrev pub drop_digits : List ℕ → List ℕ
drop_digits [] = []
drop_digits (c ∷ s) = let rest = drop_digits s in if is_digit c then rest else c ∷ s

-- the end of the text, and `$`: the end, or a newline that ends the text
abbrev pub at_end : List ℕ → Bool
at_end [] = true
at_end (c ∷ s) = false

abbrev pub at_dollar : List ℕ → Bool
at_dollar [] = true
at_dollar (c ∷ []) = eqb c 10
at_dollar (c ∷ d ∷ s) = false

-- `:\d+`, then the end
abbrev pub colon_digits : (List ℕ → Bool) → List ℕ → Bool
colon_digits ends [] = false
colon_digits ends (c ∷ s) = eqb c b':' && nonempty (take_digits s) && ends (drop_digits s)

-- `\d+:\d+`, then the end
unfoldable pub matches_ratio : (List ℕ → Bool) → List ℕ → Bool
matches_ratio ends s = nonempty (take_digits s) && colon_digits ends (drop_digits s)

-- `re.fullmatch(r"\d+:\d+", s)` and `re.compile(r"^\d+:\d+$").match(s)`
abbrev pub full_match : List ℕ → Bool
full_match = matches_ratio at_end

abbrev pub line_match : List ℕ → Bool
line_match = matches_ratio at_dollar

-- `new_s, old_s = parts`, each through `int`
unfoldable pub two_ints : List (List ℕ) → Option (ℤ × ℤ)
unfolding int
two_ints (a ∷ b ∷ []) = elim (int a) [
  | none ↦ none
  | some x ↦ elim (int b) [ none ↦ none | some y ↦ some (x, y) ]
]
two_ints _ = none

-- both must be above zero
unfoldable pub both_positive : ℤ → ℤ → Option (ℕ × ℕ)
both_positive (pos n) (pos m) = if ltb 0 n && ltb 0 m then some (n, m) else none
both_positive (pos n) (negsuc m) = none
both_positive (negsuc n) m = none

unfoldable pub ratio_of_codes : List ℕ → Option (ℕ × ℕ)
unfolding matches_ratio split two_ints both_positive
ratio_of_codes s =
    if line_match s
    then elim (two_ints (split b':' s)) [ none ↦ none | some (x, y) ↦ both_positive x y ]
    else none

-- `parse_ratio`
unfoldable pub parse_ratio : Option String → Option (ℕ × ℕ)
unfolding ratio_of_codes
parse_ratio r = elim (given r) [ none ↦ none | some s ↦ ratio_of_codes (codes s) ]

-- `str(n)`, with fuel above the number of digits
unfoldable pub show_from : ℕ → ℕ → List ℕ
show_from zero n = []
show_from (suc f) n =
    let front = show_from f (n / 10) in
    if ltb n 10 then (b'0' + n) ∷ [] else front ++ (b'0' + n % 10) ∷ []

unfoldable pub show : ℕ → List ℕ
unfolding show_from
show n = show_from (suc n) n

-- `str(n)`, as a text
abbrev pub digit_texts : List String
digit_texts = "0" ∷ "1" ∷ "2" ∷ "3" ∷ "4" ∷ "5" ∷ "6" ∷ "7" ∷ "8" ∷ "9" ∷ []

abbrev pub text_at : ℕ → List String → String
text_at n [] = ""
text_at zero (t ∷ ts) = t
text_at (suc n) (t ∷ ts) = text_at n ts

abbrev pub text_of_digits : List ℕ → String
text_of_digits [] = ""
text_of_digits (c ∷ s) = String.◌++◌ (text_at (c - b'0') digit_texts) (text_of_digits s)

unfoldable pub str : ℕ → String
unfolding show
str n = text_of_digits (show n)

parse_ratio_examples :
    (parse_ratio (some "10:1") ≡ some (10, 1))
    × (parse_ratio (some "10:1\n") ≡ some (10, 1))
    × (parse_ratio (some "0:1") ≡ none)
    × (parse_ratio (some "1.5:1") ≡ none)
unfolding parse_ratio
parse_ratio_examples = (refl, refl, refl, refl)
