-- ===== src/Prelude/Text.antt =====
-- Python's operations on `str` that the program uses: order, split, int(), case, substring.
-- Characters are code points; digits, letters and blanks are the ASCII ones.
use Prim.Native.Nat.{ℕ, ◌+◌, ◌-◌, ◌*◌}
use Prim.Native.Char.{Char, code}
use Prim.Native.String.{String, compare, char_at}
use Prim.Native.String as Native
use mathlib.Core.Bool.{Bool, true, false, not, ◌&&◌, ◌||◌}
use mathlib.Core.Option.{Option, none, some}
use mathlib.Core.List.{List, [], ◌∷◌, ◌++◌, map, reverse}
use mathlib.Core.Path.{◌≡◌, refl, ap, ◌∙◌}
use text.Mathlib.Text.{is_lt, ◌==◌}
use corporate_actions.Prelude.Tests.{leb, eqb, if◌then◌else◌}
use corporate_actions.Prelude.Int.{ℤ, pos, neg_ℕ}

-- `s < t`, `s <= t` and `s != t` on texts
abbrev pub str_lt : String → String → Bool
str_lt s t = is_lt (compare s t)

abbrev pub str_le : String → String → Bool
str_le s t = not (str_lt t s)

abbrev pub str_ne : String → String → Bool
str_ne s t = not (s == t)

-- a value that is given and not the empty text: what `if x:` tests of an optional text
abbrev pub given : Option String → Option String
given none = none
given (some s) = if s == "" then none else some s

abbrev pub is_some : Option String → Bool
is_some none = false
is_some (some _) = true

-- `x or d`
abbrev pub or_else : Option String → String → String
or_else none d = d
or_else (some s) d = if s == "" then d else s

abbrev pub codes : String → List ℕ
codes String.[] = []
codes (String.◌∷◌ c s) = code c ∷ codes s

-- The characters of two texts put together.
pub codes-append : (s t : String) → codes (Native.◌++◌ s t) ≡ codes s ++ codes t
codes-append String.[] t = ap codes (Native.append.nil t)
codes-append (String.◌∷◌ c s) t =
    ap codes (Native.append.cons c s t) ∙ ap (λ (r : List ℕ). code c ∷ r) (codes-append s t)

abbrev pub is_digit : ℕ → Bool
is_digit c = leb b'0' c && leb c b'9'

abbrev pub is_blank : ℕ → Bool
is_blank c = (leb 9 c && leb c 13) || (leb 28 c && leb c 32)

abbrev pub to_lower : ℕ → ℕ
to_lower c = if leb b'A' c && leb c b'Z' then c + 32 else c

abbrev pub to_upper : ℕ → ℕ
to_upper c = if leb b'a' c && leb c b'z' then c - 32 else c

-- `s.upper()`, as a text
abbrev pub upper_char : Char → Char
upper_char c =
    if leb b'a' (code c) && leb (code c) b'z'
    then char_at "ABCDEFGHIJKLMNOPQRSTUVWXYZ" (code c - b'a')
    else c

unfoldable pub upper_text : String → String
upper_text String.[] = ""
upper_text (String.◌∷◌ c s) = String.◌∷◌ (upper_char c) (upper_text s)

-- `s.lower()` and `s.upper()`, as code points
unfoldable pub lower : String → List ℕ
lower s = map to_lower (codes s)

unfoldable pub upper : String → List ℕ
upper s = map to_upper (codes s)

unfoldable pub codes_eq : List ℕ → List ℕ → Bool
codes_eq [] [] = true
codes_eq [] (d ∷ t) = false
codes_eq (c ∷ s) [] = false
codes_eq (c ∷ s) (d ∷ t) = eqb c d && codes_eq s t

unfoldable pub is_prefix : List ℕ → List ℕ → Bool
is_prefix [] s = true
is_prefix (c ∷ p) [] = false
is_prefix (c ∷ p) (d ∷ s) = eqb c d && is_prefix p s

-- `p in s`
unfoldable pub is_infix : List ℕ → List ℕ → Bool
unfolding is_prefix
is_infix p [] = is_prefix p []
is_infix p (d ∷ s) = is_prefix p (d ∷ s) || is_infix p s

-- `s.split(c)` on one character; a text that is taken apart is its code points
abbrev pub push_first : ℕ → List (List ℕ) → List (List ℕ)
push_first c [] = (c ∷ []) ∷ []
push_first c (p ∷ ps) = (c ∷ p) ∷ ps

unfoldable pub split : ℕ → List ℕ → List (List ℕ)
split sep [] = [] ∷ []
split sep (c ∷ s) = let rest = split sep s in if eqb c sep then [] ∷ rest else push_first c rest

unfoldable pub strip_left : List ℕ → List ℕ
strip_left [] = []
strip_left (c ∷ s) = let rest = strip_left s in if is_blank c then rest else c ∷ s

unfoldable pub strip : List ℕ → List ℕ
unfolding strip_left
strip s = reverse (strip_left (reverse (strip_left s)))

-- the digits of `int()`: single underscores may stand between digits; the Boolean tells that the
-- last character was a digit
unfoldable pub read_digits : ℕ → Bool → List ℕ → Option ℕ
read_digits acc last [] = if last then some acc else none
read_digits acc last (c ∷ s) =
    let rest = read_digits (if is_digit c then acc * 10 + (c - 48) else acc) (is_digit c) s in
    if is_digit c || (eqb c b'_' && last) then rest else none

abbrev pub negate : Option ℕ → Option ℤ
negate none = none
negate (some n) = some (neg_ℕ n)

abbrev pub positive : Option ℕ → Option ℤ
positive none = none
positive (some n) = some (pos n)

unfoldable pub read_signed : List ℕ → Option ℤ
unfolding read_digits
read_signed [] = none
read_signed (c ∷ s) =
    if eqb c b'-'
    then negate (read_digits 0 false s)
    else if eqb c b'+'
    then positive (read_digits 0 false s)
    else positive (read_digits 0 false (c ∷ s))

-- `int(s)`; `none` is ValueError
unfoldable pub int : List ℕ → Option ℤ
unfolding strip read_signed
int s = read_signed (strip s)

int_examples : (int (codes " +1_0\n") ≡ some (pos 10)) × (int (codes "1__0") ≡ none)
unfolding int
int_examples = (refl, refl)

split_example : split b':' (codes "10:1") ≡ codes "10" ∷ codes "1" ∷ []
unfolding split
split_example = refl
