-- ===== src/Build/Sql/Read.antt =====
-- A reader of SQL literals gets back what a row was written from.
use corporate_actions.Prelude.{
  ◌≡◌, refl, sym, ap, ◌∙◌, ℕ, zero, suc, String, Bool, true, false, not, ◌&&◌, ◌||◌, Option, none,
  some, List, [], ◌∷◌, ◌++◌, all, All, length, eqb, if◌then◌else◌, arith, Bool-cases, inl, inr,
}
use Prim.Native.String
use Prim.Native.Char.{code}
use mathlib.Core.List.{append_assoc, append-nil}
use corporate_actions.Prelude.Text.{codes, codes-append}
use corporate_actions.Model.{Value, number, flag, text, other, Action}
use corporate_actions.Validate.ActionId.{drop_prefix}
use corporate_actions.Build.Sql.{
  Printer, double_quotes, quote, join, sql_escape, as_text, columns, later_columns, escaped,
  insert_line,
}

-- a literal as a reader sees it: a run of characters without quotes, or a quoted text
pub data Cell : Type 0 where
  bare quoted : List ℕ → Cell

abbrev pub is_quote : ℕ → Bool
is_quote c = eqb c 39

-- a comma or a closing parenthesis
abbrev pub is_stop : ℕ → Bool
is_stop c = eqb c 44 || eqb c 41

abbrev pub push : ℕ → Option (List ℕ × List ℕ) → Option (List ℕ × List ℕ)
push c none = none
push c (some (s, rest)) = some (c ∷ s, rest)

-- the text up to its closing quote, and what follows; the Boolean tells that a quote came before,
-- which closes the text unless another one follows
abbrev pub read_text : Bool → List ℕ → Option (List ℕ × List ℕ)
read_text true [] = some ([], [])
read_text false [] = none
read_text false (c ∷ s) = elim (is_quote c) [
  | true ↦ read_text true s
  | false ↦ push c (read_text false s)
]
read_text true (c ∷ s) = elim (is_quote c) [
  | true ↦ push c (read_text false s)
  | false ↦ some ([], c ∷ s)
]

abbrev pub read_bare : List ℕ → List ℕ × List ℕ
read_bare [] = ([], [])
read_bare (c ∷ s) =
    let rest = read_bare s in if is_stop c then ([], c ∷ s) else (c ∷ rest.0, rest.1)

abbrev pub quoted_of : Option (List ℕ × List ℕ) → Option (Cell × List ℕ)
quoted_of none = none
quoted_of (some (s, rest)) = some (quoted s, rest)

abbrev pub read_cell : List ℕ → Option (Cell × List ℕ)
read_cell [] = none
read_cell (c ∷ s) =
    if is_quote c
    then quoted_of (read_text false s)
    else some (bare (read_bare (c ∷ s)).0, (read_bare (c ∷ s)).1)

-- some more cells, each after a comma and a blank, and the end of the row
abbrev pub read_more : ℕ → List ℕ → Option (List Cell)
read_more zero s = elim (drop_prefix (codes ");") s) [ some [] ↦ some [] | _ ↦ none ]
read_more (suc n) s = elim (drop_prefix (codes ", ") s) [
  | none ↦ none
  | some t ↦ elim (read_cell t) [
    | none ↦ none
    | some (cell, rest) ↦ elim (read_more n rest) [ none ↦ none | some cells ↦ some (cell ∷ cells) ]
  ]
]

-- a row of one cell and some more
abbrev pub read_row : ℕ → List ℕ → Option (List Cell)
read_row n s = elim (read_cell s) [
  | none ↦ none
  | some (cell, rest) ↦ elim (read_more n rest) [ none ↦ none | some cells ↦ some (cell ∷ cells) ]
]

abbrev pub read_insert : List ℕ → Option (List Cell)
read_insert s = elim (drop_prefix (codes "INSERT INTO corporate_actions VALUES (") s) [
  | none ↦ none
  | some t ↦ read_row 16 t
]

-- the text of a literal
abbrev pub doubled : List ℕ → List ℕ
doubled [] = []
doubled (c ∷ s) = let rest = doubled s in if is_quote c then c ∷ c ∷ rest else c ∷ rest

abbrev pub written : Cell → List ℕ
written (bare s) = s
written (quoted s) = 39 ∷ doubled s ++ 39 ∷ []

-- a number's text: not empty, and without quotes, commas and parentheses
abbrev pub is_plain : List ℕ → Bool
is_plain [] = false
is_plain (c ∷ s) = all (λ d. not (is_stop d) && not (is_quote d)) (c ∷ s)

abbrev pub IsCell : Cell → Type 0
IsCell (bare s) = is_plain s ≡ true
IsCell (quoted s) = Unit

read_text-doubled :
    (s t : List ℕ) (d : ℕ)
    → is_quote d ≡ false
    → read_text false (doubled s ++ 39 ∷ d ∷ t) ≡ some (s, d ∷ t)
read_text-doubled [] t d h = ground (arith, h)
read_text-doubled (c ∷ s) t d h = ground (arith, read_text-doubled s t d h)

read_bare-stop :
    (s t : List ℕ) (d : ℕ)
    → is_stop d ≡ true
    → all (λ c. not (is_stop c) && not (is_quote c)) s ≡ true
    → read_bare (s ++ d ∷ t) ≡ (s, d ∷ t)
read_bare-stop [] t d h k = rw h refl
read_bare-stop (c ∷ s) t d h k = ground (arith, read_bare-stop s t d h)

stop-quote : (d : ℕ) → is_stop d ≡ true → is_quote d ≡ false
stop-quote d h = ground arith

read_cell-written :
    (x : Cell) (t : List ℕ) (d : ℕ)
    → IsCell x
    → is_stop d ≡ true
    → read_cell (written x ++ d ∷ t) ≡ some (x, d ∷ t)
read_cell-written (bare []) t d v h = absurd (ground arith)
read_cell-written (bare (c ∷ s)) t d v h = ground (arith, read_bare-stop (c ∷ s) t d h v)
read_cell-written (quoted s) t d v h =
    rw (append_assoc (doubled s) (39 ∷ []) (d ∷ t))
      (ap quoted_of (read_text-doubled s t d (stop-quote d h)))

-- what follows the first literal of a row
abbrev pub row_tail : List Cell → List ℕ
row_tail [] = codes ");"
row_tail (x ∷ xs) = codes ", " ++ written x ++ row_tail xs

read_cell-row_tail :
    (x : Cell) (xs : List Cell)
    → IsCell x
    → read_cell (written x ++ row_tail xs) ≡ some (x, row_tail xs)
read_cell-row_tail x [] v = read_cell-written x (codes ";") 41 v refl
read_cell-row_tail x (y ∷ ys) v = read_cell-written x (32 ∷ written y ++ row_tail ys) 44 v refl

read_more-row_tail :
    (xs : List Cell) → All IsCell xs → read_more (length xs) (row_tail xs) ≡ some xs
unfolding drop_prefix
read_more-row_tail [] v = refl
read_more-row_tail (x ∷ xs) v =
    rw (read_cell-row_tail x xs v.0, read_more) (rw (read_more-row_tail xs v.1) refl)

codes-double_quotes : (s : String) → codes (double_quotes s) ≡ doubled (codes s)
unfolding double_quotes
codes-double_quotes String.[] = refl
codes-double_quotes (String.◌∷◌ c s) = elim (Bool-cases (is_quote (code c))) [
  | inl e ↦ rw e (ap (λ (r : List ℕ). code c ∷ code c ∷ r) (codes-double_quotes s))
  | inr e ↦ rw e (ap (λ (r : List ℕ). code c ∷ r) (codes-double_quotes s))
]

codes-quote : (s : String) → codes (quote s) ≡ written (quoted (codes s))
codes-quote s =
    codes-append "'" (String.◌++◌ (double_quotes s) "'")
    ∙ ap (λ (r : List ℕ). 39 ∷ r)
        (codes-append (double_quotes s) "'"
          ∙ ap (λ (r : List ℕ). r ++ 39 ∷ []) (codes-double_quotes s))

abbrev row_middle : List Cell → List ℕ
row_middle [] = []
row_middle (x ∷ xs) = codes ", " ++ written x ++ row_middle xs

row_middle-end : (xs : List Cell) → row_middle xs ++ codes ");" ≡ row_tail xs
row_middle-end [] = refl
row_middle-end (x ∷ xs) =
    ap (λ (r : List ℕ). codes ", " ++ r)
      (append_assoc (written x) (row_middle xs) (codes ");")
        ∙ ap (λ (r : List ℕ). written x ++ r) (row_middle-end xs))

module _ {N : Type 0} (printer : Printer N) where
  -- the literal that stands for a value
  abbrev pub cell_of : Option (Value N) → Cell
  cell_of none = bare (codes "NULL")
  cell_of (some (flag true)) = bare (codes "1")
  cell_of (some (flag false)) = bare (codes "0")
  cell_of (some (number x)) = bare (codes (printer.of_number x))
  cell_of (some (text s)) = quoted (codes s)
  cell_of (some (other b)) = quoted (codes (printer.of_other b))

  codes-sql_escape : (v : Option (Value N)) → codes (sql_escape printer v) ≡ written (cell_of v)
  unfolding sql_escape
  codes-sql_escape none = refl
  codes-sql_escape (some (flag true)) = refl
  codes-sql_escape (some (flag false)) = refl
  codes-sql_escape (some (number x)) = refl
  codes-sql_escape (some (text s)) = codes-quote s
  codes-sql_escape (some (other b)) = codes-quote (printer.of_other b)

  abbrev pub cells_of : List (Option (Value N)) → List Cell
  cells_of [] = []
  cells_of (v ∷ vs) = cell_of v ∷ cells_of vs

  codes-join :
      (v : Option (Value N)) (vs : List (Option (Value N)))
      → codes (join ", " (escaped printer (v ∷ vs)))
        ≡ written (cell_of v) ++ row_middle (cells_of vs)
  unfolding escaped
  codes-join v [] = codes-sql_escape v ∙ sym (append-nil (written (cell_of v)))
  codes-join v (w ∷ vs) =
      codes-append (sql_escape printer v) (String.◌++◌ ", " (join ", " (escaped printer (w ∷ vs))))
      ∙ rw
          (
            codes-sql_escape v,
            codes-append ", " (join ", " (escaped printer (w ∷ vs))),
            codes-join w vs,
          )
          refl

  codes-row :
      (v : Option (Value N)) (vs : List (Option (Value N)))
      → codes (String.◌++◌ (join ", " (escaped printer (v ∷ vs))) ");")
        ≡ written (cell_of v) ++ row_tail (cells_of vs)
  codes-row v vs =
      codes-append (join ", " (escaped printer (v ∷ vs))) ");"
      ∙ ap (λ (r : List ℕ). r ++ codes ");") (codes-join v vs)
      ∙ append_assoc (written (cell_of v)) (row_middle (cells_of vs)) (codes ");")
      ∙ ap (λ (r : List ℕ). written (cell_of v) ++ r) (row_middle-end (cells_of vs))

  module _ (numbers : (x : N) → is_plain (codes (printer.of_number x)) ≡ true) where
    cell_of-IsCell : (v : Option (Value N)) → IsCell (cell_of v)
    cell_of-IsCell none = refl
    cell_of-IsCell (some (flag true)) = refl
    cell_of-IsCell (some (flag false)) = refl
    cell_of-IsCell (some (number x)) = numbers x
    cell_of-IsCell (some (text s)) = tt
    cell_of-IsCell (some (other b)) = tt

    cells_of-All : (vs : List (Option (Value N))) → All IsCell (cells_of vs)
    cells_of-All [] = tt
    cells_of-All (v ∷ vs) = (cell_of-IsCell v, cells_of-All vs)

    read_row-cells :
        (v : Option (Value N)) (vs : List (Option (Value N)))
        → read_row
            (length (cells_of vs))
            (codes (String.◌++◌ (join ", " (escaped printer (v ∷ vs))) ");"))
          ≡ some (cells_of (v ∷ vs))
    read_row-cells v vs =
        ap (read_row (length (cells_of vs))) (codes-row v vs)
        ∙ rw (read_cell-row_tail (cell_of v) (cells_of vs) (cell_of-IsCell v), read_row)
            (rw (read_more-row_tail (cells_of vs) (cells_of-All vs)) refl)

    insert-cells :
        (v : Option (Value N)) (vs : List (Option (Value N)))
        → length (cells_of vs) ≡ 16
        → read_insert (
            codes (
              String.◌++◌ "INSERT INTO corporate_actions VALUES ("
                (String.◌++◌ (join ", " (escaped printer (v ∷ vs))) ");")))
          ≡ some (cells_of (v ∷ vs))
    unfolding drop_prefix
    insert-cells v vs h =
        rw
          (codes-append "INSERT INTO corporate_actions VALUES ("
            (String.◌++◌ (join ", " (escaped printer (v ∷ vs))) ");"))
          (rw (← h) (read_row-cells v vs))

    -- Where the text of a number has no quote, comma or parenthesis: a reader of SQL literals gets
    -- back from an INSERT line the seventeen values that it was written from, whatever quotes,
    -- commas and parentheses the texts hold.
    pub insert_line-read :
        (a : Action N)
        → read_insert (codes (insert_line printer a)) ≡ some (cells_of (columns printer a))
    unfolding insert_line
    insert_line-read a = insert-cells (as_text printer a.action_id) (later_columns printer a) refl
