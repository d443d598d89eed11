-- ===== src/Ratio/Digits.antt =====
-- Runs of digits: what `int` reads from them, and that `show` writes them.
use mathlib.Core.List.{reverse, reverse-append, reverse-reverse}
use Prim.Native.Nat.{◌<◌}
use corporate_actions.Prelude.{
  ℕ, zero, suc, ◌+◌, ◌*◌, ◌-◌, ◌/◌, ◌%◌, ◌≡◌, refl, ◌∙◌, Bool, true, false, ◌&&◌, some, List, [],
  ◌∷◌, ◌++◌, arith, all,
}
use corporate_actions.Prelude.Int.{pos}
use corporate_actions.Prelude.Text.{
  is_digit, strip_left, strip, read_digits, read_signed, int, split,
}
use corporate_actions.Ratio.{nonempty, take_digits, drop_digits, show_from, show}

-- the number that a run of digits stands for, after the digits read before it
abbrev pub value_from : ℕ → List ℕ → ℕ
value_from acc [] = acc
value_from acc (c ∷ s) = value_from (acc * 10 + (c - 48)) s

abbrev pub all_digits : List ℕ → Bool
all_digits s = all is_digit s

pub all_digits-append : (s t : List ℕ) → all_digits (s ++ t) ≡ (all_digits s && all_digits t)
all_digits-append [] t = refl
all_digits-append (c ∷ s) t = ground (arith, all_digits-append s t)

pub all_digits-reverse : (s : List ℕ) → all_digits (reverse s) ≡ all_digits s
all_digits-reverse [] = refl
all_digits-reverse (c ∷ s) =
    rw (reverse-append (c ∷ []) s)
      (rw (all_digits-append (reverse s) (c ∷ [])) (ground (arith, all_digits-reverse s)))

pub strip_left-digits : (s : List ℕ) → all_digits s ≡ true → strip_left s ≡ s
unfolding strip_left
strip_left-digits [] h = refl
strip_left-digits (c ∷ s) h = ground arith

strip-digits : (s : List ℕ) → all_digits s ≡ true → strip s ≡ s
unfolding strip
strip-digits s h =
    rw (strip_left-digits s h)
      (rw (strip_left-digits (reverse s) (all_digits-reverse s ∙ h)) (reverse-reverse s))

read_digits-digits :
    (acc : ℕ) (s : List ℕ) → all_digits s ≡ true → read_digits acc true s ≡ some (value_from acc s)
unfolding read_digits
read_digits-digits acc [] h = refl
read_digits-digits acc (c ∷ s) h = ground (arith, read_digits-digits (acc * 10 + (c - 48)) s)

-- `int` reads a run of digits as the number that it stands for.
pub int-digits :
    (s : List ℕ) → all_digits s ≡ true → nonempty s ≡ true → int s ≡ some (pos (value_from 0 s))
unfolding int read_signed read_digits
int-digits [] h k = cc
int-digits (c ∷ s) h k =
    rw (strip-digits (c ∷ s) h, int) (ground (arith, read_digits-digits (0 * 10 + (c - 48)) s))

value_from-snoc :
    (acc : ℕ) (s : List ℕ) (c : ℕ) → value_from acc (s ++ c ∷ []) ≡ value_from acc s * 10 + (c - 48)
value_from-snoc acc [] c = refl
value_from-snoc acc (d ∷ s) c = value_from-snoc (acc * 10 + (d - 48)) s c

show_from-all_digits : (f n : ℕ) → all_digits (show_from f n) ≡ true
unfolding show_from
show_from-all_digits zero n = refl
show_from-all_digits (suc f) n = ground (
  arith,
  show_from-all_digits f (n / 10),
  all_digits-append (show_from f (n / 10)) ((48 + n % 10) ∷ []),
)

value_from-show_from : (f n : ℕ) → n < f → value_from 0 (show_from f n) ≡ n
unfolding show_from
value_from-show_from zero n h = elim h [ ]
value_from-show_from (suc f) n h =
    ground (
      arith,
      value_from-show_from f (n / 10),
      value_from-snoc 0 (show_from f (n / 10)) (48 + n % 10),
    )

pub show-all_digits : (n : ℕ) → all_digits (show n) ≡ true
unfolding show
show-all_digits n = show_from-all_digits (suc n) n

nonempty-snoc : (s : List ℕ) (c : ℕ) → nonempty (s ++ c ∷ []) ≡ true
nonempty-snoc [] c = refl
nonempty-snoc (d ∷ s) c = refl

pub show-nonempty : (n : ℕ) → nonempty (show n) ≡ true
unfolding show show_from
show-nonempty n = ground (arith, nonempty-snoc (show_from n (n / 10)) (48 + n % 10))

pub value_from-show : (n : ℕ) → value_from 0 (show n) ≡ n
unfolding show
value_from-show n = value_from-show_from (suc n) n (omega arith)

-- A run of digits is taken whole, up to what is no digit.
pub take_digits-run :
    (s : List ℕ) (c : ℕ) (t : List ℕ)
    → all_digits s ≡ true
    → is_digit c ≡ false
    → take_digits (s ++ c ∷ t) ≡ s
take_digits-run [] c t h k = ground arith
take_digits-run (d ∷ s) c t h k = ground (arith, take_digits-run s c t)

pub drop_digits-run :
    (s : List ℕ) (c : ℕ) (t : List ℕ)
    → all_digits s ≡ true
    → is_digit c ≡ false
    → drop_digits (s ++ c ∷ t) ≡ c ∷ t
drop_digits-run [] c t h k = ground arith
drop_digits-run (d ∷ s) c t h k = ground (arith, drop_digits-run s c t)

pub take_digits_all : (s : List ℕ) → all_digits s ≡ true → take_digits s ≡ s
take_digits_all [] h = refl
take_digits_all (d ∷ s) h = ground (arith, take_digits_all s)

pub drop_digits_all : (s : List ℕ) → all_digits s ≡ true → drop_digits s ≡ []
drop_digits_all [] h = refl
drop_digits_all (d ∷ s) h = ground (arith, drop_digits_all s)

pub take-drop_digits : (s : List ℕ) → take_digits s ++ drop_digits s ≡ s
take-drop_digits [] = refl
take-drop_digits (c ∷ s) = ground (arith, take-drop_digits s)

pub all_digits-take_digits : (s : List ℕ) → all_digits (take_digits s) ≡ true
all_digits-take_digits [] = refl
all_digits-take_digits (c ∷ s) = ground (arith, all_digits-take_digits s)

-- A run of digits holds no separator that is no digit.
pub split-digits :
    (sep : ℕ) (s : List ℕ) → is_digit sep ≡ false → all_digits s ≡ true → split sep s ≡ s ∷ []
unfolding split
split-digits sep [] k h = refl
split-digits sep (c ∷ s) k h = ground (arith, split-digits sep s)

pub split-digits_sep :
    (sep : ℕ) (s t : List ℕ)
    → is_digit sep ≡ false
    → all_digits s ≡ true
    → split sep (s ++ sep ∷ t) ≡ s ∷ split sep t
unfolding split
split-digits_sep sep [] t k h = ground arith
split-digits_sep sep (c ∷ s) t k h = ground (arith, split-digits_sep sep s t)
