-- ===== src/Ratio/Parse.antt =====
-- A ratio that matches is read as two numbers, and the two expressions differ by one newline.
use mathlib.Core.List.{reverse-append, append-nil, append_assoc}
use mathlib.Core.Bool.{false≢true}
use corporate_actions.Prelude.{
  ℕ, ◌≡◌, refl, sym, ap, ◌∙◌, String, Bool, true, false, ◌&&◌, none, some, List, [], ◌∷◌, ◌++◌,
  arith, ltb, if◌then◌else◌, Bool-cases, inl, inr, eq_iff, ◌==◌,
}
use corporate_actions.Prelude.Int.{pos}
use corporate_actions.Prelude.Text.{codes, given, strip_left, strip, int, split}
use corporate_actions.Ratio.{
  nonempty, take_digits, drop_digits, at_end, colon_digits, matches_ratio, full_match, line_match,
  two_ints, both_positive, ratio_of_codes, parse_ratio, show,
}
use corporate_actions.Ratio.Digits.{
  value_from, all_digits, strip_left-digits, int-digits, show-all_digits, show-nonempty,
  value_from-show, take_digits-run, drop_digits-run, take_digits_all, drop_digits_all,
  take-drop_digits, all_digits-take_digits, split-digits, split-digits_sep,
}

-- `new:old`, followed by the rest of the text
abbrev pub ratio_text : List ℕ → List ℕ → List ℕ
ratio_text new old = new ++ b':' ∷ old

-- A text that the expression matches: two runs of digits round a colon, and an end.
pub record RatioShape (ends : List ℕ → Bool) (s : List ℕ) : Type 0 where
  pub new : List ℕ
  pub old : List ℕ
  pub rest : List ℕ
  pub shape : s ≡ ratio_text new (old ++ rest)
  pub new_digits : all_digits new ≡ true
  pub old_digits : all_digits old ≡ true
  pub new_nonempty : nonempty new ≡ true
  pub old_nonempty : nonempty old ≡ true
  pub ended : ends rest ≡ true

colon_digits-shape :
    (ends : List ℕ → Bool) (n t : List ℕ)
    → all_digits n ≡ true
    → nonempty n ≡ true
    → colon_digits ends t ≡ true
    → RatioShape ends (n ++ t)
colon_digits-shape ends n [] h k c = cc
colon_digits-shape ends n (x ∷ t) h k c = record {
  new = n;
  old = take_digits t;
  rest = drop_digits t;
  shape = rw (take-drop_digits t) (ap (λ (y : ℕ). n ++ y ∷ t) (ground arith));
  new_digits = h;
  old_digits = all_digits-take_digits t;
  new_nonempty = k;
  old_nonempty = ground arith;
  ended = ground arith;
}

pub matches_ratio-shape :
    (ends : List ℕ → Bool) (s : List ℕ) → matches_ratio ends s ≡ true → RatioShape ends s
unfolding matches_ratio
matches_ratio-shape ends s h = rw (take-drop_digits s) at (
    colon_digits-shape ends (take_digits s) (drop_digits s) (all_digits-take_digits s)
      (ground arith) (ground arith))

pub full_match-ratio_text :
    (n d : List ℕ)
    → all_digits n ≡ true
    → all_digits d ≡ true
    → nonempty n ≡ true
    → nonempty d ≡ true
    → full_match (ratio_text n d) ≡ true
unfolding matches_ratio
full_match-ratio_text n d h k hn hd = rw (
  take_digits-run n b':' d h refl,
  drop_digits-run n b':' d h refl,
  take_digits_all d k,
  drop_digits_all d k,
  hn,
  hd,
)

pub two_ints-ratio_text :
    (n d : List ℕ)
    → all_digits n ≡ true
    → all_digits d ≡ true
    → nonempty n ≡ true
    → nonempty d ≡ true
    → two_ints (split b':' (ratio_text n d)) ≡ some (pos (value_from 0 n), pos (value_from 0 d))
unfolding two_ints
two_ints-ratio_text n d h k hn hd =
    rw (split-digits_sep b':' n d refl h, split-digits b':' d refl k)
      (rw (int-digits n h hn, two_ints) (rw (int-digits d k hd, two_ints) refl))

at_end-nil : (rest : List ℕ) → at_end rest ≡ true → rest ≡ []
at_end-nil [] e = refl
at_end-nil (c ∷ t) e = cc

RatioShape-whole : {s : List ℕ} (m : RatioShape at_end s) → s ≡ ratio_text m.new m.old
RatioShape-whole m =
    m.shape
    ∙ ap (λ (t : List ℕ). ratio_text m.new (m.old ++ t)) (at_end-nil m.rest m.ended)
    ∙ ap (ratio_text m.new) (append-nil m.old)

-- A ratio that matches to its very end reads as two numbers: `int` raises no ValueError.
pub full_match-two_ints :
    (s : List ℕ)
    → full_match s ≡ true
    → (n : ℕ) × (d : ℕ) × (two_ints (split b':' s) ≡ some (pos n, pos d))
full_match-two_ints s h =
    let m = matches_ratio-shape at_end s h in
    (
      value_from 0 m.new,
      value_from 0 m.old,
      ap (λ (t : List ℕ). two_ints (split b':' t)) (RatioShape-whole m)
          ∙ two_ints-ratio_text m.new m.old m.new_digits m.old_digits m.new_nonempty m.old_nonempty,
    )

strip_left_ahead :
    (d t : List ℕ) → all_digits d ≡ true → nonempty d ≡ true → strip_left (d ++ t) ≡ d ++ t
unfolding strip_left
strip_left_ahead [] t h k = cc
strip_left_ahead (c ∷ d) t h k = ground arith

-- the trailing newline is a blank, which `int` strips
strip_newline :
    (d : List ℕ) → all_digits d ≡ true → nonempty d ≡ true → strip (d ++ 10 ∷ []) ≡ strip d
unfolding strip strip_left
strip_newline d h k =
    rw (strip_left_ahead d (10 ∷ []) h k, reverse-append d (10 ∷ []), strip_left-digits d h)

int-newline : (d : List ℕ) → all_digits d ≡ true → nonempty d ≡ true → int (d ++ 10 ∷ []) ≡ int d
unfolding int
int-newline d h k = rw (strip_newline d h k, int)

split-newline : (d : List ℕ) → all_digits d ≡ true → split b':' (d ++ 10 ∷ []) ≡ (d ++ 10 ∷ []) ∷ []
unfolding split
split-newline [] h = refl
split-newline (c ∷ d) h = ground (arith, split-newline d)

module _ (n d : List ℕ) (hn : all_digits n ≡ true) (hd : all_digits d ≡ true)
    (kn : nonempty n ≡ true) (kd : nonempty d ≡ true) where
  line_match-ratio_text : line_match (ratio_text n d) ≡ true
  unfolding matches_ratio
  line_match-ratio_text = rw (
    take_digits-run n b':' d hn refl,
    drop_digits-run n b':' d hn refl,
    take_digits_all d hd,
    drop_digits_all d hd,
    kn,
    kd,
  )

  -- `$` stands before a newline that ends the text; `fullmatch` has no such place
  pub matches-newline :
      (line_match (ratio_text n (d ++ 10 ∷ [])) ≡ true)
      × (full_match (ratio_text n (d ++ 10 ∷ [])) ≡ false)
  unfolding matches_ratio
  matches-newline =
      rw
        (
          take_digits-run n b':' (d ++ 10 ∷ []) hn refl,
          drop_digits-run n b':' (d ++ 10 ∷ []) hn refl,
          take_digits-run d 10 [] hd refl,
          drop_digits-run d 10 [] hd refl,
          kn,
          kd,
        )
        (refl, refl)

  two_ints-newline :
      two_ints (split b':' (ratio_text n (d ++ 10 ∷ [])))
      ≡ some (pos (value_from 0 n), pos (value_from 0 d))
  unfolding two_ints
  two_ints-newline =
      rw (split-digits_sep b':' n (d ++ 10 ∷ []) refl hn, split-newline d hd)
        (rw (int-digits n hn kn, two_ints)
          (rw (int-newline d hd kd ∙ int-digits d hd kd, two_ints) refl))

  ratio_of_codes-ratio_text :
      ratio_of_codes (ratio_text n d) ≡ both_positive (pos (value_from 0 n)) (pos (value_from 0 d))
  unfolding ratio_of_codes
  ratio_of_codes-ratio_text =
      rw (line_match-ratio_text, ratio_of_codes)
        (rw (two_ints-ratio_text n d hn hd kn kd, ratio_of_codes) refl)

  ratio_of_codes_newline_text :
      ratio_of_codes (ratio_text n (d ++ 10 ∷ []))
      ≡ both_positive (pos (value_from 0 n)) (pos (value_from 0 d))
  unfolding ratio_of_codes
  ratio_of_codes_newline_text =
      rw (matches-newline.0, ratio_of_codes) (rw (two_ints-newline, ratio_of_codes) refl)

  ratio_of_codes-newline :
      ratio_of_codes (ratio_text n (d ++ 10 ∷ [])) ≡ ratio_of_codes (ratio_text n d)
  unfolding ratio_of_codes
  ratio_of_codes-newline = ratio_of_codes_newline_text ∙ sym ratio_of_codes-ratio_text

-- a text with a character is not the empty one, which `if not ratio` turns away
pub given-nonempty : (r : String) → nonempty (codes r) ≡ true → given (some r) ≡ some r
given-nonempty r h = elim (Bool-cases (r == "")) [
  | inl e ↦
      absurd (false≢true (sym (ap (λ (t : String). nonempty (codes t)) ((eq_iff r "").0 e)) ∙ h))
  | inr e ↦ rw e
]

parse_ratio-codes :
    (r : String) → nonempty (codes r) ≡ true → parse_ratio (some r) ≡ ratio_of_codes (codes r)
unfolding parse_ratio
parse_ratio-codes r h = rw (given-nonempty r h, parse_ratio)

pub nonempty-ratio_text : (n t : List ℕ) → nonempty (ratio_text n t) ≡ true
nonempty-ratio_text [] t = refl
nonempty-ratio_text (c ∷ n) t = refl

-- `parse_ratio` reads back the two numbers that an f-string writes round a colon, if both are
-- positive, and refuses the text if one is 0.
pub parse_ratio-show :
    (new old : ℕ) (r : String)
    → codes r ≡ ratio_text (show new) (show old)
    → parse_ratio (some r) ≡ (if ltb 0 new && ltb 0 old then some (new, old) else none)
unfolding both_positive
parse_ratio-show new old r h =
    rw (parse_ratio-codes r (rw h (nonempty-ratio_text (show new) (show old))), h)
      (rw
        (ratio_of_codes-ratio_text (show new) (show old) (show-all_digits new) (show-all_digits old)
          (show-nonempty new) (show-nonempty old))
        (rw (value_from-show new, value_from-show old)))

newline-ratio_text :
    (s n d : List ℕ) → s ≡ ratio_text n d → s ++ 10 ∷ [] ≡ ratio_text n (d ++ 10 ∷ [])
newline-ratio_text s n d e =
    ap (λ (t : List ℕ). t ++ 10 ∷ []) e ∙ append_assoc n (b':' ∷ d) (10 ∷ [])

-- A ratio that the validator's expression matches is still read by `parse_ratio`, as the same
-- numbers, when a newline is put behind it, and the validator's expression refuses it then.
pub parse_ratio-newline :
    (r r' : String)
    → full_match (codes r) ≡ true
    → codes r' ≡ codes r ++ 10 ∷ []
    → (parse_ratio (some r') ≡ parse_ratio (some r)) × (full_match (codes r') ≡ false)
parse_ratio-newline r r' h e =
    let m = matches_ratio-shape at_end (codes r) h in
    let whole = RatioShape-whole m in
    let same = newline-ratio_text (codes r) m.new m.old whole in
    (
      rw
          (
            parse_ratio-codes r (rw whole (nonempty-ratio_text m.new m.old)),
            parse_ratio-codes r' (rw (e, same) (nonempty-ratio_text m.new (m.old ++ 10 ∷ []))),
            e,
            same,
            whole,
          )
          (ratio_of_codes-newline m.new m.old m.new_digits m.old_digits m.new_nonempty
            m.old_nonempty),
      rw (e, same)
          (matches-newline m.new m.old m.new_digits m.old_digits m.new_nonempty m.old_nonempty).1,
    )

-- What matches to the very end matches with `$` too.
pub full_match-line_match : (s : List ℕ) → full_match s ≡ true → line_match s ≡ true
full_match-line_match s h =
    let m = matches_ratio-shape at_end s h in
    ap line_match (RatioShape-whole m)
    ∙ line_match-ratio_text m.new m.old m.new_digits m.old_digits m.new_nonempty m.old_nonempty
