-- ===== src/Rewrite/Shape.antt =====
-- The two expressions for ids, CANONICAL_RE of tools/rewrite_action_ids.py and
-- CANONICAL_ACTION_ID_RE of tools/validate.py, on the parts of an id put together.
use Prim.Native.String.{◌++◌}
use mathlib.Core.List
use mathlib.Core.List.{append-nil}
use corporate_actions.Prelude.{
  ◌≡◌, refl, sym, ap, ◌∙◌, ℕ, String, Bool, true, not, ◌&&◌, Option, none, some, List, [], ◌∷◌, all,
  All, eqb, ◌==◌, eq_iff, arith, Bool-cases, inl, inr, none≢some,
}
use corporate_actions.Prelude.Text.{codes, codes-append, codes_eq, given}
use corporate_actions.Ratio.{nonempty}
use corporate_actions.Ratio.Parse.{given-nonempty}
use corporate_actions.Validate.Unique.{member}
use corporate_actions.Validate.ActionId.{
  match_classes, isin_classes, date_classes, put_front, drop_prefix, type_names, match_type,
  take_line, drop_line, match_disc, match_id,
}
use corporate_actions.Rewrite.{match_type_run, is_canonical}

-- a list of code points
abbrev pub Codes : Type 0
Codes = List ℕ

pub codes_eq_same : (s : Codes) → codes_eq s s ≡ true
unfolding codes_eq
codes_eq_same [] = refl
codes_eq_same (c ∷ s) = ground (arith, codes_eq_same s)

-- a text whose characters are of the classes, whole
abbrev pub Fits : List (ℕ → Bool) → String → Type 0
Fits classes s = match_classes classes (codes s) ≡ some (codes s, [])

put_front-whole :
    (c : ℕ) (s : Codes) (o : Option (Codes × Codes))
    → put_front c o ≡ some (c ∷ s, [])
    → o ≡ some (s, [])
put_front-whole c s none h = absurd (none≢some h)
put_front-whole c s (some (x, rest)) h = cc

-- What fits whole is matched at the front of a longer text, up to its end.
match_classes-append :
    (ps : List (ℕ → Bool)) (s t : Codes)
    → match_classes ps s ≡ some (s, [])
    → match_classes ps (List.◌++◌ s t) ≡ some (s, t)
unfolding match_classes
match_classes-append [] [] t h = refl
match_classes-append [] (c ∷ s) t h = cc
match_classes-append (p ∷ ps) [] t h = absurd (none≢some h)
match_classes-append (p ∷ ps) (c ∷ s) t h = elim (Bool-cases (p c)) [
  | inl e ↦
      let later = put_front-whole c s (match_classes ps s) (rw e at h) in
      rw e (ap (put_front c) (match_classes-append ps s t later))
  | inr e ↦ absurd (none≢some (rw e at h))
]

-- what the two expressions make of a name of a type
pub record IsTypeName (t : String) : Type 0 where
  pub run : (rest : Codes) → match_type_run (List.◌++◌ (codes t) (b'-' ∷ rest)) ≡ some (b'-' ∷ rest)
  pub matched :
      (rest : Codes)
      → match_type type_names (List.◌++◌ (codes t) (b'-' ∷ rest)) ≡ some (codes t, rest)
  pub named : given (some t) ≡ some t

pub type_names-All : All IsTypeName type_names
unfolding match_type_run match_type
type_names-All = (
  record { run = λ r. refl; matched = λ r. refl; named = refl },
  (
    record { run = λ r. refl; matched = λ r. refl; named = refl },
    (
      record { run = λ r. refl; matched = λ r. refl; named = refl },
      (
        record { run = λ r. refl; matched = λ r. refl; named = refl },
        (
          record { run = λ r. refl; matched = λ r. refl; named = refl },
          (
            record { run = λ r. refl; matched = λ r. refl; named = refl },
            (
              record { run = λ r. refl; matched = λ r. refl; named = refl },
              (record { run = λ r. refl; matched = λ r. refl; named = refl }, tt),
            ),
          ),
        ),
      ),
    ),
  ),
)

pub member-All {κ} :
    (P : String → Type κ) (t : String) (ts : List String) → All P ts → member t ts ≡ true → P t
member-All P t [] h m = absurd (ground arith)
member-All P t (y ∷ ts) h m = elim (Bool-cases (t == y)) [
  | inl e ↦ rw ((eq_iff t y).0 e) h.0
  | inr e ↦ member-All P t ts h.1 (ground (arith, e, m))
]

-- one line with a character
abbrev pub is_line : Codes → Bool
is_line s = nonempty s && all (λ c. not (eqb c 10)) s

take_line-whole : (s : Codes) → all (λ c. not (eqb c 10)) s ≡ true → take_line s ≡ s
take_line-whole [] h = refl
take_line-whole (c ∷ s) h = ground (arith, take_line-whole s)

drop_line-whole : (s : Codes) → all (λ c. not (eqb c 10)) s ≡ true → drop_line s ≡ []
drop_line-whole [] h = refl
drop_line-whole (c ∷ s) h = ground (arith, drop_line-whole s)

match_disc-line : (s : Codes) → is_line s ≡ true → match_disc s ≡ some s
unfolding match_disc
match_disc-line s h = ground (arith, take_line-whole s, drop_line-whole s)

-- the parts of an id
abbrev pub id_text : String → String → String → String → String
id_text isin t date disc = isin ++ "-" ++ t ++ "-" ++ date ++ "-" ++ disc

pub codes-dash : (s t : String) → codes (s ++ "-" ++ t) ≡ List.◌++◌ (codes s) (b'-' ∷ codes t)
codes-dash s t = codes-append s ("-" ++ t) ∙ ap (List.◌++◌ (codes s)) (codes-append "-" t)

codes-id_text :
    (isin t date disc : String)
    → codes (id_text isin t date disc)
      ≡ List.◌++◌
          (codes isin)
          (b'-' ∷ List.◌++◌ (codes t) (b'-' ∷ List.◌++◌ (codes date) (b'-' ∷ codes disc)))
codes-id_text isin t date disc =
    codes-dash isin (t ++ "-" ++ date ++ "-" ++ disc)
    ∙ rw (codes-dash t (date ++ "-" ++ disc)) (rw (codes-dash date disc) refl)

module _ (isin t date disc : String) (h : Fits isin_classes isin) (k : Fits date_classes date)
    (n : IsTypeName t) (l : is_line (codes disc) ≡ true) where
  pub is_canonical-id_text : is_canonical (codes (id_text isin t date disc)) ≡ true
  unfolding is_canonical drop_prefix
  is_canonical-id_text =
      let last = codes disc in
      let third = List.◌++◌ (codes date) (b'-' ∷ last) in
      let second = List.◌++◌ (codes t) (b'-' ∷ third) in
      rw (codes-id_text isin t date disc) (
        rw (match_classes-append isin_classes (codes isin) (b'-' ∷ second) h, is_canonical)
          (rw (n.run third, is_canonical)
            (rw (match_classes-append date_classes (codes date) (b'-' ∷ last) k, is_canonical)
              (rw (match_disc-line last l, is_canonical) refl))))

  pub match_id-id_text :
      match_id (codes (id_text isin t date disc))
      ≡ some (record { isin = codes isin; kind = codes t; date = codes date; disc = codes disc })
  unfolding match_id drop_prefix
  match_id-id_text =
      let last = codes disc in
      let third = List.◌++◌ (codes date) (b'-' ∷ last) in
      let second = List.◌++◌ (codes t) (b'-' ∷ third) in
      rw (codes-id_text isin t date disc) (
        rw (match_classes-append isin_classes (codes isin) (b'-' ∷ second) h, match_id)
          (rw (n.matched third, match_id)
            (rw (match_classes-append date_classes (codes date) (b'-' ∷ last) k, match_id)
              (rw (match_disc-line last l, match_id) refl))))

Fits-given :
    (classes : List (ℕ → Bool)) (s : String)
    → match_classes classes [] ≡ none
    → Fits classes s
    → given (some s) ≡ some s
Fits-given classes String.[] e h = absurd (none≢some (sym e ∙ h))
Fits-given classes (String.◌∷◌ c s) e h = given-nonempty (String.◌∷◌ c s) refl

pub isin-given : (s : String) → Fits isin_classes s → given (some s) ≡ some s
unfolding match_classes
isin-given s h = Fits-given isin_classes s refl h

pub date-given : (s : String) → Fits date_classes s → given (some s) ≡ some s
unfolding match_classes
date-given s h = Fits-given date_classes s refl h

nonempty-append : (s t : Codes) → nonempty s ≡ true → nonempty (List.◌++◌ s t) ≡ true
nonempty-append [] t h = cc
nonempty-append (c ∷ s) t h = refl

isin-nonempty : (s : String) → Fits isin_classes s → nonempty (codes s) ≡ true
unfolding match_classes
isin-nonempty String.[] h = absurd (none≢some h)
isin-nonempty (String.◌∷◌ c s) h = refl

pub given_id :
    (isin t date disc : String)
    → Fits isin_classes isin
    → given (some (id_text isin t date disc)) ≡ some (id_text isin t date disc)
given_id isin t date disc h =
    given-nonempty (id_text isin t date disc)
      (rw (codes-id_text isin t date disc) (nonempty-append (codes isin) _ (isin-nonempty isin h)))
