-- ===== src/Registry/Queries/Known.antt =====
-- What is known of an ISIN at a date, as a scan of the list of the file.
use corporate_actions.Prelude.{
  ◌≡◌, ◌∙◌, refl, ap, String, Bool, true, false, not, ◌&&◌, Option, none, some, List, [], ◌∷◌, ◌==◌,
  if◌then◌else◌,
}
use corporate_actions.Prelude.Text.{given, str_le}
use corporate_actions.Prelude.Sort.{filter}
use corporate_actions.Registry.Prices.{is_iso_date}
use corporate_actions.Registry.{Entry, Registry, of_entries, by_isin}
use corporate_actions.Registry.Lookup.{select, lookups-select}
use corporate_actions.Registry.Queries.{ok, err, invalid_as_of, keep_known, known_as_of}

-- an optional text is given, is not empty, and passes a test
abbrev pub is_text : (String → Bool) → Option String → Bool
is_text test none = false
is_text test (some x) = not (x == "") && test x

module _ {N : Type 0} where
  -- the action is one of the ISIN, and was announced on the date or before it
  abbrev pub is_known_of : String → String → Entry N → Bool
  is_known_of isin as_of e =
      is_text (λ x. x == isin) e.isin && is_text (λ x. str_le x as_of) e.dates.announcement

  -- one round of the loop
  keep_known-cons :
      (as_of : String) (e : Entry N) (rest : List (Entry N))
      → keep_known as_of (e ∷ rest) ≡ (
          if is_text (λ x. str_le x as_of) e.dates.announcement
          then e ∷ keep_known as_of rest
          else keep_known as_of rest)
  keep_known-cons as_of e rest = go e.dates.announcement
    where
      others : List (Entry N)
      others = keep_known as_of rest

      test : Bool → Bool → List (Entry N)
      test empty early = if not empty && early then e ∷ others else others

      go_some :
          (x : String) (empty : Bool)
          → elim (if empty then none else some x) as (λ o. List (Entry N)) [
            | none ↦ others
            | some y ↦ if str_le y as_of then e ∷ others else others
          ]
            ≡ test empty (str_le x as_of)
      go_some x true = refl
      go_some x false = refl

      go :
          (announcement : Option String)
          → elim (given announcement) as (λ o. List (Entry N)) [
            | none ↦ others
            | some y ↦ if str_le y as_of then e ∷ others else others
          ]
            ≡ (if is_text (λ x. str_le x as_of) announcement then e ∷ others else others)
      go none = refl
      go (some x) = go_some x (x == "")

  -- one round of the lookup
  select-cons :
      (isin : String) (e : Entry N) (rest : List (Entry N))
      → select (λ x. x.isin) isin (e ∷ rest) ≡ (
          if is_text (λ x. x == isin) e.isin
          then e ∷ select (λ x. x.isin) isin rest
          else select (λ x. x.isin) isin rest)
  select-cons isin e rest = go e.isin
    where
      others : List (Entry N)
      others = select (λ x. x.isin) isin rest

      go_some :
          (x : String) (empty : Bool)
          → (if elim (if empty then none else some x) as (λ o. Bool) [
            | none ↦ false
            | some j ↦ j == isin
          ]
              then e ∷ others
              else others)
            ≡ (if not empty && x == isin then e ∷ others else others)
      go_some x true = refl
      go_some x false = refl

      go :
          (o : Option String)
          → (if elim (given o) as (λ o. Bool) [ none ↦ false | some j ↦ j == isin ]
              then e ∷ others
              else others)
            ≡ (if is_text (λ x. x == isin) o then e ∷ others else others)
      go none = refl
      go (some x) = go_some x (x == "")

  keep_known-select :
      (isin as_of : String) (entries : List (Entry N))
      → keep_known as_of (select (λ e. e.isin) isin entries)
        ≡ filter (is_known_of isin as_of) entries
  keep_known-select isin as_of [] = refl
  keep_known-select isin as_of (e ∷ rest) =
      ap (keep_known as_of) (select-cons isin e rest)
      ∙ go (is_text (λ x. x == isin) e.isin) (is_text (λ x. str_le x as_of) e.dates.announcement)
          (keep_known-cons as_of e (select (λ e. e.isin) isin rest))
          (keep_known-select isin as_of rest)
    where
      mine : List (Entry N)
      mine = select (λ e. e.isin) isin rest

      go :
          (own early : Bool)
          → keep_known as_of (e ∷ mine)
            ≡ (if early then e ∷ keep_known as_of mine else keep_known as_of mine)
          → keep_known as_of mine ≡ filter (is_known_of isin as_of) rest
          → keep_known as_of (if own then e ∷ mine else mine) ≡ (
              if own && early
              then e ∷ filter (is_known_of isin as_of) rest
              else filter (is_known_of isin as_of) rest)
      go true true q r = q ∙ ap (λ (es : List (Entry N)). e ∷ es) r
      go true false q r = q ∙ r
      go false early q r = r

  known_as_of-by_isin :
      (r : Registry N) (isin as_of : String)
      → known_as_of r isin as_of ≡ (
          if is_iso_date as_of
          then ok (keep_known as_of (by_isin r isin))
          else err (invalid_as_of as_of))
  unfolding known_as_of
  known_as_of-by_isin r isin as_of = refl

  -- On a registry made of a list of actions, a query for what is known of an ISIN at a date gives
  -- the actions of the list, in their order, whose ISIN is the given one, and is not empty, and
  -- whose announcement is given and not after the date, all of them and no others; a date that is
  -- no ISO date is an error.
  pub known_as_of-filter :
      (entries : List (Entry N)) (isin as_of : String)
      → known_as_of (of_entries entries) isin as_of ≡ (
          if is_iso_date as_of
          then ok (filter (is_known_of isin as_of) entries)
          else err (invalid_as_of as_of))
  known_as_of-filter entries isin as_of =
      known_as_of-by_isin (of_entries entries) isin as_of
      ∙ ap (λ (es : List (Entry N)). if is_iso_date as_of then ok es else err (invalid_as_of as_of))
          (ap (keep_known as_of) ((lookups-select entries isin).0)
            ∙ keep_known-select isin as_of entries)
