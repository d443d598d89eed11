-- ===== src/Registry/Queries/Sorted.antt =====
-- What a query by a range of dates returns.
use corporate_actions.Prelude.{
  ◌≡◌, refl, ap, ◌∙◌, ◌⊎◌, ℕ, suc, String, Bool, true, false, not, ◌&&◌, ◌||◌, Option, none, some,
  List, [], ◌∷◌, arith, any, ◌==◌, eq_iff, if◌then◌else◌, inl, inr,
}
use corporate_actions.Prelude.Text.{str_lt, str_le}
use corporate_actions.Prelude.Order.{str_le-total, str_lt-trichotomy}
use corporate_actions.Prelude.Sort.{sort, IsSorted, count, sort-IsSorted, count-sort}
use corporate_actions.Registry.{Entry, Registry}
use corporate_actions.Registry.Queries.{
  ok, key_le, sort_key, in_range, date_in, entry_le, keep_in_range, by_date_range, text_of,
  starts_by, ends_by, is_bad_bound, valid_date_fields,
}

-- Of two keys one is at most the other.
pub key_le-total : (k l : String × String) → key_le k l ≡ false → key_le l k ≡ true
key_le-total (d, i) (d', i') h =
    ground (arith, eq_iff d d', eq_iff d' d, str_le-total i i', str_lt-trichotomy d d')

-- A date is given and lies within the bounds, the bounds included; a bound that is not given, or
-- the empty text, is none.
abbrev pub is_within : Option String → Option String → Option String → Bool
is_within start end none = false
is_within start end (some d) =
    (elim start [ none ↦ true | some s ↦ s == "" || str_le s d ])
    && (elim end [ none ↦ true | some e ↦ e == "" || str_le d e ])

starts_by_lem :
    (start : Option String) (d : String)
    → starts_by start d ≡ elim start [ none ↦ true | some s ↦ s == "" || str_le s d ]
starts_by_lem none d = refl
starts_by_lem (some s) d = go (s == "")
  where
    go :
        (empty : Bool)
        → elim (if empty then none else some s) as (λ o. Bool) [
          | none ↦ true
          | some x ↦ not (str_lt d x)
        ]
          ≡ (empty || str_le s d)
    go true = refl
    go false = refl

ends_by_lem :
    (end : Option String) (d : String)
    → ends_by end d ≡ elim end [ none ↦ true | some e ↦ e == "" || str_le d e ]
ends_by_lem none d = refl
ends_by_lem (some e) d = go (e == "")
  where
    go :
        (empty : Bool)
        → elim (if empty then none else some e) as (λ o. Bool) [
          | none ↦ true
          | some x ↦ not (str_lt x d)
        ]
          ≡ (empty || str_le d e)
    go true = refl
    go false = refl

in_range-within :
    (start end date : Option String) → in_range start end date ≡ is_within start end date
in_range-within start end none = refl
in_range-within start end (some d) =
    ap (λ b. b && ends_by end d) (starts_by_lem start d)
    ∙ ap (λ b. (elim start [ none ↦ true | some s ↦ s == "" || str_le s d ]) && b)
        (ends_by_lem end d)

module _ {N : Type 0} (field : String) where
  -- the first action has the earlier date, or the two have one date and the first one has the
  -- smaller id or the same one; what is missing counts as the empty text
  abbrev pub ComesFirst : Entry N → Entry N → Type 0
  ComesFirst e x =
      (str_lt (text_of (date_in field e.dates)) (text_of (date_in field x.dates)) ≡ true)
      ⊎ ((text_of (date_in field e.dates) ≡ text_of (date_in field x.dates))
          × (str_le (text_of e.action_id) (text_of x.action_id) ≡ true))

  abbrev pub IsChronological : List (Entry N) → Type 0
  IsChronological [] = Unit
  IsChronological (e ∷ []) = Unit
  IsChronological (e ∷ x ∷ rest) = ComesFirst e x × IsChronological (x ∷ rest)

  entry_le-ComesFirst : (e x : Entry N) → entry_le field e x ≡ true → ComesFirst e x
  entry_le-ComesFirst e x h =
      go (str_lt d d') refl (d == d') (λ k. (eq_iff d d').0 k)
        (str_le (text_of e.action_id) (text_of x.action_id)) h
    where
      d : String
      d = text_of (date_in field e.dates)

      d' : String
      d' = text_of (date_in field x.dates)

      go :
          (earlier : Bool)
          → str_lt d d' ≡ earlier
          → (same : Bool) → (same ≡ true → d ≡ d')
          → (smaller : Bool) → (earlier || (same && smaller)) ≡ true
          → (earlier ≡ true) ⊎ ((d ≡ d') × (smaller ≡ true))
      go true p same q smaller k = inl refl
      go false p true q true k = inr (q refl, refl)
      go false p true q false k = cc
      go false p false q smaller k = cc

  IsSorted-IsChronological :
      (entries : List (Entry N)) → IsSorted (entry_le field) entries → IsChronological entries
  IsSorted-IsChronological [] s = tt
  IsSorted-IsChronological (e ∷ []) s = tt
  IsSorted-IsChronological (e ∷ x ∷ rest) s =
      (entry_le-ComesFirst e x s.0, IsSorted-IsChronological (x ∷ rest) s.1)

  count-keep_in_range :
      (start end : Option String) (p : Entry N → Bool) (entries : List (Entry N))
      → count p (keep_in_range start end field entries)
        ≡ count (λ e. is_within start end (date_in field e.dates) && p e) entries
  count-keep_in_range start end p [] = refl
  count-keep_in_range start end p (e ∷ rest) =
      go (in_range start end (date_in field e.dates)) (is_within start end (date_in field e.dates))
        (in_range-within start end (date_in field e.dates)) (count-keep_in_range start end p rest)
    where
      go :
          (b c : Bool)
          → b ≡ c
          → count p (keep_in_range start end field rest)
            ≡ count (λ x. is_within start end (date_in field x.dates) && p x) rest
          → count p (
              if b
              then e ∷ keep_in_range start end field rest
              else keep_in_range start end field rest)
            ≡ (if c && p e
                then suc (count (λ x. is_within start end (date_in field x.dates) && p x) rest)
                else count (λ x. is_within start end (date_in field x.dates) && p x) rest)
      go true true h r = ap (λ (n : ℕ). if p e then suc n else n) r
      go false false h r = r
      go true false h r = cc
      go false true h r = cc

  -- A query by a range of dates whose field is one of the four and whose given bounds are ISO dates
  -- raises nothing. In its result the dates ascend, and of two neighbours with one date the first
  -- one has the smaller id or the same one; it holds every action as often as the registry does if
  -- the action has a date in the field that is not before the start and not after the end, and
  -- never if not.
  pub by_date_range-IsChronological :
      (r : Registry N) (start end : Option String)
      → any (λ name. field == name) valid_date_fields ≡ true
      → is_bad_bound start ≡ false
      → is_bad_bound end ≡ false
      → (out : List (Entry N)) × (by_date_range r start end field ≡ ok out)
        × IsChronological out
        × ((p : Entry N → Bool)
            → count p out
              ≡ count (λ e. is_within start end (date_in field e.dates) && p e) r.actions)
  unfolding by_date_range
  by_date_range-IsChronological r start end valid good good' =
      let kept = keep_in_range start end field r.actions in
      (
        sort (entry_le field) kept,
        ground arith,
        IsSorted-IsChronological (sort (entry_le field) kept) (
            sort-IsSorted (entry_le field)
              (λ (e : Entry N) x. key_le-total (sort_key field e) (sort_key field x)) kept),
        λ p. count-sort (entry_le field) p kept ∙ count-keep_in_range start end p r.actions,
      )
