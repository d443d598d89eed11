-- ===== src/Validate/Load.antt =====
-- The loaders of the external registries in tools/validate.py: build_ticker_isin_index,
-- load_identifiers_registry, load_iso4217_registry and load_exchange_calendar_registry, on files
-- that are read.
pub mod Index
use corporate_actions.Prelude.{
  ℕ, String, Bool, true, false, not, ◌&&◌, ◌||◌, Option, none, some, List, [], ◌∷◌, ◌++◌, any, all,
  ◌==◌, if◌then◌else◌,
}
use corporate_actions.Prelude.Text.{given, is_some, upper, str_ne}
use corporate_actions.Registry.Queries as Queries
use corporate_actions.Registry.Queries.{find_listing, put_listing}
use corporate_actions.Validate.Unique.{member}

-- an object of a registry's list; `mic` and `code` tell a missing key from null
pub record Item : Type 0 where
  pub isin : Option String
  pub ticker : Option String
  pub mic : Option (Option String)
  pub code : Option (Option String)

-- a value of a registry's top object; an element of a list that is no object is `none`
pub data Content : Type 0 where
  items : List (Option Item) → Content
  other : Content

abbrev pub Document : Type 0
Document = List (String × Content)

-- the set that `add` fills, as a list
abbrev pub add : Option String → List String → List String
add x others = elim (given x) [ none ↦ others | some s ↦ s ∷ others ]

unfoldable pub isins_of : List (Option Item) → List String
isins_of [] = []
isins_of (none ∷ rest) = isins_of rest
isins_of (some i ∷ rest) = add i.isin (isins_of rest)

-- `data[key]`, where it is a list
unfoldable pub list_at : String → Document → Option (List (Option Item))
list_at key [] = none
list_at key ((k, other) ∷ rest) = let later = list_at key rest in if k == key then none else later
list_at key ((k, items xs) ∷ rest) =
    let later = list_at key rest in if k == key then some xs else later

-- the list under the first of some keys that has one
unfoldable pub first_list : List String → Document → Option (List (Option Item))
unfolding list_at
first_list [] d = none
first_list (key ∷ keys) d = elim (list_at key d) [ none ↦ first_list keys d | some xs ↦ some xs ]

abbrev pub common_keys : List String
common_keys = "instruments" ∷ "identifiers" ∷ "securities" ∷ []

abbrev pub are_objects : List (Option Item) → Bool
are_objects [] = true
are_objects (none ∷ rest) = false
are_objects (some i ∷ rest) = are_objects rest

-- an object of the list passes a test
abbrev pub has_such : (Item → Bool) → List (Option Item) → Bool
has_such test [] = false
has_such test (none ∷ rest) = has_such test rest
has_such test (some i ∷ rest) = test i || has_such test rest

-- the fallback: the first list that is not empty, holds objects alone, and one that passes a test
unfoldable pub fallback_list : (Item → Bool) → Document → Option (List (Option Item))
fallback_list test [] = none
fallback_list test ((k, other) ∷ rest) = fallback_list test rest
fallback_list test ((k, items xs) ∷ rest) =
    let later = fallback_list test rest in
    if are_objects xs && has_such test xs then some xs else later

abbrev pub or_list :
    Option (List (Option Item)) → Option (List (Option Item)) → Option (List (Option Item))
or_list none y = y
or_list (some x) y = some x

unfoldable pub load_identifiers_registry : Document → List String
unfolding isins_of first_list fallback_list
load_identifiers_registry d =
    elim (or_list (first_list common_keys d) (fallback_list (λ i. is_some (given i.isin)) d)) [
      | none ↦ []
      | some xs ↦ isins_of xs
    ]

-- the codes of `currencies.active`; `none` is RegistryLoadError, here and below
unfoldable pub codes_of : List (Option Item) → List String
codes_of [] = []
codes_of (none ∷ rest) = codes_of rest
codes_of (some i ∷ rest) =
    let others = codes_of rest in elim i.code [ none ↦ others | some c ↦ add c others ]

unfoldable pub load_iso4217_registry : Option Content → Option (List String)
unfolding codes_of
load_iso4217_registry none = none
load_iso4217_registry (some other) = none
load_iso4217_registry (some (items active)) = some (codes_of active)

-- `exch.get("mic") or exch.get("code")`
abbrev pub value_of : Option (Option String) → Option String
value_of none = none
value_of (some v) = v

abbrev pub mic_or_code : Item → Option String
mic_or_code i = elim (given (value_of i.mic)) [ none ↦ value_of i.code | some m ↦ some m ]

unfoldable pub mics_of : List (Option Item) → List String
mics_of [] = []
mics_of (none ∷ rest) = mics_of rest
mics_of (some i ∷ rest) = add (mic_or_code i) (mics_of rest)

abbrev pub has_key : {A : Type 0} → Option A → Bool
has_key none = false
has_key (some x) = true

unfoldable pub load_exchange_calendar_registry : Document → Option (List String)
unfolding list_at fallback_list mics_of
load_exchange_calendar_registry d =
    elim (or_list (list_at "exchanges" d)
      (fallback_list (λ i. has_key i.mic || has_key i.code) d)) [
        | none ↦ none
        | some [] ↦ none
        | some (x ∷ xs) ↦ some (mics_of (x ∷ xs))
      ]

-- one round of `build_ticker_isin_index`: `none` is the ValueError on two ISINs for one listing
unfoldable pub index_listing : Queries.Instrument → Queries.Index → Option Queries.Index
unfolding find_listing put_listing upper
index_listing i index = elim (given i.ticker) [
  | none ↦ some index
  | some t ↦ elim (given i.exchange) [
    | none ↦ some index
    | some x ↦ elim (given i.isin) [
      | none ↦ some index
      | some isin ↦ elim (find_listing (upper t, upper x) index) [
        | none ↦ some (put_listing (upper t, upper x) isin index)
        | some old ↦ if old == isin then some (put_listing (upper t, upper x) isin index) else none
      ]
    ]
  ]
]

unfoldable pub build_ticker_isin_index :
    List Queries.Instrument → Queries.Index → Option Queries.Index
unfolding index_listing
build_ticker_isin_index [] index = some index
build_ticker_isin_index (i ∷ rest) index = elim (index_listing i index) [
  | none ↦ none
  | some next ↦ build_ticker_isin_index rest next
]
