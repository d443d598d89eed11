-- ===== src/Registry/Queries/Ticker.antt =====
-- The index of the tickers keeps the last instrument of a listing.
use corporate_actions.Prelude.{
  ◌≡◌, ◌↔◌, refl, ap, ◌∙◌, ℕ, String, true, Option, none, some, List, [], ◌∷◌, arith, eqb_iff,
  if◌then◌else◌, Option-cases, inl, inr,
}
use corporate_actions.Prelude.Text.{given, upper, codes_eq}
use corporate_actions.Registry.{Registry, by_isin}
use corporate_actions.Registry.Queries.{
  Instrument, Index, same_listing, find_listing, put_listing, index_instrument, build_ticker_index,
  by_ticker,
}

codes_eq_iff : (s t : List ℕ) → (codes_eq s t ≡ true) ↔ (s ≡ t)
unfolding codes_eq
codes_eq_iff [] [] = ground arith
codes_eq_iff [] (d ∷ t) = ground arith
codes_eq_iff (c ∷ s) [] = ground arith
codes_eq_iff (c ∷ s) (d ∷ t) = ground (arith, codes_eq_iff s t, eqb_iff c d)

abbrev Listing : Type 0
Listing = List ℕ × List ℕ

-- what an entry that is put under a key changes for the search
find-put_listing :
    (j k : Listing) (isin : String) (index : Index)
    → find_listing k (put_listing j isin index)
      ≡ (if same_listing j k then some isin else find_listing k index)
unfolding find_listing put_listing
find-put_listing j k isin [] = refl
find-put_listing (t, x) (t', x') isin (((u, y), old) ∷ rest) = ground (
  arith,
  find-put_listing (t, x) (t', x') isin rest,
  codes_eq_iff t t',
  codes_eq_iff x x',
  codes_eq_iff u t,
  codes_eq_iff y x,
  codes_eq_iff u t',
  codes_eq_iff y x',
)

-- the instrument has the listing, and an ISIN
abbrev pub isin_of : Listing → Instrument → Option String
isin_of k i = elim (given i.ticker) [
  | none ↦ none
  | some t ↦ elim (given i.exchange) [
    | none ↦ none
    | some x ↦ if same_listing (upper t, upper x) k then given i.isin else none
  ]
]

-- the ISIN of the last instrument with the listing
abbrev pub last_isin : Listing → List Instrument → Option String → Option String
last_isin k [] found = found
last_isin k (i ∷ rest) found =
    last_isin k rest (elim (isin_of k i) [ none ↦ found | some isin ↦ some isin ])

find-index_instrument :
    (k : Listing) (i : Instrument) (index : Index)
    → find_listing k (index_instrument i index)
      ≡ elim (isin_of k i) [ none ↦ find_listing k index | some isin ↦ some isin ]
unfolding index_instrument
find-index_instrument k i index = elim (Option-cases (given i.ticker)) [
  | inl e ↦ ground (arith, e)
  | inr (t, e) ↦ elim (Option-cases (given i.exchange)) [
    | inl f ↦ ground (arith, e, f)
    | inr (x, f) ↦ elim (Option-cases (given i.isin)) [
      | inl g ↦ ground (arith, e, f, g)
      | inr (isin, g) ↦ ground (arith, e, f, g, find-put_listing (upper t, upper x) k isin index)
    ]
  ]
]

find-build_ticker_index :
    (k : Listing) (instruments : List Instrument) (index : Index)
    → find_listing k (build_ticker_index instruments index)
      ≡ last_isin k instruments (find_listing k index)
unfolding build_ticker_index
find-build_ticker_index k [] index = refl
find-build_ticker_index k (i ∷ rest) index =
    find-build_ticker_index k rest (index_instrument i index)
    ∙ ap (last_isin k rest) (find-index_instrument k i index)

module _ {N : Type 0} where
  -- The lookup by ticker and exchange is the lookup by the ISIN of the last instrument that has
  -- both, in upper case, and an ISIN; without one it is empty.
  pub by_ticker-last :
      (r : Registry N) (instruments : List Instrument) (ticker exchange : String)
      → by_ticker r instruments ticker exchange
        ≡ elim (last_isin (upper ticker, upper exchange) instruments none) [
          | none ↦ []
          | some isin ↦ by_isin r isin
        ]
  unfolding by_ticker find_listing
  by_ticker-last r instruments ticker exchange =
      ap (λ (o : Option String). elim o [ none ↦ [] | some isin ↦ by_isin r isin ])
        (find-build_ticker_index (upper ticker, upper exchange) instruments [])
