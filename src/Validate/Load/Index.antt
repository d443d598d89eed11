-- ===== src/Validate/Load/Index.antt =====
-- The ticker index of the validator and the one of the Python registry.
use corporate_actions.Prelude.{
  ◌≡◌, some, List, [], ◌∷◌, arith, Option-cases, inl, inr, some_inj, none≢some,
}
use corporate_actions.Prelude.Text.{given, upper}
use corporate_actions.Registry.Queries.{
  Instrument, Index, find_listing, index_instrument, build_ticker_index,
}
use corporate_actions.Validate.Load.{index_listing, build_ticker_isin_index}

index_listing-same :
    (i : Instrument) (index next : Index)
    → index_listing i index ≡ some next
    → index_instrument i index ≡ next
unfolding index_listing index_instrument
index_listing-same i index next h = elim (Option-cases (given i.ticker)) [
  | inl e ↦ ground (arith, e, h)
  | inr (t, e) ↦ elim (Option-cases (given i.exchange)) [
    | inl f ↦ ground (arith, e, f, h)
    | inr (x, f) ↦ elim (Option-cases (given i.isin)) [
      | inl g ↦ ground (arith, e, f, g, h)
      | inr (isin, g) ↦ elim (Option-cases (find_listing (upper t, upper x) index)) [
        | inl k ↦ ground (arith, e, f, g, k, h)
        | inr (old, k) ↦ ground (arith, e, f, g, k, h)
      ]
    ]
  ]
]

-- Where the validator builds its index without an error, the Python registry builds the same one.
pub build_ticker_isin_index-same :
    (instruments : List Instrument) (index built : Index)
    → build_ticker_isin_index instruments index ≡ some built
    → build_ticker_index instruments index ≡ built
unfolding build_ticker_isin_index build_ticker_index
build_ticker_isin_index-same [] index built h = some_inj h
build_ticker_isin_index-same (i ∷ rest) index built h =
    elim (Option-cases (index_listing i index)) [
      | inl e ↦ absurd (none≢some (rw (e, build_ticker_isin_index) at h))
      | inr (next, e) ↦
          rw (index_listing-same i index next e, build_ticker_index)
            (build_ticker_isin_index-same rest next built (rw (e, build_ticker_isin_index) at h))
    ]
