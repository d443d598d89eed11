-- ===== src/Registry/Prices/Sorted.antt =====
-- The order of the bars that `adjust_prices` returns.
use corporate_actions.Prelude.{◌≡◌, sym, ◌∙◌, String, true, List, [], ◌∷◌, map, ◌==◌, eq_iff}
use corporate_actions.Prelude.Text.{str_le}
use corporate_actions.Prelude.Order.{str_le-total, str_le_refl}
use corporate_actions.Prelude.Sort.{IsSorted, sort-IsSorted, filter, filter-sort}
use corporate_actions.Floats.{Floats}
use corporate_actions.Registry.{Registry, by_isin}
use corporate_actions.Registry.Prices.{
  Bar, AdjustedBar, Checked, ok, check_bars, bar_le, sort_bars, adjust_prices,
}
use corporate_actions.Registry.Prices.Applied.{quoted, adjust_prices-trail}

-- no date of the list is after the next one
abbrev pub IsAscending : List String → Type 0
IsAscending [] = Unit
IsAscending (d ∷ []) = Unit
IsAscending (d ∷ d' ∷ rest) = (str_le d d' ≡ true) × IsAscending (d' ∷ rest)

module _ (F : Floats) where
  abbrev pub bar_date : Checked F → String
  bar_date p = p.0

  -- the bars of one date
  abbrev pub dated : String → List (Checked F) → List (Checked F)
  dated d bars = filter (λ (p : Checked F). p.0 == d) bars

  IsAscending-IsSorted :
      (bars : List (Checked F)) → IsSorted (bar_le F) bars → IsAscending (map bar_date bars)
  IsAscending-IsSorted [] s = tt
  IsAscending-IsSorted (p ∷ []) s = tt
  IsAscending-IsSorted (p ∷ q ∷ rest) s = (s.0, IsAscending-IsSorted (q ∷ rest) s.1)

  sort_bars-IsAscending : (bars : List (Checked F)) → IsAscending (map bar_date (sort_bars F bars))
  unfolding sort_bars
  sort_bars-IsAscending bars =
      IsAscending-IsSorted (sort_bars F bars)
        (sort-IsSorted (bar_le F) (λ (p : Checked F) q. str_le-total p.0 q.0) bars)

  dated-sort_bars :
      (d : String) (bars : List (Checked F)) → dated d (sort_bars F bars) ≡ dated d bars
  unfolding sort_bars
  dated-sort_bars d bars =
      filter-sort (bar_le F) (λ (p : Checked F). p.0 == d)
        (λ (p : Checked F) q h k.
          let same : p.0 ≡ q.0 = (eq_iff p.0 d).0 h ∙ sym ((eq_iff q.0 d).0 k) in
          rw same (str_le_refl q.0))
        bars

  -- Where the registry knows the ISIN and the prices pass the checks: the bars that `adjust_prices`
  -- returns ascend by their dates, and of every date they are the given bars of that date, with
  -- their dates and raw prices, in the order they were given in.
  pub adjust_prices-IsAscending :
      (r : Registry F.Num) (isin : String) (prices : List (Bar F)) (types : List String)
      (bars : List (Checked F)) (out : List (AdjustedBar F))
      → (by_isin r isin ≡ [] → ⊥)
      → check_bars F prices ≡ ok bars
      → adjust_prices F r isin prices types ≡ ok out
      → IsAscending (map bar_date (map (quoted F) out))
        × ((d : String) → dated d (map (quoted F) out) ≡ dated d bars)
  adjust_prices-IsAscending r isin prices types bars out known c h =
      let same = (adjust_prices-trail F r isin prices types bars out known c h).1 in
      rw same (sort_bars-IsAscending bars, λ d. dated-sort_bars d bars)
