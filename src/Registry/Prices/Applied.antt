-- ===== src/Registry/Prices/Applied.antt =====
-- What `adjust_prices` returns: the trail of every bar, and the bars.
use corporate_actions.Prelude.{
  ◌≡◌, refl, ap, ◌∙◌, String, Bool, true, false, ◌&&◌, ◌||◌, Option, none, some, List, [], ◌∷◌,
  ◌++◌, map, arith, All, if◌then◌else◌, sym, ◌==◌, eq_iff, not,
}
use corporate_actions.Prelude.Text.{str_lt, str_le}
use corporate_actions.Prelude.Order.{str_lt-empty}
use mathlib.Core.List.{append-nil, append_assoc}
use corporate_actions.Floats.{Floats}
use corporate_actions.Validate.Temporal.{is_split, is_dividend}
use corporate_actions.Registry.{Entry, Registry, by_isin}
use corporate_actions.Registry.Prices.{
  Priced, ok, err, still_ahead, wanted, Bar, AdjustedBar, apply_type, apply_entry, apply_entries,
  Checked, check_bars, sort_bars, adjust_bar, adjust_bars, keep_wanted, adjust_known, adjust_prices,
  cash_adjustment, price_multiplier, ◌>>=◌,
}

not-not : (b : Bool) → not (not b) ≡ b
not-not true = refl
not-not false = refl

module _ (F : Floats) where
  open F use {Num, of_int}

  -- the date lies before the ex date of the action
  abbrev pub is_before : String → Option String → Bool
  is_before date none = false
  is_before date (some ex_date) = str_lt date ex_date

  abbrev pub priced_types : List String
  priced_types = "SPLIT" ∷ "REVERSE_SPLIT" ∷ "DIVIDEND" ∷ "SPECIAL_DIVIDEND" ∷ []

  -- the action changes a price of the date: the date lies before its ex date, and its type is a
  -- split's or a dividend's
  abbrev pub changes_price : String → Entry Num → Bool
  changes_price date e = is_before date e.dates.ex_date && wanted priced_types e.action_type

  is_before-still_ahead :
      (date : String) (ex_date : Option String) → still_ahead date ex_date ≡ is_before date ex_date
  is_before-still_ahead date none = refl
  is_before-still_ahead date (some x) = go (x == "") refl
    where
      go :
          (empty : Bool)
          → (x == "") ≡ empty
          → elim (if empty then none else some x) as (λ o. Bool) [
            | none ↦ false
            | some t ↦ not (str_le t date)
          ]
            ≡ str_lt date x
      go true h = sym (ap (str_lt date) ((eq_iff x "").0 h) ∙ str_lt-empty date)
      go false h = not-not (str_lt date x)

  wanted-priced_types :
      (type : Option String)
      → elim type [ none ↦ false | some t ↦ is_split t || is_dividend t ] ≡ wanted priced_types type
  wanted-priced_types none = refl
  wanted-priced_types (some t) = ground arith

  -- the ids of those actions, in their order
  abbrev pub trail : String → List (Entry Num) → List (Option String)
  trail date [] = []
  trail date (e ∷ rest) =
      let ids = trail date rest in if changes_price date e then e.action_id ∷ ids else ids

  -- the ids an entry adds
  abbrev added : String → Entry Num → List (Option String)
  added date e = if changes_price date e then e.action_id ∷ [] else []

  apply_type-trail :
      (t : String) (e : Entry Num) (x y : Num) (ids ids' : List (Option String))
      → apply_type F t e (x, ids) ≡ ok (y, ids')
      → ids' ≡ ids ++ (if is_split t || is_dividend t then e.action_id ∷ [] else [])
  unfolding apply_type
  apply_type-trail t e x y ids ids' h =
      go (is_split t) (is_dividend t) (price_multiplier F e) (cash_adjustment F e) h
    where
      State : Type 0
      State = Num × List (Option String)

      go :
          (split dividend : Bool) (factor cash : Priced Num)
          → if◌then◌else◌ {A = Priced State} split
              (factor >>= λ m. ok (F.mul x m, ids ++ e.action_id ∷ []))
              (if◌then◌else◌ {A = Priced State} dividend
                (cash >>= λ c. ok (F.sub x c, ids ++ e.action_id ∷ []))
                (ok (x, ids)))
            ≡ ok (y, ids')
          → ids' ≡ ids ++ (if split || dividend then e.action_id ∷ [] else [])
      go true d (ok m) c k = ground arith
      go true d (err m) c k = ground arith
      go false true m (ok c) k = ground arith
      go false true m (err c) k = ground arith
      go false false m c k = ground (arith, append-nil ids)

  -- what one round adds to the trail
  apply_entry-trail :
      (date : String) (e : Entry Num) (x y : Num) (ids ids' : List (Option String))
      → apply_entry F date e (x, ids) ≡ ok (y, ids')
      → ids' ≡ ids ++ added date e
  unfolding apply_entry
  apply_entry-trail date e x y ids ids' h =
      rw (← is_before-still_ahead date e.dates.ex_date, ← wanted-priced_types e.action_type)
        (go (still_ahead date e.dates.ex_date) e.action_type h)
    where
      go :
          (ahead : Bool) (type : Option String)
          → if◌then◌else◌ {A = Priced (Num × List (Option String))} ahead
              (elim type [ none ↦ ok (x, ids) | some t ↦ apply_type F t e (x, ids) ])
              (ok (x, ids))
            ≡ ok (y, ids')
          → ids'
            ≡ ids
              ++ (if ahead && (elim type [ none ↦ false | some t ↦ is_split t || is_dividend t ])
                  then e.action_id ∷ []
                  else [])
      go false type k = ground (arith, append-nil ids)
      go true none k = ground (arith, append-nil ids)
      go true (some t) k = apply_type-trail t e x y ids ids' k

  apply_entries-trail :
      (date : String) (es : List (Entry Num)) (x y : Num) (ids ids' : List (Option String))
      → apply_entries F date es (x, ids) ≡ ok (y, ids')
      → ids' ≡ ids ++ trail date es
  unfolding apply_entries
  apply_entries-trail date [] x y ids ids' h = ground (arith, append-nil ids)
  apply_entries-trail date (e ∷ rest) x y ids ids' h =
      go (apply_entry F date e (x, ids)) refl h
        (λ x' mid k. apply_entries-trail date rest x' y mid ids' k)
    where
      go :
          (first : Priced (Num × List (Option String)))
          → apply_entry F date e (x, ids) ≡ first
          → (first >>= λ state. apply_entries F date rest state) ≡ ok (y, ids')
          → ((x' : Num) (mid : List (Option String))
              → apply_entries F date rest (x', mid) ≡ ok (y, ids')
              → ids' ≡ mid ++ trail date rest)
          → ids' ≡ ids ++ trail date (e ∷ rest)
      go (err z) q k again = ground arith
      go (ok (x', mid)) q k again =
          let p = apply_entry-trail date e x x' ids mid q in
          let r = again x' mid k in
          rw (r, p)
            (append_assoc ids (added date e) (trail date rest)
              ∙ ap (λ (t : List (Option String)). ids ++ t) (joined (changes_price date e)))
        where
          joined :
              (b : Bool)
              → (if b then e.action_id ∷ [] else []) ++ trail date rest
                ≡ (if b then e.action_id ∷ trail date rest else trail date rest)
          joined true = refl
          joined false = refl

  -- what a bar of the result says of its trail
  abbrev pub HasTrail : List (Entry Num) → AdjustedBar F → Type 0
  HasTrail es bar = bar.applied ≡ trail bar.date es

  -- the date and the price a bar came with
  abbrev pub quoted : AdjustedBar F → Checked F
  quoted bar = (bar.date, bar.raw)

  adjust_bar-HasTrail :
      (es : List (Entry Num)) (p : Checked F) (bar : AdjustedBar F)
      → adjust_bar F es p ≡ ok bar
      → HasTrail es bar × (quoted bar ≡ p)
  unfolding adjust_bar
  adjust_bar-HasTrail es (date, raw) bar h = go (apply_entries F date es (raw, [])) refl h
    where
      go :
          (r : Priced (Num × List (Option String)))
          → apply_entries F date es (raw, []) ≡ r
          → (r >>= λ (adjusted, applied).
              ok (record { date = date; raw = raw; adjusted = adjusted; applied = applied }))
            ≡ ok bar
          → HasTrail es bar × (quoted bar ≡ (date, raw))
      go (err z) q k = ground arith
      go (ok (y, ids)) q k =
          let t = apply_entries-trail date es raw y [] ids q in
          let e : record { date = date; raw = raw; adjusted = y; applied = ids } ≡ bar = cc in
          rw (← e) (t, refl)

  adjust_bars-HasTrail :
      (es : List (Entry Num)) (bars : List (Checked F)) (out : List (AdjustedBar F))
      → adjust_bars F es bars ≡ ok out
      → All (HasTrail es) out × (map quoted out ≡ bars)
  unfolding adjust_bars
  adjust_bars-HasTrail es [] out h = let e : [] ≡ out = cc in rw (← e) (tt, refl)
  adjust_bars-HasTrail es (p ∷ rest) out h =
      go (adjust_bar F es p) refl (adjust_bars F es rest)
        (λ bars q. adjust_bars-HasTrail es rest bars q) h
    where
      go :
          (one : Priced (AdjustedBar F))
          → adjust_bar F es p ≡ one
          → (others : Priced (List (AdjustedBar F)))
          → ((bars : List (AdjustedBar F))
              → others ≡ ok bars
              → All (HasTrail es) bars × (map quoted bars ≡ rest))
          → (one >>= λ bar. others >>= λ bars. ok (bar ∷ bars)) ≡ ok out
          → All (HasTrail es) out × (map quoted out ≡ p ∷ rest)
      go (err z) q others q' k = ground arith
      go (ok bar) q (err z) q' k = ground arith
      go (ok bar) q (ok bars) q' k =
          let (t, c) = adjust_bar-HasTrail es p bar q in
          let (ts, cs) = q' bars refl in
          let e : bar ∷ bars ≡ out = cc in rw (← e) ((t, ts), rw (c, cs) refl)

  -- Where the registry knows the ISIN and the prices pass the checks: the bars that are returned
  -- are the given ones as `sort_bars` orders them, with their raw prices, and the trail of each one
  -- consists of the ids of the wanted split and dividend actions of the ISIN whose ex date is after
  -- the bar's date, in the order in which `by_isin` gives them, which is that of the file and not
  -- that of the ex dates.
  pub adjust_prices-trail :
      (r : Registry Num) (isin : String) (prices : List (Bar F)) (types : List String)
      → (bars : List (Checked F)) (out : List (AdjustedBar F)) → (by_isin r isin ≡ [] → ⊥)
      → check_bars F prices ≡ ok bars
      → adjust_prices F r isin prices types ≡ ok out
      → All (HasTrail (keep_wanted F types (by_isin r isin))) out
        × (map quoted out ≡ sort_bars F bars)
  unfolding adjust_prices
  adjust_prices-trail r isin prices types bars out known c h = go (by_isin r isin) refl (rw c at h)
    where
      go :
          (es : List (Entry Num))
          → by_isin r isin ≡ es
          → adjust_known F types es bars ≡ ok out
          → All (HasTrail (keep_wanted F types (by_isin r isin))) out
            × (map quoted out ≡ sort_bars F bars)
      go [] q k = absurd (known q)
      go (e ∷ es) q k =
          rw q (adjust_bars-HasTrail (keep_wanted F types (e ∷ es)) (sort_bars F bars) out k)
