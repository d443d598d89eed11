-- ===== src/Sec/Agrees.antt =====
-- What the other tools make of the actions that are built from a filing.
use Prim.Native.String.{◌++◌}
use mathlib.Core.List
use corporate_actions.Prelude.{
  ◌≡◌, refl, ◌↔◌, String, Bool, true, false, Option, none, some, List, [], ◌∷◌, All, All-append,
  ◌==◌, if◌then◌else◌, arith, Bool-cases, Option-cases, inl, inr, none≢some, some_inj,
}
use corporate_actions.Prelude.Text.{
  codes, codes-append, given, or_else, str_le, is_prefix, upper_text,
}
use corporate_actions.Floats.{Floats}
use corporate_actions.Model.{Action}
use corporate_actions.Ratio.Parse.{given-nonempty}
use corporate_actions.Impacts.{derive_impact, impact_of_type}
use corporate_actions.Validate.ActionId.{◌>>=◌}
use corporate_actions.Validate.Temporal.{
  validate_temporal, basic_errors, type_errors, delisting_errors,
}
use corporate_actions.Validate.References.{validate_provenance, is_http}
use corporate_actions.Rewrite.{build_canonical_id, if_canonical, discriminator}
use corporate_actions.Sec.{
  Target, Row, Filing, effective_of, extract_effective_date, filing_url, short_cik, drop_dashes,
  filed_action, build_symbol_change, build_delisting, listed, take_filing, is_symbol_change,
  is_delisting, extract_new_symbol,
}

given-or_else :
    (o : Option String) (d : String)
    → given (some d) ≡ some d
    → given (some (or_else o d)) ≡ some (or_else o d)
given-or_else none d h = h
given-or_else (some s) d h = elim (Bool-cases (s == "")) [
  | inl e ↦ rw e h
  | inr e ↦ rw e (rw e refl)
]

filing_url-codes :
    (cik accession doc : String)
    → codes (filing_url cik accession doc)
      ≡ List.◌++◌
          (codes "https://www.sec.gov/Archives/edgar/data/")
          (codes (short_cik cik ++ "/" ++ drop_dashes accession ++ "/" ++ doc))
unfolding filing_url
filing_url-codes cik accession doc =
    codes-append "https://www.sec.gov/Archives/edgar/data/"
      (short_cik cik ++ "/" ++ drop_dashes accession ++ "/" ++ doc)

filing_url-http : (cik accession doc : String) → is_http (filing_url cik accession doc) ≡ true
unfolding is_prefix
filing_url-http cik accession doc = rw (filing_url-codes cik accession doc) refl

filing_url-given :
    (cik accession doc : String)
    → given (some (filing_url cik accession doc)) ≡ some (filing_url cik accession doc)
filing_url-given cik accession doc =
    given-nonempty (filing_url cik accession doc) (rw (filing_url-codes cik accession doc) refl)

module _ (F : Floats) (t : Target) (row : Row) (f : Filing) where
  open F use {Num}

  -- What the other tools make of an action: the temporal layer of the validator finds nothing
  -- exactly when the effective date does not lie before the filing date, the provenance layer finds
  -- nothing, and the impact and the id are the ones that derive_impacts and rewrite_action_ids give.
  pub record Agrees (a : Action Num) : Type 0 where
    pub temporal : (validate_temporal a ≡ []) ↔ (str_le row.filing_date (effective_of row f) ≡ true)
    pub provenance : validate_provenance a ≡ []
    pub impact : derive_impact F a ≡ a.impact
    pub canonical : build_canonical_id F a ≡ (a.action_id >>= if_canonical F)

  module _ (has_isin : given (some t.isin) ≡ some t.isin)
      (has_date : given (some row.filing_date) ≡ some row.filing_date) where
    has_effective : given (some (effective_of row f)) ≡ some (effective_of row f)
    has_effective = given-or_else (extract_effective_date f.dates) row.filing_date has_date

    build_delisting-Agrees : Agrees (build_delisting F t row f)
    unfolding build_delisting validate_temporal basic_errors type_errors delisting_errors
        validate_provenance derive_impact impact_of_type build_canonical_id discriminator
    build_delisting-Agrees =
        let url = filing_url t.cik row.accession row.primary_doc in
        record {
          temporal = rw (has_date, has_effective) (ground arith);
          provenance = ground (
            arith,
            filing_url-given t.cik row.accession row.primary_doc,
            filing_url-http t.cik row.accession row.primary_doc,
          );
          impact = refl;
          canonical = rw (has_isin, has_effective) refl;
        }

    build_symbol_change-Agrees :
        (a : Action Num) → build_symbol_change F t row f ≡ some a → Agrees a
    unfolding build_symbol_change validate_temporal basic_errors type_errors validate_provenance
        derive_impact impact_of_type build_canonical_id discriminator
    build_symbol_change-Agrees a h = elim (Option-cases (given (extract_new_symbol f))) [
      | inl e ↦ absurd (none≢some (rw (e, build_symbol_change) at h))
      | inr (s, e) ↦ elim (Bool-cases (s == upper_text t.ticker)) [
        | inl k ↦ absurd (none≢some (rw k at (rw (e, build_symbol_change) at h)))
        | inr k ↦
            let same : filed_action F t row f "SYMBOL_CHANGE" "SYMBOL" ≡ a =
              some_inj (rw k at (rw (e, build_symbol_change) at h)) in
            rw (← same) (record {
              temporal = rw (has_date, has_effective) (ground arith);
              provenance = ground (
                arith,
                filing_url-given t.cik row.accession row.primary_doc,
                filing_url-http t.cik row.accession row.primary_doc,
              );
              impact = refl;
              canonical = rw (has_isin, has_effective) refl;
            })
      ]
    ]

    All-if : (b : Bool) (xs : List (Action Num)) → All Agrees xs → All Agrees (if b then xs else [])
    All-if true xs h = h
    All-if false xs h = tt

    listed-Agrees :
        (o : Option (Action Num))
        → ((a : Action Num) → o ≡ some a → Agrees a)
        → All Agrees (listed F o)
    listed-Agrees none h = tt
    listed-Agrees (some a) h = (h a refl, tt)

    -- Where the ISIN and the filing date are not empty: of every action that the loop of `main`
    -- takes from a filing, the temporal layer of the validator finds nothing exactly when the
    -- effective date does not lie before the filing date, the provenance layer finds nothing, and
    -- the impact and the id are the ones that derive_impacts and rewrite_action_ids give, if the id
    -- is well formed.
    pub take_filing-Agrees : All Agrees (take_filing F t row f)
    unfolding take_filing
    take_filing-Agrees =
        All-append Agrees
          (if is_symbol_change f then listed F (build_symbol_change F t row f) else [])
          (if is_delisting f then build_delisting F t row f ∷ [] else [])
          (All-if (is_symbol_change f) (listed F (build_symbol_change F t row f))
            (listed-Agrees (build_symbol_change F t row f) build_symbol_change-Agrees))
          (All-if (is_delisting f) (build_delisting F t row f ∷ []) (build_delisting-Agrees, tt))
