-- ===== src/Redistribution.antt =====
-- tools/derive_redistribution.py: the category of a source.
pub mod Run
use corporate_actions.Prelude.{
  ℕ, String, ◌≡◌, refl, Bool, true, false, ◌&&◌, ◌||◌, Option, none, some, List, [], ◌∷◌, any, ◌==◌,
  if◌then◌else◌,
}
use corporate_actions.Prelude.Text.{codes, lower, is_infix, is_prefix}
use corporate_actions.Model.{Action, Provenance}

-- VALID_CATEGORIES
pub data Category : Type 0 where
  public_domain facts_only secondary_source restricted : Category

-- the text that the `redistribution` field holds
unfoldable pub category_text : Category → String
category_text Category.public_domain = "public-domain"
category_text Category.facts_only = "facts-only"
category_text Category.secondary_source = "secondary-source"
category_text Category.restricted = "restricted"

-- the markers of an SEC filing, looked for in the lowered source
abbrev pub filing_markers : List String
filing_markers = "8-k" ∷ "10-k" ∷ "10-q" ∷ "s-4" ∷ "25-nse" ∷ "form 25" ∷ "form 8" ∷ "form 10" ∷ []

unfoldable pub names_filing : List ℕ → Bool
unfolding is_infix
names_filing s = any (λ t. is_infix (codes t) s) filing_markers

-- the tests on the lowered source
unfoldable pub category_of_lowered : List ℕ → Category
unfolding names_filing
category_of_lowered s =
    if names_filing s
    then Category.public_domain
    else if is_infix (codes "press release") s
    then Category.facts_only
    else if is_infix (codes "exchange") s && is_infix (codes "announcement") s
    then Category.facts_only
    else Category.restricted

unfoldable pub redistribution_for : Option String → Category
unfolding category_of_lowered lower is_prefix
redistribution_for none = Category.restricted
redistribution_for (some s) =
    if s == ""
    then Category.restricted
    else if s == "SEC EDGAR"
    then Category.public_domain
    else if is_prefix (codes "Yahoo Finance") (codes s)
    then Category.secondary_source
    else category_of_lowered (lower s)

module _ {N : Type 0} where
  -- a provenance that is missing has no source
  unfoldable pub extract_source : Action N → Option String
  extract_source a = elim a.provenance [ none ↦ none | some p ↦ p.source ]

redistribution_for_filing : redistribution_for (some "Apple Form 8-K") ≡ Category.public_domain
unfolding redistribution_for
redistribution_for_filing = refl
