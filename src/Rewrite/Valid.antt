-- ===== src/Rewrite/Valid.antt =====
-- The validator accepts the ids that the rewriting builds.
use Prim.Native.String.{◌++◌}
use mathlib.Core.List
use mathlib.Core.List.{append-nil}
use corporate_actions.Prelude.{
  ◌≡◌, refl, sym, ap, ◌∙◌, String, Bool, true, false, not, ◌||◌, Option, none, some, [], ◌∷◌, map,
  report, ◌==◌, if◌then◌else◌, arith, some_inj, none≢some,
}
use corporate_actions.Prelude.Text.{codes, codes_eq, given}
use corporate_actions.Floats.{Floats}
use corporate_actions.Model.{Dates, Value, number, flag, text, other, Action}
use corporate_actions.Ratio.{show, str}
use corporate_actions.Ratio.Digits.{all_digits, show-all_digits}
use corporate_actions.Ratio.Shown.{codes-str}
use corporate_actions.Ratio.Parse.{ratio_text}
use corporate_actions.Validate.Unique.{member}
use corporate_actions.Validate.ActionId.{
  isin_classes, date_classes, type_names, match_id, IdParts, IdError, isin_differs, type_differs,
  date_differs, not_symbol, not_delisted, group_errors, ratio_disc_errors, disc_errors,
  amount_disc_errors, part_errors, validate_action_id_format, colon_to_dash,
}
use corporate_actions.Yahoo.Build.Split.{IsShown, codes-shown_ratio, ratio_discriminator-shown}
use corporate_actions.Rewrite.{
  discriminator, ratio_discriminator, amount_discriminator, if_canonical, build_canonical_id,
}
use corporate_actions.Rewrite.Shape.{
  Codes, codes_eq_same, Fits, IsTypeName, type_names-All, member-All, is_line, id_text, codes-dash,
  is_canonical-id_text, match_id-id_text, isin-given, date-given, given_id,
}

group_errors-same :
    (e : IdError) (s : String) → given (some s) ≡ some s → group_errors e (codes s) (some s) ≡ []
unfolding group_errors
group_errors-same e s h = ground (arith, h, codes_eq_same (codes s))

map-digits : (s : Codes) → all_digits s ≡ true → map colon_to_dash s ≡ s
map-digits [] h = refl
map-digits (c ∷ s) h = ground (arith, map-digits s)

map-colon_to_dash :
    (s t : Codes)
    → all_digits s ≡ true
    → all_digits t ≡ true
    → map colon_to_dash (ratio_text s t) ≡ List.◌++◌ s (b'-' ∷ t)
map-colon_to_dash [] t h k = ap (λ (r : Codes). b'-' ∷ r) (map-digits t k)
map-colon_to_dash (c ∷ s) t h k = ground (arith, map-colon_to_dash s t)

-- a ratio that is written as an f-string writes two positive numbers: without leading zeros
abbrev pub HasPlainRatio : Option String → Type 0
HasPlainRatio none = Unit
HasPlainRatio (some r) = IsShown r

ratio_disc_errors-same :
    (ratio : Option String) (disc : String)
    → HasPlainRatio ratio
    → ratio_discriminator ratio ≡ some disc
    → ratio_disc_errors (codes disc) ratio ≡ []
unfolding ratio_disc_errors
ratio_disc_errors-same none disc v h = ground (arith, h)
ratio_disc_errors-same (some r) disc v h =
    let same : disc ≡ str v.num ++ "-" ++ str v.den =
      some_inj (sym h ∙ ratio_discriminator-shown r v) in
    let whole : codes r ≡ ratio_text (show v.num) (show v.den) =
      ap codes v.shown ∙ codes-shown_ratio v.num v.den in
    let shown : codes disc ≡ map colon_to_dash (codes r) =
      ap codes same
      ∙ codes-dash (str v.num) (str v.den)
      ∙ rw (codes-str v.num, codes-str v.den)
          (sym (
            ap (map colon_to_dash) whole
            ∙ map-colon_to_dash (show v.num) (show v.den) (show-all_digits v.num)
                (show-all_digits v.den))) in
    ground (arith, ap (codes_eq (codes disc)) (sym shown), codes_eq_same (codes disc))

module _ (F : Floats) where
  open F use {Num}

  amount_disc_errors-same :
      (amount : Option (Value Num)) (disc : String)
      → amount_discriminator F amount ≡ some disc
      → amount_disc_errors F (codes disc) amount ≡ []
  unfolding amount_disc_errors amount_discriminator
  amount_disc_errors-same none disc h = refl
  amount_disc_errors-same (some (number x)) disc h =
      rw (some_inj h) (ground (arith, codes_eq_same (codes disc)))
  amount_disc_errors-same (some (flag b)) disc h = absurd (none≢some h)
  amount_disc_errors-same (some (text s)) disc h = absurd (none≢some h)
  amount_disc_errors-same (some (other b)) disc h = absurd (none≢some h)

  of_branches :
      (is_ratio is_amount is_symbol is_delisting : Bool) (a : Action Num) (disc : String)
      → HasPlainRatio a.ratio
      → (if is_ratio
          then ratio_discriminator a.ratio
          else if is_amount
          then amount_discriminator F a.amount
          else if is_symbol
          then some "SYMBOL"
          else if is_delisting
          then some "DELISTED"
          else none)
        ≡ some disc
      → (if is_ratio
          then ratio_disc_errors (codes disc) a.ratio
          else if is_amount
          then amount_disc_errors F (codes disc) a.amount
          else if is_symbol
          then report (not (codes_eq (codes disc) (codes "SYMBOL"))) not_symbol
          else if is_delisting
          then report (not (codes_eq (codes disc) (codes "DELISTED"))) not_delisted
          else [])
        ≡ []
  of_branches true b c d a disc v h = ratio_disc_errors-same a.ratio disc v h
  of_branches false true c d a disc v h = amount_disc_errors-same a.amount disc h
  of_branches false false true d a disc v h =
      rw (← some_inj h) (ground (arith, codes_eq_same (codes "SYMBOL")))
  of_branches false false false true a disc v h =
      rw (← some_inj h) (ground (arith, codes_eq_same (codes "DELISTED")))
  of_branches false false false false a disc v h = absurd (none≢some h)

  disc_errors-canonical :
      (a : Action Num) (t disc : String)
      → HasPlainRatio a.ratio
      → discriminator F t a ≡ some disc
      → disc_errors F (codes disc) a t ≡ []
  unfolding discriminator disc_errors
  disc_errors-canonical a t disc v h =
      of_branches (t == "SPLIT" || t == "REVERSE_SPLIT" || t == "SPINOFF")
        (t == "DIVIDEND" || t == "SPECIAL_DIVIDEND") (t == "SYMBOL_CHANGE") (t == "DELISTING") a
        disc v h

  part_errors-nil :
      (a : Action Num) (isin t date disc : String) (d : Dates)
      → a.isin ≡ some isin
      → a.action_type ≡ some t
      → a.dates ≡ some d
      → d.effective_date ≡ some date
      → Fits isin_classes isin
      → Fits date_classes date
      → IsTypeName t
      → HasPlainRatio a.ratio
      → discriminator F t a ≡ some disc
      → part_errors F
          (record { isin = codes isin; kind = codes t; date = codes date; disc = codes disc })
          a
        ≡ []
  unfolding part_errors
  part_errors-nil a isin t date disc d ei et ed ee hi hd n hr hx =
      rw (ei, et, ed)
        (rw
          (
            ee,
            group_errors-same isin_differs isin (isin-given isin hi),
            group_errors-same type_differs t n.named,
            disc_errors-canonical a t disc hr hx,
          )
          (rw (group_errors-same date_differs date (date-given date hd)) refl))

  validate-nil :
      (a : Action Num) (id : String) (m : IdParts)
      → a.action_id ≡ some id
      → given (some id) ≡ some id
      → match_id (codes id) ≡ some m
      → part_errors F m a ≡ []
      → validate_action_id_format F a ≡ []
  unfolding validate_action_id_format
  validate-nil a id m e g h k =
      rw e (rw (g, validate_action_id_format) (rw (h, validate_action_id_format) k))

  -- The validator finds nothing in the id that the rewriting builds: where the ISIN and the date
  -- have their shape, the type is a known one, the ratio is written without leading zeros, and the
  -- discriminator is one line, an action has a canonical id, and with it the layer for ids finds
  -- nothing.
  pub build_canonical_id-valid :
      (a : Action Num) (isin t date disc : String) (d : Dates)
      → a.isin ≡ some isin
      → a.action_type ≡ some t
      → a.dates ≡ some d
      → d.effective_date ≡ some date
      → Fits isin_classes isin
      → Fits date_classes date
      → member t type_names ≡ true
      → HasPlainRatio a.ratio
      → discriminator F t a ≡ some disc
      → is_line (codes disc) ≡ true
      → (id : String) × (build_canonical_id F a ≡ some id)
        × (validate_action_id_format F (record a { action_id = some id }) ≡ [])
  unfolding build_canonical_id if_canonical discriminator
  build_canonical_id-valid a isin t date disc d ei et ed ee hi hd ht hr hx hl =
      let n = member-All IsTypeName t type_names type_names-All ht in
      let given_isin = isin-given isin hi in
      let given_date = date-given date hd in
      let id = id_text isin t date disc in
      let renamed : Action Num = record a { action_id = some id } in
      let canonical = is_canonical-id_text isin t date disc hi hd n hl in
      (
        id,
        rw (ei, et, ed)
            (rw (given_isin, n.named, ee)
              (rw given_date
                (rw (hx, build_canonical_id) (rw (canonical, build_canonical_id) refl)))),
        validate-nil renamed id
            (record { isin = codes isin; kind = codes t; date = codes date; disc = codes disc })
            refl (given_id isin t date disc hi) (match_id-id_text isin t date disc hi hd n hl)
            (part_errors-nil renamed isin t date disc d ei et ed ee hi hd n hr hx),
      )
