-- ===== src/Validate/Temporal/Chain.antt =====
-- What a pass of the temporal layer means: a chain of dates for each type of action.
use corporate_actions.Prelude.{
  String, ◌≡◌, refl, sym, ◌∙◌, ◌↔◌, ◌⊎◌, inl, inr, ◌||◌, or-cases, Bool-cases, append-nil_iff, true,
  false, Option, none, some, [], ◌++◌, arith, ◌==◌, eq_iff,
}
use corporate_actions.Prelude.Text.{str_lt, str_ne, given}
use corporate_actions.Model.{Dates, dates_or_empty, Action}
use corporate_actions.Validate.Temporal.{
  both, after, not_before, is_split, is_dividend, given_dates, basic_errors, ex_date_errors,
  dividend_errors, delisting_errors, type_errors, validate_temporal,
}

-- Two dates are in order, where both are given.
abbrev pub NotAfter : Option String → Option String → Type 0
NotAfter none y = Unit
NotAfter (some x) none = Unit
NotAfter (some x) (some y) = str_lt y x ≡ false

abbrev pub Before : Option String → Option String → Type 0
Before none y = Unit
Before (some x) none = Unit
Before (some x) (some y) = str_lt x y ≡ true

abbrev pub Same : Option String → Option String → Type 0
Same none y = Unit
Same (some x) none = Unit
Same (some x) (some y) = x ≡ y

-- The order that each type of action asks of its dates.
pub record TypeRules (t : String) (d : Dates) : Type 0 where
  pub split :
      is_split t ≡ true
      → NotAfter d.announcement d.ex_date
        × Same d.ex_date d.effective_date
        × NotAfter d.record_date d.ex_date
  pub dividend :
      is_dividend t ≡ true
      → NotAfter d.announcement d.ex_date
        × Before d.ex_date d.record_date
        × NotAfter d.record_date d.effective_date
  pub spinoff : t ≡ "SPINOFF" → NotAfter d.announcement d.ex_date × Same d.ex_date d.effective_date
  pub delisting : t ≡ "DELISTING" → (d.ex_date ≡ none) × (d.record_date ≡ none)

pub record IsTimely (t : String) (d : Dates) : Type 0 where
  pub announced : (x : String) × (d.announcement ≡ some x)
  pub takes_effect : (x : String) × (d.effective_date ≡ some x)
  pub announced_first : NotAfter d.announcement d.effective_date
  pub rules : TypeRules t d

pub after-NotAfter : (x y : Option String) → (both after x y ≡ false) ↔ NotAfter x y
after-NotAfter none y = (λ _. tt, λ _. refl)
after-NotAfter (some x) none = (λ _. tt, λ _. refl)
after-NotAfter (some x) (some y) = (λ h. h, λ h. h)

pub not_before-Before : (x y : Option String) → (both not_before x y ≡ false) ↔ Before x y
not_before-Before none y = (λ _. tt, λ _. refl)
not_before-Before (some x) none = (λ _. tt, λ _. refl)
not_before-Before (some x) (some y) = ground arith

pub str_ne-Same : (x y : Option String) → (both str_ne x y ≡ false) ↔ Same x y
str_ne-Same none y = (λ _. tt, λ _. refl)
str_ne-Same (some x) none = (λ _. tt, λ _. refl)
str_ne-Same (some x) (some y) = ground (arith, eq_iff x y)

-- a text that is one of two others
pub either-cases : (t a b : String) → (t == a || t == b) ≡ true → (t ≡ a) ⊎ (t ≡ b)
either-cases t a b h = elim (or-cases (t == a) (t == b) h) [
  | inl e ↦ inl ((eq_iff t a).0 e)
  | inr e ↦ inr ((eq_iff t b).0 e)
]

pub dividend_not_split : (t : String) → is_dividend t ≡ true → is_split t ≡ false
dividend_not_split t h = elim (either-cases t "DIVIDEND" "SPECIAL_DIVIDEND" h) [
  | inl e ↦ rw e
  | inr e ↦ rw e
]

basic_errors-nil :
    (d : Dates)
    → (basic_errors d ≡ []) ↔ (
        ((x : String) × (d.announcement ≡ some x))
        × ((x : String) × (d.effective_date ≡ some x))
        × NotAfter d.announcement d.effective_date)
unfolding basic_errors
basic_errors-nil d = ground (arith, after-NotAfter d.announcement d.effective_date)

ex_date_errors-nil :
    (d : Dates)
    → (ex_date_errors d ≡ [])
      ↔ (NotAfter d.announcement d.ex_date × Same d.ex_date d.effective_date)
unfolding ex_date_errors
ex_date_errors-nil d =
    ground (arith, after-NotAfter d.announcement d.ex_date, str_ne-Same d.ex_date d.effective_date)

dividend_errors-nil :
    (d : Dates)
    → (dividend_errors d ≡ []) ↔ (
        NotAfter d.announcement d.ex_date
        × Before d.ex_date d.record_date
        × NotAfter d.record_date d.effective_date)
unfolding dividend_errors
dividend_errors-nil d = ground (
  arith,
  after-NotAfter d.announcement d.ex_date,
  not_before-Before d.ex_date d.record_date,
  after-NotAfter d.record_date d.effective_date,
)

delisting_errors-nil :
    (d : Dates) → (delisting_errors d ≡ []) ↔ ((d.ex_date ≡ none) × (d.record_date ≡ none))
unfolding delisting_errors
delisting_errors-nil d = ground arith

split_type_errors-nil :
    (d : Dates) (t : String)
    → is_split t ≡ true
    → (type_errors t d ≡ []) ↔ (
        NotAfter d.announcement d.ex_date
        × Same d.ex_date d.effective_date
        × NotAfter d.record_date d.ex_date)
unfolding type_errors
split_type_errors-nil d t h =
    rw (h, type_errors)
      (ground (
        arith,
        after-NotAfter d.announcement d.ex_date,
        str_ne-Same d.ex_date d.effective_date,
        after-NotAfter d.record_date d.ex_date,
      ))

dividend_type_errors :
    (d : Dates) (t : String) → is_dividend t ≡ true → type_errors t d ≡ dividend_errors d
unfolding type_errors
dividend_type_errors d t h = rw (dividend_not_split t h, h)

spinoff_type_errors : (d : Dates) → type_errors "SPINOFF" d ≡ ex_date_errors d
unfolding type_errors
spinoff_type_errors d = refl

delisting_type_errors : (d : Dates) → type_errors "DELISTING" d ≡ delisting_errors d
unfolding type_errors
delisting_type_errors d = refl

-- the types that have no rules of their own, and the types that the registry does not know
other_type_errors :
    (d : Dates) (t : String)
    → is_split t ≡ false
    → is_dividend t ≡ false
    → (t == "SPINOFF") ≡ false
    → (t == "DELISTING") ≡ false
    → type_errors t d ≡ []
unfolding type_errors
other_type_errors d t s v p q = rw (s, v, p, q, type_errors) (ground arith)

type_errors-TypeRules : (t : String) (d : Dates) → type_errors t d ≡ [] → TypeRules t d
type_errors-TypeRules t d h = record {
  split = λ k. (split_type_errors-nil d t k).0 h;
  dividend = λ k. (dividend_errors-nil d).0 (sym (dividend_type_errors d t k) ∙ h);
  spinoff = λ k. (ex_date_errors-nil d).0 (sym (spinoff_type_errors d) ∙ (rw k at h));
  delisting = λ k. (delisting_errors-nil d).0 (sym (delisting_type_errors d) ∙ (rw k at h));
}

TypeRules-type_errors : (t : String) (d : Dates) → TypeRules t d → type_errors t d ≡ []
TypeRules-type_errors t d r = elim (Bool-cases (is_split t)) [
  | inl s ↦ (split_type_errors-nil d t s).1 (r.split s)
  | inr s ↦ elim (Bool-cases (is_dividend t)) [
    | inl v ↦ dividend_type_errors d t v ∙ (dividend_errors-nil d).1 (r.dividend v)
    | inr v ↦ elim (Bool-cases (t == "SPINOFF")) [
      | inl p ↦
          let e = (eq_iff t "SPINOFF").0 p in
          rw e (spinoff_type_errors d ∙ (ex_date_errors-nil d).1 (r.spinoff e))
      | inr p ↦ elim (Bool-cases (t == "DELISTING")) [
        | inl q ↦
            let e = (eq_iff t "DELISTING").0 q in
            rw e (delisting_type_errors d ∙ (delisting_errors-nil d).1 (r.delisting e))
        | inr q ↦ other_type_errors d t s v p q
      ]
    ]
  ]
]

all_errors-nil_iff :
    (t : String) (d : Dates) → (basic_errors d ++ type_errors t d ≡ []) ↔ IsTimely t d
all_errors-nil_iff t d = (
  λ h.
      let (b, r) = (append-nil_iff (basic_errors d) (type_errors t d)).0 h in
      let (x, y, o) = (basic_errors-nil d).0 b in
      record {
        announced = x;
        takes_effect = y;
        announced_first = o;
        rules = type_errors-TypeRules t d r;
      },
  λ k. (append-nil_iff (basic_errors d) (type_errors t d)).1 (
    (basic_errors-nil d).1 (k.announced, k.takes_effect, k.announced_first),
    TypeRules-type_errors t d k.rules,
  ),
)

module _ {N : Type 0} (a : Action N) where
  -- For an action that has a type, the temporal layer finds nothing exactly when both required
  -- dates are given, the announcement is not after the effective date, and the dates stand in the
  -- order that the rules of the type ask for.
  pub validate_temporal-nil_iff :
      (t : String)
      → given a.action_type ≡ some t
      → (validate_temporal a ≡ []) ↔ IsTimely t (given_dates (dates_or_empty a.dates))
  unfolding validate_temporal
  validate_temporal-nil_iff t h =
      rw (h, validate_temporal) (all_errors-nil_iff t (given_dates (dates_or_empty a.dates)))
