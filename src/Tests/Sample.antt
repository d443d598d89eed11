-- ===== src/Tests/Sample.antt =====
-- The data of the tests: fixed-point numbers in steps of 0.0001, three actions and a registry.
use corporate_actions.Prelude.{
  ◌≡◌, refl, ℕ, zero, suc, ◌+◌, ◌-◌, ◌*◌, ◌/◌, String, Bool, true, false, not, Option, none, some,
  List, [], ◌∷◌, ltb, leb, eqb, if◌then◌else◌, arith, eqb_iff,
}
use corporate_actions.Prelude.Int.{ℤ, pos, negsuc, neg_ℕ}
use corporate_actions.Floats.{Floats}
use corporate_actions.Model.{Dates, Provenance, number, Action}
use corporate_actions.Impacts.Valid.{Comparison}
use corporate_actions.Validate.References.{Registries}
use corporate_actions.Validate.Run.{Setup}

abbrev magnitude : ℤ → ℕ
magnitude (pos n) = n
magnitude (negsuc n) = suc n

abbrev is_negative : ℤ → Bool
is_negative (pos n) = false
is_negative (negsuc n) = true

abbrev signed : Bool → ℕ → ℤ
signed true n = neg_ℕ n
signed false n = pos n

abbrev differ : Bool → Bool → Bool
differ true b = not b
differ false b = b

abbrev scaled : (ℕ → ℕ → ℕ) → ℤ → ℤ → ℤ
scaled f x y = signed (differ (is_negative x) (is_negative y)) (f (magnitude x) (magnitude y))

abbrev pub fixed_lt : ℤ → ℤ → Bool
fixed_lt (pos n) (pos m) = ltb n m
fixed_lt (pos n) (negsuc m) = false
fixed_lt (negsuc n) (pos m) = true
fixed_lt (negsuc n) (negsuc m) = ltb m n

abbrev fixed_eq : ℤ → ℤ → Bool
fixed_eq (pos n) (pos m) = eqb n m
fixed_eq (pos n) (negsuc m) = false
fixed_eq (negsuc n) (pos m) = false
fixed_eq (negsuc n) (negsuc m) = eqb n m

-- n - m
abbrev pub minus : ℕ → ℕ → ℤ
minus n m = if leb m n then pos (n - m) else neg_ℕ (m - n)

abbrev pub plus : ℤ → ℤ → ℤ
plus (pos n) (pos m) = pos (n + m)
plus (pos n) (negsuc m) = minus n (suc m)
plus (negsuc n) (pos m) = minus m (suc n)
plus (negsuc n) (negsuc m) = negsuc (suc (n + m))

abbrev pub opposite : ℤ → ℤ
opposite (pos n) = neg_ℕ n
opposite (negsuc n) = pos (suc n)

abbrev pub fixed_point : Floats
fixed_point = record {
  Num = ℤ;
  of_int = λ x. scaled (λ n m. n * m) x (pos 10000);
  decimal = λ n k. pos (n * (elim k [ zero ↦ 10000 | suc j ↦ if eqb j 0 then 1000 else 100 ]));
  of_text = λ s. none;
  lt = fixed_lt;
  le = λ x y. not (fixed_lt y x);
  eq = fixed_eq;
  add = plus;
  sub = λ x y. plus x (opposite y);
  mul = scaled (λ n m. n * m / 10000);
  div = scaled (λ n m. n * 10000 / m);
  quot = scaled (λ n m. n * 10000 / m);
  overflows = λ n m. false;
  is_huge = λ x. ltb 1_000_000_000_000_000 (magnitude x);
  abs = λ x. pos (magnitude x);
  round = λ k x. x;
  fixed = λ k x. if fixed_eq x (pos 2500) then "0.2500" else "0.0000";
}

pub fixed_eq_refl : (x : ℤ) → fixed_eq x x ≡ true
fixed_eq_refl (pos n) = (eqb_iff n n).1 refl
fixed_eq_refl (negsuc n) = (eqb_iff n n).1 refl

fixed_lt-asym : (x y : ℤ) → fixed_lt x y ≡ true → not (fixed_lt y x) ≡ true
fixed_lt-asym (pos n) (pos m) h = ground arith
fixed_lt-asym (pos n) (negsuc m) h = ground arith
fixed_lt-asym (negsuc n) (pos m) h = refl
fixed_lt-asym (negsuc n) (negsuc m) h = ground arith

pub fixed_laws : Comparison fixed_point
fixed_laws = record { le_of_lt = fixed_lt-asym; one_not_negative = refl }

-- the provenance of every sample
abbrev pub filed : Option Provenance
filed = some (record {
  source = some "SEC EDGAR";
  source_url = some "https://www.sec.gov/1";
  verification_source = none;
  verification_url = none;
})

abbrev pub split_dates : Dates
split_dates = record {
  announcement = some "2020-07-30";
  ex_date = some "2020-08-31";
  record_date = some "2020-08-24";
  effective_date = some "2020-08-31";
}

-- the Apple split of 2020
abbrev pub split_action : Action ℤ
split_action = record {
  isin = some "US0378331005";
  action_id = some "US0378331005-SPLIT-2020-08-31-4-1";
  action_type = some "SPLIT";
  ratio = some "4:1";
  amount = none;
  currency = none;
  exchange = none;
  dates = some split_dates;
  status = none;
  redistribution = some "public-domain";
  provenance = filed;
  impact = none;
}

-- a dividend of 0.25
abbrev pub dividend_action : Action ℤ
dividend_action = record {
  isin = some "US0378331005";
  action_id = some "US0378331005-DIVIDEND-2021-02-11-0.2500";
  action_type = some "DIVIDEND";
  ratio = none;
  amount = some (number (pos 2500));
  currency = some "USD";
  exchange = some "XNAS";
  dates = some (record {
    announcement = some "2021-01-27";
    ex_date = some "2021-02-05";
    record_date = some "2021-02-08";
    effective_date = some "2021-02-11";
  });
  status = none;
  redistribution = some "public-domain";
  provenance = filed;
  impact = none;
}

-- the dividend again, two days later and under another id
abbrev pub twin_action : Action ℤ
twin_action = record dividend_action {
  action_id = some "US0378331005-DIVIDEND-2021-02-13-0.2500";
  dates = some (record {
    announcement = some "2021-01-27";
    ex_date = some "2021-02-06";
    record_date = some "2021-02-08";
    effective_date = some "2021-02-13";
  });
}

abbrev pub everything_known : Registries
everything_known = record { isins = λ x. true; currencies = λ x. true; mics = λ x. true }

abbrev pub setup : Setup fixed_point String
setup = record {
  schema_errors = λ a. [];
  known = everything_known;
  strict_isin = true;
  min_actions = 2;
}

abbrev pub actions : List (Action ℤ)
actions = split_action ∷ dividend_action ∷ []
