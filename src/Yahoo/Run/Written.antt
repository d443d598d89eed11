-- ===== src/Yahoo/Run/Written.antt =====
-- What a run of the Yahoo fetcher writes, and its exit code.
use corporate_actions.Prelude.{
  ◌≡◌, refl, ◌∙◌, ℕ, String, Bool, true, false, not, ◌&&◌, Option, none, some, List, [], ◌∷◌, ◌++◌,
  any, all, All, All-append, All-imp, if◌then◌else◌, arith, Option-cases, Bool-cases, inl, inr, eqb,
  and-true_left, and-true_right,
}
use corporate_actions.Prelude.Int.{ℤ, pos}
use corporate_actions.Floats.{Floats}
use corporate_actions.Model.{Dates, Action}
use corporate_actions.Validate.Temporal.{validate_temporal}
use corporate_actions.Validate.References.{validate_provenance}
use corporate_actions.Validate.Unique.{validate_uniqueness}
use corporate_actions.Limiter.{Bucket, new_bucket, is_refused}
use corporate_actions.Calendar.{strptime}
use corporate_actions.Fetch.{output, exit_code}
use corporate_actions.Fetch.Output.{output-All, output-IsSorted}
use corporate_actions.Yahoo.{File, Target, is_early, event_dates, load_instruments, loaded}
use corporate_actions.Yahoo.Build.{Events}
use corporate_actions.Yahoo.Build.Valid.{
  IsEvent, IsEvent-temporal, IsEvent-provenance, actions_of-AreEvents,
}
use corporate_actions.Yahoo.Attempts.{first_answer, fetch_events-answer}
use corporate_actions.Yahoo.Run.{
  Settings, ended, Tally, fetch_actions_for_ticker, fetch_target, fetch_loop, write_output,
  run_targets, selected, run_loaded, main,
}

-- What holds of a written action: two layers of the validator find nothing in it, and its dates
-- are one date of the window.
pub record IsFetched {N : Type 0} (min_date : Option String) (a : Action N) : Type 0 where
  pub temporal : validate_temporal a ≡ []
  pub provenance : validate_provenance a ≡ []
  pub date : String
  pub dated : a.dates ≡ some (event_dates date)
  pub inside : is_early min_date date ≡ false

IsEvent-IsFetched :
    {N : Type 0} (min_date : Option String) (t : Target) (a : Action N)
    → IsEvent min_date t a
    → IsFetched min_date a
IsEvent-IsFetched min_date t a e = record {
  temporal = IsEvent-temporal a e;
  provenance = IsEvent-provenance a e;
  date = e.date;
  dated = e.dated;
  inside = e.inside;
}

abbrev pub succeeded {ℓ} : {A : Type ℓ} → Option A → Bool
succeeded none = false
succeeded (some x) = true

abbrev is_empty {ℓ} : {A : Type ℓ} → List A → Bool
is_empty [] = true
is_empty (x ∷ xs) = false

is_empty-snoc {ℓ} : {A : Type ℓ} (xs : List A) (x : A) → is_empty (xs ++ x ∷ []) ≡ false
is_empty-snoc [] x = refl
is_empty-snoc (y ∷ xs) x = refl

first_answer-some {ℓ} :
    {A : Type ℓ} (try : ℕ → Option A) (ks : List ℕ)
    → any (λ k. succeeded (try k)) ks ≡ true
    → (x : A) × (first_answer try ks ≡ some x)
first_answer-some try [] h = absurd (ground arith)
first_answer-some try (k ∷ ks) h = elim (Option-cases (try k)) [
  | inl e ↦ rw (e, first_answer) (first_answer-some try ks (rw (e, any) at h))
  | inr (x, e) ↦ (x, rw (e, first_answer) refl)
]

first_answer-none {ℓ} :
    {A : Type ℓ} (try : ℕ → Option A) (ks : List ℕ)
    → any (λ k. succeeded (try k)) ks ≡ false
    → first_answer try ks ≡ none
first_answer-none try [] h = refl
first_answer-none try (k ∷ ks) h = elim (Option-cases (try k)) [
  | inl e ↦ rw (e, first_answer) (first_answer-none try ks (rw (e, any) at h))
  | inr (x, e) ↦ absurd (ground (arith, e, h))
]

exit_code-cases :
    (processed : ℕ) (errors : List String)
    → exit_code processed errors ≡ (if eqb processed 0 then 3 else if is_empty errors then 0 else 1)
unfolding exit_code
exit_code-cases processed [] = refl
exit_code-cases processed (e ∷ errors) = refl

module _ (F : Floats) (limit_denominator : F.Num → Option (ℤ × ℕ))
    (answer : String → ℕ → Option (Events F.Num)) (jitter : ℕ → F.Num) where
  open F use {Num, of_int, le, lt}

  -- one of three attempts for the ticker succeeds
  abbrev pub is_answered : Target → Bool
  is_answered t = any (λ k. succeeded (answer t.ticker k)) (0 ∷ 1 ∷ 2 ∷ [])

  -- the exit code of a run that writes: all tickers were answered, some, or none
  abbrev pub code_for : List Target → ℕ
  code_for targets =
      if not (any is_answered targets) then 3 else if all is_answered targets then 0 else 1

  module _ (min_date : Option String) where
    fetch-answered :
        (t : Target)
        → is_answered t ≡ true
        → (actions : List (Action Num)) × (fetch_actions_for_ticker F limit_denominator answer
              jitter t min_date
            ≡ some actions)
          × All (IsFetched min_date) actions
    unfolding fetch_actions_for_ticker
    fetch-answered t h =
        let (events, e) = first_answer-some (answer t.ticker) (0 ∷ 1 ∷ 2 ∷ []) h in
        let (actions, f, all_events) = actions_of-AreEvents F limit_denominator min_date t events in
        (
          actions,
          rw (fetch_events-answer F (answer t.ticker) jitter ∙ e, fetch_actions_for_ticker) f,
          All-imp (IsEvent min_date t) (IsFetched min_date) (IsEvent-IsFetched min_date t) actions
              all_events,
        )

    fetch-unanswered :
        (t : Target)
        → is_answered t ≡ false
        → fetch_actions_for_ticker F limit_denominator answer jitter t min_date ≡ none
    unfolding fetch_actions_for_ticker
    fetch-unanswered t h =
        rw
          (
            fetch_events-answer F (answer t.ticker) jitter
                ∙ first_answer-none (answer t.ticker) (0 ∷ 1 ∷ 2 ∷ []) h,
            fetch_actions_for_ticker,
          )
          refl

    -- A tally in which all is well, after some instruments.
    record IsTally (targets : List Target) (before after : Tally Num) : Type 0 where
      fetched : All (IsFetched min_date) after.actions
      no_errors : is_empty after.errors ≡ (is_empty before.errors && all is_answered targets)
      none_processed :
          eqb after.processed 0 ≡ (eqb before.processed 0 && not (any is_answered targets))

    fetch_target-IsTally :
        (t : Target) (before : Tally Num)
        → All (IsFetched min_date) before.actions
        → IsTally (t ∷ []) before (fetch_target F limit_denominator answer jitter min_date t before)
    unfolding fetch_target
    fetch_target-IsTally t before h = elim (Bool-cases (is_answered t)) [
      | inl e ↦
          let (actions, f, valid) = fetch-answered t e in
          rw (f, fetch_target)
            (record {
              fetched = All-append (IsFetched min_date) before.actions actions h valid;
              no_errors = ground (arith, e);
              none_processed = ground (arith, e);
            })
      | inr e ↦
          rw (fetch-unanswered t e, fetch_target)
            (record {
              fetched = h;
              no_errors = ground (arith, e, is_empty-snoc before.errors t.ticker);
              none_processed = ground (arith, e);
            })
    ]

    fetch_loop-IsTally :
        (bucket : Bucket F) (targets : List Target) (before : Tally Num)
        → is_refused F (of_int (pos 1)) bucket ≡ false
        → All (IsFetched min_date) before.actions
        → (after : Tally Num) × (fetch_loop F limit_denominator answer jitter bucket min_date
              targets before
            ≡ some after)
          × IsTally targets before after
    unfolding fetch_loop
    fetch_loop-IsTally bucket [] before r h = (
      before,
      refl,
      record { fetched = h; no_errors = ground arith; none_processed = ground arith },
    )
    fetch_loop-IsTally bucket (t ∷ rest) before r h =
        let next = fetch_target F limit_denominator answer jitter min_date t before in
        let one = fetch_target-IsTally t before h in
        let (after, e, more) = fetch_loop-IsTally bucket rest next r one.fetched in
        (
          after,
          rw (r, fetch_loop) e,
          record {
            fetched = more.fetched;
            no_errors = ground (arith, one.no_errors, more.no_errors);
            none_processed = ground (arith, one.none_processed, more.none_processed);
          },
        )

  run_targets-written :
      (s : Settings Num) (bucket : Bucket F) (t : Target) (rest : List Target)
      → is_refused F (of_int (pos 1)) bucket ≡ false
      → s.can_write ≡ true
      → (actions : List (Action Num)) × (run_targets F limit_denominator answer jitter s bucket
            (t ∷ rest)
          ≡ ended (code_for (t ∷ rest)) (some actions))
        × (validate_uniqueness actions ≡ [])
        × All (IsFetched (some s.min_date)) actions
  unfolding run_targets write_output
  run_targets-written s bucket t rest r w =
      let min_date = some s.min_date in
      let (tally, e, good) =
        fetch_loop-IsTally min_date bucket (t ∷ rest)
          (record { actions = []; errors = []; processed = 0 }) r tt in
      let code : exit_code tally.processed tally.errors ≡ code_for (t ∷ rest) =
        rw (exit_code-cases tally.processed tally.errors, good.none_processed, good.no_errors)
          refl in
      let date_of = λ (d : Dates). d.ex_date in
      (
        output date_of tally.actions,
        rw (e, run_targets) (rw (w, code) refl),
        (output-IsSorted date_of tally.actions).0,
        output-All date_of (IsFetched min_date) tally.actions good.fetched,
      )

  -- With a positive rate, a burst of at least one token, yfinance at hand, a date as the minimal
  -- one, instruments left after the offset and the limit, and a file that can be written: `main`
  -- writes actions with distinct ids, in which the temporal and the provenance layers of the
  -- validator find nothing and whose dates do not lie before the minimal one, and exits with 0 if
  -- every ticker was answered in three attempts, with 3 if none was, and with 1 otherwise.
  pub main-written :
      (s : Settings Num) (now : Num) (file : File) (targets : List Target) (t : Target)
      (rest : List Target)
      → le s.rate_limit (of_int (pos 0)) ≡ false
      → le s.rate_burst (of_int (pos 0)) ≡ false
      → le (of_int (pos 1)) (of_int (pos 0)) ≡ false
      → lt s.rate_burst (of_int (pos 1)) ≡ false
      → (s.has_yfinance && s.can_write) ≡ true
      → strptime s.min_date ≡ true
      → load_instruments file ≡ loaded targets
      → selected s.ticker_offset s.ticker_limit targets ≡ some (t ∷ rest)
      → (actions : List (Action Num)) × (main F limit_denominator answer jitter s now file
          ≡ ended (code_for (t ∷ rest)) (some actions))
        × (validate_uniqueness actions ≡ [])
        × All (IsFetched (some s.min_date)) actions
  unfolding main new_bucket run_loaded
  main-written s now file targets t rest hr hb one hc hw hd hl hs =
      let bucket : Bucket F = record {
        rate = s.rate_limit;
        capacity = s.rate_burst;
        tokens = s.rate_burst;
        last_refill = now;
        acquired = 0;
        waited_seconds = of_int (pos 0);
      } in
      let refused : is_refused F (of_int (pos 1)) bucket ≡ false = rw (one, hc) refl in
      let (actions, e, distinct, all_fetched) =
        run_targets-written s bucket t rest refused
          (and-true_right s.has_yfinance s.can_write hw) in
      let has = and-true_left s.has_yfinance s.can_write hw in
      let made : new_bucket F s.rate_limit (some s.rate_burst) now ≡ some bucket =
        rw (hr, hb) refl in
      let loads : main F limit_denominator answer jitter s now file
          ≡ run_loaded F limit_denominator answer jitter s bucket targets =
        rw (made, main) (rw (has, main) (rw (hd, main) (rw (hl, main) refl))) in
      let selects : run_loaded F limit_denominator answer jitter s bucket targets
          ≡ run_targets F limit_denominator answer jitter s bucket (t ∷ rest) =
        rw (hs, run_loaded) (rw (hr, hb) refl) in
      (actions, loads ∙ selects ∙ e, distinct, all_fetched)
