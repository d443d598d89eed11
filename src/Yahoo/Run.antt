-- ===== src/Yahoo/Run.antt =====
-- `fetch_actions_for_ticker` and `main` of tools/fetch_yahoo_actions.py. The wait in
-- `bucket.acquire` is not part of a run, only whether it raises.
pub mod Written
use corporate_actions.Prelude.{
  ℕ, zero, suc, ◌+◌, String, Bool, true, false, not, ◌||◌, Option, none, some, List, [], ◌∷◌, ◌++◌,
  drop, take, if◌then◌else◌, leb,
}
use corporate_actions.Prelude.Int.{ℤ, pos, negsuc}
use corporate_actions.Floats.{Floats}
use corporate_actions.Model.{Dates, Action}
use corporate_actions.Calendar.{strptime}
use corporate_actions.Limiter.{Bucket, new_bucket, is_refused}
use corporate_actions.Fetch.{output, exit_code}
use corporate_actions.Yahoo.{File, Target, Loaded, exits, loaded, load_instruments}
use corporate_actions.Yahoo.Build.{Events, actions_of}
use corporate_actions.Yahoo.Attempts.{fetch_events}

-- the arguments of the command line, whether yfinance can be imported, and whether the write
-- raises no OSError
pub record Settings (N : Type 0) : Type 0 where
  pub rate_limit : N
  pub rate_burst : N
  pub min_date : String
  pub ticker_offset : ℤ
  pub ticker_limit : Option ℤ
  pub has_yfinance : Bool
  pub can_write : Bool

-- a traceback, or the exit code with the actions that the run writes, where it writes
pub data Ended (N : Type 0) : Type 0 where
  raised : Ended N
  ended : ℕ → Option (List (Action N)) → Ended N

-- what the loop over the instruments gathers; an error is listed by its ticker
pub record Tally (N : Type 0) : Type 0 where
  pub actions : List (Action N)
  pub errors : List String
  pub processed : ℕ

-- `instruments[offset:]`, and then `[:limit]`; `none` is an exit with 2
unfoldable pub limited : Option ℤ → List Target → Option (List Target)
limited none targets = some targets
limited (some (pos zero)) targets = none
limited (some (pos (suc n))) targets = some (take (suc n) targets)
limited (some (negsuc n)) targets = none

unfoldable pub selected : ℤ → Option ℤ → List Target → Option (List Target)
unfolding limited
selected (negsuc n) limit targets = none
selected (pos n) limit targets = limited limit (drop n targets)

module _ (F : Floats) (limit_denominator : F.Num → Option (ℤ × ℕ)) where
  open F use {Num, of_int, le}

  -- what yfinance gives for a ticker at an attempt, and the random part of the delay after it
  module _ (answer : String → ℕ → Option (Events Num)) (jitter : ℕ → Num) where
    -- `none` is an exception
    unfoldable pub fetch_actions_for_ticker : Target → Option String → Option (List (Action Num))
    unfolding fetch_events actions_of
    fetch_actions_for_ticker t min_date = elim (fetch_events F (answer t.ticker) jitter).answer [
      | none ↦ none
      | some events ↦ actions_of F limit_denominator t min_date events
    ]

    -- one round of the loop, after the bucket let it pass
    unfoldable pub fetch_target : Option String → Target → Tally Num → Tally Num
    unfolding fetch_actions_for_ticker
    fetch_target min_date t tally = elim (fetch_actions_for_ticker t min_date) [
      | none ↦ record tally { errors = tally.errors ++ t.ticker ∷ [] }
      | some actions ↦ record tally {
        actions = tally.actions ++ actions;
        processed = suc tally.processed;
      }
    ]

    -- `none` is the ValueError of `bucket.acquire()`, which no `try` surrounds; its test reads the
    -- capacity alone, which stays as it is
    unfoldable pub fetch_loop :
        Bucket F → Option String → List Target → Tally Num → Option (Tally Num)
    unfolding fetch_target
    fetch_loop bucket min_date [] tally = some tally
    fetch_loop bucket min_date (t ∷ rest) tally =
        let later = fetch_loop bucket min_date rest (fetch_target min_date t tally) in
        if is_refused F (of_int (pos 1)) bucket then none else later

    -- from the deduplication on
    unfoldable pub write_output : Bool → Tally Num → Ended Num
    unfolding output exit_code
    write_output can_write tally =
        if can_write
        then ended (exit_code tally.processed tally.errors)
            (some (output (λ (d : Dates). d.ex_date) tally.actions))
        else ended 3 none

    unfoldable pub run_targets : Settings Num → Bucket F → List Target → Ended Num
    unfolding fetch_loop write_output
    run_targets s bucket [] = ended 3 none
    run_targets s bucket (t ∷ rest) =
        elim (fetch_loop bucket (some s.min_date) (t ∷ rest)
          (record { actions = []; errors = []; processed = 0 })) [
            | none ↦ raised
            | some tally ↦ write_output s.can_write tally
          ]

    -- the checks between the loading of the instruments and the loop
    unfoldable pub run_loaded : Settings Num → Bucket F → List Target → Ended Num
    unfolding selected run_targets
    run_loaded s bucket targets = elim (selected s.ticker_offset s.ticker_limit targets) [
      | none ↦ ended 2 none
      | some chosen ↦
          if le s.rate_limit (of_int (pos 0)) || le s.rate_burst (of_int (pos 0))
          then ended 2 none
          else run_targets s bucket chosen
    ]

    unfoldable pub main : Settings Num → Num → File → Ended Num
    unfolding new_bucket strptime load_instruments run_loaded
    main s now file = elim (new_bucket F s.rate_limit (some s.rate_burst) now) [
      | none ↦ raised
      | some bucket ↦
          if not s.has_yfinance
          then ended 3 none
          else if not (strptime s.min_date)
          then ended 2 none
          else elim (load_instruments file) [
            | exits code ↦ ended code none
            | loaded targets ↦ run_loaded s bucket targets
          ]
    ]
