-- ===== src/Yahoo/Attempts.antt =====
-- `_fetch_events` of tools/fetch_yahoo_actions.py: three attempts, with growing delays between them.
use corporate_actions.Prelude.{
  ◌≡◌, refl, ap, ◌∙◌, ℕ, zero, suc, ◌+◌, ◌*◌, ◌≤◌, ◌⊎◌, true, Option, none, some, List, [], ◌∷◌,
  length, All, arith, if◌then◌else◌, Bool-cases, inl, inr, ltb,
}
use corporate_actions.Prelude.Int.{pos}
use corporate_actions.Floats.{Floats}
use corporate_actions.Limiter.{min}
use corporate_actions.Limiter.Bounds.{Arithmetic}

-- MAX_RETRIES
abbrev pub max_retries : ℕ
max_retries = 3

-- 2 ** n
abbrev pub power_of_two : ℕ → ℕ
power_of_two zero = 1
power_of_two (suc n) = 2 * power_of_two n

-- the first answer of some attempts
abbrev pub first_answer {ℓ} : {A : Type ℓ} → (ℕ → Option A) → List ℕ → Option A
first_answer try [] = none
first_answer try (k ∷ ks) = elim (try k) [ none ↦ first_answer try ks | some x ↦ some x ]

module _ (F : Floats) where
  open F use {Num, of_int, add, mul, le, lt}

  -- MAX_RETRY_DELAY
  abbrev pub max_delay : Num
  max_delay = of_int (pos 30)

  -- the delay after a failed attempt; BASE_RETRY_DELAY is 2, and `jitter` the random number
  abbrev pub retry_delay : Num → ℕ → Num
  retry_delay jitter attempt =
      min F (add (mul (of_int (pos 2)) (of_int (pos (power_of_two attempt)))) jitter) max_delay

  retry_delay-le : (laws : Arithmetic F) (j : Num) (k : ℕ) → le (retry_delay j k) max_delay ≡ true
  retry_delay-le laws j k =
      let d = add (mul (of_int (pos 2)) (of_int (pos (power_of_two k)))) j in
      ground (arith, laws.le_of_not_lt d max_delay, laws.le_refl max_delay)

  -- the answer, where an attempt gave one, and the delays slept
  pub record Fetched {ℓ} (A : Type ℓ) : Type ℓ where
    pub answer : Option A
    pub slept : List Num

  module _ {ℓ} {A : Type ℓ} where
    -- a round of the loop: what the attempt gave, its number and what comes later
    unfoldable pub after_attempt : Option A → ℕ → Num → Fetched A → Fetched A
    after_attempt (some x) k jitter later = record { answer = some x; slept = [] }
    after_attempt none k jitter later =
        if ltb (k + 1) max_retries
        then record { answer = later.answer; slept = retry_delay jitter k ∷ later.slept }
        else later

    after_attempt-answer :
        (o : Option A) (k : ℕ) (jitter : Num) (later : Fetched A)
        → (after_attempt o k jitter later).answer ≡ elim o [ none ↦ later.answer | some x ↦ some x ]
    unfolding after_attempt
    after_attempt-answer (some x) k jitter later = refl
    after_attempt-answer none k jitter later = ground arith

    after_attempt-count :
        (o : Option A) (k : ℕ) (jitter : Num) (later : Fetched A)
        → length later.slept + suc k ≤ 2 ⊎ (later.slept ≡ [])
        → length (after_attempt o k jitter later).slept + k ≤ 2
          ⊎ ((after_attempt o k jitter later).slept ≡ [])
    unfolding after_attempt
    after_attempt-count (some x) k jitter later h = inr refl
    after_attempt-count none k jitter later h = ground (arith, h)

    after_attempt-delays :
        (laws : Arithmetic F) (o : Option A) (k : ℕ) (jitter : Num) (later : Fetched A)
        → All (λ d. le d max_delay ≡ true) later.slept
        → All (λ d. le d max_delay ≡ true) (after_attempt o k jitter later).slept
    unfolding after_attempt
    after_attempt-delays laws (some x) k jitter later h = tt
    after_attempt-delays laws none k jitter later h = elim (Bool-cases (ltb (k + 1) max_retries)) [
      | inl e ↦ rw e (retry_delay-le laws jitter k, h)
      | inr e ↦ rw e h
    ]

  module _ {ℓ} {A : Type ℓ} (try : ℕ → Option A) (jitter : ℕ → Num) where
    -- the attempts from one on, and how many are left; `none` as an answer is an exception
    unfoldable pub attempts_from : ℕ → ℕ → Fetched A
    unfolding after_attempt
    attempts_from zero k = record { answer = none; slept = [] }
    attempts_from (suc left) k = after_attempt (try k) k (jitter k) (attempts_from left (suc k))

    unfoldable pub fetch_events : Fetched A
    unfolding attempts_from
    fetch_events = attempts_from max_retries 0

    attempts_from-delays :
        (laws : Arithmetic F) (left k : ℕ)
        → All (λ d. le d max_delay ≡ true) (attempts_from left k).slept
    unfolding attempts_from
    attempts_from-delays laws zero k = tt
    attempts_from-delays laws (suc left) k =
        after_attempt-delays laws (try k) k (jitter k) (attempts_from left (suc k))
          (attempts_from-delays laws left (suc k))

    attempts_from-count :
        (left k : ℕ)
        → length (attempts_from left k).slept + k ≤ 2 ⊎ ((attempts_from left k).slept ≡ [])
    unfolding attempts_from
    attempts_from-count zero k = inr refl
    attempts_from-count (suc left) k =
        after_attempt-count (try k) k (jitter k) (attempts_from left (suc k))
          (attempts_from-count left (suc k))

    -- the numbers of the attempts
    abbrev pub numbers : ℕ → ℕ → List ℕ
    numbers zero k = []
    numbers (suc left) k = k ∷ numbers left (suc k)

    attempts_from-answer :
        (left k : ℕ) → (attempts_from left k).answer ≡ first_answer try (numbers left k)
    unfolding attempts_from
    attempts_from-answer zero k = refl
    attempts_from-answer (suc left) k =
        after_attempt-answer (try k) k (jitter k) (attempts_from left (suc k))
        ∙ ap
            (λ (later : Option A). elim (try k) as (λ _. Option A) [
              | none ↦ later
              | some x ↦ some x
            ])
            (attempts_from-answer left (suc k))

    pub fetch_events-answer : fetch_events.answer ≡ first_answer try (0 ∷ 1 ∷ 2 ∷ [])
    unfolding fetch_events
    fetch_events-answer = attempts_from-answer 3 0

    -- Where the laws of arithmetic hold: `_fetch_events` gives the answer of the first of three
    -- attempts that succeeds, and raises where all three fail; it sleeps at most twice, and never
    -- longer than the maximal delay.
    pub fetch_events_lem :
        (laws : Arithmetic F)
        → (fetch_events.answer ≡ first_answer try (0 ∷ 1 ∷ 2 ∷ []))
          × (length fetch_events.slept ≤ 2)
          × All (λ d. le d max_delay ≡ true) fetch_events.slept
    unfolding fetch_events
    fetch_events_lem laws = (
      fetch_events-answer,
      ground (arith, attempts_from-count 3 0),
      attempts_from-delays laws 3 0,
    )
