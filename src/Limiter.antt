-- ===== src/Limiter.antt =====
-- `TokenBucket` of tools/rate_limit.py. The lock makes two regions atomic: the attempt, with the
-- refill before it, and the count of the time waited. A reading of the monotonic clock is an
-- argument of the attempt.
pub mod Bounds
pub mod Returns
use corporate_actions.Prelude.{
  ◌≡◌, ℕ, suc, Bool, true, false, ◌||◌, Option, none, some, List, [], ◌∷◌, if◌then◌else◌,
}
use corporate_actions.Prelude.Int.{pos}
use corporate_actions.Floats.{Floats}

module _ (F : Floats) where
  open F use {Num, of_int, lt, le, add, sub, mul, div}

  abbrev pub zero_num : Num
  zero_num = of_int (pos 0)

  -- Python's `min` and `max` of two numbers: the first one, unless the second is less, or greater
  abbrev pub min : Num → Num → Num
  min x y = if lt y x then y else x

  abbrev pub max : Num → Num → Num
  max x y = if lt x y then y else x

  pub record Bucket : Type 0 where
    pub rate : Num
    pub capacity : Num
    pub tokens : Num
    pub last_refill : Num
    pub acquired : ℕ
    pub waited_seconds : Num

  abbrev pub given_capacity : Num → Option Num → Num
  given_capacity rate none = max (of_int (pos 1)) rate
  given_capacity rate (some c) = c

  -- `__init__` at a reading of the clock: `none` is ValueError
  unfoldable pub new_bucket : Num → Option Num → Num → Option Bucket
  new_bucket rate capacity now =
      let c = given_capacity rate capacity in
      if le rate zero_num || le c zero_num
      then none
      else some (record {
        rate = rate;
        capacity = c;
        tokens = c;
        last_refill = now;
        acquired = 0;
        waited_seconds = zero_num;
      })

  -- `_refill_locked`
  unfoldable pub refill : Num → Bucket → Bucket
  refill now b =
      let elapsed = sub now b.last_refill in
      if le elapsed zero_num then b else record b {
        tokens = min b.capacity (add b.tokens (mul elapsed b.rate));
        last_refill = now;
      }

  -- the first region of a round of `acquire`: the bucket after it, and the wait where the tokens
  -- do not suffice
  unfoldable pub attempt : Num → Num → Bucket → Bucket × Option Num
  unfolding refill
  attempt tokens now b =
      let r = refill now b in
      if le tokens r.tokens
      then (record r { tokens = sub r.tokens tokens; acquired = suc r.acquired }, none)
      else (r, some (div (sub tokens r.tokens) r.rate))

  -- the second region, after the sleep
  unfoldable pub note_wait : Num → Bucket → Bucket
  note_wait wait b = record b { waited_seconds = add b.waited_seconds wait }

  -- the two checks of `acquire`
  abbrev pub is_refused : Num → Bucket → Bool
  is_refused tokens b = le tokens zero_num || lt b.capacity tokens

  pub data Acquired : Type 0 where
    refused : Acquired
    done : Bucket → Acquired
    waiting : Bucket → Acquired

  -- the loop of a sole caller, at the readings of the clock that its rounds make; `waiting` where
  -- the readings end before it returns
  unfoldable pub rounds : Num → List Num → Bucket → Acquired
  unfolding attempt note_wait
  rounds tokens [] b = waiting b
  rounds tokens (now ∷ readings) b = elim (attempt tokens now b).1 [
    | none ↦ done (attempt tokens now b).0
    | some wait ↦ rounds tokens readings (note_wait wait (attempt tokens now b).0)
  ]

  unfoldable pub acquire : Num → List Num → Bucket → Acquired
  unfolding rounds
  acquire tokens readings b = if is_refused tokens b then refused else rounds tokens readings b

  -- A region that a thread runs on the shared bucket, for a request that passed the checks.
  pub data Step : Bucket → Bucket → Type 0 where
    attempts :
        {b : Bucket} (tokens now : Num)
        → is_refused tokens b ≡ false
        → Step b (attempt tokens now b).0
    notes : {b : Bucket} (wait : Num) → Step b (note_wait wait b)

  pub data Reach (b : Bucket) : Bucket → Type 0 where
    here : Reach b b
    next : {c d : Bucket} → Reach b c → Step c d → Reach b d
