-- ===== src/Limiter/Returns.antt =====
-- `acquire` of a sole caller returns after at most one wait.
use corporate_actions.Prelude.{
  ◌≡◌, suc, refl, ap, ◌∙◌, Bool, true, false, none, some, List, ◌∷◌, arith, Option-cases, inl, inr,
}
use corporate_actions.Floats.{Floats}
use corporate_actions.Limiter.{
  zero_num, Bucket, refill, attempt, note_wait, is_refused, done, rounds, acquire,
}
use corporate_actions.Limiter.Bounds.{Arithmetic}

-- The order of the finite numbers is transitive, and rounding does not turn it round.
pub record Monotone (F : Floats) : Type 0 where
  pub le_trans : (x y z : F.Num) → F.le x y ≡ true → F.le y z ≡ true → F.le x z ≡ true
  pub fill_mono :
      (t x y r : F.Num)
      → F.lt (zero_num F) r ≡ true
      → F.le x y ≡ true
      → F.le (F.add t (F.mul x r)) (F.add t (F.mul y r)) ≡ true

module _ (F : Floats) where
  open F use {Num, lt, le, add, sub, mul, div}

  -- once the time `deficit / rate` has passed, the bucket holds what is requested, whatever rounding
  -- does
  abbrev pub is_wait_enough : Num → Bucket F → Bool
  is_wait_enough tokens b = le tokens (add b.tokens (mul (div (sub tokens b.tokens) b.rate) b.rate))

  rounds-stop :
      (tokens now : Num) (rest : List Num) (b : Bucket F)
      → (attempt F tokens now b).1 ≡ none
      → rounds F tokens (now ∷ rest) b ≡ done (attempt F tokens now b).0
  unfolding rounds
  rounds-stop tokens now rest b e = rw (e, rounds) refl

  rounds-wait :
      (tokens now wait : Num) (rest : List Num) (b : Bucket F)
      → (attempt F tokens now b).1 ≡ some wait
      → rounds F tokens (now ∷ rest) b
        ≡ rounds F tokens rest (note_wait F wait (attempt F tokens now b).0)
  unfolding rounds
  rounds-wait tokens now wait rest b e = rw (e, rounds) refl

  attempt-waits :
      (tokens now wait : Num) (b : Bucket F)
      → (attempt F tokens now b).1 ≡ some wait
      → ((attempt F tokens now b).0 ≡ refill F now b)
        × (wait ≡ div (sub tokens (refill F now b).tokens) (refill F now b).rate)
  unfolding attempt
  attempt-waits tokens now wait b e = ground arith

  attempt-acquires :
      (tokens now : Num) (b : Bucket F)
      → (attempt F tokens now b).1 ≡ none
      → (attempt F tokens now b).0.acquired ≡ suc b.acquired
  unfolding attempt refill
  attempt-acquires tokens now b e = ground arith

  refill-keeps :
      (now : Num) (b : Bucket F)
      → ((refill F now b).rate ≡ b.rate)
        × ((refill F now b).capacity ≡ b.capacity)
        × ((refill F now b).acquired ≡ b.acquired)
  unfolding refill
  refill-keeps now b = ground arith

  note_wait-acquired : (wait : Num) (b : Bucket F) → (note_wait F wait b).acquired ≡ b.acquired
  unfolding note_wait
  note_wait-acquired wait b = refl

  -- the attempt after the wait
  attempt-waited :
      (laws : Arithmetic F) (order : Monotone F) (tokens later wait : Num) (b : Bucket F)
      → is_refused F tokens b ≡ false
      → lt (zero_num F) b.rate ≡ true
      → is_wait_enough tokens b ≡ true
      → le (sub later b.last_refill) (zero_num F) ≡ false
      → le (div (sub tokens b.tokens) b.rate) (sub later b.last_refill) ≡ true
      → (attempt F tokens later (note_wait F wait b)).1 ≡ none
  unfolding attempt refill note_wait
  attempt-waited laws order tokens later wait b h r enough passed slept =
      let elapsed = sub later b.last_refill in
      let filled = add b.tokens (mul elapsed b.rate) in
      let enough' : le tokens filled ≡ true =
        order.le_trans tokens (add b.tokens (mul (div (sub tokens b.tokens) b.rate) b.rate)) filled
          enough
          (order.fill_mono b.tokens (div (sub tokens b.tokens) b.rate) elapsed b.rate r slept) in
      ground (arith, enough', laws.le_of_not_lt tokens b.capacity)

  acquire-accepted :
      (tokens : Num) (readings : List Num) (b : Bucket F)
      → is_refused F tokens b ≡ false
      → acquire F tokens readings b ≡ rounds F tokens readings b
  unfolding acquire
  acquire-accepted tokens readings b h = rw (h, acquire) refl

  -- Where the laws of the order hold, for a sole caller whose request passes the checks: if the
  -- sleep lasts at least as long as the wait that the first round asks for, by a clock that has
  -- moved on since, and the computed product of the time `deficit / rate` and the rate makes up for
  -- the deficit in spite of rounding, then `acquire` returns in the first or the second round, and
  -- has counted one request.
  pub acquire_returns :
      (laws : Arithmetic F) (order : Monotone F) (tokens now later : Num) (rest : List Num)
      (b : Bucket F)
      → is_refused F tokens b ≡ false
      → lt (zero_num F) b.rate ≡ true
      → is_wait_enough tokens (refill F now b) ≡ true
      → le (sub later (refill F now b).last_refill) (zero_num F) ≡ false
      → ((wait : Num)
          → (attempt F tokens now b).1 ≡ some wait
          → le wait (sub later (refill F now b).last_refill) ≡ true)
      → (c : Bucket F) × (acquire F tokens (now ∷ later ∷ rest) b ≡ done c)
        × (c.acquired ≡ suc b.acquired)
  acquire_returns laws order tokens now later rest b h r enough passed slept =
      elim (Option-cases (attempt F tokens now b).1) [
        | inl e ↦ (
          (attempt F tokens now b).0,
          acquire-accepted tokens (now ∷ later ∷ rest) b h
              ∙ rounds-stop tokens now (later ∷ rest) b e,
          attempt-acquires tokens now b e,
        )
        | inr (wait, e) ↦
            let filled = refill F now b in
            let (rate, capacity, acquired) = refill-keeps now b in
            let (same, time) = attempt-waits tokens now wait b e in
            let stop =
              attempt-waited laws order tokens later wait filled (rw capacity h) (rw rate r) enough
                passed (rw time at (slept wait e)) in
            (
              (attempt F tokens later (note_wait F wait filled)).0,
              acquire-accepted tokens (now ∷ later ∷ rest) b h
                  ∙ rounds-wait tokens now wait (later ∷ rest) b e
                  ∙ ap (λ (c : Bucket F). rounds F tokens (later ∷ rest) (note_wait F wait c)) same
                  ∙ rounds-stop tokens later rest (note_wait F wait filled) stop,
              attempt-acquires tokens later (note_wait F wait filled) stop
                  ∙ ap suc (note_wait-acquired wait filled ∙ acquired),
            )
      ]
