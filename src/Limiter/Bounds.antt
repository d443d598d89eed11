-- ===== src/Limiter/Bounds.antt =====
-- The tokens of a bucket stay between 0 and its capacity, whatever threads do.
use corporate_actions.Prelude.{◌≡◌, true, false, Option, some, arith}
use corporate_actions.Floats.{Floats}
use corporate_actions.Limiter.{
  zero_num, given_capacity, Bucket, new_bucket, refill, attempt, note_wait, is_refused, Step,
  attempts, notes, Reach, here, next,
}

-- The laws of the finite numbers that the bucket relies on.
pub record Arithmetic (F : Floats) : Type 0 where
  pub le_refl : (x : F.Num) → F.le x x ≡ true
  pub le_of_lt : (x y : F.Num) → F.lt x y ≡ true → F.le x y ≡ true
  pub le_of_not_lt : (x y : F.Num) → F.lt y x ≡ false → F.le x y ≡ true
  pub lt_of_not_le : (x y : F.Num) → F.le y x ≡ false → F.lt x y ≡ true
  pub refill_nonneg :
      (t e r : F.Num)
      → F.le (zero_num F) t ≡ true
      → F.lt (zero_num F) e ≡ true
      → F.lt (zero_num F) r ≡ true
      → F.le (zero_num F) (F.add t (F.mul e r)) ≡ true
  pub sub_nonneg : (t n : F.Num) → F.le n t ≡ true → F.le (zero_num F) (F.sub t n) ≡ true
  pub sub_le :
      (t n c : F.Num) → F.lt (zero_num F) n ≡ true → F.le t c ≡ true → F.le (F.sub t n) c ≡ true

module _ (F : Floats) (laws : Arithmetic F) where
  open F use {Num, lt, le, add, sub, mul}

  pub record IsBounded (b : Bucket F) : Type 0 where
    pub positive_rate : lt (zero_num F) b.rate ≡ true
    pub positive_capacity : le (zero_num F) b.capacity ≡ true
    pub nonnegative : le (zero_num F) b.tokens ≡ true
    pub capped : le b.tokens b.capacity ≡ true

  new_bucket-IsBounded :
      (rate now : Num) (capacity : Option Num) (b : Bucket F)
      → new_bucket F rate capacity now ≡ some b
      → IsBounded b
  unfolding new_bucket
  new_bucket-IsBounded rate now capacity b h = ground (
    arith,
    laws.lt_of_not_le (zero_num F) rate,
    laws.lt_of_not_le (zero_num F) (given_capacity F rate capacity),
    laws.le_of_lt (zero_num F) (given_capacity F rate capacity),
    laws.le_refl (given_capacity F rate capacity),
  )

  refill-IsBounded : (now : Num) (b : Bucket F) → IsBounded b → IsBounded (refill F now b)
  unfolding refill
  refill-IsBounded now b v =
      let elapsed = sub now b.last_refill in
      let filled = add b.tokens (mul elapsed b.rate) in
      ground (
        arith,
        laws.lt_of_not_le (zero_num F) elapsed,
        laws.refill_nonneg b.tokens elapsed b.rate,
        laws.le_of_lt filled b.capacity,
        laws.le_refl b.capacity,
      )

  attempt-IsBounded :
      (tokens now : Num) (b : Bucket F)
      → is_refused F tokens b ≡ false
      → IsBounded b
      → IsBounded (attempt F tokens now b).0
  unfolding attempt
  attempt-IsBounded tokens now b h v =
      let r = refill F now b in
      let w = refill-IsBounded now b v in
      ground (
        arith,
        laws.lt_of_not_le (zero_num F) tokens,
        laws.sub_nonneg r.tokens tokens,
        laws.sub_le r.tokens tokens r.capacity,
      )

  Step-IsBounded : {b c : Bucket F} → Step F b c → IsBounded b → IsBounded c
  unfolding note_wait
  Step-IsBounded {b} (attempts tokens now h) v = attempt-IsBounded tokens now b h v
  Step-IsBounded (notes wait) v = record {
    positive_rate = v.positive_rate;
    positive_capacity = v.positive_capacity;
    nonnegative = v.nonnegative;
    capped = v.capped;
  }

  Reach-IsBounded : {b c : Bucket F} → Reach F b c → IsBounded b → IsBounded c
  Reach-IsBounded here v = v
  Reach-IsBounded (next r s) v = Step-IsBounded s (Reach-IsBounded r v)

  -- Where the laws of arithmetic hold: the tokens of a bucket that was made with accepted
  -- arguments stay between 0 and the capacity, in whatever order threads run the two regions of
  -- `acquire`, for requests that passed its checks.
  pub tokens_bounded :
      (rate now : Num) (capacity : Option Num) (b c : Bucket F)
      → new_bucket F rate capacity now ≡ some b
      → Reach F b c
      → (le (zero_num F) c.tokens ≡ true) × (le c.tokens c.capacity ≡ true)
  tokens_bounded rate now capacity b c h r =
      let v = Reach-IsBounded r (new_bucket-IsBounded rate now capacity b h) in
      (v.nonnegative, v.capped)
