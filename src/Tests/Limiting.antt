-- ===== src/Tests/Limiting.antt =====
-- Witnesses and tests of the token bucket, on the fixed-point numbers of the samples.
use native.Mathlib.Nat.{mul-le-mul_right}
use corporate_actions.Prelude.{
  ◌≡◌, ◌≤◌, refl, sym, ap, ℕ, zero, suc, ◌+◌, ◌-◌, ◌*◌, ◌/◌, Bool, true, false, not, some, [], ◌∷◌,
  arith, leb, if◌then◌else◌, some_inj,
}
use corporate_actions.Prelude.Int.{ℤ, pos, negsuc, neg_ℕ}
use corporate_actions.Limiter.{
  Bucket, new_bucket, refill, attempt, note_wait, refused, done, waiting, rounds, acquire, attempts,
  here, next,
}
use corporate_actions.Limiter.Bounds.{Arithmetic, tokens_bounded}
use corporate_actions.Limiter.Returns.{Monotone, acquire_returns}
use corporate_actions.Tests.Sample.{fixed_point, fixed_laws, fixed_lt, minus, plus, opposite}

fixed_lt_irrefl : (x : ℤ) → fixed_lt x x ≡ false
fixed_lt_irrefl (pos n) = ground arith
fixed_lt_irrefl (negsuc n) = ground arith

fixed_lt_of_not : (b : Bool) → not b ≡ false → b ≡ true
fixed_lt_of_not true h = refl
fixed_lt_of_not false h = sym h

fixed_filled :
    (t e r : ℤ)
    → not (fixed_lt t (pos 0)) ≡ true
    → fixed_lt (pos 0) e ≡ true
    → fixed_lt (pos 0) r ≡ true
    → not (fixed_lt (plus t (fixed_point.mul e r)) (pos 0)) ≡ true
fixed_filled (pos t) (pos e) (pos r) p q s = ground arith
fixed_filled (negsuc t) e r p q s = absurd (ground arith)
fixed_filled (pos t) (negsuc e) r p q s = absurd (ground arith)
fixed_filled (pos t) (pos e) (negsuc r) p q s = absurd (ground arith)

fixed_sub :
    (t n : ℤ) → not (fixed_lt t n) ≡ true → not (fixed_lt (plus t (opposite n)) (pos 0)) ≡ true
fixed_sub (pos t) (pos zero) h = ground arith
fixed_sub (pos t) (pos (suc n)) h = ground arith
fixed_sub (pos t) (negsuc n) h = ground arith
fixed_sub (negsuc t) (pos n) h = absurd (ground arith)
fixed_sub (negsuc t) (negsuc n) h = ground arith

fixed_less :
    (t n c : ℤ)
    → fixed_lt (pos 0) n ≡ true
    → not (fixed_lt c t) ≡ true
    → not (fixed_lt c (plus t (opposite n))) ≡ true
fixed_less t (pos zero) c h k = absurd (ground arith)
fixed_less t (negsuc n) c h k = absurd (ground arith)
fixed_less (pos t) (pos (suc n)) (pos c) h k = ground arith
fixed_less (pos t) (pos (suc n)) (negsuc c) h k = absurd (ground arith)
fixed_less (negsuc t) (pos (suc n)) (pos c) h k = ground arith
fixed_less (negsuc t) (pos (suc n)) (negsuc c) h k = ground arith

pub fixed_point-Arithmetic : Arithmetic fixed_point
fixed_point-Arithmetic = record {
  le_refl = λ x. ap not (fixed_lt_irrefl x);
  le_of_lt = fixed_laws.le_of_lt;
  le_of_not_lt = λ x y h. ap not h;
  lt_of_not_le = λ x y h. fixed_lt_of_not (fixed_lt x y) h;
  refill_nonneg = fixed_filled;
  sub_nonneg = fixed_sub;
  sub_le = fixed_less;
}

-- five tokens a second, ten at most, made at the second 100
abbrev five : Bucket fixed_point
five = record {
  rate = pos 50000;
  capacity = pos 100000;
  tokens = pos 100000;
  last_refill = pos 1000000;
  acquired = 0;
  waited_seconds = pos 0;
}

-- at the second 101, six tokens were taken
abbrev five_later : Bucket fixed_point
five_later = (attempt fixed_point (pos 60000) (pos 1010000) five).0

five_made : new_bucket fixed_point (pos 50000) (some (pos 100000)) (pos 1000000) ≡ some five
unfolding new_bucket
five_made = refl

tokens_bounded_example :
    (not (fixed_lt five_later.tokens (pos 0)) ≡ true)
    × (not (fixed_lt five_later.capacity five_later.tokens) ≡ true)
tokens_bounded_example =
    tokens_bounded fixed_point fixed_point-Arithmetic (pos 50000) (pos 1000000) (some (pos 100000))
      five five_later five_made (next here (attempts (pos 60000) (pos 1010000) refl))

fixed_le_trans :
    (x y z : ℤ) → not (fixed_lt y x) ≡ true → not (fixed_lt z y) ≡ true → not (fixed_lt z x) ≡ true
fixed_le_trans (pos x) (pos y) (pos z) h k = ground arith
fixed_le_trans (pos x) (pos y) (negsuc z) h k = absurd (ground arith)
fixed_le_trans (pos x) (negsuc y) z h k = absurd (ground arith)
fixed_le_trans (negsuc x) y (pos z) h k = ground arith
fixed_le_trans (negsuc x) (pos y) (negsuc z) h k = absurd (ground arith)
fixed_le_trans (negsuc x) (negsuc y) (negsuc z) h k = ground arith

-- a product in steps of 0.0001 grows with its first factor
div_mono : (m n : ℕ) → m ≤ n → m / 10000 ≤ n / 10000
div_mono m n h = omega (arith, h)

opposite_mono : (m n : ℕ) → m ≤ n → not (fixed_lt (neg_ℕ m) (neg_ℕ n)) ≡ true
opposite_mono zero zero h = refl
opposite_mono zero (suc n) h = refl
opposite_mono (suc m) zero h = absurd (omega (arith, h))
opposite_mono (suc m) (suc n) h = ground arith

opposite_pos : (m n : ℕ) → not (fixed_lt (pos n) (neg_ℕ m)) ≡ true
opposite_pos zero n = ground arith
opposite_pos (suc m) n = refl

fixed_mul_mono :
    (x y r : ℤ)
    → fixed_lt (pos 0) r ≡ true
    → not (fixed_lt y x) ≡ true
    → not (fixed_lt (fixed_point.mul y r) (fixed_point.mul x r)) ≡ true
fixed_mul_mono x y (negsuc r) h k = absurd (ground arith)
fixed_mul_mono (pos x) (negsuc y) (pos r) h k = absurd (ground arith)
fixed_mul_mono (pos x) (pos y) (pos r) h k =
    let grown : x * r ≤ y * r = mul-le-mul_right r (ground (arith, k)) in
    let less : x * r / 10000 ≤ y * r / 10000 = div_mono (x * r) (y * r) grown in
    ground (arith, less)
fixed_mul_mono (negsuc x) (pos y) (pos r) h k = opposite_pos (suc x * r / 10000) (y * r / 10000)
fixed_mul_mono (negsuc x) (negsuc y) (pos r) h k =
    opposite_mono (suc y * r / 10000) (suc x * r / 10000)
      (div_mono (suc y * r) (suc x * r) (mul-le-mul_right r (ground (arith, k))))

minus_mono : (m m' n n' : ℕ) → m ≤ m' → n' ≤ n → not (fixed_lt (minus m' n') (minus m n)) ≡ true
minus_mono m m' n n' h k = go (leb n m) refl (leb n' m') refl
  where
    go :
        (b : Bool)
        → leb n m ≡ b
        → (c : Bool) → leb n' m' ≡ c
        → not (
            fixed_lt
              (if c then pos (m' - n') else neg_ℕ (n' - m'))
              (if b then pos (m - n) else neg_ℕ (n - m)))
          ≡ true
    go true p true q = ground (arith, p, q, h, k)
    go true p false q = absurd (ground (arith, p, q, h, k))
    go false p true q = opposite_pos (n - m) (m' - n')
    go false p false q = opposite_mono (n' - m') (n - m) (omega (arith, h, k))

minus_le-add : (t x y : ℕ) → not (fixed_lt (pos (t + y)) (minus t (suc x))) ≡ true
minus_le-add t x y = go (leb (suc x) t)
  where
    go :
        (b : Bool)
        → not (fixed_lt (pos (t + y)) (if b then pos (t - suc x) else neg_ℕ (suc x - t))) ≡ true
    go true = ground arith
    go false = opposite_pos (suc x - t) (t + y)

minus_ge : (t x y : ℕ) → not (fixed_lt (minus y (suc t)) (negsuc (suc (t + x)))) ≡ true
minus_ge t x y = go (leb (suc t) y)
  where
    go :
        (b : Bool)
        → not (fixed_lt (if b then pos (y - suc t) else neg_ℕ (suc t - y)) (negsuc (suc (t + x))))
          ≡ true
    go true = refl
    go false = opposite_mono (suc t - y) (suc (suc (t + x))) (omega arith)

fixed_plus_mono :
    (t x y : ℤ) → not (fixed_lt y x) ≡ true → not (fixed_lt (plus t y) (plus t x)) ≡ true
fixed_plus_mono (pos t) (pos x) (pos y) h = ground arith
fixed_plus_mono (pos t) (pos x) (negsuc y) h = absurd (ground arith)
fixed_plus_mono (pos t) (negsuc x) (pos y) h = minus_le-add t x y
fixed_plus_mono (pos t) (negsuc x) (negsuc y) h =
    minus_mono t t (suc x) (suc y) (omega arith) (ground arith)
fixed_plus_mono (negsuc t) (pos x) (pos y) h =
    minus_mono x y (suc t) (suc t) (ground arith) (omega arith)
fixed_plus_mono (negsuc t) (pos x) (negsuc y) h = absurd (ground arith)
fixed_plus_mono (negsuc t) (negsuc x) (pos y) h = minus_ge t x y
fixed_plus_mono (negsuc t) (negsuc x) (negsuc y) h = ground arith

fixed_point-Monotone : Monotone fixed_point
fixed_point-Monotone = record {
  le_trans = fixed_le_trans;
  fill_mono = λ t x y r h k.
      fixed_plus_mono t (fixed_point.mul x r) (fixed_point.mul y r) (fixed_mul_mono x y r h k);
}

-- with four tokens left, a request of six waits for two fifths of a second
abbrev drained : Bucket fixed_point
drained = record five { tokens = pos 40000; acquired = 1 }

abbrev waited : Bucket fixed_point
waited = record drained { waited_seconds = pos 4000 }

drained_waits : acquire fixed_point (pos 60000) (pos 1000000 ∷ []) drained ≡ waiting waited
unfolding acquire rounds attempt note_wait refill
drained_waits = refl

drained_slept :
    (wait : ℤ)
    → (attempt fixed_point (pos 60000) (pos 1000000) drained).1 ≡ some wait
    → not (fixed_lt (pos 4000) wait) ≡ true
unfolding attempt refill
drained_slept wait e = let same : pos 4000 ≡ wait = some_inj e in rw (← same) refl

acquire_returns_example :
    (c : Bucket fixed_point) × (acquire fixed_point
        (pos 60000)
        (pos 1000000 ∷ pos 1004000 ∷ [])
        drained
      ≡ done c)
    × (c.acquired ≡ 2)
unfolding refill
acquire_returns_example =
    acquire_returns fixed_point fixed_point-Arithmetic fixed_point-Monotone (pos 60000)
      (pos 1000000) (pos 1004000) [] drained refl refl refl refl drained_slept

-- one token later the bucket holds four
drained_done : (attempt fixed_point (pos 60000) (pos 1020000) waited).0.tokens ≡ pos 40000
unfolding attempt refill
drained_done = refl

five_refuses : acquire fixed_point (pos 110000) [] five ≡ refused
unfolding acquire
five_refuses = refl
