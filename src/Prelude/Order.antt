-- ===== src/Prelude/Order.antt =====
-- The order of texts is total, and transitive.
use Prim.Native.Nat.{ℕ, ◌<◌, Ordering, compare as compare_ℕ}
use Prim.Native.Char.{code}
use Prim.Native.String.{String, [], ◌∷◌, then, compare}
use Prim.Native.String.compare
use mathlib.Core.Path.{◌≡◌, refl, sym, ap, ◌∙◌}
use mathlib.Core.Logic.{◌⊎◌, inl, inr}
use mathlib.Core.Bool.{true, false, not}
use native.Mathlib.Omega.{arith, compare-lt, compare-eq, compare-gt}
use text.Mathlib.Text.{is_lt, is_eq, ◌==◌}
use corporate_actions.Prelude.Tests.{Bool-cases}
use corporate_actions.Prelude.Text.{str_lt, str_le}

abbrev swap : Ordering → Ordering
swap Ordering.lt = Ordering.gt
swap Ordering.eq = Ordering.eq
swap Ordering.gt = Ordering.lt

compare_ℕ-swap : (n m : ℕ) → compare_ℕ m n ≡ swap (compare_ℕ n m)
compare_ℕ-swap n m = go (compare_ℕ n m) refl (compare_ℕ m n) refl
  where
    go : (o : Ordering) → compare_ℕ n m ≡ o → (p : Ordering) → compare_ℕ m n ≡ p → p ≡ swap o
    go Ordering.lt e Ordering.lt f = absurd (omega (arith, compare-lt n m e, compare-lt m n f))
    go Ordering.lt e Ordering.eq f = absurd (omega (arith, compare-lt n m e, compare-eq m n f))
    go Ordering.lt e Ordering.gt f = refl
    go Ordering.eq e Ordering.lt f = absurd (omega (arith, compare-eq n m e, compare-lt m n f))
    go Ordering.eq e Ordering.eq f = refl
    go Ordering.eq e Ordering.gt f = absurd (omega (arith, compare-eq n m e, compare-gt m n f))
    go Ordering.gt e Ordering.lt f = refl
    go Ordering.gt e Ordering.eq f = absurd (omega (arith, compare-gt n m e, compare-eq m n f))
    go Ordering.gt e Ordering.gt f = absurd (omega (arith, compare-gt n m e, compare-gt m n f))

then-swap : (o p : Ordering) → then (swap o) (swap p) ≡ swap (then o p)
then-swap Ordering.lt p = refl
then-swap Ordering.eq p = refl
then-swap Ordering.gt p = refl

compare-swap : (s t : String) → compare t s ≡ swap (compare s t)
compare-swap [] [] = compare.nil-nil ∙ ap swap (sym compare.nil-nil)
compare-swap [] (d ∷ t) = compare.cons-nil d t ∙ ap swap (sym (compare.nil-cons d t))
compare-swap (c ∷ s) [] = compare.nil-cons c s ∙ ap swap (sym (compare.cons-nil c s))
compare-swap (c ∷ s) (d ∷ t) =
    compare.cons-cons d c t s
    ∙ ap (λ o. then o (compare t s)) (compare_ℕ-swap (code c) (code d))
    ∙ ap (then (swap (compare_ℕ (code c) (code d)))) (compare-swap s t)
    ∙ then-swap (compare_ℕ (code c) (code d)) (compare s t)
    ∙ ap swap (sym (compare.cons-cons c d s t))

-- Of two texts one is at most the other.
pub str_le-total : (s t : String) → str_le s t ≡ false → str_le t s ≡ true
str_le-total s t h = go (compare s t) (compare t s) (compare-swap s t) h
  where
    go : (o p : Ordering) → p ≡ swap o → not (is_lt p) ≡ false → not (is_lt o) ≡ true
    go Ordering.lt p e k = ground (arith, e)
    go Ordering.eq p e k = refl
    go Ordering.gt p e k = refl

-- Two texts are equal, or one is less.
pub str_lt-trichotomy : (s t : String) → str_lt s t ≡ false → (s == t) ≡ false → str_lt t s ≡ true
str_lt-trichotomy s t h k = go (compare s t) (compare t s) (compare-swap s t) h k
  where
    go : (o p : Ordering) → p ≡ swap o → is_lt o ≡ false → is_eq o ≡ false → is_lt p ≡ true
    go Ordering.lt p e h k = ground arith
    go Ordering.eq p e h k = ground arith
    go Ordering.gt p e h k = ground (arith, e)

not_lt-head :
    (n m : ℕ) (p : Ordering)
    → is_lt (then (compare_ℕ n m) p) ≡ false
    → (m < n) ⊎ ((n ≡ m) × (is_lt p ≡ false))
not_lt-head n m p h = go (compare_ℕ n m) refl h
  where
    go :
        (o : Ordering)
        → compare_ℕ n m ≡ o
        → is_lt (then o p) ≡ false
        → (m < n) ⊎ ((n ≡ m) × (is_lt p ≡ false))
    go Ordering.lt e k = ground (arith, k)
    go Ordering.eq e k = inr (compare-eq n m e, k)
    go Ordering.gt e k = inl (compare-gt n m e)

head-not_lt :
    (n m : ℕ) (p : Ordering)
    → (m < n) ⊎ ((n ≡ m) × (is_lt p ≡ false))
    → is_lt (then (compare_ℕ n m) p) ≡ false
head-not_lt n m p h = go (compare_ℕ n m) refl h
  where
    go :
        (o : Ordering)
        → compare_ℕ n m ≡ o
        → (m < n) ⊎ ((n ≡ m) × (is_lt p ≡ false))
        → is_lt (then o p) ≡ false
    go Ordering.lt e (inl k) = absurd (omega (arith, compare-lt n m e))
    go Ordering.lt e (inr (k, _)) = absurd (omega (arith, compare-lt n m e))
    go Ordering.eq e (inl k) = absurd (omega (arith, compare-eq n m e))
    go Ordering.eq e (inr (_, k)) = k
    go Ordering.gt e k = refl

both_heads :
    (n m k : ℕ) (p q r : Ordering)
    → (is_lt p ≡ false → is_lt q ≡ false → is_lt r ≡ false)
    → (m < n) ⊎ ((n ≡ m) × (is_lt p ≡ false))
    → (n < k) ⊎ ((k ≡ n) × (is_lt q ≡ false))
    → (m < k) ⊎ ((k ≡ m) × (is_lt r ≡ false))
both_heads n m k p q r f (inl a) (inl b) = inl (omega arith)
both_heads n m k p q r f (inl a) (inr (b, _)) = inl (omega arith)
both_heads n m k p q r f (inr (a, _)) (inl b) = inl (omega arith)
both_heads n m k p q r f (inr (a, x)) (inr (b, y)) = inr (omega arith, f x y)

not_lt_trans :
    (s t u : String)
    → is_lt (compare t s) ≡ false
    → is_lt (compare u t) ≡ false
    → is_lt (compare u s) ≡ false
not_lt_trans [] t [] h k = ap is_lt compare.nil-nil
not_lt_trans [] t (e ∷ u) h k = ap is_lt (compare.cons-nil e u)
not_lt_trans (c ∷ s) [] u h k = ground (arith, sym (ap is_lt (compare.nil-cons c s)) ∙ h)
not_lt_trans (c ∷ s) (d ∷ t) [] h k = ground (arith, sym (ap is_lt (compare.nil-cons d t)) ∙ k)
not_lt_trans (c ∷ s) (d ∷ t) (e ∷ u) h k =
    ap is_lt (compare.cons-cons e c u s)
    ∙ head-not_lt (code e) (code c) (compare u s) (
        both_heads (code d) (code c) (code e) (compare t s) (compare u t) (compare u s)
          (not_lt_trans s t u)
          (not_lt-head (code d) (code c) (compare t s)
            (sym (ap is_lt (compare.cons-cons d c t s)) ∙ h))
          (not_lt-head (code e) (code d) (compare u t)
            (sym (ap is_lt (compare.cons-cons e d u t)) ∙ k)))

pub str_le_trans : (s t u : String) → str_le s t ≡ true → str_le t u ≡ true → str_le s u ≡ true
str_le_trans s t u h k = ground (arith, not_lt_trans s t u)

pub str_le_refl : (s : String) → str_le s s ≡ true
str_le_refl s = elim (Bool-cases (str_le s s)) [ inl h ↦ h | inr h ↦ str_le-total s s h ]

-- no text stands before the empty one
pub str_lt-empty : (s : String) → str_lt s [] ≡ false
str_lt-empty [] = ap is_lt compare.nil-nil
str_lt-empty (c ∷ s) = ap is_lt (compare.cons-nil c s)
