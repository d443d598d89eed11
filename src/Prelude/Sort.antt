-- ===== src/Prelude/Sort.antt =====
-- Python's stable sort, as insertion by a Boolean order, what of a list passes a test, and how often.
use corporate_actions.Prelude.Lists
use Prim.Native.Nat.{ℕ, suc}
use mathlib.Core.Path.{◌≡◌, refl, sym, ap, ◌∙◌}
use mathlib.Core.Logic.{inl, inr}
use mathlib.Core.Bool.{Bool, true, false, false≢true}
use mathlib.Core.List.{List, [], ◌∷◌}
use native.Mathlib.Omega.{arith}
use corporate_actions.Prelude.Tests.{if◌then◌else◌, Bool-cases}

module _ {ℓ} {A : Type ℓ} where
  -- how many elements pass a test
  abbrev pub count : (A → Bool) → List A → ℕ
  count p [] = 0
  count p (x ∷ xs) = if p x then suc (count p xs) else count p xs

  -- the elements that pass a test, in their order
  abbrev pub filter : (A → Bool) → List A → List A
  filter p [] = []
  filter p (x ∷ xs) = let others = filter p xs in if p x then x ∷ others else others

  filter-cong :
      (p : A → Bool) (x : A) (xs ys : List A)
      → filter p xs ≡ filter p ys
      → filter p (x ∷ xs) ≡ filter p (x ∷ ys)
  filter-cong p x xs ys h = ap (λ (zs : List A). if p x then x ∷ zs else zs) h

  pub count-cong :
      (p : A → Bool) (x : A) (xs ys : List A)
      → count p xs ≡ count p ys
      → count p (x ∷ xs) ≡ count p (x ∷ ys)
  count-cong p x xs ys h = ap (λ (n : ℕ). if p x then suc n else n) h

module _ {ℓ} {A : Type ℓ} (le : A → A → Bool) where
  unfoldable pub insert_sorted : A → List A → List A
  insert_sorted x [] = x ∷ []
  insert_sorted x (y ∷ ys) = if le x y then x ∷ y ∷ ys else y ∷ insert_sorted x ys

  unfoldable pub sort : List A → List A
  unfolding insert_sorted
  sort [] = []
  sort (x ∷ xs) = insert_sorted x (sort xs)

  -- the element is at most the first one of the list
  abbrev pub Precedes : A → List A → Type 0
  Precedes x [] = Unit
  Precedes x (y ∷ ys) = le x y ≡ true

  abbrev pub IsSorted : List A → Type 0
  IsSorted [] = Unit
  IsSorted (x ∷ xs) = Precedes x xs × IsSorted xs

  module _ (total : (x y : A) → le x y ≡ false → le y x ≡ true) where
    Precedes-insert_sorted :
        (y x : A) (ys : List A) → Precedes y ys → le y x ≡ true → Precedes y (insert_sorted x ys)
    unfolding insert_sorted
    Precedes-insert_sorted y x [] p h = h
    Precedes-insert_sorted y x (z ∷ zs) p h = elim (Bool-cases (le x z)) [
      | inl k ↦ rw k h
      | inr k ↦ rw k p
    ]

    insert_sorted-IsSorted : (x : A) (ys : List A) → IsSorted ys → IsSorted (insert_sorted x ys)
    unfolding insert_sorted
    insert_sorted-IsSorted x [] s = (tt, tt)
    insert_sorted-IsSorted x (y ∷ ys) s = elim (Bool-cases (le x y)) [
      | inl h ↦ rw h (h, s)
      | inr h ↦
          rw h (Precedes-insert_sorted y x ys s.0 (total x y h), insert_sorted-IsSorted x ys s.1)
    ]

    -- Where the order is total, sorting sorts.
    pub sort-IsSorted : (xs : List A) → IsSorted (sort xs)
    unfolding sort
    sort-IsSorted [] = tt
    sort-IsSorted (x ∷ xs) = insert_sorted-IsSorted x (sort xs) (sort-IsSorted xs)

  count-insert_sorted :
      (p : A → Bool) (x : A) (ys : List A) → count p (insert_sorted x ys) ≡ count p (x ∷ ys)
  unfolding insert_sorted
  count-insert_sorted p x [] = refl
  count-insert_sorted p x (y ∷ ys) = elim (Bool-cases (le x y)) [
    | inl h ↦ rw h refl
    | inr h ↦ rw h (ground (arith, count-insert_sorted p x ys))
  ]

  -- Sorting keeps every element as often as it stands.
  pub count-sort : (p : A → Bool) (xs : List A) → count p (sort xs) ≡ count p xs
  unfolding sort
  count-sort p [] = refl
  count-sort p (x ∷ xs) =
      count-insert_sorted p x (sort xs) ∙ count-cong p x (sort xs) xs (count-sort p xs)

  module _ {κ} (P : A → Type κ) where
    insert_sorted-All :
        (x : A) (ys : List A) → P x → Lists.All P ys → Lists.All P (insert_sorted x ys)
    unfolding insert_sorted
    insert_sorted-All x [] h k = (h, k)
    insert_sorted-All x (y ∷ ys) h k = elim (Bool-cases (le x y)) [
      | inl e ↦ rw e (h, k)
      | inr e ↦ rw e (k.0, insert_sorted-All x ys h k.1)
    ]

    -- What holds of all elements holds of all sorted ones.
    pub sort-All : (xs : List A) → Lists.All P xs → Lists.All P (sort xs)
    unfolding sort
    sort-All [] h = h
    sort-All (x ∷ xs) h = insert_sorted-All x (sort xs) h.0 (sort-All xs h.1)

  module _ (p : A → Bool) (tied : (x y : A) → p x ≡ true → p y ≡ true → le x y ≡ true) where
    filter-insert_sorted : (x : A) (ys : List A) → filter p (insert_sorted x ys) ≡ filter p (x ∷ ys)
    unfolding insert_sorted
    filter-insert_sorted x [] = refl
    filter-insert_sorted x (y ∷ ys) = elim (Bool-cases (le x y)) [
      | inl h ↦ rw h refl
      | inr h ↦ rw h (
          filter-cong p y (insert_sorted x ys) (x ∷ ys) (filter-insert_sorted x ys)
          ∙ swapped (p x) refl (p y) refl h)
    ]
      where
        swapped :
            (b : Bool)
            → p x ≡ b
            → (c : Bool) → p y ≡ c
            → le x y ≡ false
            → filter p (y ∷ x ∷ ys) ≡ filter p (x ∷ y ∷ ys)
        swapped true e true f h = absurd (false≢true (sym h ∙ tied x y e f))
        swapped true e false f h = rw (e, f) refl
        swapped false e c f h = rw (e) refl

    -- The sort is stable: elements that are tied stand in the order they came in.
    pub filter-sort : (xs : List A) → filter p (sort xs) ≡ filter p xs
    unfolding sort
    filter-sort [] = refl
    filter-sort (x ∷ xs) =
        filter-insert_sorted x (sort xs) ∙ filter-cong p x (sort xs) xs (filter-sort xs)
