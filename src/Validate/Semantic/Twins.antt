-- ===== src/Validate/Semantic/Twins.antt =====
-- How the semantic layer behaves as a list of actions grows.
use corporate_actions.Prelude.{
  ◌≡◌, refl, Bool, true, not, List, [], ◌∷◌, ◌++◌, arith, all, all-append,
}
use corporate_actions.Floats.{Floats}
use corporate_actions.Model.{Action}
use corporate_actions.Validate.Semantic.Groups.{same_event, no_twins}

module _ {ℓ} {A : Type ℓ} (p : A → Bool) where
  all-gap : (xs ys zs : List A) → all p ((xs ++ ys) ++ zs) ≡ true → all p (xs ++ zs) ≡ true
  all-gap xs ys zs h =
      ground (arith, all-append p (xs ++ ys) zs, all-append p xs ys, all-append p xs zs)

module _ (F : Floats) where
  open F use {Num}

  -- A part of a list without twins has none.
  pub no_twins-prefix :
      (xs ys : List (Action Num)) → no_twins F (xs ++ ys) ≡ true → no_twins F xs ≡ true
  no_twins-prefix [] ys h = refl
  no_twins-prefix (a ∷ xs) ys h =
      ground (arith, no_twins-prefix xs ys, all-append (λ b. not (same_event F a b)) xs ys)

  pub no_twins-gap :
      (xs ys : List (Action Num)) (c : Action Num)
      → no_twins F ((xs ++ ys) ++ c ∷ []) ≡ true
      → no_twins F (xs ++ c ∷ []) ≡ true
  no_twins-gap [] ys c h = refl
  no_twins-gap (a ∷ xs) ys c h =
      ground (arith, no_twins-gap xs ys c, all-gap (λ b. not (same_event F a b)) xs ys (c ∷ []))
