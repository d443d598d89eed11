-- ===== src/Merge/Keys.antt =====
-- One round of the merge: the four ways that it can end, and the keys that the loop keeps.
use corporate_actions.Prelude.{
  ◌≡◌, refl, sym, ◌∙◌, Bool, true, false, none, some, List, [], ◌∷◌, ◌++◌, arith, any, Option-cases,
  Bool-cases, inl, inr, some_inj, none≢some,
}
use mathlib.Core.Path.{subst}
use corporate_actions.Floats.{Floats}
use corporate_actions.Model.{Action}
use corporate_actions.Merge.{
  FuzzyKey, RejectKey, same_reject, fuzzy_key, reject_key, Merge, is_known, fails_semantic,
  merge_keyed, merge_step, merge_loop, or_exit,
}

module _ (F : Floats) where
  open F use {Num}

  -- what a round does with a candidate that it accepts
  abbrev pub accept : Action Num → FuzzyKey F → Merge F → Merge F
  accept c k m = record m {
    working = m.working ++ c ∷ [];
    existing = k ∷ m.existing;
    added = m.added ++ c ∷ [];
  }

  -- The ways that a round can end, each with what was tested.
  pub data Round (have : Bool) (rejects : List (RejectKey F)) (c : Action Num) (m m' : Merge F)
      : Type 0 where
    known :
        (k : FuzzyKey F)
        → fuzzy_key F c ≡ some k
        → is_known F k m ≡ true
        → m' ≡ m
        → Round have rejects c m m'
    removed :
        (k : FuzzyKey F) (r : RejectKey F)
        → fuzzy_key F c ≡ some k
        → reject_key F c ≡ some r
        → any (same_reject F r) rejects ≡ true
        → m' ≡ record m { rejected_removed = m.rejected_removed ++ c ∷ [] }
        → Round have rejects c m m'
    semantic :
        (k : FuzzyKey F)
        → fuzzy_key F c ≡ some k
        → fails_semantic F have (m.working ++ c ∷ []) ≡ true
        → m' ≡ record m { rejected_semantic = m.rejected_semantic ++ c ∷ [] }
        → Round have rejects c m m'
    accepted :
        (k : FuzzyKey F) (r : RejectKey F)
        → fuzzy_key F c ≡ some k
        → is_known F k m ≡ false
        → reject_key F c ≡ some r
        → any (same_reject F r) rejects ≡ false
        → fails_semantic F have (m.working ++ c ∷ []) ≡ false
        → m' ≡ accept c k m
        → Round have rejects c m m'

  module _ (have : Bool) (rejects : List (RejectKey F)) where
    merge_keyed-Round :
        (c : Action Num) (k : FuzzyKey F) (r : RejectKey F) (m : Merge F)
        → fuzzy_key F c ≡ some k
        → is_known F k m ≡ false
        → reject_key F c ≡ some r
        → Round have rejects c m (merge_keyed F have rejects c k r m)
    unfolding merge_keyed
    merge_keyed-Round c k r m e u f = elim (Bool-cases (any (same_reject F r) rejects)) [
      | inl h ↦ rw h (removed k r e f h refl)
      | inr h ↦ elim (Bool-cases (fails_semantic F have (m.working ++ c ∷ []))) [
        | inl s ↦ rw (h, s) (semantic k e s refl)
        | inr s ↦ rw (h, s) (accepted k r e u f h s refl)
      ]
    ]

    merge_step-exit :
        (c : Action Num) (m : Merge F) → fuzzy_key F c ≡ none → merge_step F have rejects c m ≡ none
    unfolding merge_step
    merge_step-exit c m e = ground arith

    pub merge_step-known :
        (c : Action Num) (m : Merge F) (k : FuzzyKey F)
        → fuzzy_key F c ≡ some k
        → is_known F k m ≡ true
        → merge_step F have rejects c m ≡ some m
    unfolding merge_step
    merge_step-known c m k e u = ground arith

    merge_step-reject_exit :
        (c : Action Num) (m : Merge F) (k : FuzzyKey F)
        → fuzzy_key F c ≡ some k
        → is_known F k m ≡ false
        → reject_key F c ≡ none
        → merge_step F have rejects c m ≡ none
    unfolding merge_step
    merge_step-reject_exit c m k e u f = ground arith

    pub merge_step-keyed :
        (c : Action Num) (m : Merge F) (k : FuzzyKey F) (r : RejectKey F)
        → fuzzy_key F c ≡ some k
        → is_known F k m ≡ false
        → reject_key F c ≡ some r
        → merge_step F have rejects c m ≡ some (merge_keyed F have rejects c k r m)
    unfolding merge_step
    merge_step-keyed c m k r e u f = ground arith

    pub merge_step-Round :
        (c : Action Num) (m m' : Merge F)
        → merge_step F have rejects c m ≡ some m'
        → Round have rejects c m m'
    merge_step-Round c m m' h = elim (Option-cases (fuzzy_key F c)) [
      | inl e ↦ absurd (none≢some (sym (merge_step-exit c m e) ∙ h))
      | inr (k, e) ↦ elim (Bool-cases (is_known F k m)) [
        | inl u ↦ known k e u (some_inj (sym h ∙ merge_step-known c m k e u))
        | inr u ↦ elim (Option-cases (reject_key F c)) [
          | inl f ↦ absurd (none≢some (sym (merge_step-reject_exit c m k e u f) ∙ h))
          | inr (r, f) ↦
              subst (λ (x : Merge F). Round have rejects c m x)
                (some_inj (sym (merge_step-keyed c m k r e u f) ∙ h))
                (merge_keyed-Round c k r m e u f)
        ]
      ]
    ]

    -- A predicate that every round keeps holds at the end of the loop.
    pub merge_loop_keeps {ℓ} :
        (P : Merge F → Type ℓ)
        → ((c : Action Num) (m m' : Merge F) → P m → Round have rejects c m m' → P m')
        → (fetched : List (Action Num)) (m m' : Merge F) → P m
        → merge_loop F have rejects fetched m ≡ some m'
        → P m'
    unfolding merge_loop
    merge_loop_keeps P keep [] m m' p h = subst P (some_inj h) p
    merge_loop_keeps P keep (c ∷ rest) m m' p h =
        elim (Option-cases (merge_step F have rejects c m)) [
          | inl e ↦ absurd (none≢some (rw (e, or_exit) at h))
          | inr (n, e) ↦
              merge_loop_keeps P keep rest n m' (keep c m n p (merge_step-Round c m n e))
                (rw e at h)
        ]
