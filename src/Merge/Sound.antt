-- ===== src/Merge/Sound.antt =====
-- What the merge guarantees of the actions that it adds.
use mathlib.Core.Bool.{false≢true}
use mathlib.Core.List.{append_assoc, append-nil}
use corporate_actions.Prelude.{
  ◌≡◌, ◌↔◌, refl, sym, ap, ◌∙◌, Bool, true, false, not, ◌&&◌, none, some, List, [], ◌∷◌, ◌++◌,
  arith, any, any-append, All, All-append, Option-cases, inl, inr, none≢some,
}
use corporate_actions.Floats.{Floats}
use corporate_actions.Model.{Action}
use corporate_actions.Validate.Semantic.{validate_semantic_uniqueness}
use corporate_actions.Validate.Semantic.Groups.{no_twins, validate_semantic_uniqueness-nil_iff}
use corporate_actions.Validate.Semantic.Twins.{no_twins-prefix}
use corporate_actions.Merge.{
  FuzzyKey, RejectKey, same_fuzzy, same_reject, fuzzy_key, reject_key, fuzzy_keys, is_empty, Merge,
  is_known, fails_semantic, merge_loop, start, merge,
}
use corporate_actions.Merge.Keys.{
  accept, Round, known, removed, semantic, accepted, merge_loop_keeps,
}

module _ (F : Floats) where
  open F use {Num}

  -- the action has the key
  abbrev pub matches : FuzzyKey F → Action Num → Bool
  matches k b = elim (fuzzy_key F b) [ none ↦ false | some l ↦ same_fuzzy F k l ]

  -- no earlier action has the key of `c`
  abbrev pub is_new : List (Action Num) → Action Num → Bool
  is_new before c = elim (fuzzy_key F c) [ none ↦ false | some k ↦ not (any (matches k) before) ]

  -- each action is new after those before it
  abbrev pub all_new : List (Action Num) → List (Action Num) → Bool
  all_new before [] = true
  all_new before (c ∷ rest) = is_new before c && all_new (before ++ c ∷ []) rest

  -- the reject list does not hold the event
  abbrev pub IsAdmitted : List (RejectKey F) → Action Num → Type 0
  IsAdmitted rejects c =
      (r : RejectKey F) × (reject_key F c ≡ some r) × (any (same_reject F r) rejects ≡ false)

  all_new-snoc :
      (before xs : List (Action Num)) (c : Action Num)
      → all_new before (xs ++ c ∷ []) ≡ (all_new before xs && is_new (before ++ xs) c)
  all_new-snoc before [] c = rw (append-nil before) (ground arith)
  all_new-snoc before (x ∷ xs) c =
      rw (all_new-snoc (before ++ x ∷ []) xs c, append_assoc before (x ∷ []) xs) (ground arith)

  is_empty_iff : {A : Type 0} (xs : List A) → (is_empty F xs ≡ true) ↔ (xs ≡ [])
  is_empty_iff [] = ground arith
  is_empty_iff (x ∷ xs) = ground arith

  -- The trial list passes exactly when it has no twins.
  pub fails_semantic-no_twins :
      (trial : List (Action Num))
      → (fails_semantic F true trial ≡ false) ↔ (no_twins F trial ≡ true)
  unfolding fails_semantic
  fails_semantic-no_twins trial = ground (
    arith,
    is_empty_iff (validate_semantic_uniqueness F trial),
    validate_semantic_uniqueness-nil_iff F trial,
  )

  pub fuzzy_keys-matches :
      (current : List (Action Num)) (ks : List (FuzzyKey F)) (k : FuzzyKey F)
      → fuzzy_keys F current ≡ some ks
      → any (same_fuzzy F k) ks ≡ any (matches k) current
  unfolding fuzzy_keys
  fuzzy_keys-matches [] ks k h = ground arith
  fuzzy_keys-matches (a ∷ rest) ks k h = elim (Option-cases (fuzzy_keys F rest)) [
    | inl e ↦ ground arith
    | inr (ls, e) ↦ ground (arith, fuzzy_keys-matches rest ls k e)
  ]

  -- The state of the loop: the keys are those of the working list, which is the current list and
  -- what was added to it.
  pub record Invariant (have : Bool) (rejects : List (RejectKey F)) (current : List (Action Num))
      (m : Merge F) : Type 0 where
    pub grows : m.working ≡ current ++ m.added
    pub covers : (k : FuzzyKey F) → any (same_fuzzy F k) m.existing ≡ any (matches k) m.working
    pub distinct : all_new current m.added ≡ true
    pub admitted : All (IsAdmitted rejects) m.added
    pub twinless : have ≡ true → no_twins F current ≡ true → no_twins F m.working ≡ true

  module _ (have : Bool) (rejects : List (RejectKey F)) (current : List (Action Num)) where
    accept-Invariant :
        (c : Action Num) (m : Merge F) (k : FuzzyKey F) (r : RejectKey F)
        → fuzzy_key F c ≡ some k
        → is_known F k m ≡ false
        → reject_key F c ≡ some r
        → any (same_reject F r) rejects ≡ false
        → fails_semantic F have (m.working ++ c ∷ []) ≡ false
        → Invariant have rejects current m
        → Invariant have rejects current (accept F c k m)
    accept-Invariant c m k r e u f h s i = record {
      grows =
          ap (λ (w : List (Action Num)). w ++ c ∷ []) i.grows
          ∙ append_assoc current m.added (c ∷ []);
      covers = λ l. ground (arith, i.covers l, any-append (matches l) m.working (c ∷ []));
      distinct =
          rw (all_new-snoc current m.added c)
            (rw (← i.grows) (ground (arith, i.covers k, i.distinct)));
      admitted = All-append (IsAdmitted rejects) m.added (c ∷ []) i.admitted ((r, f, h), tt);
      twinless = λ t _. (fails_semantic-no_twins (m.working ++ c ∷ [])).0 (rw t at s);
    }

    pub Round-Invariant :
        (c : Action Num) (m m' : Merge F)
        → Invariant have rejects current m
        → Round F have rejects c m m'
        → Invariant have rejects current m'
    Round-Invariant c m m' i (known k e u q) = rw q i
    Round-Invariant c m m' i (removed k r e f h q) = rw q (record {
      grows = i.grows;
      covers = i.covers;
      distinct = i.distinct;
      admitted = i.admitted;
      twinless = i.twinless;
    })
    Round-Invariant c m m' i (semantic k e s q) = rw q (record {
      grows = i.grows;
      covers = i.covers;
      distinct = i.distinct;
      admitted = i.admitted;
      twinless = i.twinless;
    })
    Round-Invariant c m m' i (accepted k r e u f h s q) =
        rw q (accept-Invariant c m k r e u f h s i)

    pub start-Invariant :
        (keys : List (FuzzyKey F))
        → fuzzy_keys F current ≡ some keys
        → Invariant have rejects current (start F current keys)
    start-Invariant keys e = record {
      grows = sym (append-nil current);
      covers = λ k. fuzzy_keys-matches current keys k e;
      distinct = refl;
      admitted = tt;
      twinless = λ _ h. h;
    }

    pub merge-started :
        (fetched : List (Action Num)) (keys : List (FuzzyKey F))
        → fuzzy_keys F current ≡ some keys
        → merge F have current fetched rejects
          ≡ merge_loop F have rejects fetched (start F current keys)
    unfolding merge
    merge-started fetched keys e = ground arith

    pub merge-exit :
        (fetched : List (Action Num))
        → fuzzy_keys F current ≡ none
        → merge F have current fetched rejects ≡ none
    unfolding merge
    merge-exit fetched e = ground arith

    pub merge_keeps {ℓ} :
        (P : Merge F → Type ℓ)
        → ((c : Action Num) (m m' : Merge F) → P m → Round F have rejects c m m' → P m')
        → ((keys : List (FuzzyKey F)) → fuzzy_keys F current ≡ some keys → P (start F current keys))
        → (fetched : List (Action Num)) (m : Merge F)
        → merge F have current fetched rejects ≡ some m
        → P m
    unfolding merge
    merge_keeps P keep init fetched m h = elim (Option-cases (fuzzy_keys F current)) [
      | inl e ↦ absurd (none≢some (rw (e, merge) at h))
      | inr (keys, e) ↦
          merge_loop_keeps F have rejects P keep fetched (start F current keys) m (init keys e)
            (sym (merge-started fetched keys e) ∙ h)
    ]

    pub merge-Invariant :
        (fetched : List (Action Num)) (m : Merge F)
        → merge F have current fetched rejects ≡ some m
        → Invariant have rejects current m
    merge-Invariant = merge_keeps (Invariant have rejects current) Round-Invariant start-Invariant

    -- Every action that a merge that returns adds differs in its key from all current actions and from those
    -- added before it, and its event is not on the reject list; the list that the next candidate
    -- would be tried against is the current one followed by what was added.
    pub merge-adds_new :
        (fetched : List (Action Num)) (m : Merge F)
        → merge F have current fetched rejects ≡ some m
        → (m.working ≡ current ++ m.added)
          × (all_new current m.added ≡ true)
          × All (IsAdmitted rejects) m.added
    merge-adds_new fetched m h =
        let i = merge-Invariant fetched m h in (i.grows, i.distinct, i.admitted)

  module _ (rejects : List (RejectKey F)) (current fetched : List (Action Num)) (m : Merge F) where
    -- With the semantic layer at hand, a registry without twins has none after a merge that returns.
    pub merge-no_twins :
        merge F true current fetched rejects ≡ some m
        → no_twins F current ≡ true
        → no_twins F (current ++ m.added) ≡ true
    merge-no_twins h clean =
        let i = merge-Invariant true rejects current fetched m h in
        rw (← i.grows) (i.twinless refl clean)

    Round-stuck :
        (c : Action Num) (n n' : Merge F)
        → no_twins F current ≡ false
        → ((n.working ≡ current) × (n.added ≡ []))
        → Round F true rejects c n n'
        → (n'.working ≡ current) × (n'.added ≡ [])
    Round-stuck c n n' t p (known k e u q) = rw q p
    Round-stuck c n n' t p (removed k r e f h q) = rw q p
    Round-stuck c n n' t p (semantic k e s q) = rw q p
    Round-stuck c n n' t p (accepted k r e u f h s q) =
        let passed = (fails_semantic-no_twins (n.working ++ c ∷ [])).0 s in
        absurd (false≢true (sym t ∙ no_twins-prefix F current (c ∷ []) (rw p.0 at passed)))

    -- Two current actions that describe one event block a merge that has the semantic layer and
    -- returns: nothing is added, whatever was fetched.
    pub merge-blocked_by_twins :
        merge F true current fetched rejects ≡ some m → no_twins F current ≡ false → m.added ≡ []
    merge-blocked_by_twins h t =
        (merge_keeps true rejects current (λ (n : Merge F). (n.working ≡ current) × (n.added ≡ []))
          (λ c n n' p r. Round-stuck c n n' t p r) (λ keys e. (refl, refl)) fetched m h).1
