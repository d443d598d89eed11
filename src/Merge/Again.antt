-- ===== src/Merge/Again.antt =====
-- Merging the same fetched actions once more adds nothing.
use mathlib.Core.Bool.{false≢true}
use mathlib.Core.List.{append_assoc, append-nil}
use corporate_actions.Prelude.{
  ◌≡◌, ◌⊎◌, refl, sym, ap, ◌∙◌, Bool, true, false, none, some, List, [], ◌∷◌, ◌++◌, arith, any,
  any-append, All, Option-cases, Bool-cases, inl, inr, some_inj, none≢some, eq_iff,
}
use corporate_actions.Floats.{Floats}
use corporate_actions.Model.{dates_or_empty, Action}
use corporate_actions.Validate.Semantic.Twins.{no_twins-gap}
use corporate_actions.Merge.{
  text_or_empty, family, event_date, FuzzyKey, RejectKey, same_fuzzy, same_reject, rounded_amount,
  fuzzy_key, reject_key, fuzzy_keys, Merge, is_known, fails_semantic, merge_keyed, merge_step,
  merge_loop, or_exit, start, merge,
}
use corporate_actions.Merge.Keys.{
  Round, known, removed, semantic, accepted, merge_step-known, merge_step-keyed, merge_step-Round,
}
use corporate_actions.Merge.Sound.{
  matches, all_new, merge-Invariant, merge-exit, fails_semantic-no_twins, fuzzy_keys-matches,
  Invariant, Round-Invariant, start-Invariant, merge-started,
}

module _ (F : Floats) where
  open F use {Num, eq}

  -- the amount of the action, rounded as the keys hold it, equals itself, as all numbers but NaN do
  abbrev pub is_comparable : Action Num → Bool
  is_comparable c = elim (rounded_amount F c.amount) [ none ↦ true | some x ↦ eq x x ]

module _ (F : Floats) (have : Bool) (rejects : List (RejectKey F)) where
  open F use {Num, eq}

  -- an action with one key has the other
  reject_key-defined :
      (c : Action Num) (k : FuzzyKey F)
      → fuzzy_key F c ≡ some k
      → (r : RejectKey F) × (reject_key F c ≡ some r)
  unfolding fuzzy_key reject_key
  reject_key-defined c k h = elim (Option-cases (rounded_amount F c.amount)) [
    | inl e ↦ absurd (none≢some (rw (e, fuzzy_key) at h))
    | inr (x, e) ↦ (
      record {
        isin = text_or_empty c.isin;
        family = family c.action_type;
        date = event_date (dates_or_empty c.dates);
        amount = x;
      },
      rw (e, reject_key),
    )
  ]

  -- Why the candidate cannot be added to a working list.
  record Settled (working : List (Action Num)) (c : Action Num) : Type 0 where
    key : FuzzyKey F
    has_key : fuzzy_key F c ≡ some key
    why :
        (any (matches F key) working ≡ true)
        ⊎ (((r : RejectKey F) × (reject_key F c ≡ some r) × (any (same_reject F r) rejects ≡ true))
            ⊎ (fails_semantic F have (working ++ c ∷ []) ≡ true))

  never : (trial : List (Action Num)) → fails_semantic F false trial ≡ false
  unfolding fails_semantic
  never trial = refl

  fails_semantic-gap :
      (h : Bool) (w more : List (Action Num)) (c : Action Num)
      → fails_semantic F h (w ++ c ∷ []) ≡ true
      → fails_semantic F h ((w ++ more) ++ c ∷ []) ≡ true
  fails_semantic-gap false w more c s = absurd (false≢true (sym (never (w ++ c ∷ [])) ∙ s))
  fails_semantic-gap true w more c s =
      elim (Bool-cases (fails_semantic F true ((w ++ more) ++ c ∷ []))) [
        | inl h ↦ h
        | inr h ↦
            let clean = (fails_semantic-no_twins F ((w ++ more) ++ c ∷ [])).0 h in
            let before =
              (fails_semantic-no_twins F (w ++ c ∷ [])).1 (no_twins-gap F w more c clean) in
            absurd (false≢true (sym before ∙ s))
      ]

  Settled-more : (w more : List (Action Num)) (c : Action Num) → Settled w c → Settled (w ++ more) c
  Settled-more w more c s = record {
    key = s.key;
    has_key = s.has_key;
    why = elim s.why [
      | inl h ↦ inl (rw (any-append (matches F s.key) w more) (rw h))
      | inr (inl h) ↦ inr (inl h)
      | inr (inr h) ↦ inr (inr (fails_semantic-gap have w more c h))
    ];
  }

  -- The state of the second run: it has added nothing so far.
  record Quiet (w : List (Action Num)) (m : Merge F) : Type 0 where
    working : m.working ≡ w
    covers : (k : FuzzyKey F) → any (same_fuzzy F k) m.existing ≡ any (matches F k) w
    nothing : m.added ≡ []

  merge_keyed-Quiet :
      (w : List (Action Num)) (c : Action Num) (k : FuzzyKey F) (r : RejectKey F) (m : Merge F)
      → Quiet w m
      → (any (same_reject F r) rejects ≡ true) ⊎ (fails_semantic F have (w ++ c ∷ []) ≡ true)
      → Quiet w (merge_keyed F have rejects c k r m)
  unfolding merge_keyed
  merge_keyed-Quiet w c k r m q d = elim (Bool-cases (any (same_reject F r) rejects)) [
    | inl h ↦ rw h (record { working = q.working; covers = q.covers; nothing = q.nothing })
    | inr h ↦ elim d [
      | inl t ↦ absurd (false≢true (sym h ∙ t))
      | inr s ↦
          rw (h, q.working, s) (record { working = refl; covers = q.covers; nothing = q.nothing })
    ]
  ]

  -- the reason that is left when the key is not known
  without_key :
      (w : List (Action Num)) (c : Action Num) (s : Settled w c) (r : RejectKey F)
      → any (matches F s.key) w ≡ false
      → reject_key F c ≡ some r
      → (any (same_reject F r) rejects ≡ true) ⊎ (fails_semantic F have (w ++ c ∷ []) ≡ true)
  without_key w c s r u e = elim s.why [
    | inl h ↦ absurd (false≢true (sym u ∙ h))
    | inr (inl (r', e', h)) ↦ inl (rw (some_inj (sym e ∙ e')) h)
    | inr (inr h) ↦ inr h
  ]

  merge_step-Quiet :
      (w : List (Action Num)) (c : Action Num) (m : Merge F)
      → Quiet w m
      → Settled w c
      → (m' : Merge F) × (merge_step F have rejects c m ≡ some m') × Quiet w m'
  merge_step-Quiet w c m q s = elim (Bool-cases (is_known F s.key m)) [
    | inl u ↦ (m, merge_step-known F have rejects c m s.key s.has_key u, q)
    | inr u ↦
        let (r, e) = reject_key-defined c s.key s.has_key in
        (
          merge_keyed F have rejects c s.key r m,
          merge_step-keyed F have rejects c m s.key r s.has_key u e,
          merge_keyed-Quiet w c s.key r m q (without_key w c s r (sym (q.covers s.key) ∙ u) e),
        )
  ]

  merge_loop-Quiet :
      (w fetched : List (Action Num)) (m : Merge F)
      → Quiet w m
      → All (Settled w) fetched
      → (m' : Merge F) × (merge_loop F have rejects fetched m ≡ some m') × Quiet w m'
  unfolding merge_loop
  merge_loop-Quiet w [] m q s = (m, refl, q)
  merge_loop-Quiet w (c ∷ rest) m q s =
      let (n, e, q') = merge_step-Quiet w c m q s.0 in
      let (m', e', q'') = merge_loop-Quiet w rest n q' s.1 in (m', rw (e, merge_loop) e', q'')

module _ (F : Floats) (have : Bool) (rejects : List (RejectKey F))
    (current : List (Action F.Num)) where
  open F use {Num, eq}

  is_comparable-amount :
      (c : Action Num) (k : FuzzyKey F)
      → fuzzy_key F c ≡ some k
      → is_comparable F c ≡ true
      → eq k.amount k.amount ≡ true
  unfolding fuzzy_key
  is_comparable-amount c k e n = elim (Option-cases (rounded_amount F c.amount)) [
    | inl r ↦ absurd (none≢some (rw (r, fuzzy_key) at e))
    | inr (x, r) ↦ ground (arith, r)
  ]

  same_fuzzy_refl : (k : FuzzyKey F) → eq k.amount k.amount ≡ true → same_fuzzy F k k ≡ true
  same_fuzzy_refl k h = ground (
    arith,
    eq_iff k.isin k.isin,
    eq_iff k.kind k.kind,
    eq_iff k.date k.date,
    eq_iff k.ratio k.ratio,
  )

  matches_self :
      (k : FuzzyKey F) (c : Action Num)
      → fuzzy_key F c ≡ some k
      → is_comparable F c ≡ true
      → matches F k c ≡ true
  matches_self k c e n = ground (arith, same_fuzzy_refl k (is_comparable-amount c k e n))

  -- A round leaves its candidate settled, and lets the working list grow at its end.
  Round-Settled :
      (c : Action Num) (m m' : Merge F)
      → is_comparable F c ≡ true
      → Invariant F have rejects current m
      → Round F have rejects c m m'
      → Settled F have rejects m'.working c
        × ((more : List (Action Num)) × (m'.working ≡ m.working ++ more))
  Round-Settled c m m' n i (known k e u q) = rw q (
    record { key = k; has_key = e; why = inl (sym (i.covers k) ∙ u) },
    ([], sym (append-nil m.working)),
  )
  Round-Settled c m m' n i (removed k r e f h q) =
      rw q (
        record { key = k; has_key = e; why = inr (inl (r, f, h)) },
        ([], sym (append-nil m.working)),
      )
  Round-Settled c m m' n i (semantic k e s q) =
      rw q (record { key = k; has_key = e; why = inr (inr s) }, ([], sym (append-nil m.working)))
  Round-Settled c m m' n i (accepted k r e u f h s q) = rw q (
    record {
      key = k;
      has_key = e;
      why =
          inl (
            rw (any-append (matches F k) m.working (c ∷ []))
              (ground (arith, matches_self k c e n)));
    },
    (c ∷ [], refl),
  )

  merge_loop-Settled :
      (fetched : List (Action Num)) (m mf : Merge F)
      → All (λ c. is_comparable F c ≡ true) fetched
      → Invariant F have rejects current m
      → merge_loop F have rejects fetched m ≡ some mf
      → All (Settled F have rejects mf.working) fetched
        × ((more : List (Action Num)) × (mf.working ≡ m.working ++ more))
  unfolding merge_loop
  merge_loop-Settled [] m mf s i h = (tt, ([], rw (← some_inj h) (sym (append-nil m.working))))
  merge_loop-Settled (c ∷ rest) m mf s i h = elim (Option-cases (merge_step F have rejects c m)) [
    | inl e ↦ absurd (none≢some (rw (e, or_exit) at h))
    | inr (n, e) ↦
        let round = merge_step-Round F have rejects c m n e in
        let (settled, (more, grew)) = Round-Settled c m n s.0 i round in
        let (others, (later, grew')) =
          merge_loop-Settled rest n mf s.1 (Round-Invariant F have rejects current c m n i round)
            (rw e at h) in
        (
          (rw grew' (Settled-more F have rejects n.working later c settled), others),
          (
            more ++ later,
            grew'
                ∙ ap (λ (w : List (Action Num)). w ++ later) grew
                ∙ append_assoc m.working more later,
          ),
        )
  ]

  fuzzy_keys-new :
      (before added : List (Action Num))
      → all_new F before added ≡ true
      → (ks : List (FuzzyKey F)) × (fuzzy_keys F added ≡ some ks)
  unfolding fuzzy_keys
  fuzzy_keys-new before [] h = ([], refl)
  fuzzy_keys-new before (c ∷ rest) h =
      let (ks, e) = fuzzy_keys-new (before ++ c ∷ []) rest (ground arith) in
      elim (Option-cases (fuzzy_key F c)) [
        | inl f ↦ ground arith
        | inr (k, f) ↦ (k ∷ ks, ground arith)
      ]

  fuzzy_keys-append :
      (xs ys : List (Action Num)) (ks ls : List (FuzzyKey F))
      → fuzzy_keys F xs ≡ some ks
      → fuzzy_keys F ys ≡ some ls
      → (js : List (FuzzyKey F)) × (fuzzy_keys F (xs ++ ys) ≡ some js)
  unfolding fuzzy_keys
  fuzzy_keys-append [] ys ks ls e f = (ls, f)
  fuzzy_keys-append (c ∷ rest) ys ks ls e f = elim (Option-cases (fuzzy_key F c)) [
    | inl g ↦ ground arith
    | inr (k, g) ↦ elim (Option-cases (fuzzy_keys F rest)) [
      | inl t ↦ ground arith
      | inr (rs, t) ↦ let (js, j) = fuzzy_keys-append rest ys rs ls t f in (k ∷ js, ground arith)
    ]
  ]

  start-Quiet :
      (w : List (Action Num)) (keys : List (FuzzyKey F))
      → fuzzy_keys F w ≡ some keys
      → Quiet F have rejects w (start F w keys)
  start-Quiet w keys e = record {
    working = refl;
    covers = λ k. fuzzy_keys-matches F w keys k e;
    nothing = refl;
  }

  -- Where no fetched action has an amount that is NaN, that is, the rounded amount of each equals
  -- itself: after a merge that returns, merging the same fetched actions into the result under the
  -- same reject list returns, and adds nothing.
  pub merge_again :
      (fetched : List (Action Num)) (m : Merge F)
      → All (λ c. is_comparable F c ≡ true) fetched
      → merge F have current fetched rejects ≡ some m
      → (m' : Merge F) × (merge F have (current ++ m.added) fetched rejects ≡ some m')
        × (m'.added ≡ [])
  merge_again fetched m s h = elim (Option-cases (fuzzy_keys F current)) [
    | inl e ↦ absurd (none≢some (sym (merge-exit F have rejects current fetched e) ∙ h))
    | inr (keys, e) ↦
        let w = current ++ m.added in
        let i = merge-Invariant F have rejects current fetched m h in
        let run = sym (merge-started F have rejects current fetched keys e) ∙ h in
        let (settled, _) =
          merge_loop-Settled fetched (start F current keys) m s
            (start-Invariant F have rejects current keys e) run in
        let (ls, f) = fuzzy_keys-new current m.added i.distinct in
        let (js, j) = fuzzy_keys-append current m.added keys ls e f in
        let (m', e', quiet) =
          merge_loop-Quiet F have rejects w fetched (start F w js) (start-Quiet w js j)
            (rw i.grows at settled) in
        (m', merge-started F have rejects w fetched js j ∙ e', quiet.nothing)
  ]
