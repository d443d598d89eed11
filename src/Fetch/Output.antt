-- ===== src/Fetch/Output.antt =====
-- The list that a fetcher writes: distinct ids, in order.
use corporate_actions.Prelude.{
  ◌≡◌, refl, ◌∙◌, ℕ, ◌≤◌, String, Bool, false, Option, List, [], ◌∷◌, any, All, ◌==◌, eq_iff, arith,
  ltb, if◌then◌else◌, Bool-cases, Option-cases, inl, inr,
}
use corporate_actions.Prelude.Sort.{IsSorted, count, sort-IsSorted, count-sort, sort-All}
use corporate_actions.Model.{Dates, Action}
use corporate_actions.Validate.Unique.{
  member, occurs, ids_of, Distinct, validate_uniqueness, validate_uniqueness-nil_iff,
}
use corporate_actions.Registry.Queries.Sorted.{key_le-total}
use corporate_actions.Fetch.{id_of, dedupe, output_key, output_le, output}

module _ {N : Type 0} where
  -- how many actions have the id
  abbrev pub count_id : String → List (Action N) → ℕ
  count_id i actions = count (λ a. id_of a == i) actions

  count_id-occurs :
      (i : String) (actions : List (Action N))
      → count_id i actions ≡ 0
      → occurs i (ids_of actions) ≡ false
  count_id-occurs i [] h = refl
  count_id-occurs i (a ∷ rest) h = elim (Option-cases a.action_id) [
    | inl e ↦ ground (arith, e, count_id-occurs i rest)
    | inr (j, e) ↦ ground (arith, e, count_id-occurs i rest, eq_iff i j, eq_iff j i)
  ]

  -- Where no id is counted twice, the given ids are distinct.
  count_id-Distinct :
      (actions : List (Action N))
      → ((i : String) → count_id i actions ≤ 1)
      → Distinct (ids_of actions)
  count_id-Distinct [] h = tt
  count_id-Distinct (a ∷ rest) h =
      let later = count_id-Distinct rest (λ i. ground (arith, h i)) in
      elim (Option-cases a.action_id) [
        | inl e ↦ rw e later
        | inr (j, e) ↦ rw e (count_id-occurs j rest (ground (arith, e, h j, eq_iff j j)), later)
      ]

  -- what is kept of an id that was not seen, and of one that was
  dedupe-count :
      (i : String) (seen : List String) (actions : List (Action N))
      → count_id i (dedupe seen actions)
        ≡ (if member i seen then 0 else if any (λ a. id_of a == i) actions then 1 else 0)
  unfolding dedupe
  dedupe-count i seen [] = ground arith
  dedupe-count i seen (a ∷ rest) = elim (Bool-cases (member (id_of a) seen)) [
    | inl h ↦ rw h (ground (arith, dedupe-count i seen rest, eq_iff (id_of a) i))
    | inr h ↦ rw h (
        ground
          (arith, dedupe-count i (id_of a ∷ seen) rest, eq_iff (id_of a) i, eq_iff i (id_of a)))
  ]

  any-count :
      (p : Action N → Bool) (actions : List (Action N)) → any p actions ≡ ltb 0 (count p actions)
  any-count p [] = refl
  any-count p (a ∷ rest) = ground (arith, any-count p rest)

  pub dedupe-All {κ} :
      (P : Action N → Type κ) (seen : List String) (actions : List (Action N))
      → All P actions
      → All P (dedupe seen actions)
  unfolding dedupe
  dedupe-All P seen [] h = h
  dedupe-All P seen (a ∷ rest) h = elim (Bool-cases (member (id_of a) seen)) [
    | inl e ↦ rw e (dedupe-All P seen rest h.1)
    | inr e ↦ rw e (h.0, dedupe-All P (id_of a ∷ seen) rest h.1)
  ]

  module _ (date_of : Dates → Option String) where
    -- What holds of all fetched actions holds of all that are written.
    pub output-All {κ} :
        (P : Action N → Type κ) (actions : List (Action N))
        → All P actions
        → All P (output date_of actions)
    unfolding output
    output-All P actions h =
        sort-All (output_le date_of) P (dedupe [] actions) (dedupe-All P [] actions h)

    count_id-output :
        (i : String) (actions : List (Action N))
        → count_id i (output date_of actions) ≡ (if any (λ a. id_of a == i) actions then 1 else 0)
    unfolding output
    count_id-output i actions =
        count-sort (output_le date_of) (λ a. id_of a == i) (dedupe [] actions)
        ∙ dedupe-count i [] actions

    -- The list that a fetcher writes has distinct ids, so that the uniqueness layer of the
    -- validator finds nothing in it, it is sorted by the date and then by the id, and it has the
    -- ids of the fetched actions and no others.
    pub output-IsSorted :
        (actions : List (Action N))
        → (validate_uniqueness (output date_of actions) ≡ [])
          × IsSorted (output_le date_of) (output date_of actions)
          × ((i : String)
              → any (λ a. id_of a == i) (output date_of actions) ≡ any (λ a. id_of a == i) actions)
    unfolding output
    output-IsSorted actions =
        let written = output date_of actions in
        (
          (validate_uniqueness-nil_iff written).1
              (count_id-Distinct written (λ i. ground (arith, count_id-output i actions))),
          sort-IsSorted (output_le date_of)
              (λ (a : Action N) b. key_le-total (output_key date_of a) (output_key date_of b))
              (dedupe [] actions),
          λ i. ground (arith, any-count (λ a. id_of a == i) written, count_id-output i actions),
        )
