-- ===== src/Build/Flat.antt =====
-- `flatten_action` of tools/build.py: when it raises, and what the flat dictionary holds.
use corporate_actions.Prelude.{
  ◌≡◌, refl, sym, ap, ◌∙◌, ◌⊎◌, String, Bool, true, false, ◌&&◌, Option, none, some, List, [], ◌∷◌,
  ◌++◌, ◌==◌, eq_iff, if◌then◌else◌, arith, Bool-cases, inl, inr, and-true_left, and-true_right,
}
use corporate_actions.Model.{Value}
use corporate_actions.Build.{
  Sub, plain, structured, Field, scalar, array, object, Object, get, put, joined, put_subs,
  put_field, flatten_from, flatten_action,
}

-- the later one of two
abbrev pub or_last {ℓ} : {A : Type ℓ} → Option A → Option A → Option A
or_last none y = y
or_last (some x) y = some x

or_last_assoc {ℓ} :
    {A : Type ℓ} (x y z : Option A) → or_last (or_last x y) z ≡ or_last x (or_last y z)
or_last_assoc none y z = refl
or_last_assoc (some x) y z = refl

or_last-none {ℓ} : {A : Type ℓ} (x : Option A) → or_last x none ≡ x
or_last-none none = refl
or_last-none (some x) = refl

-- the value of the last pair with a key
abbrev pub last_of {ℓ} : {A : Type ℓ} → String → List (String × A) → Option A
last_of key [] = none
last_of key ((k, v) ∷ rest) = or_last (last_of key rest) (if k == key then some v else none)

last_of-append {ℓ} :
    {A : Type ℓ} (key : String) (xs ys : List (String × A))
    → last_of key (xs ++ ys) ≡ or_last (last_of key ys) (last_of key xs)
last_of-append key [] ys = sym (or_last-none (last_of key ys))
last_of-append key ((k, v) ∷ xs) ys =
    ap (λ o. or_last o (if k == key then some v else none)) (last_of-append key xs ys)
    ∙ or_last_assoc (last_of key ys) (last_of key xs) (if k == key then some v else none)

get-put {ℓ} :
    {A : Type ℓ} (key j : String) (v : A) (d : List (String × A))
    → get key (put j v d) ≡ or_last (if j == key then some v else none) (get key d)
get-put key j v [] = ground arith
get-put key j v ((k, w) ∷ rest) =
    ground (arith, get-put key j v rest, eq_iff k j, eq_iff k key, eq_iff j key)

module _ {N : Type 0} where
  -- the pairs that an object stands for, with the joined keys of its nested objects
  abbrev pub sub_pairs : String → List (String × Sub N) → List (String × Option (Value N))
  sub_pairs key [] = []
  sub_pairs key ((k, structured) ∷ rest) = sub_pairs key rest
  sub_pairs key ((k, plain v) ∷ rest) = (joined key k, v) ∷ sub_pairs key rest

  abbrev pub field_pairs : String → Field N → List (String × Option (Value N))
  field_pairs key (scalar v) = (key, v) ∷ []
  field_pairs key array = []
  field_pairs key (object subs) = sub_pairs key subs

  abbrev pub pairs : Object N → List (String × Option (Value N))
  pairs [] = []
  pairs ((key, v) ∷ rest) = field_pairs key v ++ pairs rest

  -- no list, and nothing nested in a nested object
  abbrev pub are_plain : List (String × Sub N) → Bool
  are_plain [] = true
  are_plain ((k, structured) ∷ rest) = false
  are_plain ((k, plain v) ∷ rest) = are_plain rest

  abbrev pub is_flat_field : Field N → Bool
  is_flat_field (scalar v) = true
  is_flat_field array = false
  is_flat_field (object subs) = are_plain subs

  abbrev pub is_flat : Object N → Bool
  is_flat [] = true
  is_flat ((key, v) ∷ rest) = is_flat_field v && is_flat rest

  -- the dictionary is the old one, with some pairs put into it
  abbrev Holds :
      List (String × Option (Value N))
      → List (String × Option (Value N))
      → List (String × Option (Value N))
      → Type 0
  Holds ps old new = (key : String) → get key new ≡ or_last (last_of key ps) (get key old)

  put_subs-Holds :
      (key : String) (subs : List (String × Sub N)) (flat : List (String × Option (Value N)))
      → are_plain subs ≡ true
      → (new : List (String × Option (Value N))) × (put_subs key subs flat ≡ some new)
        × Holds (sub_pairs key subs) flat new
  unfolding put_subs
  put_subs-Holds key [] flat h = (flat, refl, λ k. refl)
  put_subs-Holds key ((k, structured) ∷ rest) flat h = cc
  put_subs-Holds key ((k, plain v) ∷ rest) flat h =
      let (new, e, holds) = put_subs-Holds key rest (put (joined key k) v flat) h in
      (
        new,
        e,
        λ name.
            holds name
            ∙ ap (or_last (last_of name (sub_pairs key rest))) (get-put name (joined key k) v flat)
            ∙ sym (
                or_last_assoc (last_of name (sub_pairs key rest))
                  (if joined key k == name then some v else none) (get name flat)),
      )

  put_subs-none :
      (key : String) (subs : List (String × Sub N)) (flat : List (String × Option (Value N)))
      → are_plain subs ≡ false
      → put_subs key subs flat ≡ none
  unfolding put_subs
  put_subs-none key [] flat h = cc
  put_subs-none key ((k, structured) ∷ rest) flat h = refl
  put_subs-none key ((k, plain v) ∷ rest) flat h =
      put_subs-none key rest (put (joined key k) v flat) h

  put_field-Holds :
      (key : String) (v : Field N) (flat : List (String × Option (Value N)))
      → is_flat_field v ≡ true
      → (new : List (String × Option (Value N))) × (put_field key v flat ≡ some new)
        × Holds (field_pairs key v) flat new
  unfolding put_field
  put_field-Holds key (scalar v) flat h = (put key v flat, refl, λ name. get-put name key v flat)
  put_field-Holds key array flat h = cc
  put_field-Holds key (object subs) flat h = put_subs-Holds key subs flat h

  put_field-none :
      (key : String) (v : Field N) (flat : List (String × Option (Value N)))
      → is_flat_field v ≡ false
      → put_field key v flat ≡ none
  unfolding put_field
  put_field-none key (scalar v) flat h = cc
  put_field-none key array flat h = refl
  put_field-none key (object subs) flat h = put_subs-none key subs flat h

  flatten_from-Holds :
      (flat : List (String × Option (Value N))) (a : Object N)
      → is_flat a ≡ true
      → (new : List (String × Option (Value N))) × (flatten_from flat a ≡ some new)
        × Holds (pairs a) flat new
  unfolding flatten_from
  flatten_from-Holds flat [] h = (flat, refl, λ k. refl)
  flatten_from-Holds flat ((key, v) ∷ rest) h =
      let (mid, e, first) =
        put_field-Holds key v flat (and-true_left (is_flat_field v) (is_flat rest) h) in
      let (new, f, later) =
        flatten_from-Holds mid rest (and-true_right (is_flat_field v) (is_flat rest) h) in
      (
        new,
        rw (e, flatten_from) f,
        λ name.
            later name
            ∙ ap (or_last (last_of name (pairs rest))) (first name)
            ∙ sym (
                or_last_assoc (last_of name (pairs rest)) (last_of name (field_pairs key v))
                  (get name flat))
            ∙ ap (λ (o : Option (Option (Value N))). or_last o (get name flat))
                (sym (last_of-append name (field_pairs key v) (pairs rest))),
      )

  flatten_from-none :
      (flat : List (String × Option (Value N))) (a : Object N)
      → is_flat a ≡ false
      → flatten_from flat a ≡ none
  unfolding flatten_from
  flatten_from-none flat [] h = cc
  flatten_from-none flat ((key, v) ∷ rest) h = elim (Bool-cases (is_flat_field v)) [
    | inl e ↦
        let (mid, f, first) = put_field-Holds key v flat e in
        rw (f, flatten_from) (flatten_from-none mid rest (rw e at h))
    | inr e ↦ rw (put_field-none key v flat e, flatten_from) refl
  ]

  -- `flatten_action` raises exactly where an action holds a list or something nested in a nested
  -- object; otherwise the flat dictionary has under each key the value of the last field, plain or
  -- nested, whose own or joined key it is, and no other keys.
  pub flatten_action-get :
      (a : Object N)
      → ((is_flat a ≡ false) × (flatten_action a ≡ none))
        ⊎ ((is_flat a ≡ true)
            × (flat : List (String × Option (Value N))) × (flatten_action a ≡ some flat)
            × ((key : String) → get key flat ≡ last_of key (pairs a)))
  unfolding flatten_action
  flatten_action-get a = elim (Bool-cases (is_flat a)) [
    | inr h ↦ inl (h, flatten_from-none [] a h)
    | inl h ↦
        let (flat, e, holds) = flatten_from-Holds [] a h in
        inr (h, flat, e, λ key. holds key ∙ or_last-none (last_of key (pairs a)))
  ]
