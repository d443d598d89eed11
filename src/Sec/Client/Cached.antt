-- ===== src/Sec/Client/Cached.antt =====
-- What the cache of the SEC client does for a URL that was fetched once.
use corporate_actions.Prelude.{
  ◌≡◌, refl, ap, ◌∙◌, ◌≤◌, ℕ, zero, suc, String, Bool, true, none, some, [], eq_iff, eqb, arith,
  Option-cases, Bool-cases, inl, inr, none≢some, some_inj,
}
use corporate_actions.Sec.Client.{
  Cache, cached, Response, from_cache, Reply, failed, answered, is_cacheable, Got, after_reply,
  get_from, get,
}

-- the content of a response of a cacheable URL stands in the cache
abbrev IsKept : String → Got → Type 0
IsKept url g = (r : Response) → g.response ≡ some r → cached url g.cache ≡ some r.content

module _ (raises : Response → Bool) (reply : String → ℕ → Reply) (url : String)
    (cache : Cache) where
  after_reply-IsKept :
      (p : Reply) (later : Got)
      → is_cacheable url ≡ true
      → IsKept url later
      → IsKept url (after_reply raises reply url cache p later)
  unfolding after_reply
  after_reply-IsKept failed later c h r e = h r e
  after_reply-IsKept (answered found) later c h r e =
      elim (Bool-cases (eqb found.status_code 429)) [
        | inl t ↦ rw t (h r (rw t at e))
        | inr t ↦ elim (Bool-cases (eqb found.status_code 404)) [
          | inl u ↦ absurd (none≢some (rw (t, u) at e))
          | inr u ↦ elim (Bool-cases (raises found)) [
            | inl v ↦ rw (t, u, v) (h r (rw (t, u, v) at e))
            | inr v ↦
                rw (t, u, v, c)
                  (ground (
                    arith,
                    ap (λ (o : Response). o.content) (some_inj (rw (t, u, v) at e)),
                    eq_iff url url,
                  ))
          ]
        ]
      ]

  get_from-IsKept :
      (left attempt : ℕ)
      → is_cacheable url ≡ true
      → IsKept url (get_from raises reply left attempt url cache)
  unfolding get_from
  get_from-IsKept zero attempt c = λ r e. absurd (none≢some e)
  get_from-IsKept (suc left) attempt c =
      after_reply-IsKept (reply url attempt) (get_from raises reply left (suc attempt) url cache) c
        (get_from-IsKept left (suc attempt) c)

  after_reply-requests :
      (p : Reply) (later : Got) (n : ℕ)
      → later.requests ≤ n
      → (after_reply raises reply url cache p later).requests ≤ suc n
  unfolding after_reply
  after_reply-requests failed later n h = omega (arith, h)
  after_reply-requests (answered found) later n h = ground (arith, h)

  get_from-requests :
      (left attempt : ℕ) → (get_from raises reply left attempt url cache).requests ≤ left
  unfolding get_from
  get_from-requests zero attempt = omega arith
  get_from-requests (suc left) attempt =
      after_reply-requests (reply url attempt) (get_from raises reply left (suc attempt) url cache)
        left (get_from-requests left (suc attempt))

  get-requests : is_cacheable url ≡ true → (get raises reply url cache).requests ≤ 3
  unfolding get
  get-requests c = elim (Option-cases (cached url cache)) [
    | inl e ↦ rw (c, get) (rw (e, get) (get_from-requests 3 0))
    | inr (found, e) ↦ rw (c, get) (rw (e, get) (omega arith))
  ]

  get-hit :
      (content : String)
      → is_cacheable url ≡ true
      → cached url cache ≡ some content
      → get raises reply url cache
        ≡ record { response = some (from_cache content); cache = cache; requests = 0 }
  unfolding get
  get-hit content c e = rw (c, get) (rw (e, get) refl)

  get-IsKept : is_cacheable url ≡ true → IsKept url (get raises reply url cache)
  unfolding get
  get-IsKept c = elim (Option-cases (cached url cache)) [
    | inl e ↦ rw (c, get) (rw (e, get) (get_from-IsKept 3 0 c))
    | inr (found, e) ↦
        rw (c, get) (rw (e, get) (λ r h. e ∙ ap (λ (o : Response). some o.content) (some_inj h)))
  ]

-- A get of a URL that may be cached makes at most three requests, and if it gives a response, a get
-- of the same URL after it gives, without a request and whatever the server would answer by then,
-- a response with the same content, with the status 200 and without the headers and the encoding of
-- the first one, and leaves the cache as it is.
pub get_again :
    (raises : Response → Bool) (reply reply' : String → ℕ → Reply) (url : String) (cache : Cache)
    (r : Response)
    → is_cacheable url ≡ true
    → (get raises reply url cache).response ≡ some r
    → ((get raises reply url cache).requests ≤ 3)
      × (get raises reply' url (get raises reply url cache).cache ≡ record {
        response =
            some (record { status_code = 200; headers = []; encoding = none; content = r.content });
        cache = (get raises reply url cache).cache;
        requests = 0;
      })
get_again raises reply reply' url cache r c h = (
  get-requests raises reply url cache c,
  get-hit raises reply' url (get raises reply url cache).cache r.content c
      (get-IsKept raises reply url cache c r h),
)
