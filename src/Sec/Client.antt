-- ===== src/Sec/Client.antt =====
-- `SECClient._get` of tools/fetch_sec_edgar_actions.py: the cache and the attempts. What a request
-- is answered with is given.
pub mod Cached
use corporate_actions.Prelude.{
  ◌≡◌, refl, ap, ◌∙◌, ℕ, zero, suc, String, Bool, true, false, not, ◌&&◌, Option, none, some, List,
  [], ◌∷◌, ◌==◌, any, eq_iff, arith, eqb, if◌then◌else◌, Bool-cases, Option-cases, inl, inr,
}
use corporate_actions.Prelude.Text.{codes, is_prefix}

-- the files of the cache, by the URL whose digest they are named after
abbrev pub Cache : Type 0
Cache = List (String × String)

abbrev pub cached : String → Cache → Option String
cached url [] = none
cached url ((u, content) ∷ rest) =
    let later = cached url rest in if u == url then some content else later

-- what the client reads and sets of a response of the requests package
pub record Response : Type 0 where
  pub status_code : ℕ
  pub headers : List (String × String)
  pub encoding : Option String
  pub content : String

-- a request raises RequestException, or is answered
pub data Reply : Type 0 where
  failed : Reply
  answered : Response → Reply

-- `requests.Response()` with the status 200 and the content of a file of the cache
abbrev pub from_cache : String → Response
from_cache content = record { status_code = 200; headers = []; encoding = none; content = content }

-- MUTABLE_URL_PREFIXES
abbrev pub mutable_url_prefixes : List String
mutable_url_prefixes = "https://data.sec.gov/submissions/" ∷ []

unfoldable pub is_cacheable : String → Bool
unfolding is_prefix
is_cacheable url = not (any (λ p. is_prefix (codes p) (codes url)) mutable_url_prefixes)

-- the response, the cache after the call, and how many requests were made
pub record Got : Type 0 where
  pub response : Option Response
  pub cache : Cache
  pub requests : ℕ

abbrev pub counted : Got → Got
counted g = record g { requests = suc g.requests }

-- `raises` tells of which responses `raise_for_status` raises
module _ (raises : Response → Bool) (reply : String → ℕ → Reply) where
  -- one round of the loop: what the request is answered with, and what comes later
  unfoldable pub after_reply : String → Cache → Reply → Got → Got
  unfolding is_cacheable
  after_reply url cache failed later = counted later
  after_reply url cache (answered r) later =
      if eqb r.status_code 429
      then counted later
      else if eqb r.status_code 404
      then record { response = none; cache = cache; requests = 1 }
      else if raises r
      then counted later
      else record {
        response = some r;
        cache = if is_cacheable url then (url, r.content) ∷ cache else cache;
        requests = 1;
      }

  unfoldable pub get_from : ℕ → ℕ → String → Cache → Got
  unfolding after_reply
  get_from zero attempt url cache = record { response = none; cache = cache; requests = 0 }
  get_from (suc left) attempt url cache =
      after_reply url cache (reply url attempt) (get_from left (suc attempt) url cache)

  -- `_get`, with MAX_RETRIES attempts
  unfoldable pub get : String → Cache → Got
  unfolding is_cacheable get_from
  get url cache =
      if is_cacheable url
      then (elim (cached url cache) [
        | none ↦ get_from 3 0 url cache
        | some content ↦ record {
          response = some (from_cache content);
          cache = cache;
          requests = 0;
        }
      ])
      else get_from 3 0 url cache
