-- ===== src/Fetch/Loop.antt =====
-- The redirect loop of `HttpFetch`, python/pydeno/tools/http_fetch.py: `__call__`, `_target` and
-- `_redirect`.
--
-- `parse` is `_parse` with the tool's schemes and length, none where it raises, and `urljoin` that of
-- the standard library. What the network does is `reply`: how the request of each hop ends.
pub mod Confined
use pydeno.Prelude.{
  ℕ, zero, suc, ◌≡◌, Bool, true, false, not, ◌&&◌, ◌||◌, Option, none, some, List, [], ◌∷◌, ◌++◌,
  Result, ok, err, codes, is_empty, same, starts_with, ltb, leb, ◌==◌, if◌then◌else◌,
}
use pydeno.Pool.Numbers.{digits}
use pydeno.Fetch.Target.{Target, AllowEntry, https, default_port, same_origin, any_matches}
use pydeno.Fetch.Path.{check_path}
use pydeno.Fetch.Headers.{Headers, transport_headers}

-- `redirects=`
pub data Redirects : Type 0 where
  never same_origin_only allowed : Redirects

-- How a request ends: with an exception, or with a response, and where it redirects to.
pub data Reply : Type 0 where
  error : Reply
  response : Option (List ℕ) → Reply

pub data Blocked : Type 0 where
  request_error blocked : Blocked

abbrev pub any_of : (ℕ → Bool) → List ℕ → Bool
any_of p [] = false
any_of p (c ∷ cs) = p c || any_of p cs

-- `_BAD_CHARS`
abbrev pub is_bad_char : ℕ → Bool
is_bad_char c = leb c 32 || c == 127 || any_of (λ d. c == d) (codes "\\\"<>`{|}^")

abbrev pub is_alpha : ℕ → Bool
is_alpha c = leb 65 c && leb c 90 || leb 97 c && leb c 122

abbrev pub is_scheme_char : ℕ → Bool
is_scheme_char c = is_alpha c || leb 48 c && leb c 57 || any_of (λ d. c == d) (codes "+.-")

unfoldable pub scheme_goes_on : List ℕ → Bool
scheme_goes_on [] = false
scheme_goes_on (c ∷ cs) =
    starts_with (codes "://") (c ∷ cs) || is_scheme_char c && scheme_goes_on cs

-- `_URL.fullmatch`: behind the scheme any text fits.
unfoldable pub is_url : List ℕ → Bool
unfolding scheme_goes_on
is_url [] = false
is_url (c ∷ cs) = is_alpha c && scheme_goes_on cs

-- `re.split(r"[?#]", location, maxsplit=1)[0]`
unfoldable pub path_part : List ℕ → List ℕ
path_part [] = []
path_part (c ∷ cs) = let rest = path_part cs in if c == 63 || c == 35 then [] else c ∷ rest

-- `netloc`
unfoldable pub netloc : Target → List ℕ
netloc t =
    let host = if any_of (λ c. c == 58) t.host then 91 ∷ (t.host ++ 93 ∷ []) else t.host in
    if t.port == default_port t.scheme then host else host ++ 58 ∷ digits t.port

-- `url`
unfoldable pub url : Target → List ℕ
unfolding netloc
url t =
    t.scheme
    ++ (codes "://" ++ (netloc t ++ (if is_empty t.query then t.path else t.path ++ 63 ∷ t.query)))

module _ (parse : List ℕ → Option Target) (urljoin : List ℕ → List ℕ → List ℕ)
    (entries : List AllowEntry) where
  abbrev pub listed : Option Target → Option Target
  listed none = none
  listed (some t) = if any_matches entries t then some t else none

  -- `_target`
  unfoldable pub target : List ℕ → Option Target
  target text = listed (parse text)

  -- The location that goes to the parser; none where the check of a relative path raises.
  unfoldable pub joined : Target → List ℕ → Option (List ℕ)
  unfolding url path_part is_url
  joined current location =
      if any_of is_bad_char location || any_of (λ c. leb 128 c) location
      then some location
      else if is_url location
          || starts_with (codes "//") location
          || check_path (path_part location)
      then some (urljoin (url current) location)
      else none

  abbrev pub is_same_only : Redirects → Bool
  is_same_only same_origin_only = true
  is_same_only _ = false

  -- The two tests on the new target
  abbrev pub admitted : Redirects → Target → Target → Option Target → Option Target
  admitted redirects current origin none = none
  admitted redirects current origin (some new) =
      if same current.scheme https && not (same new.scheme https)
      then none
      else if is_same_only redirects && not (same_origin new origin)
      then none
      else some new

  abbrev pub targeted : Option (List ℕ) → Option Target
  targeted none = none
  targeted (some location) = target location

  -- `_redirect`
  unfoldable pub redirect : Redirects → Target → Target → List ℕ → Option Target
  unfolding target joined
  redirect redirects current origin location =
      admitted redirects current origin (targeted (joined current location))

  -- A request that was made: its target, and the headers that it carried.
  pub record Request : Type 0 where
    pub to : Target
    pub headers : Headers

  abbrev pub Fetched : Type 0
  Fetched = List Request × Result Blocked (Unit {0})

  abbrev pub then_fetch : Request → Fetched → Fetched
  then_fetch r (made, result) = (r ∷ made, result)

  -- How the loop goes on behind a request; `again` is the rest of the loop, none where no hop is left.
  abbrev pub follow :
      Redirects → Target → Target → Request → Reply → Option (Target → Fetched) → Fetched
  follow redirects current origin r error again = (r ∷ [], err request_error)
  follow redirects current origin r (response none) again = (r ∷ [], ok tt)
  follow redirects current origin r (response (some location)) none = (r ∷ [], err blocked)
  follow redirects current origin r (response (some location)) (some again) =
      then_fetch r (elim (redirect redirects current origin location) [
        | none ↦ ([], err blocked)
        | some new ↦ again new
      ])

  -- What `_request` gives of a reply: no location where redirects are not followed.
  abbrev pub heard : Redirects → Reply → Reply
  heard never (response location) = response none
  heard _ r = r

  -- `fixed`: the headers of the tool, `_headers`, or of those what goes to any origin.
  abbrev pub fixed : Headers → Target → Target → Headers
  fixed headers current origin =
      if same_origin current origin then headers else transport_headers headers

  -- The loop of `__call__` with `left` redirects to go
  unfoldable pub fetch_loop : Headers → (ℕ → Reply) → Redirects → ℕ → Target → Target → Fetched
  fetch_loop headers reply redirects zero origin current =
      follow redirects current origin
        (record { to = current; headers = fixed headers current origin })
        (heard redirects (reply zero)) none
  fetch_loop headers reply redirects (suc left) origin current =
      follow redirects current origin
        (record { to = current; headers = fixed headers current origin })
        (heard redirects (reply (suc left))) (some (fetch_loop headers reply redirects left origin))

  abbrev pub fetch_from : Headers → (ℕ → Reply) → Redirects → ℕ → Option Target → Fetched
  fetch_from headers reply redirects max_redirects none = ([], err blocked)
  fetch_from headers reply redirects max_redirects (some t) =
      fetch_loop headers reply redirects max_redirects t t

  -- `__call__`
  unfoldable pub fetch : Headers → (ℕ → Reply) → Redirects → ℕ → List ℕ → Fetched
  unfolding target fetch_loop
  fetch headers reply redirects max_redirects text =
      fetch_from headers reply redirects max_redirects (target text)
