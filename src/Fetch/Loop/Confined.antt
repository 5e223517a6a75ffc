-- ===== src/Fetch/Loop/Confined.antt =====
-- Where the requests of `HttpFetch`, python/pydeno/tools/http_fetch.py, can go.
use pydeno.Prelude.{
  ℕ, suc, ◌≤◌, ◌≡◌, true, false, Option, none, some, List, [], ◌∷◌, All, length, same,
}
use pydeno.Fetch.Target.{Target, AllowEntry, https, same_origin, any_matches}
use pydeno.Fetch.Headers.{Headers, Fixed, headers_of, accept_identity, connection_close}
use pydeno.Fetch.Loop.{Redirects, Reply, Request, Fetched, is_same_only, fetch_from}

module _ (parse : List ℕ → Option Target) (urljoin : List ℕ → List ℕ → List ℕ)
    (entries : List AllowEntry) where
  -- A target that the loop may go to, when it began at `origin`.
  abbrev pub MayGo : Redirects → Target → Target → Type 0
  MayGo redirects origin t =
      (any_matches entries t ≡ true)
      × (same origin.scheme https ≡ true → same t.scheme https ≡ true)
      × (is_same_only parse urljoin entries redirects ≡ true → same_origin t origin ≡ true)

  abbrev pub IsConfined : Redirects → Fixed → Target → Request parse urljoin entries → Type 0
  IsConfined redirects f origin r =
      MayGo redirects origin r.to
      × (same_origin r.to origin ≡ true → r.headers ≡ headers_of f)
      × (same_origin r.to origin ≡ false
          → r.headers ≡ f.agent ∷ accept_identity ∷ connection_close ∷ [])

  abbrev Matched : Option Target → Type 0
  Matched none = Unit
  Matched (some t) = any_matches entries t ≡ true

  abbrev MayGoTo : Redirects → Target → Option Target → Type 0
  MayGoTo redirects origin none = Unit
  MayGoTo redirects origin (some t) = MayGo redirects origin t

  abbrev AllConfined : Redirects → Fixed → Target → ℕ → Fetched parse urljoin entries → Type 0
  AllConfined redirects f origin most (made, result) =
      All (IsConfined redirects f origin) made × (length made ≤ most)

  Calls : Fixed → (ℕ → Reply) → Redirects → ℕ → Option Target → Type 0
  Calls f reply redirects max_redirects o =
      let made =
        (fetch_from parse urljoin entries (headers_of f) reply redirects max_redirects o).0 in
      (length made ≤ suc max_redirects)
      × (o ≡ none → made ≡ [])
      × ((t : Target) → o ≡ some t → All (IsConfined redirects f t) made)
