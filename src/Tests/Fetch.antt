-- ===== src/Tests/Fetch.antt =====
-- The HTTP tool: python/pydeno/tools/http_fetch.py at concrete inputs.
use pydeno.Prelude.{
  ◌||◌, ◌+◌, ℕ, zero, suc, ◌≡◌, inr, refl, Bool, true, false, none, some, Option, List, [], ◌∷◌,
  ◌++◌, codes, length, same, starts_with,
}
use pydeno.Fetch.Target.{Target, AllowEntry, https, same_origin, any_matches, matches}
use pydeno.Fetch.Path.{has_escape, unquote, split, check_path}
use pydeno.Fetch.Path.Resolves.{decode_all, resolve, resolve-check_path}
use pydeno.Fetch.Headers.{Headers, Fixed, headers_of}
use pydeno.Fetch.Loop.{allowed, Reply, response, error, fetch, is_url, redirect, path_part, url}
use pydeno.Pool.Numbers.{int}
use pydeno.Fetch.Parse.{parse}
use pydeno.Fetch.Parse.Accepts.{Accepted, parse-Accepted}
use pydeno.Fetch.Address.{
  v4, v6, quad, groups, is_mapped, is_nat64, is_sixtofour, is_teredo, low, sixtofour, teredo_server,
  teredo_client, refused4, ip_refused,
}
use pydeno.Fetch.Address.Embedded.{ip_refused-v6}
use pydeno.Fetch.Vet.{Lookup, answers, lookup_of, vet}
use pydeno.Fetch.Vet.Vetted.{IsVetted, vet-IsVetted}

abbrev entry : AllowEntry
entry = record { scheme = none; host = codes "api.test"; port = none; prefix = codes "/v1/" }

abbrev at : List ℕ → Target
at path = record {
  scheme = https;
  host = codes "api.test";
  port = 443;
  path = path;
  query = [];
  is_ip = false;
}

paths :
    (matches entry (at (codes "/v1/x")) ≡ true)
    × (matches entry (at (codes "/v1")) ≡ true)
    × (matches entry (at (codes "/v10")) ≡ false)
    × (check_path (codes "/v1/a%2Eb/.x") ≡ true)
    × (check_path (codes "/v1/%2e%2E/admin") ≡ false)
    × (check_path (codes "/v1/..;/admin") ≡ false)
unfolding matches same starts_with check_path has_escape split unquote
paths = (refl, refl, refl, refl, refl, refl)

resolve-check_path_example :
    (resolve [] (decode_all (split (codes "/v1/x"))) ≡ decode_all (split (codes "/v1/x")))
    × ((rest : List (List ℕ)) × (resolve [] (decode_all (split (codes "/v1/x")))
          ≡ decode_all (split (codes "/v1")) ++ rest))
unfolding check_path has_escape split unquote
resolve-check_path_example =
    resolve-check_path (codes "/v1") (codes "/v1/x") refl (inr (codes "x", refl))

-- No host is an address here.
abbrev no_address : List ℕ → Option (List ℕ)
no_address text = none

abbrev web : List (List ℕ)
web = codes "http" ∷ https ∷ []

abbrev parse_url_text : List ℕ → Option (Target × Bool)
parse_url_text text = parse no_address no_address no_address web 2048 text

parsed :
    (parse_url_text (codes "HTTPS://API.test/v1/x?q=1#f")
      ≡ some (record (at (codes "/v1/x")) { query = codes "q=1" }, false))
    × (parse_url_text (codes "http://a.test:8080")
        ≡ some (
          record (at (codes "/")) { scheme = codes "http"; host = codes "a.test"; port = 8080 },
          true,
        ))
    × (parse_url_text (codes "https://u@api.test/") ≡ none)
    × (parse_url_text (codes "https://metadata.google.internal/") ≡ none)
    × (parse_url_text (codes "https://0x7f.1/") ≡ none)
unfolding parse check_path has_escape split unquote int same starts_with
parsed = (refl, refl, refl, refl, refl)

parse-Accepted_example : Accepted web (at (codes "/v1/x"))
unfolding parse check_path has_escape split unquote int same starts_with
parse-Accepted_example =
    parse-Accepted no_address no_address no_address web 2048 (codes "https://api.test/v1/x")
      (at (codes "/v1/x")) false refl

-- A parser that knows every path, and a join that takes the location.
abbrev as_path : List ℕ → Option Target
as_path [] = none
as_path (c ∷ cs) = some (at (c ∷ cs))

abbrev join : List ℕ → List ℕ → List ℕ
join base location = location

-- The first request is redirected beneath the prefix, the second one out of it.
abbrev reply : ℕ → Reply
reply zero = error
reply (suc zero) = response (some (codes "/admin"))
reply (suc (suc n)) = response (some (codes "/v1/y"))

-- A caller's user agent replaces that of the tool.
abbrev given_headers : Headers
given_headers = (codes "user-Agent", codes "me") ∷ (codes "X-Key", codes "secret") ∷ []

abbrev own_headers : Fixed
own_headers = record {
  agent = (codes "user-Agent", codes "me");
  own = (codes "X-Key", codes "secret") ∷ [];
}

two_requests :
    length
      (fetch as_path join (entry ∷ []) (headers_of own_headers) reply allowed 2 (codes "/v1/x")).0
    ≡ 2
unfolding fetch any_matches same starts_with check_path has_escape split unquote is_url redirect
    same_origin path_part url
two_requests = refl

abbrev resolver : List ℕ → ℕ → Lookup
resolver host port = answers (codes "93.184.216.34" ∷ codes "93.184.216.34" ∷ [])

abbrev private_address : List ℕ → Bool
private_address a = starts_with (codes "10.") a

vet-IsVetted_example :
    (found : List (List ℕ)) × (lookup_of resolver (at (codes "/")) ≡ answers found)
    × IsVetted private_address (λ a. a) found (codes "93.184.216.34" ∷ [])
unfolding vet same starts_with
vet-IsVetted_example =
    vet-IsVetted private_address (λ a. a) resolver (at (codes "/")) (codes "93.184.216.34" ∷ [])
      refl

-- The flags of the standard library, left out here, and 8.8.8.0 behind NAT64.
abbrev unmarked : ℕ → Bool
unmarked n = false

addresses :
    (ip_refused unmarked unmarked false (v4 (quad 169 254 0)) ≡ true)
    × (ip_refused unmarked unmarked true (v4 (quad 127 0 0)) ≡ false)
    × (ip_refused unmarked unmarked true (v6 (groups 0x64 0xff9b 0 + quad 127 0 0) false) ≡ true)
    × (ip_refused unmarked unmarked false (v4 (quad 93 184 216)) ≡ false)
unfolding ip_refused
addresses = (refl, refl, refl, refl)

ip_refused-v6_example :
    (false ≡ false)
    × ((is_mapped (groups 0x64 0xff9b 0 + quad 8 8 8)
            || is_nat64 (groups 0x64 0xff9b 0 + quad 8 8 8))
          ≡ true
        → refused4 unmarked unmarked false (low (groups 0x64 0xff9b 0 + quad 8 8 8)) ≡ false)
    × (is_sixtofour (groups 0x64 0xff9b 0 + quad 8 8 8) ≡ true
        → refused4 unmarked unmarked false (sixtofour (groups 0x64 0xff9b 0 + quad 8 8 8)) ≡ false)
    × (is_teredo (groups 0x64 0xff9b 0 + quad 8 8 8) ≡ true
        → (refused4 unmarked unmarked false (teredo_server (groups 0x64 0xff9b 0 + quad 8 8 8))
            || refused4 unmarked unmarked false (teredo_client (groups 0x64 0xff9b 0 + quad 8 8 8)))
          ≡ false)
unfolding ip_refused
ip_refused-v6_example =
    ip_refused-v6 unmarked unmarked false (groups 0x64 0xff9b 0 + quad 8 8 8) false refl
