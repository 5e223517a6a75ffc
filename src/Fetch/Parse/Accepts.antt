-- ===== src/Fetch/Parse/Accepts.antt =====
-- What every target is like that `_parse`, python/pydeno/tools/http_fetch.py, makes of a URL.
use pydeno.Prelude.{
  ℕ, ◌<◌, ◌≡◌, refl, sym, ap, ◌∙◌, subst, Bool, true, false, not, ◌&&◌, ◌||◌, Option, none, some,
  List, [], ◌∷◌, codes, length, drop, is_empty, same, ltb, leb, ◌==◌, if◌then◌else◌, arith,
  Bool-cases, inl, inr,
}
use pydeno.Pool.Numbers.{int}
use pydeno.Fetch.Target.{Target, https, slash}
use pydeno.Fetch.Path.{percent, check_path}
use pydeno.Fetch.Loop.{any_of, is_bad_char, is_alpha}
use pydeno.Fetch.Headers.{lower}
use pydeno.Fetch.Parse.{
  and_then, all_of, contains, is_digit, cut_at, cut_scheme, in_any, metadata_names, first_is,
  labels, all_labels, last_label, is_numeric, bad_escape, is_path_char, is_query_char,
  ascii_hostname, hostname, port_text, numeric_host, bracketed, named, authority, port_or_default,
  parts_of, parse_rest, parse_behind, parse_url, parse,
}

and_then-some {ℓ κ} :
    {A : Type ℓ} {B : Type κ} (o : Option A) (f : A → Option B) (b : B)
    → and_then o f ≡ some b
    → (a : A) × (o ≡ some a) × (f a ≡ some b)
and_then-some none f b h = cc
and_then-some (some a) f b h = (a, refl, h)

unless {ℓ} :
    {A : Type ℓ} (b : Bool) (o : Option A) (x : A)
    → (if b then none else o) ≡ some x
    → (b ≡ false) × (o ≡ some x)
unless true o x h = cc
unless false o x h = (refl, h)

only_if {ℓ} :
    {A : Type ℓ} (b : Bool) (o : Option A) (x : A)
    → (if b then o else none) ≡ some x
    → (b ≡ true) × (o ≡ some x)
only_if true o x h = (refl, h)
only_if false o x h = cc

of_some {ℓ} : {A : Type ℓ} (x y : A) → some x ≡ some y → x ≡ y
of_some x y h = ap (λ o. elim o [ none ↦ x | some z ↦ z ]) h

both : (a b : Bool) → (a && b) ≡ true → (a ≡ true) × (b ≡ true)
both a b h = ground arith

-- A port that was written is in range.
abbrev InRange : Option ℕ → Type 0
InRange none = Unit
InRange (some n) = (0 < n) × (n < 65536)

-- A host that is a name is no name of a cloud's metadata service.
abbrev NoMetadata : List ℕ × Bool → Type 0
NoMetadata (host, is_ip) = is_ip ≡ false → in_any host metadata_names ≡ false

-- The target's scheme is one of those given and http or https, its port is in range, its host is no
-- name of a metadata service, and its path begins with a slash and passes `_check_path`.
pub record Accepted (schemes : List (List ℕ)) (t : Target) : Type 0 where
  pub scheme_given : in_any t.scheme schemes ≡ true
  pub scheme_known : in_any t.scheme (codes "http" ∷ https ∷ []) ≡ true
  pub port_in_range : (0 < t.port) × (t.port < 65536)
  pub no_metadata : t.is_ip ≡ false → in_any t.host metadata_names ≡ false
  pub absolute : first_is slash t.path ≡ true
  pub checked : check_path t.path ≡ true

range_of_default :
    (scheme : List ℕ) (port : Option ℕ)
    → InRange port
    → (0 < port_or_default port scheme) × (port_or_default port scheme < 65536)
range_of_default scheme (some n) h = h
range_of_default scheme none h = elim (Bool-cases (same scheme https)) [
  | inl e ↦ rw e (omega arith, omega arith)
  | inr e ↦ rw e (omega arith, omega arith)
]

module _ (ipv4 ipv6 idna : List ℕ → Option (List ℕ)) where
  port_text-InRange :
      (text : List ℕ) (port : Option ℕ) → port_text ipv4 ipv6 idna text ≡ some port → InRange port
  unfolding port_text
  port_text-InRange [] port h = subst InRange (of_some none port h) tt
  port_text-InRange (c ∷ ds) port h =
      let (valid, e) =
        only_if
          (c == 58
            && leb 1 (length ds)
            && leb (length ds) 5
            && all_of is_digit ds
            && ltb 0 (int ds)
            && ltb (int ds) 65536)
          (some (some (int ds))) port h in
      subst InRange (of_some (some (int ds)) port e) (ground (arith, valid), ground (arith, valid))

  ascii_hostname-no_metadata :
      (raw host : List ℕ)
      → ascii_hostname ipv4 ipv6 idna raw ≡ some host
      → in_any host metadata_names ≡ false
  unfolding ascii_hostname
  ascii_hostname-no_metadata raw host h =
      let (_, rest) =
        unless (ltb 253 (length (lower raw)) || not (all_labels (labels (lower raw)))) _ host h in
      let (ok_name, e) = unless (in_any (lower raw) metadata_names) (some (lower raw)) host rest in
      subst (λ x. in_any x metadata_names ≡ false) (of_some (lower raw) host e) ok_name

  hostname-no_metadata :
      (raw host : List ℕ)
      → hostname ipv4 ipv6 idna raw ≡ some host
      → in_any host metadata_names ≡ false
  unfolding hostname
  hostname-no_metadata raw host h =
      let (_, rest) = unless (is_empty raw || contains percent raw) _ host h in
      elim (Bool-cases (any_of (λ c. leb 128 c) raw)) [
        | inl wide ↦
            let (ascii, _, e) =
              and_then-some (idna raw) (ascii_hostname ipv4 ipv6 idna) host (rw wide at rest) in
            ascii_hostname-no_metadata ascii host e
        | inr narrow ↦ ascii_hostname-no_metadata raw host (rw narrow at rest)
      ]

  numeric_host-same :
      (host : List ℕ) (r : List ℕ × Bool) → numeric_host ipv4 ipv6 idna host ≡ some r → r.0 ≡ host
  unfolding numeric_host
  numeric_host-same host r h = elim (Bool-cases (is_numeric (last_label (labels host)))) [
    | inl number ↦
        let (canonical, _, e) =
          and_then-some (ipv4 host) (λ c. if same c host then some (host, true) else none) r
            (rw number at h) in
        let (_, f) = only_if (same canonical host) (some (host, true)) r e in
        sym (ap (λ p. p.0) (of_some (host, true) r f))
    | inr name ↦ sym (ap (λ p. p.0) (of_some (host, false) r (rw name at h)))
  ]

  named-NoMetadata :
      (text : List ℕ) (r : (List ℕ × Bool) × List ℕ)
      → named ipv4 ipv6 idna text ≡ some r
      → NoMetadata r.0
  unfolding named
  named-NoMetadata text r h =
      let (host, is_host, rest) =
        and_then-some (hostname ipv4 ipv6 idna (cut_at (λ c. c == 58) text).0) _ r h in
      let (n, is_number, e) =
        and_then-some (numeric_host ipv4 ipv6 idna host)
          (λ q. some (q, (cut_at (λ c. c == 58) text).1)) r rest in
      let same_host : r.0.0 ≡ host =
        ap (λ p. p.0.0) (sym (of_some (n, (cut_at (λ c. c == 58) text).1) r e))
        ∙ numeric_host-same host n is_number in
      λ _.
        ap (λ x. in_any x metadata_names) same_host
        ∙ hostname-no_metadata (cut_at (λ c. c == 58) text).0 host is_host

  bracketed-NoMetadata :
      (text : List ℕ) (r : (List ℕ × Bool) × List ℕ)
      → bracketed ipv4 ipv6 idna text ≡ some r
      → NoMetadata r.0
  unfolding bracketed
  bracketed-NoMetadata text r h =
      let (_, rest) =
        unless
          (is_empty (cut_at (λ c. c == 93) text).1
            || contains percent (cut_at (λ c. c == 93) text).0)
          _ r h in
      let (host, _, e) =
        and_then-some (ipv6 (cut_at (λ c. c == 93) text).0)
          (λ q. some ((q, true), drop 1 (cut_at (λ c. c == 93) text).1)) r rest in
      let is_address : r.0.1 ≡ true =
        sym (ap (λ p. p.0.1) (of_some ((host, true), drop 1 (cut_at (λ c. c == 93) text).1) r e)) in
      λ name. cc

  authority-NoMetadata :
      (text : List ℕ) (r : (List ℕ × Bool) × Option ℕ)
      → authority ipv4 ipv6 idna text ≡ some r
      → NoMetadata r.0 × InRange r.1
  unfolding authority
  authority-NoMetadata text r h =
      let (_, rest) = unless (contains 64 text) _ r h in
      let (p, is_host, more) =
        and_then-some
          (if first_is 91 text
            then bracketed ipv4 ipv6 idna (drop 1 text)
            else named ipv4 ipv6 idna text)
          _ r rest in
      let (port, is_port, e) =
        and_then-some (port_text ipv4 ipv6 idna p.1) (λ q. some (p.0, q)) r more in
      subst (λ q. NoMetadata q.0 × InRange q.1) (of_some (p.0, port) r e)
        (host p is_host, port_text-InRange p.1 port is_port)
    where
      host :
          (p : (List ℕ × Bool) × List ℕ)
          → (if first_is 91 text
              then bracketed ipv4 ipv6 idna (drop 1 text)
              else named ipv4 ipv6 idna text)
            ≡ some p
          → NoMetadata p.0
      host p e = elim (Bool-cases (first_is 91 text)) [
        | inl bracket ↦ bracketed-NoMetadata (drop 1 text) p (rw bracket at e)
        | inr name ↦ named-NoMetadata text p (rw name at e)
      ]

  parse_rest-Accepted :
      (schemes : List (List ℕ)) (scheme : List ℕ) (a : (List ℕ × Bool) × Option ℕ)
      (path query : List ℕ) (t : Target) (x : Bool)
      → in_any scheme schemes ≡ true
      → in_any scheme (codes "http" ∷ https ∷ []) ≡ true
      → NoMetadata a.0
      → InRange a.1
      → parse_rest ipv4 ipv6 idna scheme a path query ≡ some (t, x)
      → Accepted schemes t
  unfolding parse_rest
  parse_rest-Accepted schemes scheme a path query t x given known name port h =
      let (shape, h₁) = unless (not (first_is slash path && all_of is_path_char path)) _ (t, x) h in
      let (_, h₂) = unless (not (all_of is_query_char query)) _ (t, x) h₁ in
      let (_, h₃) = unless (bad_escape path || bad_escape query) _ (t, x) h₂ in
      let (good, h₄) = unless (not (check_path path)) _ (t, x) h₃ in
      subst (λ q. Accepted schemes q.0) (of_some _ (t, x) h₄)
        (record {
          scheme_given = given;
          scheme_known = known;
          port_in_range = range_of_default scheme a.1 port;
          no_metadata = name;
          absolute = ground (arith, shape);
          checked = ground (arith, good);
        })

  parse_behind-Accepted :
      (schemes : List (List ℕ)) (scheme text : List ℕ) (t : Target) (x : Bool)
      → in_any scheme schemes ≡ true
      → in_any scheme (codes "http" ∷ https ∷ []) ≡ true
      → parse_behind ipv4 ipv6 idna scheme text ≡ some (t, x)
      → Accepted schemes t
  unfolding parse_behind
  parse_behind-Accepted schemes scheme text t x given known h =
      let (a, is_authority, more) =
        and_then-some (authority ipv4 ipv6 idna (cut_at (λ c. contains c (codes "/?#")) text).0) _
          (t, x) h in
      let (name, port) =
        authority-NoMetadata (cut_at (λ c. contains c (codes "/?#")) text).0 a is_authority in
      let (_, rest) =
        unless
          (any_of (λ c. leb 128 c)
            (cut_at (λ c. c == 35) (cut_at (λ c. contains c (codes "/?#")) text).1).0)
          _ (t, x) more in
      parse_rest-Accepted schemes scheme a
        (parts_of ipv4 ipv6 idna
          (cut_at (λ c. c == 35) (cut_at (λ c. contains c (codes "/?#")) text).1).0).0
        (parts_of ipv4 ipv6 idna
          (cut_at (λ c. c == 35) (cut_at (λ c. contains c (codes "/?#")) text).1).0).1
        t x given known name port rest

  parse_url-Accepted :
      (schemes : List (List ℕ)) (url : List ℕ) (t : Target) (x : Bool)
      → parse_url ipv4 ipv6 idna schemes url ≡ some (t, x)
      → Accepted schemes t
  unfolding parse_url
  parse_url-Accepted schemes [] t x h = cc
  parse_url-Accepted schemes (c ∷ cs) t x h =
      let (_, more) = only_if (is_alpha c) _ (t, x) h in
      let (s, _, rest) = and_then-some (cut_scheme cs) _ (t, x) more in
      let (listed, e) =
        only_if
          (in_any (lower (c ∷ s.0)) schemes && in_any (lower (c ∷ s.0)) (codes "http" ∷ https ∷ []))
          _ (t, x) rest in
      let (given, known) =
        both (in_any (lower (c ∷ s.0)) schemes)
          (in_any (lower (c ∷ s.0)) (codes "http" ∷ https ∷ [])) listed in
      parse_behind-Accepted schemes (lower (c ∷ s.0)) s.1 t x given known e

  -- Every target that `_parse` makes of a URL has one of the schemes given, http or https, a port from
  -- 1 to 65535, a path that begins with a slash and passes `_check_path`, and no metadata service's
  -- name as its host, unless the host is an address.
  pub parse-Accepted :
      (schemes : List (List ℕ)) (max_length : ℕ) (url : List ℕ) (t : Target) (x : Bool)
      → parse ipv4 ipv6 idna schemes max_length url ≡ some (t, x)
      → Accepted schemes t
  unfolding parse
  parse-Accepted schemes max_length url t x h =
      let (_, h₁) = unless (ltb max_length (length url)) _ (t, x) h in
      let (_, h₂) = unless (any_of is_bad_char url) _ (t, x) h₁ in
      parse_url-Accepted schemes url t x h₂
