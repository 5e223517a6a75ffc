-- ===== src/Fetch/Parse.antt =====
-- `_parse`, `_authority`, `_hostname` and `_entry` of python/pydeno/tools/http_fetch.py; none is where
-- they raise. Of the standard library's address parsers and of its IDNA codec only the result is used:
-- `ipv4` and `ipv6` give the canonical text of an address, `idna` the ASCII form of a host name.
pub mod Accepts
use pydeno.Prelude.{
  ℕ, zero, suc, Bool, true, false, not, ◌&&◌, ◌||◌, Option, none, some, List, [], ◌∷◌, ◌++◌, codes,
  length, drop, is_empty, same, starts_with, ltb, leb, ◌==◌, if◌then◌else◌, ◌+◌,
}
use pydeno.Pool.Numbers.{int}
use pydeno.Fetch.Target.{Target, AllowEntry, https, default_port, slash}
use pydeno.Fetch.Path.{percent, hex_digit, check_path}
use pydeno.Fetch.Headers.{lower_char, lower}
use pydeno.Fetch.Loop.{any_of, is_bad_char, is_alpha, is_scheme_char}

abbrev pub and_then {ℓ κ} : {A : Type ℓ} {B : Type κ} → Option A → (A → Option B) → Option B
and_then none f = none
and_then (some a) f = f a

abbrev pub all_of : (ℕ → Bool) → List ℕ → Bool
all_of p [] = true
all_of p (c ∷ cs) = p c && all_of p cs

abbrev pub contains : ℕ → List ℕ → Bool
contains c text = any_of (λ d. c == d) text

abbrev pub is_digit : ℕ → Bool
is_digit c = leb 48 c && leb c 57

-- What stands before the first character with a property, and what stands from it on.
unfoldable pub cut_at : (ℕ → Bool) → List ℕ → List ℕ × List ℕ
cut_at p [] = ([], [])
cut_at p (c ∷ cs) =
    let (front, rest) = cut_at p cs in if p c then ([], c ∷ cs) else (c ∷ front, rest)

abbrev pub onto : ℕ → List ℕ × List ℕ → List ℕ × List ℕ
onto c (front, rest) = (c ∷ front, rest)

-- The scheme of `_URL`, behind its first letter, and what stands behind `://`.
unfoldable pub cut_scheme : List ℕ → Option (List ℕ × List ℕ)
cut_scheme [] = none
cut_scheme (c ∷ cs) =
    let rest = cut_scheme cs in
    if starts_with (codes "://") (c ∷ cs)
    then some ([], drop 3 (c ∷ cs))
    else if is_scheme_char c
    then and_then rest (λ r. some (onto c r))
    else none

abbrev pub in_any : List ℕ → List (List ℕ) → Bool
in_any x [] = false
in_any x (y ∷ ys) = same x y || in_any x ys

-- `_METADATA_NAMES`
abbrev pub metadata_names : List (List ℕ)
metadata_names =
    codes "metadata"
    ∷ codes "metadata.google.internal"
    ∷ codes "metadata.goog"
    ∷ codes "metadata.azure.internal"
    ∷ codes "instance-data"
    ∷ codes "instance-data.ec2.internal"
    ∷ []

abbrev pub is_label_char : ℕ → Bool
is_label_char c = leb 97 c && leb c 122 || is_digit c || c == 45

abbrev pub last_is : ℕ → List ℕ → Bool
last_is c [] = false
last_is c (d ∷ []) = c == d
last_is c (d ∷ e ∷ ds) = last_is c (e ∷ ds)

abbrev pub first_is : ℕ → List ℕ → Bool
first_is c [] = false
first_is c (d ∷ ds) = c == d

-- `_LABEL`
abbrev pub is_label : List ℕ → Bool
is_label l =
    leb 1 (length l)
    && leb (length l) 63
    && all_of is_label_char l
    && not (first_is 45 l)
    && not (last_is 45 l)

abbrev pub onto_head : ℕ → List (List ℕ) → List (List ℕ)
onto_head c [] = (c ∷ []) ∷ []
onto_head c (s ∷ ss) = (c ∷ s) ∷ ss

-- `host.split(".")`
unfoldable pub labels : List ℕ → List (List ℕ)
labels [] = [] ∷ []
labels (c ∷ cs) = let rest = labels cs in if c == 46 then [] ∷ rest else onto_head c rest

abbrev pub all_labels : List (List ℕ) → Bool
all_labels [] = true
all_labels (l ∷ ls) = is_label l && all_labels ls

abbrev pub last_label : List (List ℕ) → List ℕ
last_label [] = []
last_label (l ∷ []) = l
last_label (l ∷ m ∷ ls) = last_label (m ∷ ls)

-- `_NUMERIC_LABEL`
abbrev pub is_numeric : List ℕ → Bool
is_numeric l =
    starts_with (codes "0x") l && all_of (λ c. is_digit c || leb 97 c && leb c 102) (drop 2 l)
    || not (is_empty l) && all_of is_digit l

-- `_BAD_ESCAPE`: a percent sign that no two hexadecimal digits follow
unfoldable pub bad_escape : List ℕ → Bool
bad_escape [] = false
bad_escape (c ∷ []) = c == percent
bad_escape (c ∷ a ∷ []) = c == percent || a == percent
bad_escape (c ∷ a ∷ b ∷ rest) =
    c == percent
      && not (elim (hex_digit a) [
        | none ↦ false
        | some _ ↦ elim (hex_digit b) [ none ↦ false | some _ ↦ true ]
      ])
    || bad_escape (a ∷ b ∷ rest)

-- `_PATH_CHARS` and `_QUERY_CHARS`
abbrev pub is_path_char : ℕ → Bool
is_path_char c = is_alpha c || is_digit c || contains c (codes "-._~!$&'()*+,;=:@/%")

abbrev pub is_query_char : ℕ → Bool
is_query_char c = is_path_char c || c == 63

abbrev pub port_or_default : Option ℕ → List ℕ → ℕ
port_or_default none scheme = default_port scheme
port_or_default (some port) scheme = port

module _ (ipv4 ipv6 idna : List ℕ → Option (List ℕ)) where
  -- The host name, once it is ASCII.
  unfoldable pub ascii_hostname : List ℕ → Option (List ℕ)
  unfolding labels
  ascii_hostname raw =
      let host = lower raw in
      if ltb 253 (length host) || not (all_labels (labels host))
      then none
      else if in_any host metadata_names
      then none
      else some host

  -- `_hostname`
  unfoldable pub hostname : List ℕ → Option (List ℕ)
  unfolding ascii_hostname
  hostname raw =
      if is_empty raw || contains percent raw
      then none
      else if any_of (λ c. leb 128 c) raw
      then and_then (idna raw) ascii_hostname
      else ascii_hostname raw

  -- The port behind a host: none is no port, and an answer of none a port that is not valid.
  unfoldable pub port_text : List ℕ → Option (Option ℕ)
  port_text [] = some none
  port_text (c ∷ ds) =
      if c == 58
        && leb 1 (length ds)
        && leb (length ds) 5
        && all_of is_digit ds
        && ltb 0 (int ds)
        && ltb (int ds) 65536
      then some (some (int ds))
      else none

  -- A host that ends in a number is an address in its canonical form, or is refused.
  unfoldable pub numeric_host : List ℕ → Option (List ℕ × Bool)
  unfolding labels
  numeric_host host =
      if is_numeric (last_label (labels host))
      then and_then (ipv4 host)
          (λ canonical. if same canonical host then some (host, true) else none)
      else some (host, false)

  -- The literal in brackets, from behind the first one
  unfoldable pub bracketed : List ℕ → Option ((List ℕ × Bool) × List ℕ)
  unfolding cut_at
  bracketed text =
      let (literal, closing) = cut_at (λ c. c == 93) text in
      if is_empty closing || contains percent literal
      then none
      else and_then (ipv6 literal) (λ host. some ((host, true), drop 1 closing))

  unfoldable pub named : List ℕ → Option ((List ℕ × Bool) × List ℕ)
  unfolding cut_at hostname numeric_host
  named authority =
      let (raw, after) = cut_at (λ c. c == 58) authority in
      and_then (hostname raw) (λ host. and_then (numeric_host host) (λ h. some (h, after)))

  -- `_authority`: the host, whether it is an address, and the port
  unfoldable pub authority : List ℕ → Option ((List ℕ × Bool) × Option ℕ)
  unfolding bracketed named port_text
  authority text =
      if contains 64 text
      then none
      else and_then (if first_is 91 text then bracketed (drop 1 text) else named text)
          (λ h. and_then (port_text h.1) (λ port. some (h.0, port)))

  -- The path, `/` for an empty one, and the query, behind the authority.
  unfoldable pub parts_of : List ℕ → List ℕ × List ℕ
  unfolding cut_at
  parts_of rest =
      let (path, query) = cut_at (λ c. c == 63) rest in
      ((if is_empty path then slash ∷ [] else path), drop 1 query)

  -- The target, and whether the port was written.
  unfoldable pub parse_rest :
      List ℕ → (List ℕ × Bool) × Option ℕ → List ℕ → List ℕ → Option (Target × Bool)
  unfolding bad_escape
  parse_rest scheme h path query =
      if not (first_is slash path && all_of is_path_char path)
      then none
      else if not (all_of is_query_char query)
      then none
      else if bad_escape path || bad_escape query
      then none
      else if not (check_path path)
      then none
      else some (
        record {
          scheme = scheme;
          host = h.0.0;
          port = port_or_default h.1 scheme;
          path = path;
          query = query;
          is_ip = h.0.1;
        },
        elim h.1 [ none ↦ false | some _ ↦ true ],
      )

  -- Behind the scheme
  unfoldable pub parse_behind : List ℕ → List ℕ → Option (Target × Bool)
  unfolding cut_at authority parts_of parse_rest
  parse_behind scheme text =
      let (text_of_authority, behind) = cut_at (λ c. contains c (codes "/?#")) text in
      let rest = (cut_at (λ c. c == 35) behind).0 in
      and_then (authority text_of_authority) (λ h.
        if any_of (λ c. leb 128 c) rest
        then none
        else parse_rest scheme h (parts_of rest).0 (parts_of rest).1)

  unfoldable pub parse_url : List (List ℕ) → List ℕ → Option (Target × Bool)
  unfolding cut_scheme parse_behind
  parse_url schemes [] = none
  parse_url schemes (c ∷ cs) =
      if is_alpha c
      then and_then (cut_scheme cs) (λ s.
        if in_any (lower (c ∷ s.0)) schemes && in_any (lower (c ∷ s.0)) (codes "http" ∷ https ∷ [])
        then parse_behind (lower (c ∷ s.0)) s.1
        else none)
      else none

  -- `_parse` of a string
  unfoldable pub parse : List (List ℕ) → ℕ → List ℕ → Option (Target × Bool)
  unfolding parse_url
  parse schemes max_length url =
      if ltb max_length (length url)
      then none
      else if any_of is_bad_char url
      then none
      else parse_url schemes url

  -- `"://" in spec`
  unfoldable pub has_scheme : List ℕ → Bool
  has_scheme [] = false
  has_scheme (c ∷ cs) = starts_with (codes "://") (c ∷ cs) || has_scheme cs

  abbrev pub entry_of : Bool → Target × Bool → Option AllowEntry
  entry_of explicit (t, explicit_port) =
      if not (is_empty t.query)
      then none
      else some (record {
        scheme = if explicit then some t.scheme else none;
        host = t.host;
        port = if explicit_port then some t.port else none;
        prefix = t.path;
      })

  -- `_entry` of a string that is not empty
  unfoldable pub allow_entry : List ℕ → Option AllowEntry
  unfolding parse has_scheme
  allow_entry spec =
      and_then
        (parse (codes "http" ∷ https ∷ []) 2048
          (if has_scheme spec then spec else codes "https://" ++ spec))
        (entry_of (has_scheme spec))
