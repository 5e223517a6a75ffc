-- ===== src/Fetch/Headers.antt =====
-- The headers of a request in python/pydeno/tools/http_fetch.py: `_check_headers`, which makes those of
-- the tool, and `_transport_headers`. A name and a value are texts; what is no text raises a ValueError
-- as an invalid one does.
use pydeno.Prelude.{
  ℕ, ◌+◌, ◌≡◌, refl, ap, subst, Bool, true, false, not, ◌&&◌, ◌||◌, Option, none, some, List, [],
  ◌∷◌, ◌++◌, String, codes, is_empty, same, leb, ◌==◌, if◌then◌else◌, if_both, arith, All,
  Bool-cases, inl, inr,
}

-- `text.lower()`, of ASCII text
abbrev pub lower_char : ℕ → ℕ
lower_char c = if leb 65 c && leb c 90 then c + 32 else c

abbrev pub lower : List ℕ → List ℕ
lower [] = []
lower (c ∷ cs) = lower_char c ∷ lower cs

abbrev pub Header : Type 0
Header = List ℕ × List ℕ

abbrev pub Headers : Type 0
Headers = List Header

abbrev pub among : List ℕ → List String → Bool
among name [] = false
among name (other ∷ names) = same name (codes other) || among name names

-- `_RESERVED_REQUEST_HEADERS`
abbrev pub reserved_request_headers : List String
reserved_request_headers =
    "host" ∷ "content-length" ∷ "transfer-encoding" ∷ "connection" ∷ "accept-encoding" ∷ "te"
    ∷ "upgrade" ∷ "trailer" ∷ "keep-alive" ∷ "proxy-connection" ∷ []

abbrev pub is_among : ℕ → List ℕ → Bool
is_among c [] = false
is_among c (d ∷ ds) = c == d || is_among c ds

-- `[!#$%&'*+\-.^_`|~0-9A-Za-z]`
abbrev pub is_token_char : ℕ → Bool
is_token_char c =
    leb 48 c && leb c 57
    || leb 65 c && leb c 90
    || leb 97 c && leb c 122
    || is_among c (codes "!#$%&'*+-.^_`|~")

abbrev pub all_chars : (ℕ → Bool) → List ℕ → Bool
all_chars p [] = true
all_chars p (c ∷ cs) = p c && all_chars p cs

-- `_TOKEN.fullmatch` and `_HEADER_VALUE.fullmatch`
abbrev pub is_token : List ℕ → Bool
is_token name = not (is_empty name) && all_chars is_token_char name

abbrev pub is_header_value : List ℕ → Bool
is_header_value value = all_chars (λ c. c == 9 || leb 32 c && leb c 126) value

abbrev pub user_agent : List ℕ
user_agent = codes "user-agent"

abbrev pub accept_identity : Header
accept_identity = (codes "Accept-Encoding", codes "identity")

abbrev pub connection_close : Header
connection_close = (codes "Connection", codes "close")

-- `fixed`: the header for the user agent, which one of the caller's replaces, and those behind the three
-- that every request has.
pub record Fixed : Type 0 where
  pub agent : Header
  pub own : Headers

-- One round of the loop of `_check_headers`
abbrev pub is_valid : Header → Bool
is_valid (name, value) =
    is_token name && (not (among (lower name) reserved_request_headers) && is_header_value value)

abbrev pub fix : Header → Fixed → Fixed
fix h f =
    if same (lower h.0) user_agent
    then record f { agent = h }
    else record f { own = f.own ++ h ∷ [] }

unfoldable pub fix_all : Headers → Fixed → Option Fixed
fix_all [] f = some f
fix_all (h ∷ hs) f = let rest = fix_all hs (fix h f) in if is_valid h then rest else none

abbrev pub headers_of : Fixed → Headers
headers_of f = f.agent ∷ accept_identity ∷ connection_close ∷ f.own

-- `_check_headers`, none where it raises
unfoldable pub check_headers : Headers → List ℕ → Option Fixed
unfolding fix_all
check_headers headers agent =
    fix_all headers (record { agent = (codes "User-Agent", agent); own = [] })

-- `n.lower() in ("user-agent", "accept-encoding", "connection")`
abbrev pub is_transport : Header → Bool
is_transport h = among (lower h.0) ("user-agent" ∷ "accept-encoding" ∷ "connection" ∷ [])

-- `_transport_headers`
unfoldable pub transport_headers : Headers → Headers
transport_headers [] = []
transport_headers (h ∷ hs) =
    let rest = transport_headers hs in if is_transport h then h ∷ rest else rest

-- The headers that `_check_headers` makes: one for the user agent, and behind the three that every request
-- has none that is among them.
abbrev pub IsFixed : Fixed → Type 0
IsFixed f = (is_transport f.agent ≡ true) × All (λ h. is_transport h ≡ false) f.own

not_reserved :
    (h : Header) → is_valid h ≡ true → same (lower h.0) user_agent ≡ false → is_transport h ≡ false
not_reserved h v u = ground arith

All-last :
    (hs : Headers) (h : Header)
    → All (λ h. is_transport h ≡ false) hs
    → is_transport h ≡ false
    → All (λ h. is_transport h ≡ false) (hs ++ h ∷ [])
All-last [] h a b = (b, tt)
All-last (x ∷ xs) h a b = (a.0, All-last xs h a.1 b)

fix-IsFixed : (h : Header) (f : Fixed) → is_valid h ≡ true → IsFixed f → IsFixed (fix h f)
fix-IsFixed h f v i =
    if_both IsFixed (same (lower h.0) user_agent) _ _ (λ u. (ground (arith, u), i.1))
      (λ u. (i.0, All-last f.own h i.1 (not_reserved h v u)))

fix_all-IsFixed : (hs : Headers) (f g : Fixed) → IsFixed f → fix_all hs f ≡ some g → IsFixed g
unfolding fix_all
fix_all-IsFixed [] f g i e = subst IsFixed (ap (λ o. elim o [ none ↦ f | some x ↦ x ]) e) i
fix_all-IsFixed (h ∷ hs) f g i e = elim (Bool-cases (is_valid h)) [
  | inl v ↦ fix_all-IsFixed hs (fix h f) g (fix-IsFixed h f v i) (rw v at e)
  | inr v ↦ absurd (cc (rw v at e))
]

no_transport : (hs : Headers) → All (λ h. is_transport h ≡ false) hs → transport_headers hs ≡ []
unfolding transport_headers
no_transport [] a = refl
no_transport (h ∷ hs) a = rw (a.0) (no_transport hs a.1)

-- Of the headers of a tool, those that go to another origin are the three that every request has.
pub transport_headers-check_headers :
    (given : Headers) (agent : List ℕ) (f : Fixed)
    → check_headers given agent ≡ some f
    → transport_headers (headers_of f) ≡ f.agent ∷ accept_identity ∷ connection_close ∷ []
unfolding transport_headers check_headers same
transport_headers-check_headers given agent f e =
    let i = fix_all-IsFixed given _ f (refl, tt) e in
    rw (i.0) (ap (λ hs. f.agent ∷ accept_identity ∷ connection_close ∷ hs) (no_transport f.own i.1))
