-- ===== src/Fetch/Target.antt =====
-- `_Target`, and the allow-list's entries with `matches`, of python/pydeno/tools/http_fetch.py.
use pydeno.Prelude.{
  ℕ, ◌≡◌, ◌↔◌, ◌⊎◌, inl, inr, refl, sym, ap, ◌∙◌, Bool, true, false, ◌&&◌, ◌||◌, Option, none, some,
  List, [], ◌∷◌, ◌++◌, append_assoc, codes, length, drop, is_empty, same, same_iff, eq_of_same,
  starts_with, starts_with-append, append_of_starts_with, ◌==◌, ==_iff, if◌then◌else◌, arith,
  Bool-cases,
}

-- `_Target`, without `explicit_port`, which only an entry of the allow-list is made with.
pub record Target : Type 0 where
  pub scheme : List ℕ
  pub host : List ℕ
  pub port : ℕ
  pub path : List ℕ
  pub query : List ℕ
  pub is_ip : Bool

abbrev pub https : List ℕ
https = codes "https"

-- `_DEFAULT_PORTS`; the schemes are http and https.
abbrev pub default_port : List ℕ → ℕ
default_port scheme = if same scheme https then 443 else 80

-- `a.origin == b.origin`
unfoldable pub same_origin : Target → Target → Bool
same_origin a b = same a.scheme b.scheme && same a.host b.host && a.port == b.port

-- `_Entry`
pub record AllowEntry : Type 0 where
  pub scheme : Option (List ℕ)
  pub host : List ℕ
  pub port : Option ℕ
  pub prefix : List ℕ

abbrev pub slash : ℕ
slash = 47

-- `prefix.rstrip("/")`
abbrev pub rstrip : List ℕ → List ℕ
rstrip [] = []
rstrip (c ∷ cs) = let rest = rstrip cs in if is_empty rest && c == slash then [] else c ∷ rest

abbrev pub scheme_fits : Option (List ℕ) → List ℕ → Bool
scheme_fits none scheme = true
scheme_fits (some s) scheme = same s scheme

abbrev pub port_of : Option ℕ → List ℕ → ℕ
port_of none scheme = default_port scheme
port_of (some port) scheme = port

abbrev pub is_beneath : List ℕ → List ℕ → Bool
is_beneath prefix path =
    if same prefix (slash ∷ [])
    then true
    else same path (rstrip prefix) || starts_with (rstrip prefix ++ slash ∷ []) path

-- `matches`
unfoldable pub matches : AllowEntry → Target → Bool
matches e t =
    scheme_fits e.scheme t.scheme
    && same e.host t.host
    && t.port == port_of e.port t.scheme
    && is_beneath e.prefix t.path

unfoldable pub any_matches : List AllowEntry → Target → Bool
unfolding matches
any_matches [] t = false
any_matches (e ∷ es) t = matches e t || any_matches es t

-- The path is the prefix, or goes on behind it at a segment's end.
abbrev pub Beneath : List ℕ → List ℕ → Type 0
Beneath base path = (path ≡ base) ⊎ ((rest : List ℕ) × (path ≡ base ++ slash ∷ rest))

abbrev pub SchemeFits : Option (List ℕ) → List ℕ → Type 0
SchemeFits none scheme = Unit
SchemeFits (some s) scheme = s ≡ scheme

starts_with-Beneath :
    (base path : List ℕ)
    → (starts_with (base ++ slash ∷ []) path ≡ true)
      ↔ ((rest : List ℕ) × (path ≡ base ++ slash ∷ rest))
starts_with-Beneath base path = (
  λ h. (
    drop (length (base ++ slash ∷ [])) path,
    append_of_starts_with (base ++ slash ∷ []) path h
        ∙ append_assoc base (slash ∷ []) (drop (length (base ++ slash ∷ [])) path),
  ),
  λ (p : (rest : List ℕ) × (path ≡ base ++ slash ∷ rest)).
      ap (starts_with (base ++ slash ∷ [])) (p.1 ∙ sym (append_assoc base (slash ∷ []) p.0))
      ∙ starts_with-append (base ++ slash ∷ []) p.0,
)

is_beneath_iff :
    (prefix path : List ℕ)
    → (is_beneath prefix path ≡ true) ↔ ((prefix ≡ slash ∷ []) ⊎ Beneath (rstrip prefix) path)
is_beneath_iff prefix path = (
  λ h. elim (Bool-cases (same prefix (slash ∷ []))) [
    | inl root ↦ inl (eq_of_same prefix (slash ∷ []) root)
    | inr other ↦ inr (below (rw other at h))
  ],
  λ h. elim h [
    | inl root ↦
        rw (let e : same prefix (slash ∷ []) ≡ true = (same_iff prefix (slash ∷ [])).1 root in e)
          refl
    | inr (inl whole) ↦ elsewhere (ground (arith, (same_iff path (rstrip prefix)).1 whole))
    | inr (inr longer) ↦
        elsewhere (ground (arith, (starts_with-Beneath (rstrip prefix) path).1 longer))
  ],
)
  where
    below :
        (same path (rstrip prefix) || starts_with (rstrip prefix ++ slash ∷ []) path) ≡ true
        → Beneath (rstrip prefix) path
    below h = elim (Bool-cases (same path (rstrip prefix))) [
      | inl whole ↦ inl (eq_of_same path (rstrip prefix) whole)
      | inr longer ↦ inr ((starts_with-Beneath (rstrip prefix) path).0 (rw longer at h))
    ]

    elsewhere :
        (same path (rstrip prefix) || starts_with (rstrip prefix ++ slash ∷ []) path) ≡ true
        → is_beneath prefix path ≡ true
    elsewhere h = ground (arith, h)

scheme_fits_iff :
    (s : Option (List ℕ)) (scheme : List ℕ) → (scheme_fits s scheme ≡ true) ↔ SchemeFits s scheme
scheme_fits_iff none scheme = (λ h. tt, λ h. refl)
scheme_fits_iff (some s) scheme = same_iff s scheme

all_four :
    (a b c d : Bool) → (a && b && c && d) ≡ true → (a ≡ true) × (b ≡ true) × (c ≡ true) × (d ≡ true)
all_four a b c d h = ground arith

all_of_four :
    {a b c d : Bool} → a ≡ true → b ≡ true → c ≡ true → d ≡ true → (a && b && c && d) ≡ true
all_of_four ha hb hc hd = ground (arith, ha, hb, hc, hd)

-- An entry matches a target exactly if the scheme is the entry's, where it has one, the host is the
-- entry's, the port is the entry's or else the default of the target's scheme, and the path is the
-- entry's prefix without slashes at its end or goes on behind it with a slash; under the prefix `/`
-- every path. So `/v1` does not match `/v10`.
pub matches_iff :
    (e : AllowEntry) (t : Target)
    → (matches e t ≡ true) ↔ (
        SchemeFits e.scheme t.scheme
        × (e.host ≡ t.host)
        × (t.port ≡ port_of e.port t.scheme)
        × ((e.prefix ≡ slash ∷ []) ⊎ Beneath (rstrip e.prefix) t.path))
unfolding matches
matches_iff e t = (
  λ h.
      let (s, n, p, b) =
        all_four (scheme_fits e.scheme t.scheme) (same e.host t.host)
          (t.port == port_of e.port t.scheme) (is_beneath e.prefix t.path) h in
      (
        (scheme_fits_iff e.scheme t.scheme).0 s,
        (same_iff e.host t.host).0 n,
        (==_iff t.port (port_of e.port t.scheme)).0 p,
        (is_beneath_iff e.prefix t.path).0 b,
      ),
  λ (q : SchemeFits e.scheme t.scheme
        × (e.host ≡ t.host)
        × (t.port ≡ port_of e.port t.scheme)
        × ((e.prefix ≡ slash ∷ []) ⊎ Beneath (rstrip e.prefix) t.path)).
      all_of_four ((scheme_fits_iff e.scheme t.scheme).1 q.0) ((same_iff e.host t.host).1 q.1)
        ((==_iff t.port (port_of e.port t.scheme)).1 q.2) ((is_beneath_iff e.prefix t.path).1 q.3),
)
