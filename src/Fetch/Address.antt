-- ===== src/Fetch/Address.antt =====
-- The address policy of python/pydeno/tools/http_fetch.py: `_ip_refused`. An address is its number.
-- `special4` and `special6` stand for the flags of the standard library, by which an address is not
-- global, or multicast, private, reserved and so on: their tables change between Python versions.
pub mod Embedded
use pydeno.Prelude.{
  ℕ, ◌+◌, ◌-◌, ◌*◌, ◌/◌, ◌%◌, ◌^◌, Bool, true, false, ◌&&◌, ◌||◌, List, [], ◌∷◌, ◌++◌, ◌==◌,
  if◌then◌else◌,
}

pub data Ip : Type 0 where
  v4 : ℕ → Ip
  -- whether it has a scope id
  v6 : ℕ → Bool → Ip

-- A network: its first address and the length of its prefix
abbrev pub Network : Type 0
Network = ℕ × ℕ

-- `ip in net`, of addresses of so many bits
abbrev pub in_network : ℕ → ℕ → Network → Bool
in_network width n (base, prefix) = n / 2 ^ (width - prefix) == base / 2 ^ (width - prefix)

unfoldable pub in_any_network : ℕ → ℕ → List Network → Bool
in_any_network width n [] = false
in_any_network width n (net ∷ nets) = in_network width n net || in_any_network width n nets

abbrev pub quad : ℕ → ℕ → ℕ → ℕ
quad a b c = a * 2 ^ 24 + b * 2 ^ 16 + c * 2 ^ 8

-- `_REFUSED_V4`
abbrev pub refused_v4 : List Network
refused_v4 =
    (quad 0 0 0, 8)
    ∷ (quad 10 0 0, 8)
    ∷ (quad 100 64 0, 10)
    ∷ (quad 127 0 0, 8)
    ∷ (quad 169 254 0, 16)
    ∷ (quad 172 16 0, 12)
    ∷ (quad 192 0 0, 24)
    ∷ (quad 192 0 2, 24)
    ∷ (quad 192 88 99, 24)
    ∷ (quad 192 168 0, 16)
    ∷ (quad 198 18 0, 15)
    ∷ (quad 198 51 100, 24)
    ∷ (quad 203 0 113, 24)
    ∷ (quad 224 0 0, 4)
    ∷ (quad 240 0 0, 4)
    ∷ []

-- An IPv6 address by its first three groups
abbrev pub groups : ℕ → ℕ → ℕ → ℕ
groups a b c = a * 2 ^ 112 + b * 2 ^ 96 + c * 2 ^ 80

-- `_REFUSED_V6`
abbrev pub refused_v6 : List Network
refused_v6 =
    (groups 0 0 0, 96)
    ∷ (groups 0x64 0xff9b 1, 48)
    ∷ (groups 0x100 0 0, 64)
    ∷ (groups 0x2001 0 0, 23)
    ∷ (groups 0x2001 0xdb8 0, 32)
    ∷ (groups 0xfc00 0 0, 7)
    ∷ (groups 0xfe80 0 0, 10)
    ∷ (groups 0xfec0 0 0, 10)
    ∷ (groups 0xff00 0 0, 8)
    ∷ []

-- `ip.ipv4_mapped is not None`
abbrev pub is_mapped : ℕ → Bool
is_mapped n = n / 2 ^ 32 == 0xffff

-- `ip in _NAT64`
abbrev pub is_nat64 : ℕ → Bool
is_nat64 n = in_network 128 n (groups 0x64 0xff9b 0, 96)

abbrev pub is_sixtofour : ℕ → Bool
is_sixtofour n = n / 2 ^ 112 == 0x2002

abbrev pub is_teredo : ℕ → Bool
is_teredo n = n / 2 ^ 96 == 0x20010000

-- The address in the last 32 bits
abbrev pub low : ℕ → ℕ
low n = n % 2 ^ 32

-- `ip.sixtofour`
abbrev pub sixtofour : ℕ → ℕ
sixtofour n = n / 2 ^ 80 % 2 ^ 32

-- `ip.teredo`: the server, and the client, whose bits are flipped
abbrev pub teredo_server : ℕ → ℕ
teredo_server n = n / 2 ^ 64 % 2 ^ 32

abbrev pub teredo_client : ℕ → ℕ
teredo_client n = 2 ^ 32 - 1 - n % 2 ^ 32

module _ (special4 special6 : ℕ → Bool) where
  -- `_ip_refused` of an IPv4 address
  unfoldable pub refused4 : Bool → ℕ → Bool
  unfolding in_any_network
  refused4 loopback n =
      if loopback && in_network 32 n (quad 127 0 0, 8)
      then false
      else special4 n || in_any_network 32 n refused_v4

  -- What is left to test of an IPv6 address once the addresses in it are
  unfoldable pub refused6 : Bool → ℕ → Bool
  unfolding in_any_network
  refused6 loopback n =
      if loopback && n == 1 then false else special6 n || in_any_network 128 n refused_v6

  -- `any(_ip_refused(e, False) for e in embedded)`
  unfoldable pub embeds_refused : ℕ → Bool
  unfolding refused4
  embeds_refused n =
      is_sixtofour n && refused4 false (sixtofour n)
      || is_teredo n && (refused4 false (teredo_server n) || refused4 false (teredo_client n))

  -- `_ip_refused`
  unfoldable pub ip_refused : Bool → Ip → Bool
  unfolding refused4 refused6 embeds_refused
  ip_refused loopback (v4 n) = refused4 loopback n
  ip_refused loopback (v6 n scoped) =
      if scoped
      then true
      else if is_mapped n || is_nat64 n
      then refused4 false (low n)
      else if embeds_refused n
      then true
      else refused6 loopback n
