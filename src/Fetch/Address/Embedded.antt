-- ===== src/Fetch/Address/Embedded.antt =====
-- No address that python/pydeno/tools/http_fetch.py connects to hides a refused one.
use pydeno.Prelude.{ℕ, ◌≡◌, refl, Bool, true, false, ◌&&◌, ◌||◌, if◌then◌else◌, arith}
use pydeno.Fetch.Address.{
  v6, is_mapped, is_nat64, is_sixtofour, is_teredo, low, sixtofour, teredo_server, teredo_client,
  refused4, embeds_refused, ip_refused,
}

sixtofour_alone : (n : ℕ) → is_sixtofour n ≡ true → (is_mapped n || is_nat64 n) ≡ false
sixtofour_alone n h = ground arith

teredo_alone : (n : ℕ) → is_teredo n ≡ true → (is_mapped n || is_nat64 n) ≡ false
teredo_alone n h = ground arith

first_false :
    (s r t q c : Bool) → s ≡ true → (if s && r || t && q then true else c) ≡ false → r ≡ false
first_false s r t q c m h = ground arith

second_false :
    (s r t q c : Bool) → t ≡ true → (if s && r || t && q then true else c) ≡ false → q ≡ false
second_false s r t q c m h = ground arith

module _ (special4 special6 : ℕ → Bool) where
  -- An IPv6 address that is not refused has no scope id, and of the IPv4 addresses that it may carry,
  -- mapped, behind NAT64, as 6to4 or as the server or the client of Teredo, none is refused: not even
  -- a loopback address where `loopback` admits one by itself.
  pub ip_refused-v6 :
      (loopback : Bool) (n : ℕ) (scoped : Bool)
      → ip_refused special4 special6 loopback (v6 n scoped) ≡ false
      → (scoped ≡ false)
        × ((is_mapped n || is_nat64 n) ≡ true → refused4 special4 special6 false (low n) ≡ false)
        × (is_sixtofour n ≡ true → refused4 special4 special6 false (sixtofour n) ≡ false)
        × (is_teredo n ≡ true
            → (refused4 special4 special6 false (teredo_server n)
                || refused4 special4 special6 false (teredo_client n))
              ≡ false)
  unfolding ip_refused embeds_refused
  ip_refused-v6 loopback n true h = cc
  ip_refused-v6 loopback n false h = (
    refl,
    (λ m. rw m at h),
    (λ m. first_false (is_sixtofour n) _ (is_teredo n) _ _ m (rw (sixtofour_alone n m) at h)),
    (λ m. second_false (is_sixtofour n) _ (is_teredo n) _ _ m (rw (teredo_alone n m) at h)),
  )
