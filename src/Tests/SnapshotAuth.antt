-- ===== src/Tests/SnapshotAuth.antt =====
-- Signed snapshots: python/pydeno/_snapshot_auth.py at concrete inputs.
use pydeno.Prelude.{
  starts_with, same, ℕ, zero, suc, ◌≡◌, refl, Bytes, [], ◌∷◌, some, codes, ok, err, ◌>>=◌, length,
  arith,
}
use pydeno.SnapshotAuth.{
  check_key, bytes, sign_snapshot, verify_snapshot, blob_of, tampered, not_signed, engine_version,
}
use pydeno.SnapshotAuth.Laws.{verify-sign, sign-verify}

abbrev filled : ℕ → ℕ → Bytes
filled zero b = []
filled (suc n) b = b ∷ filled n b

length-filled : (n b : ℕ) → length (filled n b) ≡ n
length-filled zero b = refl
length-filled (suc n) b = ground (arith, length-filled n b)

abbrev first_or_zero : Bytes → ℕ
first_or_zero [] = 0
first_or_zero (b ∷ bs) = b

abbrev last_code : Bytes → ℕ
last_code [] = 0
last_code (b ∷ []) = b
last_code (b ∷ c ∷ bs) = last_code (c ∷ bs)

-- A digest of 32 bytes that depends on the key.
abbrev digest_of : Bytes → Bytes → Bytes
digest_of key message = filled 32 (first_or_zero key)

abbrev key : Bytes
key = codes "0123456789abcdef"

signed :
    (sign_snapshot digest_of (some (codes "v1")) (bytes (codes "heap")) (bytes key)
      ≡ ok (blob_of digest_of key (codes "v1") (codes "heap")))
    × (verify_snapshot digest_of
          (some (codes "v1"))
          (bytes (blob_of digest_of key (codes "v1") (codes "heap")))
          (bytes (codes "another key of 16"))
        ≡ err tampered)
    × (verify_snapshot digest_of (some (codes "v1")) (bytes (codes "pydeno-snap1")) (bytes key)
        ≡ err not_signed)
unfolding sign_snapshot verify_snapshot engine_version check_key starts_with same
signed = (refl, refl, refl)

verify-sign_example :
    (sign_snapshot digest_of (some (codes "v1")) (bytes (codes "heap")) (bytes key) >>= λ blob.
    verify_snapshot digest_of (some (codes "v1")) (bytes blob) (bytes key))
    ≡ ok (codes "heap")
unfolding engine_version
verify-sign_example =
    verify-sign digest_of (λ k m. length-filled 32 (first_or_zero k)) (some (codes "v1"))
      (codes "v1") key (codes "heap") refl (omega arith)

sign-verify_example :
    sign_snapshot digest_of (some (codes "v1")) (bytes (codes "heap")) (bytes key)
    ≡ ok (blob_of digest_of key (codes "v1") (codes "heap"))
unfolding verify_snapshot engine_version check_key starts_with same
sign-verify_example =
    sign-verify digest_of (λ k m. length-filled 32 (first_or_zero k)) (some (codes "v1"))
      (blob_of digest_of key (codes "v1") (codes "heap")) key (codes "heap") refl
