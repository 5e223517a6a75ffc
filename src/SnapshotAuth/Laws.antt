-- ===== src/SnapshotAuth/Laws.antt =====
-- What `verify_snapshot` accepts: exactly what `sign_snapshot` makes under the same key and build.
use pydeno.Prelude.{
  ℕ, ◌+◌, ◌<◌, ◌≤◌, ◌≡◌, ◌≢◌, refl, sym, ap, ◌∙◌, subst, true, false, not, ◌||◌, Option, some, [],
  ◌∷◌, ◌++◌, Bytes, Result, ok, err, ◌>>=◌, length, length-append, length-take, length-drop, take,
  drop, take-append-drop, take-length_append, drop-length_append, take_add-append, drop_add-append,
  same, same_refl, same_iff, eq_of_same, starts_with, starts_with-append, append_of_starts_with,
  ltb, le→ltb, if◌then◌else◌, arith, Bool-cases, inl, inr,
}
use pydeno.SnapshotAuth.{
  AuthError, not_signed, other_build, bytes, magic, mac_len, head_of, blob_of, min_key_bytes,
  max_engine_len, engine_version, check_key, sign_snapshot, check_build, check_tag, check_parts,
  check_blob, verify_snapshot,
}

module _ (hmac : Bytes → Bytes → Bytes) (identity : Option Bytes) (k : Bytes) (e m p : Bytes)
    (digest : length m ≡ mac_len) where
  head_cut : take (14 + length e) (magic ++ length e ∷ (e ++ (m ++ p))) ≡ head_of e
  head_cut =
      take_add-append 14 (length e) (magic ++ length e ∷ []) (e ++ (m ++ p)) refl
      ∙ ap (λ b. magic ++ length e ∷ b) (take-length_append (length e) e (m ++ p) refl)

  rest_cut : drop (14 + length e) (magic ++ length e ∷ (e ++ (m ++ p))) ≡ m ++ p
  rest_cut =
      drop_add-append 14 (length e) (magic ++ length e ∷ []) (e ++ (m ++ p)) refl
      ∙ drop-length_append (length e) e (m ++ p) refl

  mac_cut : take mac_len (drop (14 + length e) (magic ++ length e ∷ (e ++ (m ++ p)))) ≡ m
  mac_cut = ap (take mac_len) rest_cut ∙ take-length_append 32 m p (sym digest)

  payload_cut : drop (14 + length e + mac_len) (magic ++ length e ∷ (e ++ (m ++ p))) ≡ p
  payload_cut =
      drop_add-append (14 + length e) 32 (magic ++ length e ∷ e) (m ++ p) (omega arith)
      ∙ drop-length_append 32 m p (sym digest)

  parts_cut :
      check_parts hmac identity k (magic ++ length e ∷ (e ++ (m ++ p))) (14 + length e)
      ≡ check_tag hmac identity k (head_of e) m p
  unfolding check_parts
  parts_cut = rw head_cut (rw mac_cut (rw payload_cut refl))

  -- A byte string in the format is taken apart into the parts that it was made of.
  check_blob_lem :
      check_blob hmac identity k (magic ++ length e ∷ (e ++ (m ++ p)))
      ≡ check_tag hmac identity k (head_of e) m p
  unfolding check_blob
  check_blob_lem = rw (long, short, prefix) parts_cut
    where
      long : ltb (length (magic ++ length e ∷ (e ++ (m ++ p)))) (14 + length e + mac_len) ≡ false
      long = le→ltb _ _ (omega (arith, length-append e (m ++ p), length-append m p))

      short : ltb (length (magic ++ length e ∷ (e ++ (m ++ p)))) 14 ≡ false
      short = le→ltb _ _ (omega arith)

      prefix : starts_with magic (magic ++ length e ∷ (e ++ (m ++ p))) ≡ true
      prefix = starts_with-append magic (length e ∷ (e ++ (m ++ p)))

engine_ok :
    (engine : Bytes)
    → 0 < length engine
    → length engine ≤ max_engine_len
    → engine_version (some engine) ≡ ok engine
unfolding engine_version
engine_ok [] pos short = elim pos [ ]
engine_ok (b ∷ bs) pos short = ground arith

engine_of_ok :
    (engine current : Bytes) → engine_version (some engine) ≡ ok current → current ≡ engine
unfolding engine_version
engine_of_ok engine current h = ground arith

key_ok : (key : Bytes) → min_key_bytes ≤ length key → check_key (bytes key) ≡ ok key
unfolding check_key
key_ok key strong = ground arith

key_of_ok :
    (key k : Bytes) → check_key (bytes key) ≡ ok k → (k ≡ key) × (min_key_bytes ≤ length key)
unfolding check_key
key_of_ok key k h = ground arith

sign_lem :
    (hmac : Bytes → Bytes → Bytes) (identity : Option Bytes) (engine key snapshot : Bytes)
    → engine_version identity ≡ ok engine
    → min_key_bytes ≤ length key
    → sign_snapshot hmac identity (bytes snapshot) (bytes key)
      ≡ ok (blob_of hmac key engine snapshot)
unfolding sign_snapshot
sign_lem hmac identity engine key snapshot usable strong = rw (usable, key_ok key strong)

verify_lem :
    (hmac : Bytes → Bytes → Bytes) (identity : Option Bytes) (blob key : Bytes)
    → min_key_bytes ≤ length key
    → verify_snapshot hmac identity (bytes blob) (bytes key) ≡ check_blob hmac identity key blob
unfolding verify_snapshot
verify_lem hmac identity blob key strong = rw (key_ok key strong)

verify_strong :
    (hmac : Bytes → Bytes → Bytes) (identity : Option Bytes) (blob key snapshot : Bytes)
    → verify_snapshot hmac identity (bytes blob) (bytes key) ≡ ok snapshot
    → min_key_bytes ≤ length key
unfolding verify_snapshot check_key
verify_strong hmac identity blob key snapshot h = ground arith

-- What a blob that passes the first tests looks like.
record Shaped (blob : Bytes) : Type 0 where
  e : Bytes
  m : Bytes
  p : Bytes
  digest : length m ≡ mac_len
  format : blob ≡ magic ++ length e ∷ (e ++ (m ++ p))

shape_rest : (v : ℕ) (rest : Bytes) → v + 32 ≤ length rest → Shaped (magic ++ v ∷ rest)
shape_rest v rest h = record {
  e = take v rest;
  m = take 32 (drop v rest);
  p = drop 32 (drop v rest);
  digest = length-take 32 (drop v rest) (omega (arith, length-drop v rest));
  format =
      rw (length-take v rest (omega arith))
        (rw (take-append-drop 32 (drop v rest)) (rw (take-append-drop v rest) refl));
}

build_ok :
    (r : Result AuthError Bytes) (e p q : Bytes)
    → (r >>= λ current. if same e current then ok p else err other_build) ≡ ok q
    → (r ≡ ok e) × (q ≡ p)
build_ok (ok current) e p q h = ground (arith, same_iff e current)
build_ok (err x) e p q h = cc

module _ (hmac : Bytes → Bytes → Bytes) (identity : Option Bytes) (k : Bytes) where
  refused_short :
      (v : ℕ) (rest : Bytes)
      → ltb (length (magic ++ v ∷ rest)) (14 + v + mac_len) ≡ true
      → check_blob hmac identity k (magic ++ v ∷ rest) ≡ err not_signed
  unfolding check_blob
  refused_short v rest short = rw (short, fits, prefix)
    where
      fits : ltb (length (magic ++ v ∷ rest)) 14 ≡ false
      fits = le→ltb _ _ (omega arith)

      prefix : starts_with magic (magic ++ v ∷ rest) ≡ true
      prefix = starts_with-append magic (v ∷ rest)

  accepted_rest :
      (v : ℕ) (rest q : Bytes)
      → check_blob hmac identity k (magic ++ v ∷ rest) ≡ ok q
      → v + 32 ≤ length rest
  accepted_rest v rest q h =
      elim (Bool-cases (ltb (length (magic ++ v ∷ rest)) (14 + v + mac_len))) [
        | inl short ↦ cc (refused_short v rest short)
        | inr long ↦ ground arith
      ]

  refused_prefix :
      (blob : Bytes)
      → (ltb (length blob) 14 || not (starts_with magic blob)) ≡ true
      → check_blob hmac identity k blob ≡ err not_signed
  unfolding check_blob
  refused_prefix blob bad = rw bad

  accepted-Shaped : (blob q : Bytes) → check_blob hmac identity k blob ≡ ok q → Shaped blob
  accepted-Shaped blob q h =
      elim (Bool-cases (ltb (length blob) 14 || not (starts_with magic blob))) [
        | inl bad ↦ cc (refused_prefix blob bad)
        | inr good ↦
            go (drop 13 blob) (append_of_starts_with magic blob (ground arith))
              (ground (arith, length-drop 13 blob))
      ]
    where
      go : (rest : Bytes) → blob ≡ magic ++ rest → 0 < length rest → Shaped blob
      go [] format pos = elim pos [ ]
      go (v ∷ rest) format pos = subst Shaped (sym format) (
          shape_rest v rest
            (accepted_rest v rest q (subst (λ b. check_blob hmac identity k b ≡ ok q) format h)))

  check_tag_ok :
      (e m p q : Bytes)
      → check_tag hmac identity k (head_of e) m p ≡ ok q
      → (m ≡ hmac k (head_of e ++ p)) × (engine_version identity ≡ ok e) × (q ≡ p)
  unfolding check_tag check_build
  check_tag_ok e m p q h = elim (Bool-cases (same m (hmac k (head_of e ++ p)))) [
    | inl good ↦
        let (usable, payload) = build_ok (engine_version identity) e p q (rw (good, not) at h) in
        (eq_of_same _ _ good, usable, payload)
    | inr bad ↦ cc (rw (bad, not) at h)
  ]

  check_tag_pass :
      (e p : Bytes)
      → engine_version identity ≡ ok e
      → check_tag hmac identity k (head_of e) (hmac k (head_of e ++ p)) p ≡ ok p
  unfolding check_tag check_build
  check_tag_pass e p usable =
      rw (same_refl (hmac k (head_of e ++ p))) (rw usable (rw (same_refl e) refl))

  check_tag_other :
      (e b p : Bytes)
      → engine_version identity ≡ ok b
      → e ≢ b
      → check_tag hmac identity k (head_of e) (hmac k (head_of e ++ p)) p ≡ err other_build
  unfolding check_tag check_build
  check_tag_other e b p current differ =
      rw (same_refl (hmac k (head_of e ++ p))) (rw current (ground (arith, same_iff e b)))

module _ (hmac : Bytes → Bytes → Bytes) (digest : (k m : Bytes) → length (hmac k m) ≡ mac_len) where
  -- With a key of at least 16 bytes and an engine that can be identified: what `sign_snapshot` makes
  -- is made, and `verify_snapshot` gives the snapshot back.
  pub verify-sign :
      (identity : Option Bytes) (engine key snapshot : Bytes)
      → engine_version identity ≡ ok engine
      → min_key_bytes ≤ length key
      → (sign_snapshot hmac identity (bytes snapshot) (bytes key) >>= λ blob.
          verify_snapshot hmac identity (bytes blob) (bytes key))
        ≡ ok snapshot
  verify-sign identity engine key snapshot usable strong =
      rw (sign_lem hmac identity engine key snapshot usable strong) (
        verify_lem hmac identity (blob_of hmac key engine snapshot) key strong
        ∙ check_blob_lem hmac identity key engine (hmac key (head_of engine ++ snapshot)) snapshot
            (digest key (head_of engine ++ snapshot))
        ∙ check_tag_pass hmac identity key engine snapshot usable)

  -- Whatever `verify_snapshot` accepts is, byte for byte, what `sign_snapshot` makes of the snapshot
  -- that it returns, under the same key and on the same build.
  pub sign-verify :
      (identity : Option Bytes) (blob key snapshot : Bytes)
      → verify_snapshot hmac identity (bytes blob) (bytes key) ≡ ok snapshot
      → sign_snapshot hmac identity (bytes snapshot) (bytes key) ≡ ok blob
  sign-verify identity blob key snapshot h =
      sign_lem hmac identity shaped.e key snapshot good.1 strong
      ∙ ap ok (rw good.2 (rw (← good.0) (sym shaped.format)))
    where
      strong : min_key_bytes ≤ length key
      strong = verify_strong hmac identity blob key snapshot h

      accepted : check_blob hmac identity key blob ≡ ok snapshot
      accepted = sym (verify_lem hmac identity blob key strong) ∙ h

      shaped : Shaped blob
      shaped = accepted-Shaped hmac identity key blob snapshot accepted

      tag : check_tag hmac identity key (head_of shaped.e) shaped.m shaped.p ≡ ok snapshot
      tag =
          sym (check_blob_lem hmac identity key shaped.e shaped.m shaped.p shaped.digest)
          ∙ ap (check_blob hmac identity key) (sym shaped.format)
          ∙ accepted

      good :
          (shaped.m ≡ hmac key (head_of shaped.e ++ shaped.p))
          × (engine_version identity ≡ ok shaped.e)
          × (snapshot ≡ shaped.p)
      good = check_tag_ok hmac identity key shaped.e shaped.m shaped.p snapshot tag

  -- A snapshot signed on another build is refused as such, whatever is in it. The key is of at
  -- least 16 bytes, and both engines can be identified.
  pub verify-sign_ne :
      (made here : Option Bytes) (a b key snapshot : Bytes)
      → engine_version made ≡ ok a
      → engine_version here ≡ ok b
      → a ≢ b
      → min_key_bytes ≤ length key
      → (sign_snapshot hmac made (bytes snapshot) (bytes key) >>= λ blob.
          verify_snapshot hmac here (bytes blob) (bytes key))
        ≡ err other_build
  verify-sign_ne made here a b key snapshot made_by current differ strong =
      rw (sign_lem hmac made a key snapshot made_by strong) (
        verify_lem hmac here (blob_of hmac key a snapshot) key strong
        ∙ check_blob_lem hmac here key a (hmac key (head_of a ++ snapshot)) snapshot
            (digest key (head_of a ++ snapshot))
        ∙ check_tag_other hmac here key a b snapshot current differ)
