-- ===== src/SnapshotAuth.antt =====
-- python/pydeno/_snapshot_auth.py: signing and verifying a V8 startup snapshot.
--
-- `hmac` is HMAC-SHA256, `hmac.new(key, message, hashlib.sha256).digest()`; all that the code needs of it is the length of a digest. `identity` is
-- `_build_identity()` of the native extension, none where it cannot be read.
pub mod Laws
use pydeno.Prelude.{
  ℕ, zero, suc, ◌+◌, ◌<◌, Bool, true, false, not, ◌||◌, Option, none, some, List, [], ◌∷◌, ◌++◌,
  Bytes, codes, Result, ok, err, ◌>>=◌, length, take, drop, get_or, same, starts_with, is_empty,
  ltb, if◌then◌else◌,
}

pub data AuthError : Type 0 where
  value_error : AuthError  -- the key
  type_error : AuthError
  runtime_error : AuthError  -- the engine's identity
  not_signed : AuthError  -- SnapshotAuthenticationError, the two below too
  tampered : AuthError
  other_build : AuthError

-- An argument that should be a byte string: its bytes, or something else.
pub data Argument : Type 0 where
  bytes : Bytes → Argument
  other : Argument

-- `_MAGIC`
abbrev pub magic : Bytes
magic = codes "pydeno-snap2" ++ 0 ∷ []

abbrev pub mac_len : ℕ
mac_len = 32

abbrev pub min_key_bytes : ℕ
min_key_bytes = 16

abbrev pub max_engine_len : ℕ
max_engine_len = 255

-- `_engine_version`
unfoldable pub engine_version : Option Bytes → Result AuthError Bytes
engine_version none = err runtime_error
engine_version (some identity) =
    if is_empty identity || ltb max_engine_len (length identity)
    then err runtime_error
    else ok identity

-- `_key`
unfoldable pub check_key : Argument → Result AuthError Bytes
check_key other = err value_error
check_key (bytes k) = if ltb (length k) min_key_bytes then err value_error else ok k

unfoldable pub check_bytes : Argument → Result AuthError Bytes
check_bytes other = err type_error
check_bytes (bytes b) = ok b

-- `_MAGIC + bytes([len(engine)]) + engine`
abbrev pub head_of : Bytes → Bytes
head_of engine = magic ++ length engine ∷ engine

-- The end of `verify_snapshot`, once the tag is good.
unfoldable pub check_build : Option Bytes → Bytes → Bytes → Result AuthError Bytes
check_build identity made_by payload = do
  current ← engine_version identity
  if same made_by current then ok payload else err other_build

module _ (hmac : Bytes → Bytes → Bytes) where
  abbrev pub blob_of : Bytes → Bytes → Bytes → Bytes
  blob_of k engine payload = head_of engine ++ (hmac k (head_of engine ++ payload) ++ payload)

  -- `sign_snapshot`
  unfoldable pub sign_snapshot : Option Bytes → Argument → Argument → Result AuthError Bytes
  unfolding check_bytes
  sign_snapshot identity snapshot key = do
    payload ← check_bytes snapshot
    engine ← engine_version identity
    k ← check_key key
    ok (blob_of k engine payload)

  -- The comparison of the tag, and what follows it.
  unfoldable pub check_tag : Option Bytes → Bytes → Bytes → Bytes → Bytes → Result AuthError Bytes
  unfolding check_build
  check_tag identity secret head mac payload =
      if not (same mac (hmac secret (head ++ payload)))
      then err tampered
      else check_build identity (drop (length magic + 1) head) payload

  -- `head`, `mac` and `payload` cut out at `head_end`.
  unfoldable pub check_parts : Option Bytes → Bytes → Bytes → ℕ → Result AuthError Bytes
  unfolding check_tag
  check_parts identity secret data_ head_end =
      check_tag identity secret (take head_end data_) (take mac_len (drop head_end data_))
        (drop (head_end + mac_len) data_)

  unfoldable pub check_blob : Option Bytes → Bytes → Bytes → Result AuthError Bytes
  unfolding check_parts
  check_blob identity secret data_ =
      if ltb (length data_) (length magic + 1) || not (starts_with magic data_)
      then err not_signed
      else (let head_end = length magic + 1 + get_or data_ (length magic) 0 in
          if ltb (length data_) (head_end + mac_len)
          then err not_signed
          else check_parts identity secret data_ head_end)

  -- `verify_snapshot`
  unfoldable pub verify_snapshot : Option Bytes → Argument → Argument → Result AuthError Bytes
  unfolding check_bytes check_blob
  verify_snapshot identity blob key = do
    secret ← check_key key
    data_ ← check_bytes blob
    check_blob identity secret data_
