-- ===== src/Wire/Codec.antt =====
-- The frame header of python/pydeno/_wire.py, `struct.Struct("<I")`, and the constants of the wire.
use pydeno.Prelude.{
  ℕ, suc, ◌+◌, ◌*◌, ◌/◌, ◌%◌, ◌^◌, ◌≤◌, ◌<◌, ◌≡◌, refl, sym, [], ◌∷◌, ◌++◌, Option, none, some,
  Bytes, All, length, take, drop, drop-nil, take-append-drop, ltb, if◌then◌else◌, arith,
}

abbrev pub max_frame_bytes : ℕ
max_frame_bytes = 16 * 1024 * 1024

abbrev pub max_depth : ℕ
max_depth = 128

abbrev pub max_nodes : ℕ
max_nodes = 2_000_000

-- `_HEADER.size`
abbrev pub header_size : ℕ
header_size = 4

abbrev pub IsByte : ℕ → Type 0
IsByte b = b < 256

-- The four bytes of a number, the lowest first.
unfoldable pub header : ℕ → Bytes
header n = (n % 256) ∷ (n / 256 % 256) ∷ (n / 65536 % 256) ∷ (n / 16777216 % 256) ∷ []

-- `_HEADER.pack(n)`; `struct.error`, here `none`, for a number of more than 32 bits.
unfoldable pub pack : ℕ → Option Bytes
pack n = if ltb n (2 ^ 32) then some (header n) else none

-- `_HEADER.unpack_from(data)[0]`, read only where there are at least four bytes.
unfoldable pub unpack_from : Bytes → ℕ
unpack_from (a ∷ b ∷ c ∷ d ∷ _) = a + 256 * b + 65536 * c + 16777216 * d
unpack_from _ = 0

pub unpack_from-header :
    (n : ℕ) (rest : Bytes) → n < 4294967296 → unpack_from (header n ++ rest) ≡ n
unfolding unpack_from header
unpack_from-header n rest h = omega arith

-- Four bytes are the header of the number that they stand for.
pub header-unpack_from :
    (bytes : Bytes)
    → 4 ≤ length bytes
    → All IsByte bytes
    → header (unpack_from bytes) ++ drop 4 bytes ≡ bytes
unfolding unpack_from header
header-unpack_from (a ∷ b ∷ c ∷ d ∷ rest) h v = ground arith
header-unpack_from (a ∷ b ∷ c ∷ []) h v = absurd (omega arith)
header-unpack_from (a ∷ b ∷ []) h v = absurd (omega arith)
header-unpack_from (a ∷ []) h v = absurd (omega arith)
header-unpack_from [] h v = absurd (omega arith)

pub unpack_from-append : (xs ys : Bytes) → 4 ≤ length xs → unpack_from (xs ++ ys) ≡ unpack_from xs
unfolding unpack_from
unpack_from-append (a ∷ b ∷ c ∷ d ∷ rest) ys h = refl
unpack_from-append (a ∷ b ∷ c ∷ []) ys h = absurd (omega arith)
unpack_from-append (a ∷ b ∷ []) ys h = absurd (omega arith)
unpack_from-append (a ∷ []) ys h = absurd (omega arith)
unpack_from-append [] ys h = absurd (omega arith)

drop-header_size_add :
    (n : ℕ) (xs : Bytes) → drop (header_size + n) xs ≡ drop n (drop header_size xs)
drop-header_size_add n xs = let e : 4 + n ≡ suc (suc (suc (suc n))) = omega arith in rw e (go xs)
  where
    go : (ys : Bytes) → drop (suc (suc (suc (suc n)))) ys ≡ drop n (drop 4 ys)
    go (a ∷ b ∷ c ∷ d ∷ rest) = refl
    go (a ∷ b ∷ c ∷ []) = sym (drop-nil n)
    go (a ∷ b ∷ []) = sym (drop-nil n)
    go (a ∷ []) = sym (drop-nil n)
    go [] = sym (drop-nil n)

-- A buffer that begins with a whole frame is that frame and what `read` leaves in the buffer.
pub frame_of_buffer :
    (buf : Bytes)
    → header_size + unpack_from buf ≤ length buf
    → All IsByte buf
    → header (unpack_from buf)
        ++ (take (unpack_from buf) (drop header_size buf)
            ++ drop (header_size + unpack_from buf) buf)
      ≡ buf
frame_of_buffer buf h v = rw (drop-header_size_add (unpack_from buf) buf) (
    rw (take-append-drop (unpack_from buf) (drop header_size buf))
      (header-unpack_from buf (omega arith) v))

pub header-IsByte : (n : ℕ) → All IsByte (header n)
unfolding header
header-IsByte n = omega arith
