-- ===== src/Pool/Numbers.antt =====
-- Numbers as bytes in python/pydeno/_pool.py: the rollback counter in decimal, `str(n).encode()` and
-- `int(raw)`, and in eight bytes, `struct.Struct(">Q")`.
use pydeno.Prelude.{
  ℕ, zero, suc, ◌+◌, ◌-◌, ◌*◌, ◌/◌, ◌%◌, ◌≤◌, ◌<◌, ◌≡◌, refl, ap, ◌∙◌, Bool, true, false, ◌&&◌,
  Option, none, some, [], ◌∷◌, ◌++◌, Bytes, length, length-append, ltb, leb, if◌then◌else◌, arith,
}

-- `str(n)`, in `fuel` divisions; as many as `n` are enough.
unfoldable pub digits_within : ℕ → ℕ → Bytes
digits_within zero n = (48 + n % 10) ∷ []
digits_within (suc fuel) n =
    let front = digits_within fuel (n / 10) in
    if ltb n 10 then (48 + n) ∷ [] else front ++ (48 + n % 10) ∷ []

unfoldable pub digits : ℕ → Bytes
unfolding digits_within
digits n = digits_within n n

-- The number that digits in a base stand for, the highest first.
unfoldable pub value_from : ℕ → ℕ → Bytes → ℕ
value_from base high [] = high
value_from base high (d ∷ ds) = value_from base (base * high + d) ds

abbrev digit_of : ℕ → ℕ
digit_of d = d - 48

abbrev pub digits_of : Bytes → Bytes
digits_of [] = []
digits_of (d ∷ ds) = digit_of d ∷ digits_of ds

-- `int(raw)`, where all are digits
unfoldable pub int : Bytes → ℕ
unfolding value_from
int raw = value_from 10 0 (digits_of raw)

abbrev is_digit : ℕ → Bool
is_digit d = leb 48 d && leb d 57

abbrev pub all_digits : Bytes → Bool
all_digits [] = true
all_digits (d ∷ ds) = is_digit d && all_digits ds

-- `raw.isdigit()`
abbrev pub isdigit : Bytes → Bool
isdigit [] = false
isdigit (d ∷ ds) = all_digits (d ∷ ds)

-- The lowest `k` bytes of a number, the highest first.
unfoldable pub big_endian : ℕ → ℕ → Bytes
big_endian zero n = []
big_endian (suc k) n = big_endian k (n / 256) ++ (n % 256) ∷ []

abbrev pub limit : ℕ → ℕ
limit zero = 1
limit (suc k) = 256 * limit k

-- `_COUNTER.pack(n)`; `struct.error`, here `none`, for a number of more than 64 bits.
unfoldable pub pack_counter : ℕ → Option Bytes
unfolding big_endian
pack_counter n = if ltb n (limit 8) then some (big_endian 8 n) else none

-- `_COUNTER.unpack_from(raw)[0]`, of the eight bytes at hand
unfoldable pub unpack_counter : Bytes → ℕ
unfolding value_from
unpack_counter raw = value_from 256 0 raw

value_from-append :
    (base high : ℕ) (ds : Bytes) (d : ℕ)
    → value_from base high (ds ++ d ∷ []) ≡ base * value_from base high ds + d
unfolding value_from
value_from-append base high [] d = refl
value_from-append base high (c ∷ ds) d = value_from-append base (base * high + c) ds d

digits_of-append : (ds : Bytes) (d : ℕ) → digits_of (ds ++ d ∷ []) ≡ digits_of ds ++ digit_of d ∷ []
digits_of-append [] d = refl
digits_of-append (c ∷ ds) d = ap (◌∷◌ (digit_of c)) (digits_of-append ds d)

int-append : (ds : Bytes) (d : ℕ) → int (ds ++ d ∷ []) ≡ 10 * int ds + (d - 48)
unfolding int
int-append ds d =
    ap (value_from 10 0) (digits_of-append ds d)
    ∙ value_from-append 10 0 (digits_of ds) (digit_of d)

int-digits_within : (fuel n : ℕ) → n ≤ fuel → int (digits_within fuel n) ≡ n
unfolding digits_within int value_from
int-digits_within zero n h = omega arith
int-digits_within (suc fuel) n h =
    ground (
      arith,
      int-append (digits_within fuel (n / 10)) (48 + n % 10),
      int-digits_within fuel (n / 10),
    )

-- The fuel of `digits` is enough: `int` reads every counter back.
pub int-digits : (n : ℕ) → int (digits n) ≡ n
unfolding digits
int-digits n = int-digits_within n n (omega arith)

all_digits-append :
    (ds : Bytes) (d : ℕ)
    → all_digits ds ≡ true
    → is_digit d ≡ true
    → all_digits (ds ++ d ∷ []) ≡ true
all_digits-append [] d h k = ground arith
all_digits-append (c ∷ ds) d h k = ground (arith, all_digits-append ds d)

all_digits-within : (fuel n : ℕ) → all_digits (digits_within fuel n) ≡ true
unfolding digits_within
all_digits-within zero n = ground arith
all_digits-within (suc fuel) n = ground (
  arith,
  all_digits-within fuel (n / 10),
  all_digits-append (digits_within fuel (n / 10)) (48 + n % 10),
)

isdigit_lem : (ds : Bytes) → 0 < length ds → all_digits ds ≡ true → isdigit ds ≡ true
isdigit_lem [] h k = absurd (omega arith)
isdigit_lem (d ∷ ds) h k = k

length-digits_within : (fuel n : ℕ) → 0 < length (digits_within fuel n)
unfolding digits_within
length-digits_within zero n = omega arith
length-digits_within (suc fuel) n =
    ground (arith, length-append (digits_within fuel (n / 10)) ((48 + n % 10) ∷ []))

pub isdigit-digits : (n : ℕ) → isdigit (digits n) ≡ true
unfolding digits
isdigit-digits n =
    isdigit_lem (digits_within n n) (length-digits_within n n) (all_digits-within n n)

value_from-big_endian : (k n : ℕ) → n < limit k → value_from 256 0 (big_endian k n) ≡ n
unfolding value_from big_endian
value_from-big_endian zero n h = omega arith
value_from-big_endian (suc k) n h =
    value_from-append 256 0 (big_endian k (n / 256)) (n % 256)
    ∙ (let e = value_from-big_endian k (n / 256) (omega arith) in omega (arith, e))

pub length-big_endian : (k n : ℕ) → length (big_endian k n) ≡ k
unfolding big_endian
length-big_endian zero n = refl
length-big_endian (suc k) n =
    omega (
      arith,
      length-append (big_endian k (n / 256)) ((n % 256) ∷ []),
      length-big_endian k (n / 256),
    )

pub unpack_counter-big_endian : (n : ℕ) → n < limit 8 → unpack_counter (big_endian 8 n) ≡ n
unfolding unpack_counter
unpack_counter-big_endian n h = value_from-big_endian 8 n h
