-- ===== src/Limits.antt =====
-- python/pydeno/_limits.py: the validation of limit values. A float is a whole number of units, the
-- smallest that a float can hold, or a zero with a sign, an infinity or NaN; `max_seconds` is
-- `MAX_SECONDS` in these units.
pub mod Fires
use pydeno.Prelude.{
  ℕ, zero, suc, ◌-◌, ◌^◌, Bool, true, false, Option, none, some, Result, ok, err, ltb,
  if◌then◌else◌,
}

-- An int: `negsuc n` is -(n + 1).
pub data ℤ : Type 0 where
  pos : ℕ → ℤ
  negsuc : ℕ → ℤ

abbrev pub less : ℤ → ℤ → Bool
less (pos a) (pos b) = ltb a b
less (pos a) (negsuc b) = false
less (negsuc a) (pos b) = true
less (negsuc a) (negsuc b) = ltb b a

pub data LimitError : Type 0 where
  type_error value_error : LimitError

-- An argument of `limit_int`: None, a bool, something with an index, or anything else.
pub data Count : Type 0 where
  no_count : Count
  bool_count : Count
  integer : ℤ → Count
  no_integer : Count

-- `MAX_WIRE_INT`
abbrev pub max_wire_int : ℕ
max_wire_int = 2 ^ 53 - 1

-- `limit_int`
unfoldable pub limit_int : ℤ → ℤ → Count → Result LimitError (Option ℤ)
limit_int minimum maximum no_count = ok none
limit_int minimum maximum bool_count = err type_error
limit_int minimum maximum no_integer = err type_error
limit_int minimum maximum (integer number) =
    if less number minimum
    then err value_error
    else if less maximum number
    then err value_error
    else ok (some number)

pub data Float : Type 0 where
  finite : ℤ → Float
  neg_zero : Float
  inf : Float
  neg_inf : Float
  nan : Float

-- An argument of `limit_seconds`: None, a bool or what is neither a number nor a timedelta, or a number
-- or a timedelta, by its seconds, none where the conversion raises.
pub data Duration : Type 0 where
  no_duration : Duration
  no_number : Duration
  seconds : Option Float → Duration

-- The end of `limit_seconds`, on the seconds
unfoldable pub check_seconds : Bool → ℕ → Float → Result LimitError (Option Float)
check_seconds allow_zero max_seconds (finite (negsuc n)) = err value_error
check_seconds allow_zero max_seconds (finite (pos zero)) =
    if allow_zero then ok (some (finite (pos 0))) else err value_error
check_seconds allow_zero max_seconds (finite (pos (suc n))) =
    if ltb max_seconds (suc n) then err value_error else ok (some (finite (pos (suc n))))
check_seconds allow_zero max_seconds neg_zero =
    if allow_zero then ok (some (finite (pos 0))) else err value_error
check_seconds allow_zero max_seconds inf = err value_error
check_seconds allow_zero max_seconds neg_inf = err value_error
check_seconds allow_zero max_seconds nan = err value_error

-- `limit_seconds`
unfoldable pub limit_seconds : Bool → ℕ → Duration → Result LimitError (Option Float)
unfolding check_seconds
limit_seconds allow_zero max_seconds no_duration = ok none
limit_seconds allow_zero max_seconds no_number = err type_error
limit_seconds allow_zero max_seconds (seconds none) = check_seconds allow_zero max_seconds nan
limit_seconds allow_zero max_seconds (seconds (some s)) = check_seconds allow_zero max_seconds s
