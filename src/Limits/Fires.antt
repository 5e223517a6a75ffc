-- ===== src/Limits/Fires.antt =====
-- What python/pydeno/_limits.py is for: a limit that it accepts is one that can be exceeded.
use pydeno.Prelude.{
  ℕ, zero, suc, ◌≡◌, refl, sym, ◌∙◌, Bool, true, false, Option, none, some, Result, ok, err, ltb,
  if◌then◌else◌, arith, if_both,
}
use pydeno.Limits.{
  pos, negsuc, LimitError, type_error, value_error, Float, finite, neg_zero, inf, neg_inf, nan,
  Duration, no_duration, no_number, seconds, check_seconds, limit_seconds,
}

-- `elapsed > limit`, which is false of NaN.
abbrev pub exceeds : ℕ → Float → Bool
exceeds elapsed (finite (pos n)) = ltb n elapsed
exceeds elapsed (finite (negsuc n)) = true
exceeds elapsed neg_zero = ltb 0 elapsed
exceeds elapsed inf = false
exceeds elapsed neg_inf = true
exceeds elapsed nan = false

-- The limit is not exceeded at the start, and it is once more than the longest duration has passed.
abbrev pub Fires : ℕ → Float → Type 0
Fires max_seconds limit = (exceeds 0 limit ≡ false) × (exceeds (suc max_seconds) limit ≡ true)

-- A number of seconds that may be a limit: one that fires, and that is more than zero if zero is not
-- allowed. A number that is more than zero is not exceeded by the smallest time there is.
abbrev pub IsLimit : Bool → ℕ → Float → Type 0
IsLimit allow_zero max_seconds s = Fires max_seconds s × (allow_zero ≡ false → exceeds 1 s ≡ false)

-- What becomes of a number: it is given back, as far as a comparison can tell, if it may be a limit, and
-- it is a ValueError if not.
abbrev pub IsJudged : Bool → ℕ → Float → Result LimitError (Option Float) → Type 0
IsJudged allow_zero max_seconds s (ok none) = ⊥
IsJudged allow_zero max_seconds s (ok (some limit)) =
    IsLimit allow_zero max_seconds s × ((elapsed : ℕ) → exceeds elapsed limit ≡ exceeds elapsed s)
IsJudged allow_zero max_seconds s (err e) = (e ≡ value_error) × ¬ (IsLimit allow_zero max_seconds s)

abbrev pub IsChecked : Bool → ℕ → Duration → Result LimitError (Option Float) → Type 0
IsChecked allow_zero max_seconds no_duration r = r ≡ ok none
IsChecked allow_zero max_seconds no_number r = r ≡ err type_error
IsChecked allow_zero max_seconds (seconds none) r = r ≡ err value_error
IsChecked allow_zero max_seconds (seconds (some s)) r = IsJudged allow_zero max_seconds s r

zero-IsJudged :
    (allow_zero : Bool) (max_seconds : ℕ) (s : Float)
    → ((elapsed : ℕ) → exceeds elapsed s ≡ ltb 0 elapsed)
    → IsJudged allow_zero max_seconds s
        (if allow_zero then ok (some (finite (pos 0))) else err value_error)
zero-IsJudged true max_seconds s h = (
  ((h 0 ∙ ground arith, h (suc max_seconds) ∙ ground arith), λ c. cc),
  λ elapsed. sym (h elapsed),
)
zero-IsJudged false max_seconds s h = (refl, λ l. let z = l.1 refl in let o = h 1 in ground arith)

check_seconds-IsJudged :
    (allow_zero : Bool) (max_seconds : ℕ) (s : Float)
    → IsJudged allow_zero max_seconds s (check_seconds allow_zero max_seconds s)
unfolding check_seconds
check_seconds-IsJudged allow_zero max_seconds (finite (negsuc n)) = (refl, λ l. let z = l.0.0 in cc)
check_seconds-IsJudged allow_zero max_seconds (finite (pos zero)) =
    zero-IsJudged allow_zero max_seconds (finite (pos zero)) (λ elapsed. refl)
check_seconds-IsJudged allow_zero max_seconds (finite (pos (suc n))) =
    if_both (IsJudged allow_zero max_seconds (finite (pos (suc n)))) (ltb max_seconds (suc n)) _ _
      (λ over. (refl, λ l. let z = l.0.1 in ground (arith, over)))
      (λ within. (((ground arith, ground (arith, within)), λ _. ground arith), λ elapsed. refl))
check_seconds-IsJudged allow_zero max_seconds neg_zero =
    zero-IsJudged allow_zero max_seconds neg_zero (λ elapsed. refl)
check_seconds-IsJudged allow_zero max_seconds inf = (refl, λ l. let z = l.0.1 in cc)
check_seconds-IsJudged allow_zero max_seconds neg_inf = (refl, λ l. let z = l.0.0 in cc)
check_seconds-IsJudged allow_zero max_seconds nan = (refl, λ l. let z = l.0.1 in cc)

-- `limit_seconds`, of any argument. A number of seconds is accepted exactly if the time elapsed does not
-- exceed it at the start, exceeds it once more than `MAX_SECONDS` have passed, and, without
-- `allow_zero`, if it is above zero: so no NaN, no infinity, no negative number and none above
-- `MAX_SECONDS` is, and any other is. The limit is then the number that was given: each time exceeds the
-- one if it exceeds the other. Any other number, and one that cannot be converted, is a ValueError, what
-- is no number a TypeError, and None no limit.
pub limit_seconds-IsChecked :
    (allow_zero : Bool) (max_seconds : ℕ) (value : Duration)
    → IsChecked allow_zero max_seconds value (limit_seconds allow_zero max_seconds value)
unfolding limit_seconds check_seconds
limit_seconds-IsChecked allow_zero max_seconds no_duration = refl
limit_seconds-IsChecked allow_zero max_seconds no_number = refl
limit_seconds-IsChecked allow_zero max_seconds (seconds none) = refl
limit_seconds-IsChecked allow_zero max_seconds (seconds (some s)) =
    check_seconds-IsJudged allow_zero max_seconds s
