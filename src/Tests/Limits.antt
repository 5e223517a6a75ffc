-- ===== src/Tests/Limits.antt =====
-- Limit values: python/pydeno/_limits.py at concrete inputs.
use pydeno.Prelude.{◌≡◌, refl, true, false, some, ok, err}
use pydeno.Limits.{
  pos, negsuc, integer, bool_count, type_error, value_error, limit_int, finite, neg_zero, nan,
  seconds, limit_seconds,
}
use pydeno.Limits.Fires.{IsChecked, limit_seconds-IsChecked}

limits :
    (limit_int (pos 1) (pos 9) (integer (pos 9)) ≡ ok (some (pos 9)))
    × (limit_int (pos 1) (pos 9) (integer (negsuc 0)) ≡ err value_error)
    × (limit_int (pos 1) (pos 9) bool_count ≡ err type_error)
    × (limit_seconds true 100 (seconds (some neg_zero)) ≡ ok (some (finite (pos 0))))
    × (limit_seconds false 100 (seconds (some (finite (pos 0)))) ≡ err value_error)
    × (limit_seconds true 100 (seconds (some nan)) ≡ err value_error)
unfolding limit_int limit_seconds
limits = (refl, refl, refl, refl, refl, refl)

limit_seconds-IsChecked_example :
    IsChecked false 100
      (seconds (some (finite (pos 40))))
      (limit_seconds false 100 (seconds (some (finite (pos 40)))))
limit_seconds-IsChecked_example =
    limit_seconds-IsChecked false 100 (seconds (some (finite (pos 40))))
