-- ===== src/Tests/Output.antt =====
-- Output and results: python/pydeno/_result.py at concrete inputs.
use pydeno.Prelude.{
  true, err, ℕ, ◌+◌, ◌≤◌, ◌≡◌, refl, ◌||◌, none, some, List, [], ◌∷◌, ltb, leb, codes, ok, same,
  starts_with,
}
use pydeno.Limits.{negsuc}
use pydeno.Pool.Numbers.{digits}
use pydeno.Output.Console.{str, int, undefined, inert}
use pydeno.Output.Utf8.{is_encodable, cut_utf8, longest_prefix, cut_utf8-longest_prefix}
use pydeno.Output.Capture.{many, one, init, is_stdout, print, stdout, stderr, truncated, size_of}
use pydeno.Output.Capture.Shown.{
  Printed, printed, print_all, lines_where, is_stderr, shown, print_all-shown,
}
use pydeno.Output.Capture.Bounds.{IsInert, capture, capture_bounds, too_long}
use pydeno.Output.Capture.Bounds
use pydeno.Output.Jsonable.{
  Value, json_null, array, then_json, empty, to_jsonable, list, cons, nil, nonfinite,
}
use pydeno.Output.Jsonable.Depth.{is_ok, depth_of, to_jsonable_depth}
use pydeno.Output.Failure.{error_type, javascript, host, encode_error, capture_result}
use pydeno.Output.Failure.Names.{IsCaptured, capture_result-IsCaptured}

-- "a", "é", "€" and "𝄞" are ten bytes; seven hold the first three and a part of the last.
abbrev notes : List ℕ
notes = 0x61 ∷ 0xE9 ∷ 0x20AC ∷ 0x1D11E ∷ []

cut_utf8-longest_prefix_example :
    (cut_utf8 notes 7 ≡ longest_prefix notes 7) × (is_encodable (cut_utf8 notes 7) ≡ true)
cut_utf8-longest_prefix_example = cut_utf8-longest_prefix notes 7 refl

cuts :
    (cut_utf8 notes 7 ≡ 0x61 ∷ 0xE9 ∷ 0x20AC ∷ [])
    × (cut_utf8 notes 10 ≡ notes)
    × (cut_utf8 notes 2 ≡ 0x61 ∷ [])
unfolding cut_utf8
cuts = (refl, refl, refl)

escape : inert (0x1B ∷ 0x5B ∷ 0xA ∷ 0x200B ∷ []) ≡ 0x3F ∷ 0x5B ∷ 0xA ∷ 0x3F ∷ []
unfolding inert
escape = refl

abbrev calls : List Printed
calls =
    printed (codes "log") (many (str (codes "ab") ∷ int (negsuc 2) ∷ []))
    ∷ printed (codes "warn") (one undefined)
    ∷ printed (codes "info") (one (str (codes "cde")))
    ∷ []

print_all-shown_example :
    (stdout (print_all calls (init 8)) ≡ shown 8 (lines_where is_stdout calls))
    × (stderr (print_all calls (init 8)) ≡ shown 8 (lines_where is_stderr calls))
    × (truncated (print_all calls (init 8)) ≡ (
        ltb 8 (size_of (lines_where is_stdout calls))
        || ltb 8 (size_of (lines_where is_stderr calls))))
print_all-shown_example = print_all-shown 8 calls

printed_lines :
    (stdout (print_all calls (init 8)) ≡ codes "ab -3\ncd\n[truncated]\n")
    × (stdout (print_all calls (init 20)) ≡ codes "ab -3\ncde\n")
    × (stderr (print_all calls (init 20)) ≡ codes "undefined\n")
unfolding stdout stderr print init same digits
printed_lines = (refl, refl, refl)

abbrev events : List Bounds.Event
events = Bounds.printed (codes "log") (one (str (0x1B ∷ []))) ∷ too_long (codes "log") ∷ []

capture_bounds_example :
    (size_of (stdout (capture events (init 8))) ≤ 8 + 13)
    × IsInert (stdout (capture events (init 8)))
    × (size_of (stderr (capture events (init 8))) ≤ 8 + 13)
    × IsInert (stderr (capture events (init 8)))
capture_bounds_example = capture_bounds 8 events

abbrev nested : Value
nested = list (cons (list nil) (cons nonfinite nil))

to_jsonable_depth_example : is_ok (to_jsonable (λ _. []) 0 nested) ≡ leb (depth_of nested) 200
to_jsonable_depth_example = to_jsonable_depth (λ _. []) nested

nested_json :
    to_jsonable (λ _. []) 0 nested
    ≡ ok (array (then_json (array empty) (then_json json_null empty)))
unfolding to_jsonable
nested_json = refl

error_types :
    (error_type (javascript none (codes "WorkerCrashed: no")) ≡ codes "Error")
    × (error_type (javascript none (codes "Evaluation failed: Uncaught TypeError: x"))
        ≡ codes "TypeError")
    × (error_type (host none (codes "OSError") []) ≡ codes "OSError")
unfolding error_type same starts_with
error_types = (refl, refl, refl)

abbrev too_big : List ℕ
too_big = codes "the result is too large"

capture_result-IsCaptured_example :
    IsCaptured
      (λ _. some 3)
      2
      8
      (ok nested)
      (capture_result (λ _. []) (λ _. some 3) too_big (init 8) (ok nested) 2)
unfolding init
capture_result-IsCaptured_example =
    capture_result-IsCaptured (λ _. []) (λ _. some 3) too_big (init 8) (ok nested) 2 refl

-- A lone surrogate in the message of an exception.
surrogate :
    capture_result
      (λ _. [])
      (λ _. some 3)
      too_big
      (init 8)
      (err (host none (codes "OSError") (0xD800 ∷ [])))
      2
    ≡ err encode_error
unfolding capture_result
surrogate = refl
