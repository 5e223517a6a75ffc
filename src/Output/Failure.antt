-- ===== src/Output/Failure.antt =====
-- python/pydeno/_result.py: the name and the message of a failure, and `ExecutionResult`.
pub mod Names
use pydeno.Prelude.{
  ℕ, zero, suc, ◌+◌, ◌-◌, Bool, true, false, ◌&&◌, ◌||◌, not, Option, none, some, List, [], ◌∷◌,
  ◌++◌, ltb, leb, ◌==◌, same, if◌then◌else◌, codes, starts_with, drop, length, is_empty, String,
  Result, ok, err,
}
use pydeno.Output.Console.{Text}
use pydeno.Output.Utf8.{is_encodable, cut_utf8}
use pydeno.Output.Capture.{OutputCapture, size_of, truncated_marker, stdout, stderr, truncated}
use pydeno.Output.Jsonable.{Value, Json, to_jsonable}

-- `_HOST_ONLY`
abbrev pub host_only : List String
host_only =
    "ResultTooLarge" ∷ "RuntimeTimeout" ∷ "RuntimeTerminated" ∷ "RuntimeForceKilled"
    ∷ "WorkerCrashed" ∷ "JournalError" ∷ "ReplayDivergence" ∷ []

abbrev pub among : Text → List String → Bool
among name [] = false
among name (other ∷ names) = same name (codes other) || among name names

-- An exception: a `JavaScriptError` with its attribute `name`, where that is a text, or another with the
-- `error_type` of its class, where that is a text, and the name of the class.
pub data Exception : Type 0 where
  javascript : Option Text → Text → Exception
  host : Option Text → Text → Text → Exception

-- `text.removeprefix(prefix)`
unfoldable pub removeprefix : Text → Text → Text
removeprefix prefix text = if starts_with prefix text then drop (length prefix) text else text

abbrev pub is_letter : ℕ → Bool
is_letter c = leb b'A' c && leb c b'Z' || (leb b'a' c && leb c b'z')

-- `[A-Za-z_$]` and `[A-Za-z0-9_$]`
abbrev pub starts_name : ℕ → Bool
starts_name c = is_letter c || (c == b'_' || c == b'$')

abbrev pub in_name : ℕ → Bool
in_name c = starts_name c || leb b'0' c && leb c b'9'

-- `(?::|$)`: a colon, the end, or a last line feed.
abbrev pub name_ends : Text → Bool
name_ends [] = true
name_ends (c ∷ []) = c == b':' || c == b'\n'
name_ends (c ∷ text) = c == b':'

-- `[A-Za-z0-9_$]{0,room}(?::|$)`. A character of a name ends none, so only the longest match counts.
abbrev pub rest_of_name : ℕ → Text → Option Text
rest_of_name room [] = some []
rest_of_name zero (c ∷ text) = if name_ends (c ∷ text) then some [] else none
rest_of_name (suc room) (c ∷ text) =
    let rest = rest_of_name room text in
    if in_name c
    then elim rest [ none ↦ none | some name ↦ some (c ∷ name) ]
    else if name_ends (c ∷ text)
    then some []
    else none

abbrev pub name_at : Text → Option Text
name_at [] = none
name_at (c ∷ text) =
    if starts_name c
    then elim (rest_of_name 63 text) [ none ↦ none | some name ↦ some (c ∷ name) ]
    else none

-- `_GUEST_ERROR.match(text)`: with `Uncaught `, or else without.
unfoldable pub guest_error : Text → Option Text
guest_error text =
    if starts_with (codes "Uncaught ") text
    then elim (name_at (drop 9 text)) [ some name ↦ some name | none ↦ name_at text ]
    else name_at text

abbrev pub eval_prefix : Text
eval_prefix = codes "Evaluation failed: "

-- The name that a guest's error goes by.
unfoldable pub guest_name : Option Text → Text → Text
unfolding guest_error removeprefix
guest_name (some (c ∷ name)) message = c ∷ name
guest_name _ message = elim (guest_error (removeprefix eval_prefix message)) [
  | some name ↦ name
  | none ↦ codes "Error"
]

unfoldable pub error_type : Exception → Text
unfolding guest_name
error_type (javascript name message) =
    if among (guest_name name message) host_only then codes "Error" else guest_name name message
error_type (host (some declared) class message) = declared
error_type (host none class message) = class

abbrev pub or_class : Text → Text → Text
or_class text class = if is_empty text then class else text

unfoldable pub error_message : Exception → Text
unfolding removeprefix
error_message (javascript name message) =
    or_class (removeprefix eval_prefix message) (codes "JavaScriptError")
error_message (host declared class message) = or_class message class

pub record ExecutionResult : Type 0 where
  pub succeeded : Bool
  pub stdout_text : Text
  pub stderr_text : Text
  pub result : Option Json
  pub error : Option Text
  pub error_name : Option Text
  pub was_truncated : Bool

-- The message within its cap, and whether it was cut.
unfoldable pub cut_message : ℕ → Text → Text
unfolding cut_utf8 size_of
cut_message max_error_bytes message =
    if ltb max_error_bytes (size_of message)
    then cut_utf8 message max_error_bytes ++ b' ' ∷ truncated_marker
    else message

-- UnicodeEncodeError, which `message.encode("utf-8")` raises
pub data EncodeError : Type 0 where
  encode_error : EncodeError

unfoldable pub failed_result :
    Exception → Text → Text → Bool → ℕ → Result EncodeError ExecutionResult
unfolding error_type error_message cut_message size_of
failed_result exc printed warned was_truncated max_error_bytes =
    if is_encodable (error_message exc)
    then ok (record {
      succeeded = false;
      stdout_text = printed;
      stderr_text = warned;
      result = none;
      error = some (cut_message max_error_bytes (error_message exc));
      error_name = some (error_type exc);
      was_truncated = ltb max_error_bytes (size_of (error_message exc)) || was_truncated;
    })
    else err encode_error

-- `bounded_result`, with the size that `json_size` finds, none where it raises; the message of a
-- `ResultTooLarge` is a parameter. A size that cannot be found for a lone surrogate is among those where it
-- raises, since a UnicodeEncodeError is a ValueError.
unfoldable pub bounded_result :
    (Json → Text) → (Json → Option ℕ) → Text → Value → ℕ → Result Exception Json
unfolding to_jsonable
bounded_result dumps json_size message value max_result_bytes = elim (to_jsonable dumps 0 value) [
  | err _ ↦ err (host (some (codes "ResultTooLarge")) (codes "ResultTooLarge") message)
  | ok json ↦ elim (json_size json) [
    | none ↦ err (host (some (codes "ResultTooLarge")) (codes "ResultTooLarge") message)
    | some size ↦
        if ltb max_result_bytes size
        then err (host (some (codes "ResultTooLarge")) (codes "ResultTooLarge") message)
        else ok json
  ]
]

abbrev pub result_of : OutputCapture → Result Exception Json → Result EncodeError ExecutionResult
result_of capture (ok json) = ok (record {
  succeeded = true;
  stdout_text = stdout capture;
  stderr_text = stderr capture;
  result = some json;
  error = none;
  error_name = none;
  was_truncated = truncated capture;
})
result_of capture (err exc) =
    failed_result exc (stdout capture) (stderr capture) (truncated capture) capture.max_bytes

-- `capture_result`: of a value, or of the exception that the run raised.
unfoldable pub capture_result :
    (Json → Text)
    → (Json → Option ℕ)
    → Text
    → OutputCapture
    → Result Exception Value
    → ℕ
    → Result EncodeError ExecutionResult
unfolding bounded_result failed_result stdout stderr truncated
capture_result dumps json_size message capture (err exc) max_result_bytes =
    result_of capture (err exc)
capture_result dumps json_size message capture (ok value) max_result_bytes =
    result_of capture (bounded_result dumps json_size message value max_result_bytes)
