-- ===== src/Output/Capture.antt =====
-- python/pydeno/_result.py: `OutputCapture`, the two capped streams of one run.
pub mod Prefix
pub mod Keeps
pub mod Shown
pub mod Bounds
use pydeno.Prelude.{
  ℕ, ◌+◌, ◌-◌, Bool, true, false, ◌&&◌, ◌||◌, not, Option, none, some, List, [], ◌∷◌, ◌++◌, leb,
  ◌==◌, if◌then◌else◌, codes, length, same, is_empty, Result, ok, err, ◌>>=◌,
}
use pydeno.Limits.{ℤ, pos, Count, LimitError, type_error, max_wire_int, limit_int}
use pydeno.Output.Console.{Text, Arg, inert, join_args}
use pydeno.Output.Utf8.{encode, cut_utf8}

or_type_error : Option ℤ → Result LimitError ℤ
or_type_error none = err type_error
or_type_error (some n) = ok n

-- `check_limit`
unfoldable pub check_limit : Count → Result LimitError ℤ
unfolding limit_int or_type_error
check_limit value = limit_int (pos 1) (pos max_wire_int) value >>= λ limit. or_type_error limit

-- `_Stream`; `parts` joined are the text so far.
pub record Stream : Type 0 where
  pub parts : List Text
  pub size : ℕ
  pub cut : Bool

abbrev pub empty_stream : Stream
empty_stream = record { parts = []; size = 0; cut = false }

pub record OutputCapture : Type 0 where
  pub max_bytes : ℕ
  pub out : Stream
  pub err : Stream

-- `__init__`, behind its check of the cap
unfoldable pub init : ℕ → OutputCapture
init max_output_bytes = record {
  max_bytes = max_output_bytes;
  out = empty_stream;
  err = empty_stream;
}

-- `len(text.encode("utf-8"))`
unfoldable pub size_of : Text → ℕ
unfolding encode
size_of text = length (encode text)

-- `if head: ...`, and the end of the stream.
unfoldable pub cut_at_room : Text → Stream → Stream
unfolding size_of
cut_at_room head stream =
    if is_empty head
    then record stream { cut = true }
    else record { parts = stream.parts ++ head ∷ []; size = stream.size + size_of head; cut = true }

-- The critical section of `__call__`.
unfoldable pub add_line : ℕ → Text → Stream → Stream
unfolding cut_at_room cut_utf8
add_line max_bytes line stream =
    if stream.cut
    then stream
    else if leb (size_of line) (max_bytes - stream.size)
    then record stream { parts = stream.parts ++ line ∷ []; size = stream.size + size_of line }
    else cut_at_room (cut_utf8 line (max_bytes - stream.size)) stream

-- The arguments of a call: a list or a tuple, or one value.
pub data Args : Type 0 where
  many : List Arg → Args
  one : Arg → Args

abbrev pub listed : Args → List Arg
listed (many args) = args
listed (one arg) = arg ∷ []

unfoldable pub line_of : Args → Text
unfolding inert join_args
line_of args = inert (join_args (listed args)) ++ b'\n' ∷ []

-- `level in _STDOUT_LEVELS`
unfoldable pub is_stdout : Text → Bool
is_stdout level =
    same level (codes "log") || (same level (codes "info") || same level (codes "debug"))

-- `__call__` on its stream, with the test before the line is formatted
unfoldable pub print_on : ℕ → Args → Stream → Stream
unfolding add_line line_of
print_on max_bytes args stream =
    if stream.cut then stream else add_line max_bytes (line_of args) stream

-- `__call__`
unfoldable pub print : Text → Args → OutputCapture → OutputCapture
unfolding print_on is_stdout
print level args c =
    if is_stdout level
    then record c { out = print_on c.max_bytes args c.out }
    else record c { err = print_on c.max_bytes args c.err }

unfoldable pub mark_cut : Text → OutputCapture → OutputCapture
unfolding is_stdout
mark_cut level c =
    if is_stdout level
    then record c { out = record c.out { cut = true } }
    else record c { err = record c.err { cut = true } }

abbrev pub join : List Text → Text
join [] = []
join (text ∷ texts) = text ++ join texts

abbrev pub ends_with : ℕ → Text → Bool
ends_with c [] = false
ends_with c (x ∷ []) = x == c
ends_with c (x ∷ xs) = ends_with c xs

abbrev pub truncated_marker : Text
truncated_marker = codes "[truncated]"

-- `_text`, of the parts joined
abbrev pub closed : Text → Text
closed text =
    (if not (is_empty text) && not (ends_with b'\n' text) then text ++ b'\n' ∷ [] else text)
    ++ (truncated_marker ++ b'\n' ∷ [])

unfoldable pub text_of : Stream → Text
text_of stream = if stream.cut then closed (join stream.parts) else join stream.parts

unfoldable pub stdout : OutputCapture → Text
unfolding text_of
stdout c = text_of c.out

unfoldable pub stderr : OutputCapture → Text
unfolding text_of
stderr c = text_of c.err

unfoldable pub truncated : OutputCapture → Bool
truncated c = c.out.cut || c.err.cut
