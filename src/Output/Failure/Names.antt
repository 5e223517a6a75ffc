-- ===== src/Output/Failure/Names.antt =====
-- What `capture_result` and `error_type` of python/pydeno/_result.py leave to the guest.
use pydeno.Prelude.{
  ℕ, ◌+◌, ◌≤◌, ◌≡◌, refl, sym, subst, true, false, Option, none, some, ◌∷◌, ltb, if◌then◌else◌,
  codes, arith, if_both, Result, ok, err, same, is_empty,
}
use pydeno.Output.Console.{Text}
use pydeno.Output.Utf8.{is_encodable, cut_utf8, cut_utf8_lem}
use pydeno.Output.Capture.{OutputCapture, size_of, truncated_marker}
use pydeno.Output.Capture.Keeps.{not_ltb}
use pydeno.Output.Capture.Prefix.{size_of-append, size_of-longest_prefix}
use pydeno.Output.Jsonable.{Value, Json, TooDeep, to_jsonable}
use pydeno.Output.Failure.{
  Exception, javascript, host, host_only, among, guest_name, error_type, error_message, cut_message,
  or_class, EncodeError, ExecutionResult, failed_result, result_of, capture_result,
}

error_is_free : among (codes "Error") host_only ≡ false
unfolding same
error_is_free = refl

-- Whatever name and message a guest gives the error that it throws, `error_type` reports none of the
-- names that only the host may report.
pub error_type_guest :
    (name : Option Text) (message : Text)
    → among (error_type (javascript name message)) host_only ≡ false
unfolding error_type
error_type_guest name message =
    if_both (λ t. among t host_only ≡ false) (among (guest_name name message) host_only)
      (codes "Error") (guest_name name message) (λ _. error_is_free) (λ e. e)

tail_size : size_of (b' ' ∷ truncated_marker) ≡ 12
unfolding size_of
tail_size = refl

cut_message_bounds :
    (max_error_bytes : ℕ) (message : Text)
    → size_of (cut_message max_error_bytes message) ≤ max_error_bytes + 12
unfolding cut_message
cut_message_bounds max_error_bytes message =
    if_both (λ t. size_of t ≤ max_error_bytes + 12) (ltb max_error_bytes (size_of message)) _ _
      (λ _.
        let head = cut_utf8 message max_error_bytes in
        let fits : size_of head ≤ max_error_bytes =
          subst (λ t. size_of t ≤ max_error_bytes) (sym (cut_utf8_lem message max_error_bytes))
            (size_of-longest_prefix message max_error_bytes) in
        omega (arith, size_of-append head (b' ' ∷ truncated_marker), tail_size, fits))
      (λ e. let h = not_ltb max_error_bytes (size_of message) e in omega (arith, h))

-- A fact of what is there.
abbrev pub AllSome {ℓ κ} : {A : Type ℓ} → (A → Type κ) → Option A → Type κ
AllSome P none = Unit
AllSome P (some a) = P a

-- A size is known, and within a cap.
abbrev pub IsWithin : ℕ → Option ℕ → Type 0
IsWithin max_bytes none = ⊥
IsWithin max_bytes (some size) = size ≤ max_bytes

-- A result that succeeded has a value and no error, one that failed an error with a name and no value.
abbrev pub IsWhole : ExecutionResult → Type 0
IsWhole r = elim r.succeeded [
  | true ↦ ((json : Json) × (r.result ≡ some json)) × (r.error ≡ none) × (r.error_name ≡ none)
  | false ↦
      (r.result ≡ none)
      × ((text : Text) × (r.error ≡ some text))
      × ((name : Text) × (r.error_name ≡ some name))
]

abbrev pub IsBounded : (Json → Option ℕ) → ℕ → ℕ → ExecutionResult → Type 0
IsBounded json_size max_result_bytes max_error_bytes r =
    IsWhole r
    × AllSome (λ json. IsWithin max_result_bytes (json_size json)) r.result
    × AllSome (λ text. size_of text ≤ max_error_bytes + 12) r.error

-- A run that was captured, or whose exception has a message that cannot be encoded.
abbrev pub IsCaptured :
    (Json → Option ℕ) → ℕ → ℕ → Result Exception Value → Result EncodeError ExecutionResult → Type 0
IsCaptured json_size max_result_bytes max_error_bytes outcome (ok r) =
    IsBounded json_size max_result_bytes max_error_bytes r
IsCaptured json_size max_result_bytes max_error_bytes outcome (err e) =
    (exc : Exception) × (outcome ≡ err exc) × (is_encodable (error_message exc) ≡ false)

module _ (json_size : Json → Option ℕ) (message : Text) (capture : OutputCapture)
    (max_result_bytes : ℕ) where
  failed-IsCaptured :
      (exc : Exception)
      → IsCaptured json_size max_result_bytes capture.max_bytes
          (err exc)
          (result_of capture (err exc))
  unfolding failed_result
  failed-IsCaptured exc =
      if_both (IsCaptured json_size max_result_bytes capture.max_bytes (err exc))
        (is_encodable (error_message exc)) _ _
        (λ _. (
          (refl, (_, refl), (_, refl)),
          tt,
          cut_message_bounds capture.max_bytes (error_message exc),
        ))
        (λ e. (exc, refl, e))

  -- `ResultTooLarge`
  too_large : Exception
  too_large = host (some (codes "ResultTooLarge")) (codes "ResultTooLarge") message

  or_class-is_encodable :
      is_encodable message ≡ true → is_encodable (or_class message (codes "ResultTooLarge")) ≡ true
  or_class-is_encodable h =
      if_both (λ t. is_encodable t ≡ true) (is_empty message) _ _ (λ _. refl) (λ _. h)

  refused-IsCaptured :
      (value : Value)
      → is_encodable message ≡ true
      → IsCaptured json_size max_result_bytes capture.max_bytes
          (ok value)
          (result_of capture (err too_large))
  unfolding failed_result too_large error_message
  refused-IsCaptured value h = rw (or_class-is_encodable h) (
    (refl, (_, refl), (_, refl)),
    tt,
    cut_message_bounds capture.max_bytes (or_class message (codes "ResultTooLarge")),
  )

  sized-IsCaptured :
      (value : Value) (json : Json) (size : Option ℕ)
      → is_encodable message ≡ true
      → json_size json ≡ size
      → IsCaptured json_size max_result_bytes capture.max_bytes (ok value) (
          result_of capture (elim size [
            | none ↦ err too_large
            | some n ↦ if ltb max_result_bytes n then err too_large else ok json
          ]))
  sized-IsCaptured value json none h e = refused-IsCaptured value h
  sized-IsCaptured value json (some n) h e =
      if_both
        (λ r.
          IsCaptured json_size max_result_bytes capture.max_bytes (ok value) (result_of capture r))
        (ltb max_result_bytes n) (err too_large) (ok json) (λ _. refused-IsCaptured value h)
        (λ f. (
          ((json, refl), refl, refl),
          subst (IsWithin max_result_bytes) (sym e) (not_ltb max_result_bytes n f),
          tt,
        ))

  outcome-IsCaptured :
      (value : Value) (r : Result TooDeep Json)
      → is_encodable message ≡ true
      → IsCaptured json_size max_result_bytes capture.max_bytes (ok value) (
          result_of capture (elim r [
            | err _ ↦ err too_large
            | ok json ↦ elim (json_size json) [
              | none ↦ err too_large
              | some n ↦ if ltb max_result_bytes n then err too_large else ok json
            ]
          ]))
  outcome-IsCaptured value (err e) h = refused-IsCaptured value h
  outcome-IsCaptured value (ok json) h = sized-IsCaptured value json (json_size json) h refl

-- Of a run that returns a value, and of one that raises an exception whose message has no lone surrogate,
-- `capture_result` gives a result; it raises a UnicodeEncodeError only for an exception whose message has
-- one. A result either succeeded, with a value and neither an error nor its name, or failed, with both and
-- no value. A value that is returned is JSON data of at most `max_result_bytes`, as `json_size` measures
-- it, and a message is at most `max_output_bytes` long in UTF-8 and the 12 bytes of the marker. The text of
-- a ResultTooLarge has no lone surrogate.
pub capture_result-IsCaptured :
    (dumps : Json → Text) (json_size : Json → Option ℕ) (message : Text) (capture : OutputCapture)
    (outcome : Result Exception Value) (max_result_bytes : ℕ)
    → is_encodable message ≡ true
    → IsCaptured json_size max_result_bytes capture.max_bytes outcome
        (capture_result dumps json_size message capture outcome max_result_bytes)
unfolding capture_result too_large
capture_result-IsCaptured dumps json_size message capture (err exc) max_result_bytes h =
    failed-IsCaptured json_size message capture max_result_bytes exc
capture_result-IsCaptured dumps json_size message capture (ok value) max_result_bytes h =
    outcome-IsCaptured json_size message capture max_result_bytes value (to_jsonable dumps 0 value)
      h
