-- ===== src/Output/Capture/Bounds.antt =====
-- How much `OutputCapture` of python/pydeno/_result.py shows, and which characters.
use pydeno.Prelude.{
  ℕ, ◌+◌, ◌-◌, ◌≤◌, ◌≡◌, refl, sym, ap, ◌∙◌, Bool, true, false, not, ◌&&◌, List, [], ◌∷◌, ◌++◌, leb,
  if◌then◌else◌, length, arith, leb→le, is_empty, if_both, All, All-append, subst,
}
use pydeno.Output.Console.{Text, is_control, inert, join_args}
use pydeno.Output.Utf8.{cut_utf8_lem, longest_prefix, encode_char}
use pydeno.Output.Capture.{
  Stream, empty_stream, OutputCapture, init, size_of, cut_at_room, add_line, Args, listed, line_of,
  is_stdout, print_on, print, mark_cut, join, closed, ends_with, truncated_marker, text_of, stdout,
  stderr,
}
use pydeno.Output.Capture.Keeps.{join-snoc}
use pydeno.Output.Capture.Prefix.{size_of-append, size_of-longest_prefix, size_of-nil}

abbrev pub IsInert : Text → Type 0
IsInert text = All (λ c. is_control c ≡ false) text

question : is_control b'?' ≡ false
unfolding is_control
question = refl

inert_char : (c : ℕ) → is_control (if is_control c then b'?' else c) ≡ false
inert_char c = if_both (λ x. is_control x ≡ false) (is_control c) b'?' c (λ _. question) (λ e. e)

inert-IsInert : (text : Text) → IsInert (inert text)
unfolding inert
inert-IsInert [] = tt
inert-IsInert (c ∷ text) = (inert_char c, inert-IsInert text)

line_of-IsInert : (args : Args) → IsInert (line_of args)
unfolding line_of is_control
line_of-IsInert args =
    All-append (λ c. is_control c ≡ false) (inert (join_args (listed args))) (b'\n' ∷ [])
      (inert-IsInert (join_args (listed args))) (refl, tt)

longest_prefix-IsInert : (text : Text) (n : ℕ) → IsInert text → IsInert (longest_prefix text n)
unfolding longest_prefix
longest_prefix-IsInert [] n h = tt
longest_prefix-IsInert (c ∷ text) n h =
    if_both IsInert (leb (length (encode_char c)) n)
      (c ∷ longest_prefix text (n - length (encode_char c))) []
      (λ _. (h.0, longest_prefix-IsInert text (n - length (encode_char c)) h.1)) (λ _. tt)

tail_size : size_of (truncated_marker ++ b'\n' ∷ []) ≡ 12
unfolding size_of
tail_size = refl

newline_size : size_of (b'\n' ∷ []) ≡ 1
unfolding size_of
newline_size = refl

tail-IsInert : IsInert (truncated_marker ++ b'\n' ∷ [])
unfolding inert
tail-IsInert = inert-IsInert (truncated_marker ++ b'\n' ∷ [])

newline-IsInert : IsInert (b'\n' ∷ [])
unfolding is_control
newline-IsInert = (refl, tt)

closed_bounds :
    (text : Text) (n : ℕ)
    → size_of text ≤ n
    → IsInert text
    → (size_of (closed text) ≤ n + 13) × IsInert (closed text)
closed_bounds text n fits clean =
    let tail = truncated_marker ++ b'\n' ∷ [] in
    let ended =
      if not (is_empty text) && not (ends_with b'\n' text) then text ++ b'\n' ∷ [] else text in
    let body : (size_of ended ≤ n + 1) × IsInert ended =
      if_both (λ t. (size_of t ≤ n + 1) × IsInert t)
        (not (is_empty text) && not (ends_with b'\n' text)) (text ++ b'\n' ∷ []) text
        (λ _. (
          omega (arith, size_of-append text (b'\n' ∷ []), newline_size),
          All-append (λ c. is_control c ≡ false) text (b'\n' ∷ []) clean newline-IsInert,
        ))
        (λ _. (omega (arith, fits), clean)) in
    (
      omega (arith, body.0, size_of-append ended tail, tail_size),
      All-append (λ c. is_control c ≡ false) ended tail body.1 tail-IsInert,
    )

-- A stream within its cap.
pub record IsBounded (max_bytes : ℕ) (s : Stream) : Type 0 where
  pub sized : s.size ≡ size_of (join s.parts)
  pub within : s.size ≤ max_bytes
  pub is_inert : IsInert (join s.parts)

module _ (max_bytes : ℕ) (s : Stream) (h : IsBounded max_bytes s) where
  adds :
      (text : Text) (cut : Bool)
      → size_of text ≤ max_bytes - s.size
      → IsInert text
      → IsBounded max_bytes
          (record { parts = s.parts ++ text ∷ []; size = s.size + size_of text; cut = cut })
  adds text cut fits clean = record {
    sized =
        ap (λ n. n + size_of text) h.sized
        ∙ sym (ap size_of (join-snoc s.parts text) ∙ size_of-append (join s.parts) text);
    within = omega (arith, h.within);
    is_inert =
        subst IsInert (sym (join-snoc s.parts text))
          (All-append (λ c. is_control c ≡ false) (join s.parts) text h.is_inert clean);
  }

  -- Ending a stream keeps what it holds.
  ends : IsBounded max_bytes (record s { cut = true })
  ends = record { sized = h.sized; within = h.within; is_inert = h.is_inert }

  adds_head :
      (head : Text)
      → size_of head ≤ max_bytes - s.size
      → IsInert head
      → IsBounded max_bytes (cut_at_room head s)
  unfolding cut_at_room
  adds_head head fits clean =
      if_both (IsBounded max_bytes) (is_empty head) _ _ (λ _. ends) (λ _. adds head true fits clean)

  adds_line : (line : Text) → IsInert line → IsBounded max_bytes (add_line max_bytes line s)
  unfolding add_line
  adds_line line clean =
      let room = max_bytes - s.size in
      if_both (IsBounded max_bytes) s.cut _ _ (λ _. h)
        (λ _.
          if_both (IsBounded max_bytes) (leb (size_of line) room) _ _
            (λ f. adds line s.cut (leb→le _ _ f) clean)
            (λ _.
              subst (λ t. IsBounded max_bytes (cut_at_room t s)) (sym (cut_utf8_lem line room))
                (adds_head (longest_prefix line room) (size_of-longest_prefix line room)
                  (longest_prefix-IsInert line room clean))))

  prints : (args : Args) → IsBounded max_bytes (print_on max_bytes args s)
  unfolding print_on
  prints args =
      if_both (IsBounded max_bytes) s.cut _ _ (λ _. h)
        (λ _. adds_line (line_of args) (line_of-IsInert args))

  text_of_bounds : (size_of (text_of s) ≤ max_bytes + 13) × IsInert (text_of s)
  unfolding text_of
  text_of_bounds =
      let held : size_of (join s.parts) ≤ max_bytes = subst (λ n. n ≤ max_bytes) h.sized h.within in
      if_both (λ t. (size_of t ≤ max_bytes + 13) × IsInert t) s.cut _ _
        (λ _. closed_bounds (join s.parts) max_bytes held h.is_inert)
        (λ _. (omega (arith, held), h.is_inert))

empty-IsBounded : (max_bytes : ℕ) → IsBounded max_bytes empty_stream
empty-IsBounded max_bytes = record { sized = sym size_of-nil; within = omega arith; is_inert = tt }

-- What the worker's thread and the host do to a capture: a console call, or a line that was too long.
pub data Event : Type 0 where
  printed : Text → Args → Event
  too_long : Text → Event

abbrev pub capture : List Event → OutputCapture → OutputCapture
capture [] c = c
capture (printed level args ∷ events) c = capture events (print level args c)
capture (too_long level ∷ events) c = capture events (mark_cut level c)

abbrev AreBounded : ℕ → OutputCapture → Type 0
AreBounded max_bytes c =
    (c.max_bytes ≡ max_bytes) × IsBounded max_bytes c.out × IsBounded max_bytes c.err

module _ (max_bytes : ℕ) where
  print-AreBounded :
      (level : Text) (args : Args) (c : OutputCapture)
      → AreBounded max_bytes c
      → AreBounded max_bytes (print level args c)
  unfolding print
  print-AreBounded level args c h =
      if_both (AreBounded max_bytes) (is_stdout level) _ _
        (λ _. (
          h.0,
          subst (λ n. IsBounded max_bytes (print_on n args c.out)) (sym h.0)
              (prints max_bytes c.out h.1 args),
          h.2,
        ))
        (λ _. (
          h.0,
          h.1,
          subst (λ n. IsBounded max_bytes (print_on n args c.err)) (sym h.0)
              (prints max_bytes c.err h.2 args),
        ))

  mark_cut-AreBounded :
      (level : Text) (c : OutputCapture)
      → AreBounded max_bytes c
      → AreBounded max_bytes (mark_cut level c)
  unfolding mark_cut
  mark_cut-AreBounded level c h =
      if_both (AreBounded max_bytes) (is_stdout level) _ _
        (λ _. (h.0, ends max_bytes c.out h.1, h.2)) (λ _. (h.0, h.1, ends max_bytes c.err h.2))

  capture-AreBounded :
      (events : List Event) (c : OutputCapture)
      → AreBounded max_bytes c
      → AreBounded max_bytes (capture events c)
  capture-AreBounded [] c h = h
  capture-AreBounded (printed level args ∷ events) c h =
      capture-AreBounded events (print level args c) (print-AreBounded level args c h)
  capture-AreBounded (too_long level ∷ events) c h =
      capture-AreBounded events (mark_cut level c) (mark_cut-AreBounded level c h)

-- Whatever a guest prints, and in whatever order its calls and the marks of lines that were too long
-- arrive: each stream shows at most `max_output_bytes` bytes of UTF-8 and 13 more, the marker's line, and
-- holds none of the characters of `_CONTROL`: no escape, no carriage return, no bidirectional control and
-- nothing invisible.
pub capture_bounds :
    (max_output_bytes : ℕ) (events : List Event)
    → (size_of (stdout (capture events (init max_output_bytes))) ≤ max_output_bytes + 13)
      × IsInert (stdout (capture events (init max_output_bytes)))
      × (size_of (stderr (capture events (init max_output_bytes))) ≤ max_output_bytes + 13)
      × IsInert (stderr (capture events (init max_output_bytes)))
unfolding stdout stderr init
capture_bounds max_output_bytes events =
    let start = init max_output_bytes in
    let h =
      capture-AreBounded max_output_bytes events start
        (refl, empty-IsBounded max_output_bytes, empty-IsBounded max_output_bytes) in
    let c = capture events start in
    let (out_size, out_inert) = text_of_bounds max_output_bytes c.out h.1 in
    let (err_size, err_inert) = text_of_bounds max_output_bytes c.err h.2 in
    (out_size, out_inert, err_size, err_inert)
