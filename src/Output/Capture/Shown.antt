-- ===== src/Output/Capture/Shown.antt =====
-- What `OutputCapture` of python/pydeno/_result.py shows of a run: its console calls, in order, on two
-- streams.
use pydeno.Prelude.{
  ℕ, ◌≡◌, refl, sym, ap, ◌∙◌, Bool, true, false, not, ◌||◌, List, [], ◌∷◌, ◌++◌, ltb, if◌then◌else◌,
  append-nil, append_assoc, subst,
}
use pydeno.Output.Console.{Text}
use pydeno.Output.Utf8.{cut_utf8, cut_utf8_lem}
use pydeno.Output.Capture.{
  Stream, OutputCapture, init, size_of, Args, line_of, is_stdout, print_on, print, join, closed,
  text_of, stdout, stderr, truncated,
}
use pydeno.Output.Capture.Keeps.{not_ltb, IsCapped, empty-IsCapped, print_on-IsCapped}
use pydeno.Output.Capture.Prefix.{longest_prefix_fits}

-- A console call: its level and its arguments.
pub data Printed : Type 0 where
  printed : Text → Args → Printed

-- The lines of the calls whose level a test takes.
abbrev pub lines_where : (Text → Bool) → List Printed → Text
lines_where on [] = []
lines_where on (printed level args ∷ calls) =
    (if on level then line_of args else []) ++ lines_where on calls

abbrev pub is_stderr : Text → Bool
is_stderr level = not (is_stdout level)

abbrev pub print_all : List Printed → OutputCapture → OutputCapture
print_all [] c = c
print_all (printed level args ∷ calls) c = print_all calls (print level args c)

-- What is shown of a text: all of it, or what fits and the marker.
abbrev pub shown : ℕ → Text → Text
shown max_bytes all = if ltb max_bytes (size_of all) then closed (cut_utf8 all max_bytes) else all

record BothCapped (max_bytes : ℕ) (out err : Text) (c : OutputCapture) : Type 0 where
  cap : c.max_bytes ≡ max_bytes
  on_out : IsCapped max_bytes out c.out
  on_err : IsCapped max_bytes err c.err

module _ (max_bytes : ℕ) where
  printed_on :
      (all : Text) (args : Args) (cap : ℕ) (s : Stream)
      → cap ≡ max_bytes
      → IsCapped max_bytes all s
      → IsCapped max_bytes (all ++ line_of args) (print_on cap args s)
  printed_on all args cap s e h =
      subst (λ n. IsCapped max_bytes (all ++ line_of args) (print_on n args s)) (sym e)
        (print_on-IsCapped max_bytes all args s h)

  print_case :
      (b : Bool) (out err : Text) (args : Args) (c : OutputCapture)
      → BothCapped max_bytes out err c
      → BothCapped max_bytes
          (out ++ (if b then line_of args else []))
          (err ++ (if not b then line_of args else []))
          (if b
            then record c { out = print_on c.max_bytes args c.out }
            else record c { err = print_on c.max_bytes args c.err })
  print_case true out err args c h = record {
    cap = h.cap;
    on_out = printed_on out args c.max_bytes c.out h.cap h.on_out;
    on_err = subst (λ t. IsCapped max_bytes t c.err) (sym (append-nil err)) h.on_err;
  }
  print_case false out err args c h = record {
    cap = h.cap;
    on_out = subst (λ t. IsCapped max_bytes t c.out) (sym (append-nil out)) h.on_out;
    on_err = printed_on err args c.max_bytes c.err h.cap h.on_err;
  }

  print_all-BothCapped :
      (out err : Text) (calls : List Printed) (c : OutputCapture)
      → BothCapped max_bytes out err c
      → BothCapped max_bytes
          (out ++ lines_where is_stdout calls)
          (err ++ lines_where is_stderr calls)
          (print_all calls c)
  unfolding print
  print_all-BothCapped out err [] c h =
      subst (λ t. BothCapped max_bytes t (err ++ []) c) (sym (append-nil out))
        (subst (λ t. BothCapped max_bytes out t c) (sym (append-nil err)) h)
  print_all-BothCapped out err (printed level args ∷ calls) c h =
      let new_out = if is_stdout level then line_of args else [] in
      let new_err = if is_stderr level then line_of args else [] in
      subst
        (λ t.
          BothCapped max_bytes t (err ++ (new_err ++ lines_where is_stderr calls))
            (print_all calls (print level args c)))
        (append_assoc out new_out (lines_where is_stdout calls))
        (subst
          (λ t.
            BothCapped max_bytes ((out ++ new_out) ++ lines_where is_stdout calls) t
              (print_all calls (print level args c)))
          (append_assoc err new_err (lines_where is_stderr calls))
          (print_all-BothCapped (out ++ new_out) (err ++ new_err) calls (print level args c)
            (print_case (is_stdout level) out err args c h)))

  init-BothCapped : BothCapped max_bytes [] [] (init max_bytes)
  unfolding init
  init-BothCapped = record {
    cap = refl;
    on_out = empty-IsCapped max_bytes;
    on_err = empty-IsCapped max_bytes;
  }

same_branches :
    (max_bytes : ℕ) (all : Text) (b : Bool)
    → ltb max_bytes (size_of all) ≡ b
    → (kept : Text) → kept ≡ cut_utf8 all max_bytes
    → (if b then closed kept else kept) ≡ (if b then closed (cut_utf8 all max_bytes) else all)
same_branches max_bytes all true e kept h = ap closed h
same_branches max_bytes all false e kept h =
    h
    ∙ cut_utf8_lem all max_bytes
    ∙ longest_prefix_fits all max_bytes (not_ltb max_bytes (size_of all) e)

text_of-shown :
    (max_bytes : ℕ) (all : Text) (s : Stream)
    → IsCapped max_bytes all s
    → text_of s ≡ shown max_bytes all
unfolding text_of
text_of-shown max_bytes all s h =
    ap (λ b. if b then closed (join s.parts) else join s.parts) h.is_cut
    ∙ same_branches max_bytes all (ltb max_bytes (size_of all)) refl (join s.parts)
        (h.joined ∙ sym (cut_utf8_lem all max_bytes))

-- After the console calls of a run, in any order and of any levels, `stdout` is the lines of the calls
-- to `log`, `info` and `debug` in order, and `stderr` those of all others, if their UTF-8 is at most
-- `max_output_bytes` long; a longer stream is its longest prefix of whole characters within that many
-- bytes, ended by a line with the marker. `truncated` says whether either stream is longer.
pub print_all-shown :
    (max_output_bytes : ℕ) (calls : List Printed)
    → (stdout (print_all calls (init max_output_bytes))
        ≡ shown max_output_bytes (lines_where is_stdout calls))
      × (stderr (print_all calls (init max_output_bytes))
          ≡ shown max_output_bytes (lines_where is_stderr calls))
      × (truncated (print_all calls (init max_output_bytes)) ≡ (
          ltb max_output_bytes (size_of (lines_where is_stdout calls))
          || ltb max_output_bytes (size_of (lines_where is_stderr calls))))
unfolding stdout stderr truncated
print_all-shown max_output_bytes calls =
    let h =
      print_all-BothCapped max_output_bytes [] [] calls (init max_output_bytes)
        (init-BothCapped max_output_bytes) in
    let c = print_all calls (init max_output_bytes) in
    (
      text_of-shown max_output_bytes (lines_where is_stdout calls) c.out h.on_out,
      text_of-shown max_output_bytes (lines_where is_stderr calls) c.err h.on_err,
      rw (h.on_out.is_cut, h.on_err.is_cut) refl,
    )
