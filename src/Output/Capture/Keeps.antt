-- ===== src/Output/Capture/Keeps.antt =====
-- What `OutputCapture` of python/pydeno/_result.py keeps of the lines that it is given.
use pydeno.Prelude.{
  ℕ, ◌+◌, ◌-◌, ◌≤◌, ◌<◌, ◌≡◌, refl, sym, ap, ◌∙◌, true, false, List, [], ◌∷◌, ◌++◌, ltb, leb, arith,
  leb→le, leb→lt, lt→ltb, le→ltb, ltb→lt, is_empty, nil_of_is_empty, if_both, append-nil,
  append_assoc,
}
use pydeno.Output.Console.{Text}
use pydeno.Output.Utf8.{cut_utf8, cut_utf8_lem, longest_prefix}
use pydeno.Output.Capture.{
  Stream, empty_stream, size_of, cut_at_room, add_line, Args, line_of, print_on, join,
}
use pydeno.Output.Capture.Prefix.{
  size_of-append, longest_prefix-append, longest_prefix_over, longest_prefix_fits, size_of-nil,
}

join-append : (xs ys : List Text) → join (xs ++ ys) ≡ join xs ++ join ys
join-append [] ys = refl
join-append (x ∷ xs) ys = ap (◌++◌ x) (join-append xs ys) ∙ sym (append_assoc x (join xs) (join ys))

pub join-snoc : (xs : List Text) (y : Text) → join (xs ++ y ∷ []) ≡ join xs ++ y
join-snoc xs y = join-append xs (y ∷ []) ∙ ap (◌++◌ (join xs)) (append-nil y)

pub not_ltb : (a b : ℕ) → ltb a b ≡ false → b ≤ a
not_ltb a b h = ground arith

-- A stream holds what of a text fits.
pub record IsCapped (max_bytes : ℕ) (all : Text) (s : Stream) : Type 0 where
  pub joined : join s.parts ≡ longest_prefix all max_bytes
  pub sized : s.size ≡ size_of (join s.parts)
  pub is_cut : s.cut ≡ ltb max_bytes (size_of all)

pub empty-IsCapped : (max_bytes : ℕ) → IsCapped max_bytes [] empty_stream
unfolding longest_prefix
empty-IsCapped max_bytes = record {
  joined = refl;
  sized = sym size_of-nil;
  is_cut = sym (rw size_of-nil (le→ltb max_bytes 0 (omega arith)));
}

module _ (max_bytes : ℕ) (all line : Text) (s : Stream) (h : IsCapped max_bytes all s) where
  stays_cut : s.cut ≡ true → IsCapped max_bytes (all ++ line) s
  stays_cut c =
      let over : max_bytes < size_of all = ltb→lt _ _ (sym h.is_cut ∙ c) in
      record {
        joined = h.joined ∙ sym (longest_prefix_over all line max_bytes over);
        sized = h.sized;
        is_cut = c ∙ sym (lt→ltb _ _ (omega (arith, over, size_of-append all line)));
      }

  module _ (open_ : s.cut ≡ false) where
    fits_so_far : size_of all ≤ max_bytes
    fits_so_far = not_ltb max_bytes (size_of all) (sym h.is_cut ∙ open_)

    whole : join s.parts ≡ all
    whole = h.joined ∙ longest_prefix_fits all max_bytes fits_so_far

    held : s.size ≡ size_of all
    held = h.sized ∙ ap size_of whole

    size_snoc : (text : Text) → s.size + size_of text ≡ size_of (join (s.parts ++ text ∷ []))
    size_snoc text =
        ap (λ n. n + size_of text) h.sized
        ∙ sym (ap size_of (join-snoc s.parts text) ∙ size_of-append (join s.parts) text)

    adds_line :
        size_of line ≤ max_bytes - s.size
        → IsCapped max_bytes
            (all ++ line)
            (record s { parts = s.parts ++ line ∷ []; size = s.size + size_of line })
    adds_line fits =
        let total : size_of (all ++ line) ≤ max_bytes =
          omega (arith, size_of-append all line, held, fits_so_far) in
        record {
          joined =
              join-snoc s.parts line
              ∙ ap (λ t. t ++ line) whole
              ∙ sym (longest_prefix_fits (all ++ line) max_bytes total);
          sized = size_snoc line;
          is_cut = open_ ∙ sym (le→ltb _ _ total);
        }

    adds_head :
        max_bytes - s.size < size_of line
        → IsCapped max_bytes (all ++ line) (cut_at_room (cut_utf8 line (max_bytes - s.size)) s)
    unfolding cut_at_room
    adds_head over =
        let room = max_bytes - s.size in
        let head = cut_utf8 line room in
        let same_room : max_bytes - size_of all ≡ room = omega (arith, held) in
        let prefix : all ++ head ≡ longest_prefix (all ++ line) max_bytes = sym (
          longest_prefix-append all line max_bytes fits_so_far
          ∙ ap (λ n. all ++ longest_prefix line n) same_room
          ∙ ap (◌++◌ all) (sym (cut_utf8_lem line room))) in
        let total : true ≡ ltb max_bytes (size_of (all ++ line)) =
          sym (lt→ltb _ _ (omega (arith, size_of-append all line, held, fits_so_far, over))) in
        if_both (IsCapped max_bytes (all ++ line)) (is_empty head) _ _
          (λ e. record {
            joined =
                whole
                ∙ sym (append-nil all)
                ∙ ap (◌++◌ all) (sym (nil_of_is_empty head e))
                ∙ prefix;
            sized = h.sized;
            is_cut = total;
          })
          (λ _. record {
            joined = join-snoc s.parts head ∙ ap (λ t. t ++ head) whole ∙ prefix;
            sized = size_snoc head;
            is_cut = total;
          })

pub add_line-IsCapped :
    (max_bytes : ℕ) (all line : Text) (s : Stream)
    → IsCapped max_bytes all s
    → IsCapped max_bytes (all ++ line) (add_line max_bytes line s)
unfolding add_line
add_line-IsCapped max_bytes all line s h =
    if_both (IsCapped max_bytes (all ++ line)) s.cut _ _ (stays_cut max_bytes all line s h) (λ o.
      if_both (IsCapped max_bytes (all ++ line)) (leb (size_of line) (max_bytes - s.size)) _ _
        (λ f. adds_line max_bytes all line s h o (leb→le _ _ f))
        (λ f. adds_head max_bytes all line s h o (leb→lt _ _ f)))

pub print_on-IsCapped :
    (max_bytes : ℕ) (all : Text) (args : Args) (s : Stream)
    → IsCapped max_bytes all s
    → IsCapped max_bytes (all ++ line_of args) (print_on max_bytes args s)
unfolding print_on
print_on-IsCapped max_bytes all args s h =
    if_both (IsCapped max_bytes (all ++ line_of args)) s.cut _ _
      (stays_cut max_bytes all (line_of args) s h)
      (λ _. add_line-IsCapped max_bytes all (line_of args) s h)
