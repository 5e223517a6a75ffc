-- ===== src/Fetch/Path.antt =====
-- `_check_path` of python/pydeno/tools/http_fetch.py, and `unquote` on the path's ASCII characters,
-- as bytes: what it makes of bytes above 127 is left as it is, and is never a dot.
pub mod Resolves
use pydeno.Prelude.{
  ℕ, zero, suc, ◌+◌, ◌-◌, ◌*◌, Bool, true, false, not, ◌&&◌, ◌||◌, Option, none, some, List, [],
  ◌∷◌, ◌++◌, ltb, leb, ◌==◌, if◌then◌else◌,
}
use pydeno.Fetch.Target.{slash}

abbrev pub percent : ℕ
percent = 37

abbrev pub dot : ℕ
dot = 46

-- Whether a percent sign stands before two characters with a property.
unfoldable pub has_escape : (ℕ → ℕ → Bool) → List ℕ → Bool
has_escape p [] = false
has_escape p (c ∷ []) = false
has_escape p (c ∷ a ∷ []) = false
has_escape p (c ∷ a ∷ b ∷ rest) = c == percent && p a b || has_escape p (a ∷ b ∷ rest)

-- `_ENCODED_SEPARATOR`: 2F and 5C, of either case
abbrev pub is_separator : ℕ → ℕ → Bool
is_separator a b = a == 50 && (b == 70 || b == 102) || a == 53 && (b == 67 || b == 99)

-- `%3B` of `_PATH_PARAMS`
abbrev pub is_semicolon : ℕ → ℕ → Bool
is_semicolon a b = a == 51 && (b == 66 || b == 98)

-- `_AMBIGUOUS_ESCAPE`: 25 and 00
abbrev pub is_ambiguous : ℕ → ℕ → Bool
is_ambiguous a b = a == 50 && b == 53 || a == 48 && b == 48

abbrev pub has : ℕ → List ℕ → Bool
has c [] = false
has c (d ∷ ds) = c == d || has c ds

abbrev pub hex_digit : ℕ → Option ℕ
hex_digit c =
    if leb 48 c && leb c 57
    then some (c - 48)
    else if leb 65 c && leb c 70
    then some (c - 55)
    else if leb 97 c && leb c 102
    then some (c - 87)
    else none

abbrev pub hex_pair : Option ℕ → Option ℕ → Option ℕ
hex_pair (some a) (some b) = some (16 * a + b)
hex_pair _ _ = none

abbrev pub decoded_or : Option ℕ → List ℕ → List ℕ → List ℕ
decoded_or none raw decoded = raw
decoded_or (some byte) raw decoded = byte ∷ decoded

-- `unquote`
unfoldable pub unquote : List ℕ → List ℕ
unquote [] = []
unquote (c ∷ []) = c ∷ []
unquote (c ∷ a ∷ []) = c ∷ a ∷ []
unquote (c ∷ a ∷ b ∷ rest) =
    let plain = unquote (a ∷ b ∷ rest) in
    let decoded = unquote rest in
    if c == percent
    then decoded_or (hex_pair (hex_digit a) (hex_digit b)) (c ∷ plain) decoded
    else c ∷ plain

abbrev pub onto_first : ℕ → List (List ℕ) → List (List ℕ)
onto_first c [] = (c ∷ []) ∷ []
onto_first c (s ∷ ss) = (c ∷ s) ∷ ss

-- `path.split("/")`
unfoldable pub split : List ℕ → List (List ℕ)
split [] = [] ∷ []
split (c ∷ cs) = let rest = split cs in if c == slash then [] ∷ rest else onto_first c rest

abbrev pub all_dots : List ℕ → Bool
all_dots [] = true
all_dots (c ∷ cs) = c == dot && all_dots cs

-- `_DOTS.fullmatch`
abbrev pub is_dots : List ℕ → Bool
is_dots [] = false
is_dots (c ∷ cs) = all_dots (c ∷ cs)

unfoldable pub any_dots : List (List ℕ) → Bool
unfolding unquote
any_dots [] = false
any_dots (s ∷ ss) = is_dots (unquote s) || any_dots ss

-- `_check_path`: whether it lets the path pass
unfoldable pub check_path : List ℕ → Bool
unfolding has_escape any_dots split
check_path path =
    not (has_escape is_separator path)
    && not (has 59 path || has_escape is_semicolon path)
    && not (has_escape is_ambiguous path)
    && not (any_dots (split path))
