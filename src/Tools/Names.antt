-- ===== src/Tools/Names.antt =====
-- `_check_name` of python/pydeno/_tools.py: the names that a bridge may install.
use pydeno.Prelude.{
  ℕ, Bool, true, false, not, ◌&&◌, ◌||◌, List, [], ◌∷◌, Result, ok, err, codes, same, leb, ◌==◌,
  if◌then◌else◌,
}

pub data Error : Type 0 where
  type_error value_error : Error

-- A name as it was passed: a `str`, by its code points, or something else.
pub data Name : Type 0 where
  text : List ℕ → Name
  other : Name

abbrev between : ℕ → ℕ → ℕ → Bool
between lo hi c = leb lo c && leb c hi

-- [A-Za-z_] and [A-Za-z0-9_]
abbrev pub is_start : ℕ → Bool
is_start c = between b'A' b'Z' c || between b'a' b'z' c || c == b'_'

abbrev pub is_part : ℕ → Bool
is_part c = is_start c || between b'0' b'9' c

unfoldable pub all_parts : List ℕ → Bool
all_parts [] = true
all_parts (c ∷ cs) = is_part c && all_parts cs

-- `_SAFE_NAME.fullmatch`
unfoldable pub is_safe : List ℕ → Bool
unfolding all_parts
is_safe [] = false
is_safe (c ∷ cs) = is_start c && all_parts cs

unfoldable pub among : List ℕ → List (List ℕ) → Bool
unfolding same
among n [] = false
among n (m ∷ ms) = same n m || among n ms

-- `_RESERVED_NAMES`
abbrev pub reserved_names : List (List ℕ)
reserved_names =
    codes "__proto__"
    ∷ codes "constructor"
    ∷ codes "prototype"
    ∷ codes "hasOwnProperty"
    ∷ codes "toString"
    ∷ codes "valueOf"
    ∷ []

unfoldable pub check_name : Name → Result Error (List ℕ)
unfolding is_safe among
check_name other = err type_error
check_name (text n) =
    if not (is_safe n)
    then err value_error
    else if among n reserved_names
    then err value_error
    else ok n
