-- ===== src/Pool/Ids.antt =====
-- Owner and session ids of python/pydeno/_pool.py: `_check_id`, the store's keys, and the text that a
-- journal is signed with. Texts are code points; their encoding as UTF-8 is left out.
pub mod Unique
use pydeno.Prelude.{
  ℕ, suc, Bool, true, false, not, ◌&&◌, ◌||◌, List, [], ◌∷◌, ◌++◌, codes, length, ltb, leb, ◌==◌,
}
use pydeno.Pool.Numbers.{digits}

abbrev pub colon : ℕ
colon = 58

-- `[^:\x00-\x1f\x7f]`
abbrev pub is_id_char : ℕ → Bool
is_id_char c = not (c == colon) && leb 32 c && not (c == 127)

-- `value.encode("utf-8")` raises for a lone surrogate.
abbrev pub is_encodable : ℕ → Bool
is_encodable c = ltb c 55296 || leb 57344 c

abbrev pub all_id_chars : List ℕ → Bool
all_id_chars [] = true
all_id_chars (c ∷ cs) = is_id_char c && is_encodable c && all_id_chars cs

-- `_check_id` of a string: whether it passes
unfoldable pub check_id : List ℕ → Bool
check_id value = leb 1 (length value) && leb (length value) 256 && all_id_chars value

unfoldable pub journal_key : List ℕ → List ℕ → List ℕ → List ℕ
journal_key prefix owner session_id =
    prefix ++ (owner ++ colon ∷ (session_id ++ colon ∷ codes "journal"))

unfoldable pub counter_key : List ℕ → List ℕ → List ℕ → List ℕ
counter_key prefix owner session_id =
    prefix ++ (owner ++ colon ∷ (session_id ++ colon ∷ codes "counter"))

-- `_bound`
unfoldable pub bound : List ℕ → List ℕ → ℕ → List ℕ
bound owner session_id counter = owner ++ colon ∷ (session_id ++ colon ∷ digits counter)
