-- ===== src/Pool/Ids/Unique.antt =====
-- Ids that `_check_id` of python/pydeno/_pool.py lets pass keep sessions apart.
use pydeno.Prelude.{ℕ, ◌≡◌, ◌≢◌, refl, sym, ap, ◌∙◌, true, List, [], ◌∷◌, ◌++◌, drop, arith}
use pydeno.Pool.Numbers.{int, int-digits}
use pydeno.Pool.Ids.{colon, check_id, all_id_chars, journal_key, counter_key, bound}

-- The first colon is where the one text ends.
cut_at_colon :
    (a b x y : List ℕ)
    → all_id_chars a ≡ true
    → all_id_chars b ≡ true
    → a ++ colon ∷ x ≡ b ++ colon ∷ y
    → (a ≡ b) × (x ≡ y)
cut_at_colon [] [] x y ha hb e = (refl, ap (drop 1) e)
cut_at_colon [] (c ∷ b) x y ha hb e = ground arith
cut_at_colon (c ∷ a) [] x y ha hb e = ground arith
cut_at_colon (c ∷ a) (d ∷ b) x y ha hb e = ground (arith, cut_at_colon a b x y)

all_id_chars_of : (a : List ℕ) → check_id a ≡ true → all_id_chars a ≡ true
unfolding check_id
all_id_chars_of a h = ground arith

-- The text that a journal is signed with tells the owner, the session and the counter: for ids
-- that `_check_id` lets pass, two such texts are equal only if all three are.
pub bound-inj :
    (owner owner' session_id session_id' : List ℕ) (counter counter' : ℕ)
    → check_id owner ≡ true
    → check_id owner' ≡ true
    → check_id session_id ≡ true
    → check_id session_id' ≡ true
    → bound owner session_id counter ≡ bound owner' session_id' counter'
    → (owner ≡ owner') × (session_id ≡ session_id') × (counter ≡ counter')
unfolding bound
bound-inj owner owner' session_id session_id' counter counter' ho ho' hs hs' e =
    let (eo, rest) =
      cut_at_colon owner owner' _ _ (all_id_chars_of owner ho) (all_id_chars_of owner' ho') e in
    let (es, ed) =
      cut_at_colon session_id session_id' _ _ (all_id_chars_of session_id hs)
        (all_id_chars_of session_id' hs') rest in
    (eo, es, sym (int-digits counter) ∙ ap int ed ∙ int-digits counter')

abbrev last_code : List ℕ → ℕ
last_code [] = 0
last_code (c ∷ []) = c
last_code (c ∷ d ∷ cs) = last_code (d ∷ cs)

append_cancel : (p x y : List ℕ) → p ++ x ≡ p ++ y → x ≡ y
append_cancel [] x y e = e
append_cancel (c ∷ p) x y e = append_cancel p x y (ap (drop 1) e)

-- Under one prefix, the keys of two sessions' values are equal only if the sessions are.
key-inj :
    (prefix owner owner' session_id session_id' a b : List ℕ)
    → check_id owner ≡ true
    → check_id owner' ≡ true
    → check_id session_id ≡ true
    → check_id session_id' ≡ true
    → prefix ++ (owner ++ colon ∷ (session_id ++ colon ∷ a))
      ≡ prefix ++ (owner' ++ colon ∷ (session_id' ++ colon ∷ b))
    → (owner ≡ owner') × (session_id ≡ session_id') × (a ≡ b)
key-inj prefix owner owner' session_id session_id' a b ho ho' hs hs' e =
    let (eo, rest) =
      cut_at_colon owner owner' _ _ (all_id_chars_of owner ho) (all_id_chars_of owner' ho')
        (append_cancel prefix _ _ e) in
    let (es, ed) =
      cut_at_colon session_id session_id' _ _ (all_id_chars_of session_id hs)
        (all_id_chars_of session_id' hs') rest in
    (eo, es, ed)

-- Under one prefix, and with ids that `_check_id` lets pass, no two sessions share the key of a
-- journal or of a counter, and no journal's key is a counter's key.
pub keys-inj :
    (prefix owner owner' session_id session_id' : List ℕ)
    → check_id owner ≡ true
    → check_id owner' ≡ true
    → check_id session_id ≡ true
    → check_id session_id' ≡ true
    → (journal_key prefix owner session_id ≡ journal_key prefix owner' session_id'
        → (owner ≡ owner') × (session_id ≡ session_id'))
      × (counter_key prefix owner session_id ≡ counter_key prefix owner' session_id'
          → (owner ≡ owner') × (session_id ≡ session_id'))
      × (journal_key prefix owner session_id ≢ counter_key prefix owner' session_id')
unfolding journal_key counter_key
keys-inj prefix owner owner' session_id session_id' ho ho' hs hs' = (
  λ e. let k = key-inj prefix owner owner' session_id session_id' _ _ ho ho' hs hs' e in (k.0, k.1),
  λ e. let k = key-inj prefix owner owner' session_id session_id' _ _ ho ho' hs hs' e in (k.0, k.1),
  λ e. absurd (
      omega (
        arith,
        ap last_code (key-inj prefix owner owner' session_id session_id' _ _ ho ho' hs hs' e).2,
      )),
)
