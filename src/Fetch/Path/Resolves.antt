-- ===== src/Fetch/Path/Resolves.antt =====
-- A path that `_check_path`, python/pydeno/tools/http_fetch.py, lets pass stays beneath its prefix
-- for a server that decodes its segments and resolves the dot segments among them.
use pydeno.Prelude.{
  same, is_empty, ℕ, ◌≡◌, refl, sym, ap, ◌∙◌, true, false, List, [], ◌∷◌, ◌++◌, append_assoc,
  append-nil, ◌==◌, if◌then◌else◌, arith, Bool-cases, inl, inr,
}
use pydeno.Fetch.Target.{slash, Beneath}
use pydeno.Fetch.Path.{dot, onto_first, unquote, split, is_dots, any_dots, check_path}

-- A path's segments as a server reads them.
abbrev pub decode_all : List (List ℕ) → List (List ℕ)
decode_all [] = []
decode_all (s ∷ ss) = unquote s ∷ decode_all ss

-- The segments without the last one.
abbrev pub leave : List (List ℕ) → List (List ℕ)
leave [] = []
leave (s ∷ []) = []
leave (s ∷ t ∷ ss) = s ∷ leave (t ∷ ss)

-- The resolution of dot segments, as RFC 3986 has it: `.` is passed over, `..` leaves the directory
-- that was entered last.
unfoldable pub resolve : List (List ℕ) → List (List ℕ) → List (List ℕ)
resolve entered [] = entered
resolve entered (s ∷ ss) =
    let passed = resolve entered ss in
    let left = resolve (leave entered) ss in
    let into = resolve (entered ++ s ∷ []) ss in
    if same s (dot ∷ []) then passed else if same s (dot ∷ dot ∷ []) then left else into

not_dots :
    (s : List ℕ)
    → is_dots s ≡ false
    → (same s (dot ∷ []) ≡ false) × (same s (dot ∷ dot ∷ []) ≡ false)
unfolding same
not_dots [] h = (refl, refl)
not_dots (a ∷ []) h = ground (arith, h)
not_dots (a ∷ b ∷ []) h = ground (arith, h)
not_dots (a ∷ b ∷ c ∷ cs) h = ground (arith, h)

resolve-decode_all :
    (entered ss : List (List ℕ))
    → any_dots ss ≡ false
    → resolve entered (decode_all ss) ≡ entered ++ decode_all ss
unfolding resolve any_dots
resolve-decode_all entered [] h = sym (append-nil entered)
resolve-decode_all entered (s ∷ ss) h =
    let plain : is_dots (unquote s) ≡ false = ground (arith, h) in
    let others : any_dots ss ≡ false = ground (arith, h) in
    let (one, two) = not_dots (unquote s) plain in
    rw one (
      rw two (
        resolve-decode_all (entered ++ unquote s ∷ []) ss others
        ∙ append_assoc entered (unquote s ∷ []) (decode_all ss)))

decode_all-append : (a b : List (List ℕ)) → decode_all (a ++ b) ≡ decode_all a ++ decode_all b
decode_all-append [] b = refl
decode_all-append (s ∷ a) b = ap (◌∷◌ (unquote s)) (decode_all-append a b)

onto_first-append :
    (c : ℕ) (a b : List (List ℕ)) → is_empty a ≡ false → onto_first c (a ++ b) ≡ onto_first c a ++ b
onto_first-append c [] b h = cc
onto_first-append c (s ∷ a) b h = refl

is_empty-onto_first : (c : ℕ) (a : List (List ℕ)) → is_empty (onto_first c a) ≡ false
is_empty-onto_first c [] = refl
is_empty-onto_first c (s ∷ a) = refl

is_empty-split : (cs : List ℕ) → is_empty (split cs) ≡ false
unfolding split
is_empty-split [] = refl
is_empty-split (c ∷ cs) = ground (arith, is_empty-onto_first c (split cs))

split-append : (xs ys : List ℕ) → split (xs ++ slash ∷ ys) ≡ split xs ++ split ys
unfolding split
split-append [] ys = refl
split-append (c ∷ cs) ys = elim (Bool-cases (c == slash)) [
  | inl cut ↦ rw cut (ap (◌∷◌ []) (split-append cs ys))
  | inr inside ↦ rw inside (
      ap (onto_first c) (split-append cs ys)
      ∙ onto_first-append c (split cs) (split ys) (is_empty-split cs))
]

any_dots-of : (path : List ℕ) → check_path path ≡ true → any_dots (split path) ≡ false
unfolding check_path
any_dots-of path h = ground (arith, h)

-- A path that `_check_path` lets pass means the same to a server that resolves dot segments and to
-- one that does not, whichever way they are written: resolved, it has all of its decoded segments,
-- in order. So where it goes on behind a prefix, it is still beneath that prefix once resolved.
pub resolve-check_path :
    (base path : List ℕ)
    → check_path path ≡ true
    → Beneath base path
    → (resolve [] (decode_all (split path)) ≡ decode_all (split path))
      × ((rest : List (List ℕ)) × (resolve [] (decode_all (split path))
            ≡ decode_all (split base) ++ rest))
resolve-check_path base path h beneath = (
  plain,
  elim beneath [
    | inl whole ↦ (
      [],
      plain ∙ ap (λ p. decode_all (split p)) whole ∙ sym (append-nil (decode_all (split base))),
    )
    | inr (rest, longer) ↦ (
      decode_all (split rest),
      plain
          ∙ ap (λ p. decode_all (split p)) longer
          ∙ ap decode_all (split-append base rest)
          ∙ decode_all-append (split base) (split rest),
    )
  ],
)
  where
    plain : resolve [] (decode_all (split path)) ≡ decode_all (split path)
    plain = resolve-decode_all [] (split path) (any_dots-of path h)
