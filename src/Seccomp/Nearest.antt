-- ===== src/Seccomp/Nearest.antt =====
-- The jumps of python/pydeno/_sandbox.py: the least position of a label behind an instruction is where
-- the lines that follow define it first.
use text.Mathlib.Text.{◌==◌ as str_eq}
use pydeno.Prelude.{
  ℕ, suc, ◌+◌, ◌-◌, ◌≤◌, ◌<◌, min, ◌≡◌, refl, ap, String, Bool, true, false, Option, none, some,
  List, [], ◌∷◌, ◌++◌, if◌then◌else◌, lt→ltb, le→ltb, sym, append_assoc, ◌∙◌, arith,
}
use pydeno.Seccomp.{
  Line, ins, label, positions, nearest, target, offset, encode, append_to, Instruction,
  resolve_from, resolve,
}

-- The number of instructions among lines.
unfoldable pub count : List Line → ℕ
count [] = 0
count (ins code jt jf k ∷ lines) = suc (count lines)
count (label name ∷ lines) = count lines

-- The instructions up to the next definition of a label.
unfoldable pub distance : String → List Line → Option ℕ
distance name [] = none
distance name (ins code jt jf k ∷ lines) = elim (distance name lines) [
  | none ↦ none
  | some n ↦ some (suc n)
]
distance name (label other ∷ lines) =
    let later = distance name lines in if str_eq name other then some 0 else later

abbrev pub jump : Option String → List Line → Option ℕ
jump none lines = some 0
jump (some name) lines = distance name lines

-- Assembly in one pass, each jump resolved in the lines behind it.
unfoldable pub assemble : List Line → Option (List Instruction)
unfolding encode append_to distance
assemble [] = some []
assemble (label name ∷ lines) = assemble lines
assemble (ins code jt jf k ∷ lines) =
    append_to (encode code k (jump jt lines) (jump jf lines)) (assemble lines)

shift : ℕ → Option ℕ → Option ℕ
shift n none = none
shift n (some m) = some (n + m)

shift-suc :
    (n : ℕ) (o : Option ℕ)
    → shift (suc n) o ≡ shift n (elim o [ none ↦ none | some m ↦ some (suc m) ])
unfolding shift
shift-suc n none = refl
shift-suc n (some m) = ground arith

least_here :
    (n : ℕ) (o : Option ℕ) → some (elim (shift n o) [ none ↦ n | some m ↦ min n m ]) ≡ some (n + 0)
unfolding shift
least_here n none = ground arith
least_here n (some m) = ground arith

found_if :
    (b : Bool) (at n : ℕ) (ps : List ℕ) (o : Option ℕ)
    → at < n
    → nearest at ps ≡ shift n o
    → nearest at (if b then n ∷ ps else ps) ≡ shift n (if b then some 0 else o)
unfolding nearest shift
found_if true at n ps o h e = rw (lt→ltb at n h, e) (least_here n o)
found_if false at n ps o h e = e

skipped_if :
    (b : Bool) (at n : ℕ) (ps more : List ℕ)
    → n ≤ at
    → nearest at (ps ++ more) ≡ nearest at more
    → nearest at ((if b then n ∷ ps else ps) ++ more) ≡ nearest at more
unfolding nearest
skipped_if true at n ps more h e = rw (le→ltb at n h) e
skipped_if false at n ps more h e = e

-- Where the search starts behind `at`, what it finds is where the lines define the label first.
nearest-positions :
    (name : String) (at n : ℕ) (lines : List Line)
    → at < n
    → nearest at (positions name n lines) ≡ shift n (distance name lines)
unfolding nearest positions distance shift
nearest-positions name at n [] h = refl
nearest-positions name at n (ins code jt jf k ∷ lines) h =
    nearest-positions name at (suc n) lines (omega arith) ∙ shift-suc n (distance name lines)
nearest-positions name at n (label other ∷ lines) h =
    found_if (str_eq name other) at n (positions name n lines) (distance name lines) h
      (nearest-positions name at n lines h)

nearest-append_positions :
    (name : String) (at n : ℕ) (lines : List Line) (more : List ℕ)
    → n + count lines ≤ at
    → nearest at (positions name n lines ++ more) ≡ nearest at more
unfolding nearest positions count
nearest-append_positions name at n [] more h = refl
nearest-append_positions name at n (ins code jt jf k ∷ lines) more h =
    nearest-append_positions name at (suc n) lines more (omega arith)
nearest-append_positions name at n (label other ∷ lines) more h =
    skipped_if (str_eq name other) at n (positions name n lines) more (omega arith)
      (nearest-append_positions name at n lines more h)

if-append {ℓ} :
    {A : Type ℓ} (b : Bool) (x : A) (xs ys : List A)
    → (if b then x ∷ (xs ++ ys) else xs ++ ys) ≡ (if b then x ∷ xs else xs) ++ ys
if-append true x xs ys = refl
if-append false x xs ys = refl

positions-append :
    (name : String) (n : ℕ) (xs ys : List Line)
    → positions name n (xs ++ ys) ≡ positions name n xs ++ positions name (n + count xs) ys
unfolding positions count
positions-append name n [] ys = let e : n + 0 ≡ n = omega arith in rw e
positions-append name n (ins code jt jf k ∷ xs) ys =
    let e : n + suc (count xs) ≡ suc n + count xs = omega arith in
    rw e (positions-append name (suc n) xs ys)
positions-append name n (label other ∷ xs) ys =
    rw (positions-append name n xs ys)
      (if-append (str_eq name other) n (positions name n xs) (positions name (n + count xs) ys))

nearest_behind :
    (name : String) (code : ℕ) (a b : Option String) (k : ℕ) (before behind : List Line)
    → nearest (count before) (positions name 0 (before ++ ins code a b k ∷ behind))
      ≡ shift (suc (count before)) (distance name behind)
unfolding positions
nearest_behind name code a b k before behind =
    let at = count before in
    let start : 0 + at ≡ at = omega arith in
    ap (nearest at) (positions-append name 0 before (ins code a b k ∷ behind))
    ∙ nearest-append_positions name at 0 before _ (omega arith)
    ∙ rw start (nearest-positions name at (suc at) behind (omega arith))

minus : ℕ → Option ℕ → Option ℕ
minus at none = none
minus at (some pos) = some (pos - at - 1)

minus-shift : (at : ℕ) (o : Option ℕ) → minus at (shift (suc at) o) ≡ o
unfolding shift minus
minus-shift at none = refl
minus-shift at (some m) = ap some (omega arith)

target-minus :
    (lines : List Line) (name : String) (at : ℕ)
    → target lines name at ≡ minus at (nearest at (positions name 0 lines))
unfolding target minus
target-minus lines name at =
    elim (nearest at (positions name 0 lines))
      as (λ o. elim o [ none ↦ none | some pos ↦ some (pos - at - 1) ] ≡ minus at o) [
        | none ↦ refl
        | some pos ↦ refl
      ]

-- `target(name, at)` of an instruction is the distance in the lines behind it.
offset-jump :
    (jt : Option String) (code : ℕ) (a b : Option String) (k : ℕ) (before behind : List Line)
    → offset (before ++ ins code a b k ∷ behind) jt (count before) ≡ jump jt behind
unfolding offset
offset-jump none code a b k before behind = refl
offset-jump (some name) code a b k before behind =
    target-minus (before ++ ins code a b k ∷ behind) name (count before)
    ∙ ap (minus (count before)) (nearest_behind name code a b k before behind)
    ∙ minus-shift (count before) (distance name behind)

count-append : (xs ys : List Line) → count (xs ++ ys) ≡ count xs + count ys
unfolding count
count-append [] ys = omega arith
count-append (ins code jt jf k ∷ xs) ys = omega (arith, count-append xs ys)
count-append (label name ∷ xs) ys = count-append xs ys

resolve_from-assemble :
    (all : List Line) (at : ℕ) (before rest : List Line)
    → all ≡ before ++ rest
    → at ≡ count before
    → resolve_from all at rest ≡ assemble rest
unfolding resolve_from assemble count
resolve_from-assemble all at before [] e c = refl
resolve_from-assemble all at before (label name ∷ rest) e c =
    resolve_from-assemble all at (before ++ label name ∷ []) rest
      (e ∙ sym (append_assoc before (label name ∷ []) rest))
      (omega (arith, count-append before (label name ∷ [])))
resolve_from-assemble all at before (ins code jt jf k ∷ rest) e c =
    let later : resolve_from all (suc at) rest ≡ assemble rest =
      resolve_from-assemble all (suc at) (before ++ ins code jt jf k ∷ []) rest
        (e ∙ sym (append_assoc before (ins code jt jf k ∷ []) rest))
        (omega (arith, count-append before (ins code jt jf k ∷ []))) in
    rw
      (
        later,
        e,
        c,
        offset-jump jt code jt jf k before rest,
        offset-jump jf code jt jf k before rest,
      )
      refl

-- The program with its jumps resolved by the positions of the labels is the program assembled in one
-- pass, each jump resolved by the lines behind it.
pub resolve-assemble : (lines : List Line) → resolve lines ≡ assemble lines
unfolding resolve count
resolve-assemble lines = resolve_from-assemble lines 0 [] lines refl refl
