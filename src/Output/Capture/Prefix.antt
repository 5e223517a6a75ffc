-- ===== src/Output/Capture/Prefix.antt =====
-- The longest prefix within a limit, of texts joined: for python/pydeno/_result.py.
use pydeno.Prelude.{
  ℕ, ◌+◌, ◌-◌, ◌≤◌, ◌<◌, ◌≡◌, refl, ap, List, [], ◌∷◌, ◌++◌, leb, length, arith, Bool-cases, inl,
  inr, length-append, true, if_both, leb→le, le→leb,
}
use pydeno.Output.Console.{Text, is_control, inert}
use pydeno.Output.Utf8.{is_encodable, encode, encode_char, longest_prefix}
use pydeno.Output.Capture.{size_of}

size_of-cons : (c : ℕ) (text : Text) → size_of (c ∷ text) ≡ length (encode_char c) + size_of text
unfolding size_of encode
size_of-cons c text = length-append (encode_char c) (encode text)

pub size_of-nil : size_of [] ≡ 0
unfolding size_of encode
size_of-nil = refl

pub size_of-append : (xs ys : Text) → size_of (xs ++ ys) ≡ size_of xs + size_of ys
unfolding size_of
size_of-append [] ys = omega arith
size_of-append (c ∷ xs) ys =
    omega (arith, size_of-cons c (xs ++ ys), size_of-cons c xs, size_of-append xs ys)

pub longest_prefix-append :
    (xs ys : Text) (n : ℕ)
    → size_of xs ≤ n
    → longest_prefix (xs ++ ys) n ≡ xs ++ longest_prefix ys (n - size_of xs)
unfolding longest_prefix
longest_prefix-append [] ys n h =
    let e : n - size_of [] ≡ n = omega (arith, size_of-nil) in rw e refl
longest_prefix-append (c ∷ xs) ys n h =
    let w = length (encode_char c) in
    let e : n - size_of (c ∷ xs) ≡ n - w - size_of xs = omega (arith, size_of-cons c xs) in
    rw (le→leb w n (omega (arith, size_of-cons c xs)), e)
      (ap (◌∷◌ c) (longest_prefix-append xs ys (n - w) (omega (arith, size_of-cons c xs))))

pub longest_prefix_over :
    (xs ys : Text) (n : ℕ) → n < size_of xs → longest_prefix (xs ++ ys) n ≡ longest_prefix xs n
unfolding longest_prefix
longest_prefix_over [] ys n h = absurd (omega (arith, size_of-nil))
longest_prefix_over (c ∷ xs) ys n h =
    let w = length (encode_char c) in
    elim (Bool-cases (leb w n)) [
      | inl fits ↦ rw fits (
          ap (◌∷◌ c)
            (longest_prefix_over xs ys (n - w) (omega (arith, size_of-cons c xs, leb→le w n fits))))
      | inr over ↦ rw over refl
    ]

pub longest_prefix_fits : (xs : Text) (n : ℕ) → size_of xs ≤ n → longest_prefix xs n ≡ xs
unfolding longest_prefix
longest_prefix_fits [] n h = refl
longest_prefix_fits (c ∷ xs) n h =
    let w = length (encode_char c) in
    rw (le→leb w n (omega (arith, size_of-cons c xs)))
      (ap (◌∷◌ c) (longest_prefix_fits xs (n - w) (omega (arith, size_of-cons c xs))))

pub size_of-longest_prefix : (xs : Text) (n : ℕ) → size_of (longest_prefix xs n) ≤ n
unfolding longest_prefix
size_of-longest_prefix [] n = omega (arith, size_of-nil)
size_of-longest_prefix (c ∷ xs) n =
    let w = length (encode_char c) in
    elim (Bool-cases (leb w n)) [
      | inl fits ↦ rw fits (
          omega (
            arith,
            leb→le w n fits,
            size_of-cons c (longest_prefix xs (n - w)),
            size_of-longest_prefix xs (n - w),
          ))
      | inr over ↦ rw over (omega (arith, size_of-nil))
    ]

-- A line that is printed can be encoded, whatever was given: the surrogates are in `_CONTROL`.
is_encodable-inert : (text : List ℕ) → is_encodable (inert text) ≡ true
unfolding inert is_control
is_encodable-inert [] = refl
is_encodable-inert (c ∷ text) =
    if_both (λ d. is_encodable (d ∷ inert text) ≡ true) (is_control c) b'?' c
      (λ _. is_encodable-inert text) (λ free. ground (arith, free, is_encodable-inert text))
