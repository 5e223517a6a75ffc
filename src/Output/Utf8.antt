-- ===== src/Output/Utf8.antt =====
-- python/pydeno/_result.py: `_cut_utf8`, with the UTF-8 codec that it calls.
use pydeno.Prelude.{
  ℕ, zero, suc, ◌+◌, ◌-◌, ◌*◌, ◌/◌, ◌%◌, ◌≤◌, ◌<◌, ◌≡◌, refl, sym, subst, Bool, true, ◌&&◌, ◌||◌,
  List, [], ◌∷◌, ◌++◌, ltb, leb, if◌then◌else◌, length, take, arith, Bool-cases, inl, inr, lt→ltb,
  le→ltb, ltb→lt, leb→le, leb→lt,
}

-- `chr(c).encode("utf-8")`
unfoldable pub encode_char : ℕ → List ℕ
encode_char c =
    if ltb c 0x80
    then c ∷ []
    else if ltb c 0x800
    then (0xC0 + c / 64) ∷ (0x80 + c % 64) ∷ []
    else if ltb c 0x10000
    then (0xE0 + c / 4096) ∷ (0x80 + c / 64 % 64) ∷ (0x80 + c % 64) ∷ []
    else (0xF0 + c / 262144) ∷ (0x80 + c / 4096 % 64) ∷ (0x80 + c / 64 % 64) ∷ (0x80 + c % 64) ∷ []

-- Whether `text.encode("utf-8")` gives bytes: it raises UnicodeEncodeError for a lone surrogate.
abbrev pub is_encodable : List ℕ → Bool
is_encodable [] = true
is_encodable (c ∷ text) = (ltb c 0xD800 || leb 0xE000 c) && is_encodable text

-- `text.encode("utf-8")`, of a text that can be encoded
unfoldable pub encode : List ℕ → List ℕ
unfolding encode_char
encode [] = []
encode (c ∷ text) = encode_char c ++ encode text

-- The bytes that a first byte asks for, and what it holds of the character.
needs : ℕ → ℕ
needs b = if ltb b 0x80 then 0 else if ltb b 0xE0 then 1 else if ltb b 0xF0 then 2 else 3

held : ℕ → ℕ
held b =
    if ltb b 0x80
    then 0
    else if ltb b 0xE0
    then b - 0xC0
    else if ltb b 0xF0
    then b - 0xE0
    else b - 0xF0

emit_ascii : ℕ → List ℕ → List ℕ
emit_ascii b text = if ltb b 0x80 then b ∷ text else text

-- `bytes.decode("utf-8", "ignore")` of the beginning of a text's bytes: a character whose bytes are not
-- all there is left out. The bytes that the character still needs, and what is read of it.
unfoldable pub decode : ℕ → ℕ → List ℕ → List ℕ
unfolding needs held emit_ascii
decode more c [] = []
decode zero c (b ∷ bytes) = emit_ascii b (decode (needs b) (held b) bytes)
decode (suc zero) c (b ∷ bytes) = (c * 64 + b % 64) ∷ decode 0 0 bytes
decode (suc (suc more)) c (b ∷ bytes) = decode (suc more) (c * 64 + b % 64) bytes

-- `_cut_utf8`, of a text that can be encoded: that of a line has no character of `_CONTROL`, which the
-- surrogates are among, and that of a message has been encoded before.
unfoldable pub cut_utf8 : List ℕ → ℕ → List ℕ
unfolding decode encode
cut_utf8 text limit = decode 0 0 (take limit (encode text))

-- The longest prefix of a text that is at most `limit` bytes, by the sizes of its characters.
unfoldable pub longest_prefix : List ℕ → ℕ → List ℕ
longest_prefix [] limit = []
longest_prefix (c ∷ text) limit =
    let rest = longest_prefix text (limit - length (encode_char c)) in
    if leb (length (encode_char c)) limit then c ∷ rest else []

decode_nothing : (bytes : List ℕ) → decode 0 0 (take 0 bytes) ≡ []
unfolding decode
decode_nothing bytes = refl

decode_none : (limit : ℕ) → decode 0 0 (take limit []) ≡ []
unfolding decode
decode_none zero = refl
decode_none (suc limit) = refl

-- A character of one byte, of two, of three and of four.
decode_ascii :
    (c limit : ℕ) (bytes : List ℕ)
    → c < 0x80
    → decode 0 0 (take (suc limit) (c ∷ bytes)) ≡ c ∷ decode 0 0 (take limit bytes)
unfolding decode
decode_ascii c limit bytes h = rw (lt→ltb c 0x80 h) refl

decode_two :
    (c limit : ℕ) (bytes : List ℕ)
    → c < 0x800
    → decode 0 0 (take (suc (suc limit)) ((0xC0 + c / 64) ∷ (0x80 + c % 64) ∷ bytes))
      ≡ c ∷ decode 0 0 (take limit bytes)
unfolding decode
decode_two c limit bytes h =
    let e : (0xC0 + c / 64 - 0xC0) * 64 + (0x80 + c % 64) % 64 ≡ c = omega arith in
    rw (le→ltb (0xC0 + c / 64) 0x80 (omega arith), lt→ltb (0xC0 + c / 64) 0xE0 (omega arith), e)
      refl

decode_three :
    (c limit : ℕ) (bytes : List ℕ)
    → c < 0x10000
    → decode 0 0 (
        take
          (suc (suc (suc limit)))
          ((0xE0 + c / 4096) ∷ (0x80 + c / 64 % 64) ∷ (0x80 + c % 64) ∷ bytes))
      ≡ c ∷ decode 0 0 (take limit bytes)
unfolding decode
decode_three c limit bytes h =
    let e : ((0xE0 + c / 4096 - 0xE0) * 64 + (0x80 + c / 64 % 64) % 64) * 64 + (0x80 + c % 64) % 64
        ≡ c =
      omega arith in
    rw
      (
        le→ltb (0xE0 + c / 4096) 0x80 (omega arith),
        le→ltb (0xE0 + c / 4096) 0xE0 (omega arith),
        lt→ltb (0xE0 + c / 4096) 0xF0 (omega arith),
        e,
      )
      refl

decode_four :
    (c limit : ℕ) (bytes : List ℕ)
    → decode 0 0 (
        take (suc (suc (suc (suc limit)))) (
          (0xF0 + c / 262144)
          ∷ (0x80 + c / 4096 % 64)
          ∷ (0x80 + c / 64 % 64)
          ∷ (0x80 + c % 64)
          ∷ bytes))
      ≡ c ∷ decode 0 0 (take limit bytes)
unfolding decode
decode_four c limit bytes =
    let e : (((0xF0 + c / 262144 - 0xF0) * 64 + (0x80 + c / 4096 % 64) % 64) * 64
              + (0x80 + c / 64 % 64) % 64)
            * 64
          + (0x80 + c % 64) % 64
        ≡ c =
      omega arith in
    rw
      (
        le→ltb (0xF0 + c / 262144) 0x80 (omega arith),
        le→ltb (0xF0 + c / 262144) 0xE0 (omega arith),
        le→ltb (0xF0 + c / 262144) 0xF0 (omega arith),
        e,
      )
      refl

-- A character whose bytes are not all there.
decode_waits :
    (more c limit : ℕ) (bytes : List ℕ) → limit < more → decode more c (take limit bytes) ≡ []
unfolding decode
decode_waits zero c limit bytes h = elim h [ ]
decode_waits (suc more) c zero bytes h = refl
decode_waits (suc more) c (suc limit) [] h = refl
decode_waits (suc zero) c (suc limit) (b ∷ bytes) h = absurd (omega arith)
decode_waits (suc (suc more)) c (suc limit) (b ∷ bytes) h =
    decode_waits (suc more) _ limit bytes (omega arith)

cut_two :
    (c limit : ℕ) (bytes : List ℕ)
    → c < 0x800
    → limit < 2
    → decode 0 0 (take limit ((0xC0 + c / 64) ∷ bytes)) ≡ []
unfolding decode
cut_two c zero bytes h l = refl
cut_two c (suc limit) bytes h l =
    rw (le→ltb (0xC0 + c / 64) 0x80 (omega arith), lt→ltb (0xC0 + c / 64) 0xE0 (omega arith))
      (decode_waits 1 (0xC0 + c / 64 - 0xC0) limit bytes (omega arith))

cut_three :
    (c limit : ℕ) (bytes : List ℕ)
    → c < 0x10000
    → limit < 3
    → decode 0 0 (take limit ((0xE0 + c / 4096) ∷ bytes)) ≡ []
unfolding decode
cut_three c zero bytes h l = refl
cut_three c (suc limit) bytes h l =
    rw
      (
        le→ltb (0xE0 + c / 4096) 0x80 (omega arith),
        le→ltb (0xE0 + c / 4096) 0xE0 (omega arith),
        lt→ltb (0xE0 + c / 4096) 0xF0 (omega arith),
      )
      (decode_waits 2 (0xE0 + c / 4096 - 0xE0) limit bytes (omega arith))

cut_four :
    (c limit : ℕ) (bytes : List ℕ)
    → limit < 4
    → decode 0 0 (take limit ((0xF0 + c / 262144) ∷ bytes)) ≡ []
unfolding decode
cut_four c zero bytes l = refl
cut_four c (suc limit) bytes l =
    rw
      (
        le→ltb (0xF0 + c / 262144) 0x80 (omega arith),
        le→ltb (0xF0 + c / 262144) 0xE0 (omega arith),
        le→ltb (0xF0 + c / 262144) 0xF0 (omega arith),
      )
      (decode_waits 3 (0xF0 + c / 262144 - 0xF0) limit bytes (omega arith))

at_size :
    (w n big c : ℕ) (own bytes : List ℕ)
    → (w ≤ n → n ≡ big)
    → decode 0 0 (take big own) ≡ c ∷ decode 0 0 (take (n - w) bytes)
    → (n < w → decode 0 0 (take n own) ≡ [])
    → decode 0 0 (take n own) ≡ (if leb w n then c ∷ decode 0 0 (take (n - w) bytes) else [])
at_size w n big c own bytes is whole short = elim (Bool-cases (leb w n)) [
  | inl fits ↦ rw fits (
      subst (λ k. decode 0 0 (take k own) ≡ c ∷ decode 0 0 (take (n - w) bytes))
        (sym (is (leb→le w n fits))) whole)
  | inr over ↦ rw over (short (leb→lt w n over))
]

-- What is decoded of a character's bytes, and of those behind, cut at a limit.
decode-encode_char :
    (c n : ℕ) (bytes : List ℕ)
    → decode 0 0 (take n (encode_char c ++ bytes)) ≡ (
        if leb (length (encode_char c)) n
        then c ∷ decode 0 0 (take (n - length (encode_char c)) bytes)
        else [])
unfolding encode_char
decode-encode_char c n bytes = elim (Bool-cases (ltb c 0x80)) [
  | inl one ↦ rw one (
      at_size 1 n (suc (n - 1)) c (c ∷ bytes) bytes (λ h. omega arith)
        (decode_ascii c (n - 1) bytes (ltb→lt c 0x80 one))
        (λ h. let e : n ≡ 0 = omega arith in rw e (decode_nothing (c ∷ bytes))))
  | inr more ↦ elim (Bool-cases (ltb c 0x800)) [
    | inl two ↦
        rw (more, two)
          (at_size 2 n (suc (suc (n - 2))) c _ bytes (λ h. omega arith)
            (decode_two c (n - 2) bytes (ltb→lt c 0x800 two)) (cut_two c n _ (ltb→lt c 0x800 two)))
    | inr more2 ↦ elim (Bool-cases (ltb c 0x10000)) [
      | inl three ↦
          rw (more, more2, three)
            (at_size 3 n (suc (suc (suc (n - 3)))) c _ bytes (λ h. omega arith)
              (decode_three c (n - 3) bytes (ltb→lt c 0x10000 three))
              (cut_three c n _ (ltb→lt c 0x10000 three)))
      | inr four ↦
          rw (more, more2, four)
            (at_size 4 n (suc (suc (suc (suc (n - 4))))) c _ bytes (λ h. omega arith)
              (decode_four c (n - 4) bytes) (cut_four c n _))
    ]
  ]
]

pub cut_utf8_lem : (text : List ℕ) (limit : ℕ) → cut_utf8 text limit ≡ longest_prefix text limit
unfolding cut_utf8 longest_prefix encode
cut_utf8_lem [] limit = decode_none limit
cut_utf8_lem (c ∷ text) limit =
    rw
      (decode-encode_char c limit (encode text), cut_utf8_lem text (limit - length (encode_char c)))
      refl

longest_prefix-is_encodable :
    (text : List ℕ) (limit : ℕ)
    → is_encodable text ≡ true
    → is_encodable (longest_prefix text limit) ≡ true
unfolding longest_prefix
longest_prefix-is_encodable [] limit h = refl
longest_prefix-is_encodable (c ∷ text) limit h =
    ground (arith, h, longest_prefix-is_encodable text (limit - length (encode_char c)))

-- Of a text with no lone surrogate, `_cut_utf8` returns the longest prefix whose UTF-8 is at most `limit`
-- bytes long: the characters from the front as long as they fit, each whole. The prefix can be encoded
-- again.
pub cut_utf8-longest_prefix :
    (text : List ℕ) (limit : ℕ)
    → is_encodable text ≡ true
    → (cut_utf8 text limit ≡ longest_prefix text limit)
      × (is_encodable (cut_utf8 text limit) ≡ true)
cut_utf8-longest_prefix text limit h = (
  cut_utf8_lem text limit,
  rw (cut_utf8_lem text limit) (longest_prefix-is_encodable text limit h),
)
