-- ===== src/Output/Console.antt =====
-- python/pydeno/_result.py: the text of a console call, `format_console_arg`, `_number` and `_CONTROL`.
use pydeno.Prelude.{
  ℕ, suc, ◌^◌, Bool, true, false, ◌&&◌, ◌||◌, Option, none, some, List, [], ◌∷◌, ◌++◌, ltb, leb,
  if◌then◌else◌, codes,
}
use pydeno.Limits.{ℤ, pos, negsuc}
use pydeno.Pool.Numbers.{digits}

abbrev pub Text : Type 0
Text = List ℕ

-- A float, by what `_number` asks: a whole number or another, either with the text that `repr` gives.
pub data Number : Type 0 where
  nan inf neg_inf neg_zero : Number
  whole : ℤ → Text → Number
  fraction : Text → Number

-- A value that a console call is given. What is none of the first is written as JSON, none where
-- `json.dumps` or `to_jsonable` raises, and then by the name of its type.
pub data Arg : Type 0 where
  str : Text → Arg
  undefined null : Arg
  bool : Bool → Arg
  int : ℤ → Arg
  float : Number → Arg
  other : Option Text → Text → Arg

-- `str(n)`; one of more than 4300 digits, for which it raises, does not cross from the worker.
abbrev pub str_int : ℤ → Text
str_int (pos n) = digits n
str_int (negsuc n) = codes "-" ++ digits (suc n)

abbrev pub is_exact : ℤ → Bool
is_exact (pos n) = ltb n (10 ^ 21)
is_exact (negsuc n) = ltb (suc n) (10 ^ 21)

-- `_number`
unfoldable pub number : Number → Text
number nan = codes "NaN"
number inf = codes "Infinity"
number neg_inf = codes "-Infinity"
number neg_zero = codes "-0"
number (whole n repr) = if is_exact n then str_int n else repr
number (fraction repr) = repr

unfoldable pub format_console_arg : Arg → Text
unfolding number
format_console_arg (str text) = text
format_console_arg undefined = codes "undefined"
format_console_arg null = codes "null"
format_console_arg (bool true) = codes "true"
format_console_arg (bool false) = codes "false"
format_console_arg (int n) = str_int n
format_console_arg (float x) = number x
format_console_arg (other (some json) name) = json
format_console_arg (other none name) = codes "<" ++ (name ++ codes ">")

-- `_CONTROL`, as ranges of code points.
pub data Range : Type 0 where
  from_to : ℕ → ℕ → Range

abbrev pub control : List Range
control =
    from_to 0x0 0x8
    ∷ from_to 0xB 0x1F
    ∷ from_to 0x7F 0x9F
    ∷ from_to 0xAD 0xAD
    ∷ from_to 0x34F 0x34F
    ∷ from_to 0x600 0x605
    ∷ from_to 0x61C 0x61C
    ∷ from_to 0x6DD 0x6DD
    ∷ from_to 0x70F 0x70F
    ∷ from_to 0x890 0x890
    ∷ from_to 0x891 0x891
    ∷ from_to 0x8E2 0x8E2
    ∷ from_to 0x115F 0x115F
    ∷ from_to 0x1160 0x1160
    ∷ from_to 0x180B 0x180F
    ∷ from_to 0x200B 0x200F
    ∷ from_to 0x2028 0x202E
    ∷ from_to 0x2060 0x206F
    ∷ from_to 0x3164 0x3164
    ∷ from_to 0xD800 0xDFFF
    ∷ from_to 0xFE00 0xFE0F
    ∷ from_to 0xFEFF 0xFEFF
    ∷ from_to 0xFFA0 0xFFA0
    ∷ from_to 0xFFF9 0xFFFB
    ∷ from_to 0x110BD 0x110BD
    ∷ from_to 0x110CD 0x110CD
    ∷ from_to 0x13430 0x1343F
    ∷ from_to 0x1BCA0 0x1BCA3
    ∷ from_to 0x1D173 0x1D17A
    ∷ from_to 0xE0000 0xE007F
    ∷ from_to 0xE0100 0xE01EF
    ∷ []

abbrev pub in_ranges : List Range → ℕ → Bool
in_ranges [] c = false
in_ranges (from_to low high ∷ ranges) c = leb low c && leb c high || in_ranges ranges c

unfoldable pub is_control : ℕ → Bool
is_control c = in_ranges control c

-- `_CONTROL.sub("?", text)`
unfoldable pub inert : Text → Text
unfolding is_control
inert [] = []
inert (c ∷ text) = (if is_control c then b'?' else c) ∷ inert text

-- `" ".join(format_console_arg(a) for a in args)`
unfoldable pub join_args : List Arg → Text
unfolding format_console_arg
join_args [] = []
join_args (a ∷ []) = format_console_arg a
join_args (a ∷ args) = format_console_arg a ++ b' ' ∷ join_args args
