-- ===== src/Output/Jsonable.antt =====
-- python/pydeno/_result.py: `to_jsonable`, the value of a run as plain JSON data.
pub mod Depth
use pydeno.Prelude.{
  ℕ, suc, ◌+◌, Bool, true, false, ◌||◌, Option, none, some, List, [], ◌∷◌, ◌++◌, ltb, ◌==◌, same,
  if◌then◌else◌, codes, Result, ok, err, ◌>>=◌, ◌>>◌,
}
use pydeno.Limits.{ℤ}
use pydeno.Output.Console.{Text, Arg, str, format_console_arg}

-- What crosses from the worker. A float may be finite; `bytes` comes with its base64 text, and a date or
-- a time with the text of `isoformat`, of a datetime with the time zone that the code gives it.
mutual
  pub data Value : Type 0 where
    null undefined nonfinite : Value
    bool : Bool → Value
    text : Text → Value
    int : ℤ → Value
    float : Text → Value
    bytes : Text → Value
    date : Text → Value
    dict : Entries → Value
    list : Items → Value
    set : Items → Value
    other : Text → Value

  pub data Items : Type 0 where
    nil : Items
    cons : Value → Items → Items

  pub data Entries : Type 0 where
    end : Entries
    entry : Arg → Value → Entries → Entries

mutual
  pub data Json : Type 0 where
    json_null : Json
    json_bool : Bool → Json
    json_text : Text → Json
    json_int : ℤ → Json
    json_float : Text → Json
    array : Jsons → Json
    object : Fields → Json

  pub data Jsons : Type 0 where
    empty : Jsons
    then_json : Json → Jsons → Jsons

  pub data Fields : Type 0 where
    no_fields : Fields
    field : Text → Json → Fields → Fields

-- `_MAX_DEPTH`
abbrev pub max_depth : ℕ
max_depth = 200

-- `ValueError("result is nested too deeply")`
pub data TooDeep : Type 0 where
  too_deep : TooDeep

-- A key that is written twice keeps its place and its later value.
unfoldable pub write : Text → Json → Fields → Fields
write key value no_fields = field key value no_fields
write key value (field name old rest) =
    if same key name then field name value rest else field name old (write key value rest)

-- `members.sort(key=...)` by the texts that `json.dumps` gives: stable.
abbrev pub before : Text → Text → Bool
before [] ys = false
before (x ∷ xs) [] = false
before (x ∷ xs) (y ∷ ys) = ltb x y || (if x == y then before xs ys else false)

-- `insert_sorted` and `sort` by the text that `json.dumps(m, sort_keys=True)` gives, a parameter.
unfoldable pub insert_sorted : (Json → Text) → Json → Jsons → Jsons
insert_sorted dumps x empty = then_json x empty
insert_sorted dumps x (then_json y ys) =
    if before (dumps y) (dumps x)
    then then_json y (insert_sorted dumps x ys)
    else then_json x (then_json y ys)

unfoldable pub sort : (Json → Text) → Jsons → Jsons
unfolding insert_sorted
sort dumps empty = empty
sort dumps (then_json x xs) = insert_sorted dumps x (sort dumps xs)

abbrev pub key_text : Arg → Text
key_text key = format_console_arg key

abbrev pub check_depth : ℕ → Result TooDeep (Unit {0})
check_depth depth = if ltb max_depth depth then err too_deep else ok tt

-- `to_jsonable(value, depth)`, of a value, of the members of a list, and of the entries of a dict, which
-- are written to what there is.
unfoldable mutual
  unfolding sort write

  pub to_jsonable : (Json → Text) → ℕ → Value → Result TooDeep Json
  to_jsonable dumps depth null = check_depth depth >> ok json_null
  to_jsonable dumps depth undefined = check_depth depth >> ok json_null
  to_jsonable dumps depth nonfinite = check_depth depth >> ok json_null
  to_jsonable dumps depth (bool b) = check_depth depth >> ok (json_bool b)
  to_jsonable dumps depth (text t) = check_depth depth >> ok (json_text t)
  to_jsonable dumps depth (int n) = check_depth depth >> ok (json_int n)
  to_jsonable dumps depth (float t) = check_depth depth >> ok (json_float t)
  to_jsonable dumps depth (bytes t) = check_depth depth >> ok (json_text t)
  to_jsonable dumps depth (date t) = check_depth depth >> ok (json_text t)
  to_jsonable dumps depth (dict entries) =
      check_depth depth
      >> (to_fields dumps (suc depth) no_fields entries >>= λ fields. ok (object fields))
  to_jsonable dumps depth (list items) =
      check_depth depth >> (to_jsons dumps (suc depth) items >>= λ members. ok (array members))
  to_jsonable dumps depth (set items) =
      check_depth depth
      >> (to_jsons dumps (suc depth) items >>= λ members. ok (array (sort dumps members)))
  to_jsonable dumps depth (other name) =
      check_depth depth >> ok (json_text (codes "<" ++ (name ++ codes ">")))

  pub to_jsons : (Json → Text) → ℕ → Items → Result TooDeep Jsons
  to_jsons dumps depth nil = ok empty
  to_jsons dumps depth (cons v vs) =
      to_jsonable dumps depth v >>= λ x. to_jsons dumps depth vs >>= λ xs. ok (then_json x xs)

  pub to_fields : (Json → Text) → ℕ → Fields → Entries → Result TooDeep Fields
  to_fields dumps depth written end = ok written
  to_fields dumps depth written (entry key v rest) =
      to_jsonable dumps depth v >>= λ x. to_fields dumps depth (write (key_text key) x written) rest
