-- ===== src/Output/Jsonable/Depth.antt =====
-- How deep a value may be: `to_jsonable` of python/pydeno/_result.py.
use pydeno.Prelude.{
  ℕ, suc, ◌+◌, ◌≤◌, ◌≡◌, refl, ap, ◌∙◌, Bool, true, false, ◌&&◌, ltb, leb, ltb→lt, lt→leb, max,
  arith, Result, ok, err, ◌>>=◌, ◌>>◌, Bool-cases, inl, inr,
}
use pydeno.Output.Console.{Text}
use pydeno.Output.Jsonable.{
  Value, null, undefined, nonfinite, bool, text, int, float, bytes, date, dict, list, set, other,
  Items, nil, cons, Entries, end, entry, Json, Fields, max_depth, TooDeep, key_text, write,
  check_depth, to_jsonable, to_jsons, to_fields,
}

-- The levels of a value below its own.
abbrev mutual
  pub depth_of : Value → ℕ
  depth_of (dict entries) = depth_of_entries entries
  depth_of (list items) = depth_of_items items
  depth_of (set items) = depth_of_items items
  depth_of _ = 0

  pub depth_of_items : Items → ℕ
  depth_of_items nil = 0
  depth_of_items (cons v vs) = max (suc (depth_of v)) (depth_of_items vs)

  pub depth_of_entries : Entries → ℕ
  depth_of_entries end = 0
  depth_of_entries (entry key v rest) = max (suc (depth_of v)) (depth_of_entries rest)

abbrev pub is_ok {ℓ} : {A : Type ℓ} → Result TooDeep A → Bool
is_ok (ok a) = true
is_ok (err e) = false

is_ok-bind {ℓ κ} :
    {A : Type ℓ} {B : Type κ} (m : Result TooDeep A) (f : A → Result TooDeep B) (b : Bool)
    → ((a : A) → is_ok (f a) ≡ b)
    → is_ok (m >>= f) ≡ is_ok m && b
is_ok-bind (ok a) f b h = h a
is_ok-bind (err e) f b h = refl

is_ok-map {ℓ κ} :
    {A : Type ℓ} {B : Type κ} (m : Result TooDeep A) (f : A → B)
    → is_ok (m >>= λ a. ok (f a)) ≡ is_ok m
is_ok-map (ok a) f = refl
is_ok-map (err e) f = refl

leaf : (d : ℕ) (json : Json) → is_ok (check_depth d >> ok json) ≡ leb (d + 0) max_depth
leaf d json = ground arith

below :
    (d n : ℕ) (r : Result TooDeep Json)
    → (d ≤ max_depth → is_ok r ≡ leb (d + n) max_depth)
    → is_ok (check_depth d >> r) ≡ leb (d + n) max_depth
below d n r h = elim (Bool-cases (ltb max_depth d)) [
  | inl over ↦ rw (over, lt→leb (d + n) max_depth (omega (arith, ltb→lt max_depth d over))) refl
  | inr fits ↦ rw fits (h (ground arith))
]

level :
    (d x xs : ℕ)
    → leb (suc d + x) max_depth && leb (d + xs) max_depth ≡ leb (d + max (suc x) xs) max_depth
level d x xs = ground arith

mutual
  unfolding to_jsonable to_jsons to_fields

  to_jsonable-ok :
      (dumps : Json → Text) (d : ℕ) (v : Value)
      → is_ok (to_jsonable dumps d v) ≡ leb (d + depth_of v) max_depth
  to_jsonable-ok dumps d null = leaf d _
  to_jsonable-ok dumps d undefined = leaf d _
  to_jsonable-ok dumps d nonfinite = leaf d _
  to_jsonable-ok dumps d (bool b) = leaf d _
  to_jsonable-ok dumps d (text t) = leaf d _
  to_jsonable-ok dumps d (int n) = leaf d _
  to_jsonable-ok dumps d (float t) = leaf d _
  to_jsonable-ok dumps d (bytes t) = leaf d _
  to_jsonable-ok dumps d (date t) = leaf d _
  to_jsonable-ok dumps d (other name) = leaf d _
  to_jsonable-ok dumps d (list items) =
      below d _ _ (λ h. is_ok-map (to_jsons dumps (suc d) items) _ ∙ to_jsons-ok dumps d items h)
  to_jsonable-ok dumps d (set items) =
      below d _ _ (λ h. is_ok-map (to_jsons dumps (suc d) items) _ ∙ to_jsons-ok dumps d items h)
  to_jsonable-ok dumps d (dict entries) =
      below d _ _
        (λ h. is_ok-map (to_fields dumps (suc d) _ entries) _ ∙ to_fields-ok dumps d _ entries h)

  to_jsons-ok :
      (dumps : Json → Text) (d : ℕ) (vs : Items)
      → d ≤ max_depth
      → is_ok (to_jsons dumps (suc d) vs) ≡ leb (d + depth_of_items vs) max_depth
  to_jsons-ok dumps d nil h = ground arith
  to_jsons-ok dumps d (cons v vs) h =
      is_ok-bind (to_jsonable dumps (suc d) v) _ (leb (d + depth_of_items vs) max_depth)
        (λ x. is_ok-map (to_jsons dumps (suc d) vs) _ ∙ to_jsons-ok dumps d vs h)
      ∙ ap (λ b. b && leb (d + depth_of_items vs) max_depth) (to_jsonable-ok dumps (suc d) v)
      ∙ level d (depth_of v) (depth_of_items vs)

  to_fields-ok :
      (dumps : Json → Text) (d : ℕ) (written : Fields) (vs : Entries)
      → d ≤ max_depth
      → is_ok (to_fields dumps (suc d) written vs) ≡ leb (d + depth_of_entries vs) max_depth
  to_fields-ok dumps d written end h = ground arith
  to_fields-ok dumps d written (entry key v rest) h =
      is_ok-bind (to_jsonable dumps (suc d) v) _ (leb (d + depth_of_entries rest) max_depth)
        (λ x. to_fields-ok dumps d (write (key_text key) x written) rest h)
      ∙ ap (λ b. b && leb (d + depth_of_entries rest) max_depth) (to_jsonable-ok dumps (suc d) v)
      ∙ level d (depth_of v) (depth_of_entries rest)

-- `to_jsonable` returns JSON data for a value exactly where the value is nested at most `_MAX_DEPTH`
-- levels deep, whatever it holds; a deeper one is an error.
pub to_jsonable_depth :
    (dumps : Json → Text) (v : Value) → is_ok (to_jsonable dumps 0 v) ≡ leb (depth_of v) max_depth
to_jsonable_depth dumps v =
    let e : 0 + depth_of v ≡ depth_of v = omega arith in
    to_jsonable-ok dumps 0 v ∙ ap (λ n. leb n max_depth) e
