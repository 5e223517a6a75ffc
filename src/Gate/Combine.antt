-- ===== src/Gate/Combine.antt =====
-- `all_of` and `any_of` of python/pydeno/_gate.py. A gate of a combination is here what it does on the
-- one source and context at hand; it is called only when its turn comes.
pub mod Labels
pub mod AllOf
pub mod AnyOf
use pydeno.Prelude.{
  ℕ, zero, suc, Bool, true, false, not, ◌&&◌, ◌||◌, Option, none, some, List, [], ◌∷◌, ◌++◌, codes,
  is_empty, same, if◌then◌else◌,
}
use pydeno.Gate.Verdict.{
  Text, Verdict, Answer, verdict, Reaction, returned, raised_unavailable, escaped, Call, Decision,
  allowed, denied, unavailable, propagated, decide,
}

pub data Kind : Type 0 where
  all_of any_of : Kind

unfoldable pub among : Text → List Text → Bool
among x [] = false
among x (y ∷ ys) = same x y || among x ys

-- `dict.fromkeys`: each label once, at its first place. `seen` are those already placed.
unfoldable pub distinct : List Text → List Text → List Text
unfolding among
distinct seen [] = []
distinct seen (x ∷ xs) =
    let rest = distinct (x ∷ seen) xs in
    let skip = distinct seen xs in if among x seen then skip else x ∷ rest

abbrev pub flatten : List (List Text) → List Text
flatten [] = []
flatten (g ∷ gs) = g ++ flatten gs

-- `_merge`
unfoldable pub merge : List (List Text) → List Text
unfolding distinct
merge groups = distinct [] (flatten groups)

abbrev pub labels_of : List Verdict → List (List Text)
labels_of [] = []
labels_of (v ∷ vs) = v.labels ∷ labels_of vs

-- `separator.join(r for r in reasons if r)`
unfoldable pub join : Text → List Text → Text
join separator [] = []
join separator (r ∷ rs) =
    let rest = join separator rs in
    if is_empty r then rest else if is_empty rest then r else r ++ (separator ++ rest)

abbrev pub reasons_of : List Verdict → List Text
reasons_of [] = []
reasons_of (v ∷ vs) = v.reason ∷ reasons_of vs

abbrev pub denied_reasons : List (Text × List Text) → List Text
denied_reasons [] = []
denied_reasons ((reason, _) ∷ ds) = reason ∷ denied_reasons ds

-- `_Fold`
pub record Fold : Type 0 where
  pub kind : Kind
  pub allowed_so_far : List Verdict
  pub denied_so_far : List (Text × List Text)
  pub unavailable_so_far : Bool

abbrev pub empty_fold : Kind → Fold
empty_fold kind = record {
  kind = kind;
  allowed_so_far = [];
  denied_so_far = [];
  unavailable_so_far = false;
}

-- What `add` does: go on, answer with a combined verdict, or raise. `GateUnavailable` and what is no
-- `Exception` leave `__call__` as they are.
pub data Added : Type 0 where
  go_on : Fold → Added
  answer : Verdict → Added
  raise_unavailable : Added
  propagate : Added

-- `_outcome` and `add`, for each of the two kinds
unfoldable pub add_all : Fold → Decision → Added
unfolding merge
add_all f (allowed v) = go_on (record f { allowed_so_far = f.allowed_so_far ++ v ∷ [] })
add_all f (denied reason labels) = answer (record {
  allow = false;
  reason = reason;
  labels = merge (labels ∷ labels_of f.allowed_so_far);
})
add_all f unavailable = raise_unavailable
add_all f propagated = propagate

unfoldable pub add_any : Fold → Decision → Added
add_any f (allowed v) = answer v
add_any f (denied reason labels) =
    go_on (record f { denied_so_far = f.denied_so_far ++ (reason, labels) ∷ [] })
add_any f unavailable = go_on (record f { unavailable_so_far = true })
add_any f propagated = propagate

unfoldable pub add_kind : Kind → Fold → Decision → Added
unfolding add_all add_any
add_kind all_of f d = add_all f d
add_kind any_of f d = add_any f d

-- `add` on what `_outcome` gives
unfoldable pub add : Fold → Decision → Added
unfolding add_kind
add f d = add_kind f.kind f d

abbrev pub denied_labels : List (Text × List Text) → List (List Text)
denied_labels [] = []
denied_labels ((_, labels) ∷ ds) = labels ∷ denied_labels ds

unfoldable pub finish_all : Fold → Reaction
unfolding merge join
finish_all f = returned (
    verdict (record {
      allow = true;
      reason = join (codes "; ") (reasons_of f.allowed_so_far);
      labels = merge (labels_of f.allowed_so_far);
    }))

unfoldable pub finish_any : Fold → Reaction
unfolding merge join
finish_any f =
    if f.unavailable_so_far
    then raised_unavailable
    else returned (
        verdict (record {
          allow = false;
          reason = join (10 ∷ []) (denied_reasons f.denied_so_far);
          labels = merge (denied_labels f.denied_so_far);
        }))

unfoldable pub finish_kind : Kind → Fold → Reaction
unfolding finish_all finish_any
finish_kind all_of f = finish_all f
finish_kind any_of f = finish_any f

-- `end`
unfoldable pub finish : Fold → Reaction
unfolding finish_kind
finish f = finish_kind f.kind f

-- How the loop goes on after `add`: `called` gates so far, and the rest of the loop.
abbrev pub go_on_with : Added → ℕ → (Fold → Reaction × ℕ) → Reaction × ℕ
go_on_with (go_on f) called loop = loop f
go_on_with (answer v) called loop = (returned (verdict v), called)
go_on_with raise_unavailable called loop = (raised_unavailable, called)
go_on_with propagate called loop = (escaped, called)

-- The loop of `_SyncCombined.__call__`: what the combined gate does, and how many gates were called.
unfoldable pub combine_loop : ℕ → List Call → Fold → Reaction × ℕ
unfolding add finish
combine_loop called [] f = (finish f, called)
combine_loop called (g ∷ gs) f =
    go_on_with (add f (decide none g)) (suc called) (combine_loop (suc called) gs)

-- `_SyncCombined.__call__`
unfoldable pub combine : Kind → List Call → Reaction × ℕ
unfolding combine_loop
combine kind gates = combine_loop 0 gates (empty_fold kind)
