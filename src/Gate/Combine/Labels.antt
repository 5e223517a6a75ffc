-- ===== src/Gate/Combine/Labels.antt =====
-- `_merge` of python/pydeno/_gate.py: the labels of a combined verdict.
use pydeno.Prelude.{
  ◌≡◌, refl, ap, ◌∙◌, Bool, true, false, not, ◌&&◌, ◌||◌, List, [], ◌∷◌, ◌++◌, same_refl, same_iff,
  arith, Bool-cases, inl, inr,
}
use pydeno.Gate.Verdict.{Text}
use pydeno.Gate.Combine.{among, distinct, merge, flatten}

-- The label stands in one of the groups.
abbrev pub in_groups : Text → List (List Text) → Bool
in_groups x [] = false
in_groups x (g ∷ gs) = among x g || in_groups x gs

abbrev pub no_repeats : List Text → Bool
no_repeats [] = true
no_repeats (x ∷ xs) = not (among x xs) && no_repeats xs

among-append : (x : Text) (xs ys : List Text) → among x (xs ++ ys) ≡ (among x xs || among x ys)
unfolding among
among-append x [] ys = refl
among-append x (y ∷ xs) ys = ground (arith, among-append x xs ys)

among-distinct :
    (x : Text) (seen xs : List Text)
    → among x (distinct seen xs) ≡ (among x xs && not (among x seen))
unfolding distinct
among-distinct x seen [] = refl
among-distinct x seen (y ∷ ys) = elim (Bool-cases (among y seen)) [
  | inl old ↦ rw old (ground (arith, same_iff x y, among-distinct x seen ys))
  | inr new ↦ rw new (ground (arith, same_iff x y, among-distinct x (y ∷ seen) ys))
]

no_repeats-distinct : (seen xs : List Text) → no_repeats (distinct seen xs) ≡ true
unfolding distinct
no_repeats-distinct seen [] = refl
no_repeats-distinct seen (y ∷ ys) = elim (Bool-cases (among y seen)) [
  | inl old ↦ rw old (no_repeats-distinct seen ys)
  | inr new ↦ rw new (
      ground
        (arith, among-distinct y (y ∷ seen) ys, same_refl y, no_repeats-distinct (y ∷ seen) ys))
]

in_groups-flatten :
    (x : Text) (groups : List (List Text)) → among x (flatten groups) ≡ in_groups x groups
unfolding among
in_groups-flatten x [] = refl
in_groups-flatten x (g ∷ gs) =
    among-append x g (flatten gs) ∙ ap (λ b. among x g || b) (in_groups-flatten x gs)

-- The merged labels are those of the groups, each once, and where the first group has labels its
-- first one leads.
pub merge_lem :
    (x top : Text) (labels : List Text) (groups : List (List Text))
    → (among x (merge groups) ≡ in_groups x groups)
      × (no_repeats (merge groups) ≡ true)
      × ((rest : List Text) × (merge ((top ∷ labels) ∷ groups) ≡ top ∷ rest))
unfolding merge
merge_lem x top labels groups = (
  among-distinct x [] (flatten groups) ∙ ground (arith, in_groups-flatten x groups),
  no_repeats-distinct [] (flatten groups),
  (distinct (top ∷ []) (labels ++ flatten groups), refl),
)
