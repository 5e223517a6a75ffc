-- ===== src/Gate/Combine/AnyOf.antt =====
-- `any_of` of python/pydeno/_gate.py against what it promises.
use pydeno.Prelude.{
  ℕ, suc, ◌+◌, ◌≡◌, refl, sym, ap, ◌∙◌, Bool, true, false, ◌||◌, none, List, [], ◌∷◌, ◌++◌,
  append_assoc, append-nil, length, arith, if◌then◌else◌,
}
use pydeno.Gate.Verdict.{
  Text, Verdict, verdict, returned, raised_unavailable, Call, Decision, allowed, denied,
  unavailable, decide,
}
use pydeno.Gate.Combine.{
  Fold, any_of, combine_loop, combine, merge, denied_labels, denied_reasons, join,
}

-- A gate that does not allow: it denies, or it cannot decide.
pub data Refusing : Type 0 where
  denies : Text → List Text → Refusing
  cannot : Refusing

abbrev pub decision_of : Refusing → Decision
decision_of (denies reason labels) = denied reason labels
decision_of cannot = unavailable

abbrev pub AllRefuse : List Call → List Refusing → Type 0
AllRefuse [] [] = Unit
AllRefuse (g ∷ gs) (x ∷ xs) = (decide none g ≡ decision_of x) × AllRefuse gs xs
AllRefuse _ _ = ⊥

abbrev pub denials : List Refusing → List (Text × List Text)
denials [] = []
denials (denies reason labels ∷ xs) = (reason, labels) ∷ denials xs
denials (cannot ∷ xs) = denials xs

abbrev pub some_cannot : List Refusing → Bool
some_cannot [] = false
some_cannot (denies reason labels ∷ xs) = some_cannot xs
some_cannot (cannot ∷ xs) = true

abbrev fold_of : List (Text × List Text) → Bool → Fold
fold_of ds u = record {
  kind = any_of;
  allowed_so_far = [];
  denied_so_far = ds;
  unavailable_so_far = u;
}

or_false : (u : Bool) → (u || false) ≡ u
or_false true = refl
or_false false = refl

or_true : (u : Bool) → (u || true) ≡ true
or_true true = refl
or_true false = refl

-- Behind gates that do not allow the loop stands where they left it.
loop_refusing :
    (n : ℕ) (pre post : List Call) (ds : List (Text × List Text)) (u : Bool) (xs : List Refusing)
    → AllRefuse pre xs
    → combine_loop n (pre ++ post) (fold_of ds u)
      ≡ combine_loop (length pre + n) post (fold_of (ds ++ denials xs) (u || some_cannot xs))
unfolding combine_loop
loop_refusing n [] post ds u [] h =
    let e : n ≡ 0 + n = omega arith in
    rw (append-nil ds, or_false u) (ap (λ k. combine_loop k post (fold_of ds u)) e)
loop_refusing n [] post ds u (x ∷ xs) h = elim h [ ]
loop_refusing n (g ∷ pre) post ds u [] h = elim h [ ]
loop_refusing n (g ∷ pre) post ds u (denies reason labels ∷ xs) (first, rest) = rw first (
    loop_refusing (suc n) pre post (ds ++ (reason, labels) ∷ []) u xs rest
    ∙ let e : length pre + suc n ≡ suc (length pre) + n = omega arith in
      rw (append_assoc ds ((reason, labels) ∷ []) (denials xs)) (rw e refl))
loop_refusing n (g ∷ pre) post ds u (cannot ∷ xs) (first, rest) = rw first (
    loop_refusing (suc n) pre post ds true xs rest
    ∙ let e : length pre + suc n ≡ suc (length pre) + n = omega arith in rw (e, or_true u) refl)

combine_refusing :
    (pre post : List Call) (xs : List Refusing)
    → AllRefuse pre xs
    → combine any_of (pre ++ post)
      ≡ combine_loop (length pre) post (fold_of (denials xs) (some_cannot xs))
unfolding combine
combine_refusing pre post xs h =
    loop_refusing 0 pre post [] false xs h
    ∙ let e : length pre + 0 ≡ length pre = omega arith in
      ap (λ k. combine_loop k post (fold_of (denials xs) (some_cannot xs))) e

-- Behind gates that deny or cannot decide, the first that allows decides: its own verdict is the
-- answer, and no gate behind it is called.
pub any_of_allows :
    (pre : List Call) (g : Call) (post : List Call) (xs : List Refusing) (v : Verdict)
    → AllRefuse pre xs
    → decide none g ≡ allowed v
    → combine any_of (pre ++ g ∷ post) ≡ (returned (verdict v), suc (length pre))
any_of_allows pre g post xs v refusing allows =
    combine_refusing pre (g ∷ post) xs refusing ∙ (unfold combine_loop in rw allows refl)

-- If no gate allows, all are called, and `any_of` raises GateUnavailable if one of them could not
-- decide, and otherwise denies, with every reason and every label, the first gate's first.
pub any_of_refuses :
    (gates : List Call) (xs : List Refusing)
    → AllRefuse gates xs
    → combine any_of gates ≡ (
      if some_cannot xs
          then raised_unavailable
          else returned (
              verdict (record {
                allow = false;
                reason = join (10 ∷ []) (denied_reasons (denials xs));
                labels = merge (denied_labels (denials xs));
              })),
      length gates,
    )
any_of_refuses gates xs refusing =
    ap (combine any_of) (sym (append-nil gates))
    ∙ combine_refusing gates [] xs refusing
    ∙ unfold combine_loop merge join in refl
