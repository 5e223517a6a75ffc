-- ===== src/Gate/Combine/AllOf.antt =====
-- `all_of` of python/pydeno/_gate.py against what it promises.
use pydeno.Prelude.{
  ℕ, suc, ◌+◌, ◌≡◌, ◌↔◌, refl, sym, ap, ◌∙◌, subst, Bool, true, false, Option, none, some, List, [],
  ◌∷◌, ◌++◌, append_assoc, append-nil, codes, length, arith,
}
use pydeno.Gate.Verdict.{
  Text, Verdict, verdict, Reaction, returned, raised_unavailable, escaped, Call, Decision, allowed,
  denied, unavailable, propagated, decide,
}
use pydeno.Gate.Combine.{Fold, all_of, combine_loop, combine, merge, labels_of, reasons_of, join}

-- Every gate of the list allows, with these verdicts.
abbrev pub Allowing : List Call → List Verdict → Type 0
Allowing [] [] = Unit
Allowing (g ∷ gs) (v ∷ vs) = (decide none g ≡ allowed v) × Allowing gs vs
Allowing _ _ = ⊥

abbrev fold_of : List Verdict → Fold
fold_of us = record {
  kind = all_of;
  allowed_so_far = us;
  denied_so_far = [];
  unavailable_so_far = false;
}

-- Behind gates that allow the loop stands where they left it.
loop-Allowing :
    (n : ℕ) (pre post : List Call) (us vs : List Verdict)
    → Allowing pre vs
    → combine_loop n (pre ++ post) (fold_of us)
      ≡ combine_loop (length pre + n) post (fold_of (us ++ vs))
unfolding combine_loop
loop-Allowing n [] post us [] h =
    let e : n ≡ 0 + n = omega arith in
    rw (append-nil us) (ap (λ k. combine_loop k post (fold_of us)) e)
loop-Allowing n [] post us (v ∷ vs) h = elim h [ ]
loop-Allowing n (g ∷ pre) post us [] h = elim h [ ]
loop-Allowing n (g ∷ pre) post us (v ∷ vs) (first, rest) = rw first (
    loop-Allowing (suc n) pre post (us ++ v ∷ []) vs rest
    ∙ let e : length pre + suc n ≡ suc (length pre) + n = omega arith in
      rw (append_assoc us (v ∷ []) vs) (ap (λ k. combine_loop k post (fold_of (us ++ v ∷ vs))) e))

combine-Allowing :
    (pre post : List Call) (vs : List Verdict)
    → Allowing pre vs
    → combine all_of (pre ++ post) ≡ combine_loop (length pre) post (fold_of vs)
unfolding combine
combine-Allowing pre post vs h =
    loop-Allowing 0 pre post [] vs h
    ∙ let e : length pre + 0 ≡ length pre = omega arith in
      ap (λ k. combine_loop k post (fold_of vs)) e

abbrev combined : Bool → Text → List Text → Reaction
combined allow reason labels =
    returned (verdict (record { allow = allow; reason = reason; labels = labels }))

-- What a gate that does not allow makes of the combination, behind gates that gave `vs`: a denial keeps
-- its reason and its labels, with the labels of the gates before it behind them; a gate that cannot
-- decide makes the combination unavailable; what is no `Exception` goes through.
abbrev pub stop : List Verdict → Decision → Option Reaction
stop vs (allowed v) = none
stop vs (denied reason labels) = some (combined false reason (merge (labels ∷ labels_of vs)))
stop vs unavailable = some raised_unavailable
stop vs propagated = some escaped

-- All gates allow: the combination allows, with the reasons joined and the labels merged.
pub all_of_allow :
    (gates : List Call) (vs : List Verdict)
    → Allowing gates vs
    → combine all_of gates
      ≡ (combined true (join (codes "; ") (reasons_of vs)) (merge (labels_of vs)), length gates)
all_of_allow gates vs allowing =
    ap (combine all_of) (sym (append-nil gates))
    ∙ combine-Allowing gates [] vs allowing
    ∙ unfold combine_loop merge join in refl

stopped :
    (n : ℕ) (g : Call) (post : List Call) (vs : List Verdict) (d : Decision) (r : Reaction)
    → decide none g ≡ d
    → stop vs d ≡ some r
    → combine_loop n (g ∷ post) (fold_of vs) ≡ (r, suc n)
unfolding combine_loop merge
stopped n g post vs (allowed v) r e s = cc
stopped n g post vs (denied reason labels) r e s = rw e (ground arith)
stopped n g post vs unavailable r e s = rw e (ground arith)
stopped n g post vs propagated r e s = rw e (ground arith)

-- Behind gates that allow, the first gate that does not allow decides, as `stop` says, and no gate
-- behind it is called.
pub all_of_stops :
    (pre : List Call) (g : Call) (post : List Call) (vs : List Verdict) (r : Reaction)
    → Allowing pre vs
    → stop vs (decide none g) ≡ some r
    → combine all_of (pre ++ g ∷ post) ≡ (r, suc (length pre))
all_of_stops pre g post vs r allowing stops =
    combine-Allowing pre (g ∷ post) vs allowing
    ∙ stopped (length pre) g post vs (decide none g) r refl stops

-- The combination answers with a verdict that allows.
abbrev pub IsAllowing : Reaction → Type 0
IsAllowing (returned (verdict v)) = v.allow ≡ true
IsAllowing _ = ⊥

loop_allows_step :
    (n : ℕ) (g : Call) (gs : List Call) (us : List Verdict) (d : Decision)
    → decide none g ≡ d
    → IsAllowing (combine_loop n (g ∷ gs) (fold_of us)).0
    → ((v : Verdict)
        → IsAllowing (combine_loop (suc n) gs (fold_of (us ++ v ∷ []))).0
        → (vs : List Verdict) × Allowing gs vs)
    → (vs : List Verdict) × Allowing (g ∷ gs) vs
unfolding combine_loop
loop_allows_step n g gs us (allowed v) e h ih =
    let (vs, rest) = ih v (rw e at h) in (v ∷ vs, (e, rest))
loop_allows_step n g gs us (denied reason labels) e h ih = cc (rw e at h)
loop_allows_step n g gs us unavailable e h ih = elim (rw e at h) [ ]
loop_allows_step n g gs us propagated e h ih = elim (rw e at h) [ ]

loop_allows :
    (n : ℕ) (gates : List Call) (us : List Verdict)
    → IsAllowing (combine_loop n gates (fold_of us)).0
    → (vs : List Verdict) × Allowing gates vs
loop_allows n [] us h = ([], tt)
loop_allows n (g ∷ gs) us h =
    loop_allows_step n g gs us (decide none g) refl h
      (λ v k. loop_allows (suc n) gs (us ++ v ∷ []) k)

-- `all_of` answers with a verdict that allows exactly if every one of its gates does.
pub all_of_allows_iff :
    (gates : List Call)
    → IsAllowing (combine all_of gates).0 ↔ ((vs : List Verdict) × Allowing gates vs)
all_of_allows_iff gates = (
  λ h. loop_allows 0 gates [] (unfold combine in h),
  λ (p : (vs : List Verdict) × Allowing gates vs).
      subst (λ r. IsAllowing r.0) (sym (all_of_allow gates p.0 p.1)) refl,
)
