-- ===== src/Gate/Check/Laws.antt =====
-- What `_Hook.check` of python/pydeno/_gate.py lets run, and what it refuses.
use pydeno.Prelude.{
  ℕ, ◌≤◌, ◌<◌, ◌≡◌, ◌↔◌, refl, sym, ap, ◌∙◌, subst, true, false, Option, List, ◌++◌, Result, ok,
  err, codes, length, ltb, ltb→lt, lt→ltb, le→ltb, arith, Bool-cases, inl, inr,
}
use pydeno.Gate.Verdict.{
  Text, Verdict, Answer, verdict, Reaction, returned, Call, Decision, allowed, is_late, judge,
  react, decide,
}
use pydeno.Gate.Check.{
  Source, GateContext, Refusal, max_gate_source_bytes, too_large, utf8_length,
  length-le-utf8_length, exact, context_of, within_limit, prepare, run_if, check,
}

-- The gate answered in time, with an exact `Verdict` that allows.
pub record Allows (c : Call) (timeout : Option ℕ) : Type 0 where
  pub answer : Verdict
  pub returns : c.reaction ≡ returned (verdict answer)
  pub allows : answer.allow ≡ true
  pub in_time : is_late timeout c.elapsed ≡ false

decide-Allows :
    (timeout : Option ℕ) (c : Call)
    → Allows c timeout
    → (v : Verdict) × (decide timeout c ≡ allowed v)
unfolding decide
decide-Allows timeout c h = (h.answer, rw (h.returns) (rw (h.in_time) (rw (h.allows) refl)))

judge-Allows :
    (a : Answer) (timeout : Option ℕ) (elapsed : ℕ) (v : Verdict)
    → judge a timeout elapsed ≡ allowed v
    → (a ≡ verdict v) × (v.allow ≡ true) × (is_late timeout elapsed ≡ false)
unfolding judge
judge-Allows (verdict w) timeout elapsed v h = ground arith
judge-Allows _ timeout elapsed v h = ground arith

Allows-of_decide :
    (timeout : Option ℕ) (c : Call) (v : Verdict) → decide timeout c ≡ allowed v → Allows c timeout
unfolding decide
Allows-of_decide timeout c v h = go c.reaction refl h
  where
    go : (r : Reaction) → c.reaction ≡ r → react r timeout c.elapsed ≡ allowed v → Allows c timeout
    go (returned a) e h =
        let good = judge-Allows a timeout c.elapsed v h in
        record { answer = v; returns = e ∙ ap returned good.0; allows = good.1; in_time = good.2 }
    go _ e h = cc

run_if-ok :
    (s t : Text) (d : Decision) → run_if s d ≡ ok t → (s ≡ t) × ((v : Verdict) × (d ≡ allowed v))
unfolding run_if
run_if-ok s t (allowed v) h = (ground arith, (v, refl))
run_if-ok s t _ h = cc

module _ (sha256 : Text → Text) (gate : Text → GateContext → Call) (timeout : Option ℕ)
    (who mode : Text) (tools : List Text) (specifier : Option Text) where
  abbrev pub context : Text → GateContext
  context = context_of sha256 mode (who ++ (codes "." ++ mode)) tools specifier

  within_limit_fits :
      (s : Text)
      → utf8_length s ≤ max_gate_source_bytes
      → within_limit sha256 mode (who ++ (codes "." ++ mode)) tools specifier s ≡ ok (s, context s)
  unfolding within_limit
  within_limit_fits s fits =
      rw (le→ltb max_gate_source_bytes (utf8_length s) fits)
        (rw (le→ltb max_gate_source_bytes (length s) (omega (arith, length-le-utf8_length s))) refl)

  within_limit_over :
      (s : Text)
      → max_gate_source_bytes < utf8_length s
      → within_limit sha256 mode (who ++ (codes "." ++ mode)) tools specifier s ≡ err too_large
  unfolding within_limit
  within_limit_over s over = ground (arith, lt→ltb max_gate_source_bytes (utf8_length s) over)

  check_fits :
      (source : Source) (s : Text)
      → exact source ≡ ok s
      → utf8_length s ≤ max_gate_source_bytes
      → check sha256 gate timeout who mode source tools specifier
        ≡ run_if s (decide timeout (gate s (context s)))
  unfolding check prepare
  check_fits source s e fits = rw e (rw (within_limit_fits s fits) refl)

  -- A source of more than `max_gate_source_bytes` in UTF-8 is denied, and the gate is not asked:
  -- whatever it would do, even if it would allow.
  pub check-too_large :
      (source : Source) (s : Text)
      → exact source ≡ ok s
      → max_gate_source_bytes < utf8_length s
      → check sha256 gate timeout who mode source tools specifier ≡ err too_large
  unfolding check prepare
  check-too_large source s e over = rw e (rw (within_limit_over s over) refl)

  check_refused :
      (source : Source) (x : Refusal)
      → exact source ≡ err x
      → check sha256 gate timeout who mode source tools specifier ≡ err x
  unfolding check prepare
  check_refused source x e = rw e refl

  check_runs :
      (source : Source) (t : Text)
      → check sha256 gate timeout who mode source tools specifier ≡ ok t
      → (exact source ≡ ok t)
        × (utf8_length t ≤ max_gate_source_bytes)
        × Allows (gate t (context t)) timeout
  check_runs source t h = go (exact source) refl
    where
      go :
          (r : Result Refusal Text)
          → exact source ≡ r
          → (exact source ≡ ok t)
            × (utf8_length t ≤ max_gate_source_bytes)
            × Allows (gate t (context t)) timeout
      go (err x) e = cc (check_refused source x e)
      go (ok s) e = elim (Bool-cases (ltb max_gate_source_bytes (utf8_length s))) [
        | inl over ↦ cc (check-too_large source s e (ltb→lt _ _ over))
        | inr under ↦
            let fits : utf8_length s ≤ max_gate_source_bytes = ground arith in
            let (same, answer) =
              run_if-ok s t (decide timeout (gate s (context s)))
                (sym (check_fits source s e fits) ∙ h) in
            (
              e ∙ ap ok same,
              subst (λ x. utf8_length x ≤ max_gate_source_bytes) same fits,
              subst (λ x. Allows (gate x (context x)) timeout) same
                  (Allows-of_decide timeout (gate s (context s)) answer.0 answer.1),
            )
      ]

  -- A source runs exactly if it is a string of at most `max_gate_source_bytes` in UTF-8 and the gate,
  -- called with that very string and its context, answers in time with an exact `Verdict` that
  -- allows: on anything else, an exception of the gate included, no source runs. What runs is the
  -- string that the gate saw.
  pub check-ok_iff :
      (source : Source) (t : Text)
      → (check sha256 gate timeout who mode source tools specifier ≡ ok t) ↔ (
          (exact source ≡ ok t)
          × (utf8_length t ≤ max_gate_source_bytes)
          × Allows (gate t (context t)) timeout)
  check-ok_iff source t = (check_runs source t, λ h. runs h)
    where
      runs :
          (exact source ≡ ok t)
            × (utf8_length t ≤ max_gate_source_bytes)
            × Allows (gate t (context t)) timeout
          → check sha256 gate timeout who mode source tools specifier ≡ ok t
      runs (e, fits, allows) =
          check_fits source t e fits
          ∙ ap (run_if t) (decide-Allows timeout (gate t (context t)) allows).1
          ∙ unfold run_if in refl
