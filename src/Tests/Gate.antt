-- ===== src/Tests/Gate.antt =====
-- Gates: python/pydeno/_gate.py at concrete inputs.
use pydeno.Prelude.{
  same, ◌≤◌, ◌≡◌, ◌↔◌, refl, true, false, none, some, [], ◌∷◌, codes, ok, err, arith,
}
use pydeno.Gate.Verdict.{Text, Verdict, verdict, returned, raised, raised_denied, Call, decide}
use pydeno.Gate.Check.{
  prepare, within_limit, exact_str, sub_str, GateContext, gate_denied, gate_unavailable, check,
  exact, utf8_length, max_gate_source_bytes,
}
use pydeno.Gate.Check.Laws.{Allows, context, check-ok_iff}
use pydeno.Gate.Combine.{all_of, combine, merge}
use pydeno.Gate.Combine.AllOf.{all_of_stops}
use pydeno.Gate.Threads.{
  init, submits, begins, gets, takes, GatePool, submit, begin_round, get_job, take_job, Reach, here,
  next,
}
use pydeno.Gate.Threads.Serves.{Counts, Reach-Counts}

abbrev yes : Verdict
yes = record { allow = true; reason = codes "fine"; labels = codes "safe" ∷ [] }

abbrev call_of : Verdict → Call
call_of v = record { reaction = returned (verdict v); elapsed = 0 }

abbrev denial : Call
denial = record {
  reaction = raised_denied (codes "no") (codes "bad" ∷ codes "safe" ∷ []);
  elapsed = 0;
}

abbrev broken : Call
broken = record { reaction = raised; elapsed = 0 }

abbrev no_hash : Text → Text
no_hash s = []

-- A gate that allows what is not empty, in 3 ticks.
abbrev not_empty : Text → GateContext → Call
not_empty [] c = record {
  reaction = returned (verdict (record yes { allow = false }));
  elapsed = 3;
}
not_empty (x ∷ s) c = record { reaction = returned (verdict yes); elapsed = 3 }

checked :
    (check no_hash not_empty
        (some 5)
        (codes "Runtime")
        (codes "eval")
        (sub_str (codes "1+1"))
        []
        none
      ≡ ok (codes "1+1"))
    × (check no_hash not_empty (some 5) (codes "Runtime") (codes "eval") (exact_str []) [] none
        ≡ err (gate_denied (codes "fine") (codes "safe" ∷ [])))
    × (check no_hash not_empty
          (some 2)
          (codes "Runtime")
          (codes "eval")
          (exact_str (codes "1"))
          []
          none
        ≡ err gate_unavailable)
unfolding check prepare exact within_limit utf8_length decide
checked = (refl, refl, refl)

check-ok_iff_example :
    (check no_hash not_empty
        (some 5)
        (codes "Runtime")
        (codes "eval")
        (exact_str (codes "1"))
        []
        none
      ≡ ok (codes "1"))
    ↔ ((exact (exact_str (codes "1")) ≡ ok (codes "1"))
        × (utf8_length (codes "1") ≤ max_gate_source_bytes)
        × Allows
            (not_empty (codes "1") (
              context no_hash not_empty
                (some 5)
                (codes "Runtime")
                (codes "eval")
                []
                none
                (codes "1")))
            (some 5))
check-ok_iff_example =
    check-ok_iff no_hash not_empty (some 5) (codes "Runtime") (codes "eval") [] none
      (exact_str (codes "1")) (codes "1")

all_of_stops_example : combine all_of (call_of yes ∷ denial ∷ broken ∷ []) ≡ (
  returned (
      verdict
        (record { allow = false; reason = codes "no"; labels = codes "bad" ∷ codes "safe" ∷ [] })),
  2,
)
unfolding decide merge same
all_of_stops_example =
    all_of_stops (call_of yes ∷ []) denial (broken ∷ []) (yes ∷ [])
      (returned (
        verdict (record {
          allow = false;
          reason = codes "no";
          labels = codes "bad" ∷ codes "safe" ∷ [];
        })))
      (refl, tt) refl

-- A job starts the first thread, which takes it while a second job comes in.
abbrev started : GatePool
started = submit (init 2)

abbrev idle : GatePool
idle = begin_round started

taken : Reach (init 2) (take_job (get_job idle))
unfolding init submit begin_round get_job
taken =
    next
      (next (next (next here (submits (init 2))) (begins started (omega arith)))
        (gets idle (omega arith) (omega arith)))
      (takes (get_job idle) (omega arith))

Reach-Counts_example : Counts (take_job (get_job idle))
Reach-Counts_example = Reach-Counts 2 (omega arith) (omega arith) taken
