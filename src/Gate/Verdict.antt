-- ===== src/Gate/Verdict.antt =====
-- Verdicts, what a gate can do when it is called, and how `_decide` of python/pydeno/_gate.py reads it.
use pydeno.Prelude.{ℕ, Bool, false, Option, none, some, List, ltb, if◌then◌else◌}

-- A text, by its code points.
abbrev pub Text : Type 0
Text = List ℕ

pub record Verdict : Type 0 where
  pub allow : Bool
  pub reason : Text
  pub labels : List Text

-- What `gate(source, context)` returns: an exact `Verdict` with fields of the right types, one whose
-- fields were tampered with, an awaitable, or anything else.
pub data Answer : Type 0 where
  verdict : Verdict → Answer
  malformed : Answer
  awaitable : Answer
  other : Answer

-- How the call ends. `raised` is an `Exception` that is neither of the gate's own, `escaped` any
-- other `BaseException`.
pub data Reaction : Type 0 where
  returned : Answer → Reaction
  raised_denied : Text → List Text → Reaction
  raised_unavailable : Reaction
  raised : Reaction
  escaped : Reaction

-- A call that took `elapsed` ticks of `time.monotonic()`.
pub record Call : Type 0 where
  pub reaction : Reaction
  pub elapsed : ℕ

-- The end of a check: the allowing verdict, or `GateDenied`, `GateUnavailable`, or an exception
-- that is no `Exception`.
pub data Decision : Type 0 where
  allowed : Verdict → Decision
  denied : Text → List Text → Decision
  unavailable : Decision
  propagated : Decision

-- `_accept`
unfoldable pub accept : Answer → Decision
accept (verdict v) = if v.allow then allowed v else denied v.reason v.labels
accept malformed = unavailable
accept awaitable = unavailable
accept other = unavailable

abbrev pub is_late : Option ℕ → ℕ → Bool
is_late none elapsed = false
is_late (some timeout) elapsed = ltb timeout elapsed

-- The part of `_decide` after the call: an awaitable is refused before the clock is read.
unfoldable pub judge : Answer → Option ℕ → ℕ → Decision
unfolding accept
judge awaitable timeout elapsed = unavailable
judge (verdict v) timeout elapsed =
    if is_late timeout elapsed then unavailable else accept (verdict v)
judge malformed timeout elapsed = if is_late timeout elapsed then unavailable else accept malformed
judge other timeout elapsed = if is_late timeout elapsed then unavailable else accept other

unfoldable pub react : Reaction → Option ℕ → ℕ → Decision
unfolding judge
react (returned a) timeout elapsed = judge a timeout elapsed
react (raised_denied reason labels) timeout elapsed = denied reason labels
react raised_unavailable timeout elapsed = unavailable
react raised timeout elapsed = unavailable
react escaped timeout elapsed = propagated

-- `_decide` on what the call did.
unfoldable pub decide : Option ℕ → Call → Decision
unfolding react
decide timeout c = react c.reaction timeout c.elapsed
