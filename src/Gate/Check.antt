-- ===== src/Gate/Check.antt =====
-- `_prepare` and `_Hook.check` of python/pydeno/_gate.py. `sha256` is `hashlib.sha256(data).hexdigest()`.
pub mod Laws
use pydeno.Prelude.{
  ◌==◌, same, not, ℕ, zero, suc, ◌+◌, ◌*◌, ◌≤◌, ◌<◌, ◌≡◌, ◌↔◌, refl, ap, Bool, true, false, ◌||◌,
  Option, none, some, List, [], ◌∷◌, ◌++◌, Result, ok, err, ◌>>=◌, codes, length, ltb,
  if◌then◌else◌, arith, Bool-cases, inl, inr,
}
use pydeno.Gate.Verdict.{
  Text, Verdict, Answer, verdict, Reaction, returned, Call, Decision, allowed, denied, unavailable,
  propagated, is_late, judge, react, accept, decide,
}

abbrev pub max_gate_source_bytes : ℕ
max_gate_source_bytes = 16 * 1024 * 1024

-- `TOO_LARGE_LABEL`
abbrev pub too_large_label : Text
too_large_label = codes "source-too-large"

-- The argument `source`: an exact `str`, an instance of a subclass, by its data, or no string.
pub data Source : Type 0 where
  exact_str : Text → Source
  sub_str : Text → Source
  no_str : Source

-- The length of a code point in UTF-8; a lone surrogate counts as three.
abbrev pub width : ℕ → ℕ
width c = if ltb c 128 then 1 else if ltb c 2048 then 2 else if ltb c 65536 then 3 else 4

-- `len(_utf8(source))`
unfoldable pub utf8_length : Text → ℕ
utf8_length [] = 0
utf8_length (c ∷ cs) = width c + utf8_length cs

pub length-le-utf8_length : (s : Text) → length s ≤ utf8_length s
unfolding utf8_length
length-le-utf8_length [] = omega arith
length-le-utf8_length (c ∷ cs) = ground (arith, length-le-utf8_length cs)

pub record GateContext : Type 0 where
  pub mode : Text
  pub entry_point : Text
  pub tools : List Text
  pub source_length : ℕ
  pub source_sha256 : Text
  pub specifier : Option Text

-- What ends a check without a source to run.
pub data Refusal : Type 0 where
  type_error : Refusal
  value_error : Refusal  -- a context that was made for another source
  gate_denied : Text → List Text → Refusal
  gate_unavailable : Refusal
  base_exception : Refusal

-- `_exact`
unfoldable pub exact : Source → Result Refusal Text
exact (exact_str s) = ok s
exact (sub_str s) = ok s
exact no_str = err type_error

-- `_too_large`; the message, of which nothing is read again, is left out.
abbrev pub too_large : Refusal
too_large = gate_denied [] (too_large_label ∷ [])

-- The source to run, once the gate allowed it.
unfoldable pub run_if : Text → Decision → Result Refusal Text
run_if s (allowed v) = ok s
run_if s (denied reason labels) = err (gate_denied reason labels)
run_if s unavailable = err gate_unavailable
run_if s propagated = err base_exception

module _ (sha256 : Text → Text) where
  -- What `_prepare` makes of a source that is not over the limit.
  abbrev pub context_of : Text → Text → List Text → Option Text → Text → GateContext
  context_of mode entry_point tools specifier s = record {
    mode = mode;
    entry_point = entry_point;
    tools = tools;
    source_length = utf8_length s;
    source_sha256 = sha256 s;
    specifier = specifier;
  }

  -- The size tests of `_prepare`.
  unfoldable pub within_limit :
      Text → Text → List Text → Option Text → Text → Result Refusal (Text × GateContext)
  within_limit mode entry_point tools specifier s =
      if ltb max_gate_source_bytes (length s)
      then err too_large
      else if ltb max_gate_source_bytes (utf8_length s)
      then err too_large
      else ok (s, context_of mode entry_point tools specifier s)

  -- `_prepare`
  unfoldable pub prepare :
      Text → Text → List Text → Option Text → Source → Result Refusal (Text × GateContext)
  prepare mode entry_point tools specifier source =
      exact source >>= within_limit mode entry_point tools specifier

  -- `_Hook.check`: the source to run.
  unfoldable pub check :
      (Text → GateContext → Call)
      → Option ℕ
      → Text
      → Text
      → Source
      → List Text
      → Option Text
      → Result Refusal Text
  unfolding run_if
  check gate timeout who mode source tools specifier = do
    prepared ← prepare mode (who ++ (codes "." ++ mode)) tools specifier source
    run_if prepared.0 (decide timeout (gate prepared.0 prepared.1))

-- The argument `context` of `gate_check`: None, a `GateContext`, or something else.
pub data ContextArgument : Type 0 where
  no_context : ContextArgument
  given : GateContext → ContextArgument
  other_context : ContextArgument

-- The verdict of a check, or what it raises.
unfoldable pub verdict_of : Decision → Result Refusal Verdict
verdict_of (allowed v) = ok v
verdict_of (denied reason labels) = err (gate_denied reason labels)
verdict_of unavailable = err gate_unavailable
verdict_of propagated = err base_exception

module _ (sha256 : Text → Text) where
  -- `_check_context`, and the choice of the context in `gate_check`
  unfoldable pub check_context : ContextArgument → Text → GateContext → Result Refusal GateContext
  check_context no_context s made = ok made
  check_context other_context s made = err type_error
  check_context (given c) s made =
      if not (c.source_length == utf8_length s) || not (same c.source_sha256 (sha256 s))
      then err value_error
      else ok c

  -- `gate_check`, with a gate that can be called and a timeout that was checked
  unfoldable pub gate_check :
      (Text → GateContext → Call) → Option ℕ → Source → ContextArgument → Result Refusal Verdict
  unfolding prepare check_context verdict_of
  gate_check gate timeout source context = do
    prepared ← prepare sha256 (codes "check") (codes "gate_check") [] none source
    chosen ← check_context context prepared.0 prepared.1
    verdict_of (decide timeout (gate prepared.0 chosen))
