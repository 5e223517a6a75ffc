-- ===== src/Agent/Plan.antt =====
-- python/pydeno/_agent.py: `_replay_plan` with the driver that answers it, `AgentSandbox._replay`, and the
-- steps of a session that is alive.
use pydeno.Prelude.{
  ℕ, ◌≡◌, Bool, true, false, ◌&&◌, Option, none, some, List, [], ◌∷◌, Bytes, same, if◌then◌else◌,
  Result, ok, err, ◌>>=◌,
}
use pydeno.Agent.{
  Outcome, Kind, call_kind, done_kind, failed_kind, Record, run, answered, raised, observed, lost,
  Env, Session, AgentError, journal_error, diverged, error_class, kind_of, call_of, mark_dead,
  start, Answer, value, error, resume, replay_lost,
}

-- What comes before the next outcome: a run, or an answer as it was recorded.
pub data Input (N : Type 0) : Type 0 where
  run_input : Bytes → Input N
  answer_input : Record N → Input N

-- The plan: the session it replays in, the `call_id` of `step` where that is a call, and `pending`.
pub record Plan (S N : Type 0) : Type 0 where
  pub session : Session S N
  pub step : Option ℕ
  pub pending : Option (Input N)

abbrev pub begin_plan : {S N : Type 0} → Session S N → Plan S N
begin_plan s = record { session = s; step = none; pending = none }

abbrev pub same_kind : Kind → Kind → Bool
same_kind call_kind call_kind = true
same_kind done_kind done_kind = true
same_kind failed_kind failed_kind = true
same_kind _ _ = false

-- A recorded answer as the answer that the plan gives.
unfoldable pub answer_again : {S V N : Type 0} → Env S V N → Record N → Option (Answer V)
unfolding error_class
answer_again env (answered n) = elim (env.decode n) [ none ↦ none | some v ↦ some (value v) ]
answer_again env (raised name message) = some (error (error_class name) message true false)
answer_again env _ = none

-- The driver's part of a request: `_start`, or `_resume` of the call that the plan is at.
abbrev pub resume_with :
    {S V N : Type 0}
    → Env S V N
    → Option ℕ
    → Option (Answer V)
    → Session S N
    → Result AgentError (Session S N × Outcome V)
resume_with env none a s = err journal_error
resume_with env (some id) none s = err journal_error
resume_with env (some id) (some a) s = resume env id a s

unfoldable pub request :
    {S V N : Type 0}
    → Env S V N
    → Input N
    → Option ℕ
    → Session S N
    → Result AgentError (Session S N × Outcome V)
unfolding start resume answer_again
request env (run_input code) step s = start env code s
request env (answer_input r) step s = resume_with env step (answer_again env r) s

-- `(got_kind, got_digest) != (record[1], record[2])`
unfoldable pub compare :
    {S V N : Type 0}
    → Env S V N
    → Kind
    → Bytes
    → Session S N × Outcome V
    → Result AgentError (Plan S N)
unfolding same
compare env kind digest (s, step) =
    if same_kind (kind_of step) kind && same (env.digest step) digest
    then ok (record { session = s; step = call_of step; pending = none })
    else err diverged

-- A record that may only come between two runs.
abbrev pub between_runs :
    {S N : Type 0} → Option ℕ → Option (Input N) → Plan S N → Result AgentError (Plan S N)
between_runs none none p = ok p
between_runs none (some input) p = err journal_error
between_runs (some id) pending p = err journal_error

-- An answer, which must come at a call.
abbrev pub at_call :
    {S N : Type 0} → Option ℕ → Option (Input N) → Plan S N → Result AgentError (Plan S N)
at_call (some id) none p = ok p
at_call (some id) (some input) p = err journal_error
at_call none pending p = err journal_error

abbrev pub outcome_of :
    {S V N : Type 0}
    → Env S V N
    → Kind
    → Bytes
    → Option ℕ
    → Option (Input N)
    → Session S N
    → Result AgentError (Plan S N)
outcome_of env kind digest step none s = err journal_error
outcome_of env kind digest step (some input) s =
    request env input step s >>= compare env kind digest

-- The round of the loop for one record.
unfoldable pub round :
    {S V N : Type 0} → Env S V N → Record N → Plan S N → Result AgentError (Plan S N)
unfolding request compare replay_lost
round env (lost calls reason) p =
    between_runs p.step p.pending (begin_plan (replay_lost env calls reason p.session))
round env (run code) p =
    between_runs p.step p.pending (record p { pending = some (run_input code) })
round env (answered n) p =
    at_call p.step p.pending (record p { pending = some (answer_input (answered n)) })
round env (raised name message) p =
    at_call p.step p.pending (record p { pending = some (answer_input (raised name message)) })
round env (observed kind digest) p = outcome_of env kind digest p.step p.pending p.session

unfoldable pub replay_plan :
    {S V N : Type 0} → Env S V N → List (Record N) → Plan S N → Result AgentError (Plan S N)
unfolding round
replay_plan env [] p = ok p
replay_plan env (r ∷ records) p = round env r p >>= replay_plan env records

abbrev pub ended : {S N : Type 0} → Option (Input N) → Session S N → Result AgentError (Session S N)
ended none s = ok s
ended (some input) s = err journal_error

-- `_replay`
unfoldable pub replay :
    {S V N : Type 0} → Env S V N → List (Record N) → Session S N → Result AgentError (Session S N)
unfolding replay_plan
replay env records s = replay_plan env records (begin_plan s) >>= λ p. ended p.pending p.session

module _ {S V N : Type 0} (env : Env S V N) where
  -- The calls that change a session, the recovery of a lost run where a journal is loaded, and the death
  -- of the worker in a run.
  pub data Step (s : Session S N) : Session S N → Type 0 where
    starts :
        (code : Bytes) (t : Session S N) (step : Outcome V)
        → start env code s ≡ ok (t, step)
        → Step s t
    resumes :
        (id : ℕ) (a : Answer V) (t : Session S N) (step : Outcome V)
        → resume env id a s ≡ ok (t, step)
        → Step s t
    recovers :
        (calls : ℕ) (reason : Bytes)
        → s.state.paused ≡ none
        → s.state.dead ≡ false
        → Step s (replay_lost env calls reason s)
    dies : (reason : Bytes) → Step s (mark_dead env reason s)

  pub data Reach (s : Session S N) : Session S N → Type 0 where
    here : Reach s s
    next : {t u : Session S N} → Reach s t → Step t u → Reach s u
