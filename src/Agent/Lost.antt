-- ===== src/Agent/Lost.antt =====
-- What the journal of a dead session of python/pydeno/_agent.py gives when it is replayed.
use pydeno.Prelude.{
  ℕ, ◌+◌, ◌-◌, ◌≤◌, min, ◌≡◌, refl, subst, Bool, true, false, Option, none, some, List, [], ◌∷◌,
  ◌++◌, Bytes, take, if_both, Result, ok, err, ◌>>=◌, arith, ◌==◌,
}
use pydeno.Agent.{
  Outcome, tool_call, done, failed, Sent, Record, run, lost, Env, Journal, Session, begin,
  AgentError, log, max_lost_calls, mark_dead, settle_end, observe, start, Answer, resumed, resume,
  answer_of, replay_lost, journal_of,
}
use pydeno.Agent.Plan.{
  Plan, begin_plan, round, ended, replay_plan, replay, Step, starts, resumes, recovers, dies, Reach,
  here, next,
}
use pydeno.Agent.Follows.{Holds, Holds-only, OnOk, replay_plan-append}
use pydeno.Agent.Answers.{IsStable}
use pydeno.Agent.Marks.{IsFree, Marks, Reach-Marked}

-- The record that stands for the run in which the worker died.
abbrev pub IsLost : {S V N : Type 0} → Env S V N → Session S N → Type 0
IsLost env s =
    s.state.dead ≡ true
    → (reason : Bytes) × (s.journal.lost_run
        ≡ some (
            lost (min (env.calls_made s.state.core - s.journal.checkpoint_calls) max_lost_calls)
              reason))

mark_dead-IsLost :
    {S V N : Type 0} (env : Env S V N) (reason : Bytes) (s : Session S N)
    → IsLost env s
    → IsLost env (mark_dead env reason s)
unfolding mark_dead
mark_dead-IsLost {S} {V} {N} env reason s h =
    if_both (IsLost env) s.state.dead _ _ (λ _. h) (λ _ _. (_, refl))

settle_end-IsLost :
    {S V N : Type 0} (env : Env S V N) (step : Outcome V) (core : S) (j : Journal N)
    → IsLost env (settle_end env step core j)
unfolding mark_dead
settle_end-IsLost env step core j =
    if_both (IsLost env) (env.is_closed core) _ _ (λ _ _. (_, refl)) (λ _ dead. ground arith)

observe-IsLost :
    {S V N : Type 0} (env : Env S V N) (out : S × Outcome V) (j : Journal N)
    → IsLost env (observe env out j).0
unfolding observe
observe-IsLost env (core, tool_call id name args) j = λ dead. ground arith
observe-IsLost env (core, done v) j = settle_end-IsLost env (done v) core _
observe-IsLost env (core, failed name message kind) j =
    settle_end-IsLost env (failed name message kind) core _

start-IsLost :
    {S V N : Type 0} (env : Env S V N) (code : Bytes) (core : S) (j : Journal N) (dead : Bool)
    (paused : Option ℕ)
    → OnOk
        (λ out. IsLost env out.0)
        (start env code
          (record { state = record { core = core; paused = paused; dead = dead }; journal = j }))
unfolding start
start-IsLost env code core j true paused = tt
start-IsLost env code core j false (some id) = tt
start-IsLost env code core j false none =
    observe-IsLost env (env.execute code core) (log env (run code) j)

resumed-IsLost :
    {S V N : Type 0} (env : Env S V N) (id : ℕ) (core : S) (j : Journal N)
    (given : Option (Record N × Sent V))
    → OnOk (λ out. IsLost env out.0) (resumed env id core j given)
resumed-IsLost env id core j none = tt
resumed-IsLost env id core j (some (r, sent)) =
    observe-IsLost env (env.answer id sent core) (log env r j)

resume-IsLost :
    {S V N : Type 0} (env : Env S V N) (id : ℕ) (a : Answer V) (core : S) (j : Journal N)
    (dead : Bool) (paused : Option ℕ)
    → OnOk
        (λ out. IsLost env out.0)
        (resume env id a
          (record { state = record { core = core; paused = paused; dead = dead }; journal = j }))
unfolding resume
resume-IsLost env id a core j true paused = tt
resume-IsLost env id a core j false none = tt
resume-IsLost env id a core j false (some call) =
    if_both (OnOk (λ out. IsLost env out.0)) (id == call) _ _
      (λ _. resumed-IsLost env call core j (answer_of env a)) (λ _. tt)

Step-IsLost :
    {S V N : Type 0} (env : Env S V N) {s t : Session S N}
    → Step env s t
    → IsLost env s
    → IsLost env t
unfolding replay_lost
Step-IsLost env {s} (starts code t step e) h =
    subst (OnOk (λ out. IsLost env out.0)) e
      (start-IsLost env code s.state.core s.journal s.state.dead s.state.paused)
Step-IsLost env {s} (resumes id a t step e) h =
    subst (OnOk (λ out. IsLost env out.0)) e
      (resume-IsLost env id a s.state.core s.journal s.state.dead s.state.paused)
Step-IsLost env {s} (recovers calls reason free alive) h = λ dead. ground arith
Step-IsLost env {s} (dies reason) h = mark_dead-IsLost env reason s h

Reach-IsLost :
    {S V N : Type 0} (env : Env S V N) (core : S) {s : Session S N}
    → Reach env (begin core) s
    → IsLost env s
Reach-IsLost env core here = λ dead. ground arith
Reach-IsLost env core (next r step) = Step-IsLost env step (Reach-IsLost env core r)

-- A plan behind the last record, in a session that can go on.
IsUsable : {S V N : Type 0} → Env S V N → ℕ → Session S N → Type 0
IsUsable env calls t =
    (t.state.paused ≡ none) × (t.state.dead ≡ false) × (calls ≤ env.calls_made t.state.core)

lost_ends :
    {S V N : Type 0} (env : Env S V N) (calls spent n : ℕ) (reason : Bytes) (p : Plan S N)
    → ((n : ℕ) (core : S) → env.calls_made (env.charge n core) ≡ n + env.calls_made core)
    → calls ≤ n + spent
    → IsFree env spent p
    → Holds
        (λ (q : Plan S N). IsUsable env calls q.session × (q.pending ≡ none))
        (round env (lost n reason) p)
unfolding round replay_lost IsUsable
lost_ends env calls spent n reason p charges h (made, free, alive, step, pending) =
    rw step (rw pending ((free, alive, rw (charges n p.session.state.core) (rw made h)), refl))

ended-IsUsable :
    {S V N : Type 0} (env : Env S V N) (calls : ℕ) (m : Result AgentError (Plan S N))
    → Holds (λ (q : Plan S N). IsUsable env calls q.session × (q.pending ≡ none)) m
    → Holds (IsUsable env calls) (m >>= λ p. ended p.pending p.session)
ended-IsUsable env calls (ok p) (a, b) = rw b a
ended-IsUsable env calls (err e) h = h

enough :
    (calls spent : ℕ) → calls ≤ max_lost_calls → calls ≤ min (calls - spent) max_lost_calls + spent
enough calls spent h = ground arith

-- A session that a fresh core has reached and whose worker has died: if its journal has not outgrown
-- its limit and it has made at most `_MAX_LOST_CALLS` tool calls, what `dump` signs is replayed on the
-- same fresh core without an error, and the session that this gives is usable, is paused at no call,
-- and has at least as many calls charged to its budget as the dead one had made. A core charges the
-- calls of a lost run to the calls it has made, of which a fresh one has none, and answers by a
-- function of its state, and what is decoded from the record of an
-- answer is decoded again from what it is encoded as.
pub dead_journal-replay :
    {S V N : Type 0} (env : Env S V N) (core : S) {s : Session S N} (records : List (Record N))
    → IsStable env
    → ((n : ℕ) (core : S) → env.calls_made (env.charge n core) ≡ n + env.calls_made core)
    → env.calls_made core ≡ 0
    → Reach env (begin core) s
    → s.state.dead ≡ true
    → s.journal.records ≡ some records
    → env.calls_made s.state.core ≤ max_lost_calls
    → Holds
        (λ (t : Session S N).
          (t.state.paused ≡ none)
          × (t.state.dead ≡ false)
          × (env.calls_made s.state.core ≤ env.calls_made t.state.core))
        (journal_of s >>= λ signed. replay env signed (begin core))
unfolding journal_of replay IsUsable
dead_journal-replay env core {s} records stable charges fresh r dead e few =
    let marked =
      subst (Marks env core s.journal.checkpoint_calls s.journal.checkpoint) e
        (Reach-Marked env core stable fresh r) in
    let made = env.calls_made s.state.core in
    let spent = s.journal.checkpoint_calls in
    let died = Reach-IsLost env core r dead in
    rw e (
      rw dead (
        rw (died.1) (
          ended-IsUsable env made
            (replay_plan env
              (take s.journal.checkpoint records
                ++ lost (min (made - spent) max_lost_calls) died.0 ∷ [])
              (begin_plan (begin core)))
            (replay_plan-append env _ _ (take s.journal.checkpoint records)
              (begin_plan (begin core))
              (Holds-only (IsFree env spent) _ _
                (λ p. lost_ends env made spent _ died.0 p charges (enough made spent few))
                marked.1)))))
