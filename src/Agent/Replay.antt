-- ===== src/Agent/Replay.antt =====
-- What the journal of a session of python/pydeno/_agent.py gives when it is replayed.
use pydeno.Prelude.{
  ℕ, suc, ◌≡◌, refl, sym, ◌∙◌, subst, Bool, true, false, Option, none, some, List, Bytes, ◌==◌,
  if_both, Result, ok, err, ◌>>=◌, arith,
}
use pydeno.Agent.{
  Outcome, Sent, Record, run, observed, lost, Env, State, Journal, Session, begin, AgentError, log,
  kind_of, mark_dead, observe, start, Answer, answer_of, resume, resumed, replay_lost, journal_of,
}
use pydeno.Agent.Plan.{
  Input, run_input, answer_input, Plan, begin_plan, round, replay_plan, ended, replay, Step, starts,
  resumes, recovers, dies, Reach, here, next,
}
use pydeno.Agent.Follows.{
  Follows, Holds, IsAt, OnOk, begin_round, log-Follows, observe_records, observe_state, run_round,
  set_checkpoint_records, state_after,
}
use pydeno.Agent.Answers.{Again, IsStable, answer_of-Again, answer_round}

-- What a session has in its journal brings the plan to its state, as long as its worker lives.
abbrev pub Leads : {S V N : Type 0} → Env S V N → S → Session S N → Type 0
Leads env core s = s.state.dead ≡ false → Follows env core (IsAt s.state none) s.journal.records

observe-Leads :
    {S V N : Type 0} (env : Env S V N) (begun : S) (s : State S) (input : Input N)
    (out : S × Outcome V) (j : Journal N)
    → ((p : Plan S N)
        → IsAt s (some input) p
        → Holds
            (IsAt (state_after env out) none)
            (round env (observed (kind_of out.1) (env.digest out.1)) p))
    → Follows env begun (IsAt s (some input)) j.records
    → Leads env begun (observe env out j).0
observe-Leads env begun s input out j k h dead = rw (observe_state env out j) (
    rw (observe_records env out j) (
      log-Follows env begun (IsAt s (some input)) (IsAt (state_after env out) none)
        (observed (kind_of out.1) (env.digest out.1)) j.records j refl k h))

start_from :
    {S V N : Type 0} (env : Env S V N) (begun : S) (code : Bytes) (core : S) (j : Journal N)
    (dead : Bool) (paused : Option ℕ)
    → Leads env begun
        (record { state = record { core = core; paused = paused; dead = dead }; journal = j })
    → OnOk
        (λ out. Leads env begun out.0)
        (start env code
          (record { state = record { core = core; paused = paused; dead = dead }; journal = j }))
unfolding start
start_from env begun code core j true paused h = tt
start_from env begun code core j false (some id) h = tt
start_from env begun code core j false none h =
    observe-Leads env begun (record { core = core; paused = none; dead = false }) (run_input code)
      (env.execute code core) (log env (run code) j) (run_round env code core)
      (log-Follows env begun (IsAt (record { core = core; paused = none; dead = false }) none)
        (IsAt (record { core = core; paused = none; dead = false }) (some (run_input code)))
        (run code) j.records j refl (begin_round env code core) (h refl))

resumed-Leads :
    {S V N : Type 0} (env : Env S V N) (begun : S) (id : ℕ) (core : S) (j : Journal N)
    (given : Option (Record N × Sent V))
    → Again env given
    → Follows env begun
        (IsAt (record { core = core; paused = some id; dead = false }) none)
        j.records
    → OnOk (λ out. Leads env begun out.0) (resumed env id core j given)
resumed-Leads env begun id core j none again h = tt
resumed-Leads env begun id core j (some (r, sent)) again h =
    observe-Leads env begun (record { core = core; paused = some id; dead = false })
      (answer_input r) (env.answer id sent core) (log env r j)
      (λ p. answer_round env r sent id core p again)
      (log-Follows env begun (IsAt (record { core = core; paused = some id; dead = false }) none)
        (IsAt (record { core = core; paused = some id; dead = false }) (some (answer_input r))) r
        j.records j refl (again.begins id core) h)

resume_from :
    {S V N : Type 0} (env : Env S V N) (begun : S) (id : ℕ) (a : Answer V) (core : S)
    (j : Journal N) (dead : Bool) (paused : Option ℕ)
    → IsStable env
    → Leads env begun
        (record { state = record { core = core; paused = paused; dead = dead }; journal = j })
    → OnOk
        (λ out. Leads env begun out.0)
        (resume env id a
          (record { state = record { core = core; paused = paused; dead = dead }; journal = j }))
unfolding resume
resume_from env begun id a core j true paused stable h = tt
resume_from env begun id a core j false none stable h = tt
resume_from env begun id a core j false (some call) stable h =
    if_both (OnOk (λ out. Leads env begun out.0)) (id == call) _ _
      (λ _.
        resumed-Leads env begun call core j (answer_of env a) (answer_of-Again env a stable)
          (h refl))
      (λ _. tt)

lost_round :
    {S V N : Type 0} (env : Env S V N) (calls : ℕ) (reason : Bytes) (s : State S) (p : Plan S N)
    → s.paused ≡ none
    → IsAt s none p
    → Holds
        (IsAt (record s { core = env.charge calls s.core }) none)
        (round env (lost calls reason) p)
unfolding round replay_lost
lost_round env calls reason s p free (a, b, c) = rw (b ∙ free) (rw c (rw a (refl, sym free, refl)))

replay_lost-Leads :
    {S V N : Type 0} (env : Env S V N) (begun : S) (calls : ℕ) (reason : Bytes) (s : Session S N)
    → s.state.paused ≡ none
    → Leads env begun s
    → Leads env begun (replay_lost env calls reason s)
unfolding replay_lost
replay_lost-Leads env begun calls reason s free h dead =
    let charged = env.calls_made (env.charge calls s.state.core) in
    let j = record s.journal { lost_runs = suc s.journal.lost_runs } in
    rw (set_checkpoint_records charged (log env (lost calls reason) j) _ refl) (
      log-Follows env begun (IsAt s.state none) _ (lost calls reason) s.journal.records j refl
        (λ p. lost_round env calls reason s.state p free) (h dead))

mark_dead-Leads :
    {S V N : Type 0} (env : Env S V N) (begun : S) (reason : Bytes) (s : Session S N)
    → Leads env begun s
    → Leads env begun (mark_dead env reason s)
unfolding mark_dead
mark_dead-Leads env begun reason s h =
    if_both (Leads env begun) s.state.dead _ _ (λ _. h) (λ _ dead. ground arith)

pub Step-Leads :
    {S V N : Type 0} (env : Env S V N) (begun : S) {s t : Session S N}
    → IsStable env
    → Step env s t
    → Leads env begun s
    → Leads env begun t
Step-Leads env begun {s} stable (starts code t step e) h =
    subst (OnOk (λ out. Leads env begun out.0)) e
      (start_from env begun code s.state.core s.journal s.state.dead s.state.paused h)
Step-Leads env begun {s} stable (resumes id a t step e) h =
    subst (OnOk (λ out. Leads env begun out.0)) e
      (resume_from env begun id a s.state.core s.journal s.state.dead s.state.paused stable h)
Step-Leads env begun {s} stable (recovers calls reason free alive) h =
    replay_lost-Leads env begun calls reason s free h
Step-Leads env begun {s} stable (dies reason) h = mark_dead-Leads env begun reason s h

pub Reach-Leads :
    {S V N : Type 0} (env : Env S V N) (begun : S) {s : Session S N}
    → IsStable env
    → Reach env (begin begun) s
    → Leads env begun s
unfolding replay_plan
Reach-Leads env begun stable here = λ _. (refl, refl, refl)
Reach-Leads env begun stable (next r step) =
    Step-Leads env begun stable step (Reach-Leads env begun stable r)

ended-IsAt :
    {S V N : Type 0} (env : Env S V N) (s : State S) (m : Result AgentError (Plan S N))
    → Holds (IsAt s none) m
    → Holds (λ (t : Session S N). t.state ≡ s) (m >>= λ p. ended p.pending p.session)
ended-IsAt env s (ok p) (a, b, c) = rw c a
ended-IsAt env s (err e) h = h

-- A session that a fresh core has reached, by runs, answers and lost runs in any order, and whose
-- worker lives: if its journal has not outgrown its limit, `dump` signs it, and its replay on the
-- same fresh core raises nothing and ends in the same state, with the same core and paused at the same
-- call or at none. The core answers by a function of its state, and what is decoded from the record of
-- an answer is decoded again from what it is encoded as.
pub journal-replay :
    {S V N : Type 0} (env : Env S V N) (core : S) {s : Session S N} (records : List (Record N))
    → IsStable env
    → Reach env (begin core) s
    → s.state.dead ≡ false
    → s.journal.records ≡ some records
    → (journal_of s ≡ ok records)
      × Holds (λ (t : Session S N). t.state ≡ s.state) (replay env records (begin core))
unfolding journal_of replay
journal-replay env core {s} records stable r dead e = (
  rw e (rw dead refl),
  ended-IsAt env s.state (replay_plan env records (begin_plan (begin core)))
      (subst (Follows env core (IsAt s.state none)) e (Reach-Leads env core stable r dead)),
)
