-- ===== src/Agent/Marks.antt =====
-- The checkpoint of a session of python/pydeno/_agent.py: the journal as of the last run that ended with
-- the worker alive.
use pydeno.Prelude.{
  ℕ, zero, suc, ◌+◌, ◌≤◌, ◌≡◌, refl, ap, subst, Bool, true, false, Option, none, some, List, [],
  ◌∷◌, ◌++◌, Bytes, ltb, length, length-append, take, if_both, arith, ◌==◌,
}
use pydeno.Agent.{
  Outcome, tool_call, done, failed, Sent, Record, Env, State, Journal, Session, begin, log,
  mark_dead, set_checkpoint, settle_end, observe, start, Answer, resumed, resume, answer_of,
  replay_lost,
}
use pydeno.Agent.Plan.{
  Plan, begin_plan, replay_plan, Step, starts, resumes, recovers, dies, Reach, here, next,
}
use pydeno.Agent.Follows.{Holds, Holds-only, OnOk, Follows, IsAt, set_checkpoint_records}
use pydeno.Agent.Answers.{IsStable}
use pydeno.Agent.Replay.{Leads, Step-Leads, Reach-Leads}

-- A plan between two runs, in a session that has made so many calls.
abbrev pub IsFree : {S V N : Type 0} → Env S V N → ℕ → Plan S N → Type 0
IsFree env calls p =
    (env.calls_made p.session.state.core ≡ calls)
    × (p.session.state.paused ≡ none)
    × (p.session.state.dead ≡ false)
    × (p.step ≡ none)
    × (p.pending ≡ none)

abbrev pub Marks : {S V N : Type 0} → Env S V N → S → ℕ → ℕ → Option (List (Record N)) → Type 0
Marks env begun calls checkpoint none = Unit
Marks env begun calls checkpoint (some records) =
    (checkpoint ≤ length records)
    × Holds (IsFree env calls)
        (replay_plan env (take checkpoint records) (begin_plan (begin begun)))

abbrev pub Marked : {S V N : Type 0} → Env S V N → S → Journal N → Type 0
Marked env begun j = Marks env begun j.checkpoint_calls j.checkpoint j.records

take_append : {A : Type 0} (n : ℕ) (xs ys : List A) → n ≤ length xs → take n (xs ++ ys) ≡ take n xs
take_append zero xs ys h = refl
take_append (suc n) [] ys h = elim h [ ]
take_append (suc n) (x ∷ xs) ys h = ap (◌∷◌ x) (take_append n xs ys (omega arith))

take_all : {A : Type 0} (xs : List A) → take (length xs) xs ≡ xs
take_all [] = refl
take_all (x ∷ xs) = ap (◌∷◌ x) (take_all xs)

log-Marked :
    {S V N : Type 0} (env : Env S V N) (begun : S) (r : Record N)
    (records : Option (List (Record N))) (j : Journal N)
    → j.records ≡ records
    → Marks env begun j.checkpoint_calls j.checkpoint records
    → Marked env begun (log env r j)
unfolding log
log-Marked env begun r none j e h = rw e tt
log-Marked {N = N} env begun r (some records) j e h = rw e (
    if_both (λ (j : Journal N). Marked env begun j)
      (ltb env.max_journal_bytes (j.journal_size + env.size r)) _ _ (λ _. tt)
      (λ _. (
        rw (length-append records (r ∷ [])) (omega (arith, h.0)),
        rw (take_append j.checkpoint records (r ∷ []) h.0) h.1,
      )))

Follows-only :
    {S V N : Type 0} (env : Env S V N) (begun : S) (P Q : Plan S N → Type 0)
    (records : Option (List (Record N)))
    → ((p : Plan S N) → P p → Q p)
    → Follows env begun P records
    → Follows env begun Q records
Follows-only env begun P Q none k h = tt
Follows-only env begun P Q (some records) k h = Holds-only P Q _ k h

IsAt-IsFree :
    {S V N : Type 0} (env : Env S V N) (s : State S) (p : Plan S N)
    → s.paused ≡ none
    → s.dead ≡ false
    → IsAt s none p
    → IsFree env (env.calls_made s.core) p
IsAt-IsFree env s p free alive (a, b, c) = rw b (rw c (rw a (refl, free, alive, free, refl)))

set_checkpoint-Marked :
    {S V N : Type 0} (env : Env S V N) (begun : S) (calls : ℕ) (records : Option (List (Record N)))
    (j : Journal N)
    → j.records ≡ records
    → Follows env begun (IsFree env calls) records
    → Marked env begun (set_checkpoint calls j)
set_checkpoint-Marked env begun calls none j e h = rw e tt
set_checkpoint-Marked env begun calls (some records) j e h =
    rw e (omega arith, rw (take_all records) h)

-- With the session where `set_checkpoint` is called, which its records lead to.
Leads-Marked :
    {S V N : Type 0} (env : Env S V N) (begun : S) (s : State S) (j : Journal N)
    → s.paused ≡ none
    → s.dead ≡ false
    → Leads env begun (record { state = s; journal = set_checkpoint (env.calls_made s.core) j })
    → Marked env begun (set_checkpoint (env.calls_made s.core) j)
Leads-Marked {N = N} env begun s j free alive h =
    set_checkpoint-Marked env begun (env.calls_made s.core) j.records j refl (
      Follows-only env begun (IsAt s none) _ j.records (λ p. IsAt-IsFree env s p free alive)
        (subst (Follows env begun (IsAt s none))
          (set_checkpoint_records (env.calls_made s.core) j j.records refl) (h alive)))

settle_end-Marked :
    {S V N : Type 0} (env : Env S V N) (begun : S) (step : Outcome V) (core : S) (j : Journal N)
    → Marked env begun j
    → Leads env begun (settle_end env step core j)
    → Marked env begun (settle_end env step core j).journal
unfolding mark_dead
settle_end-Marked {S} {V} {N} env begun step core j m =
    if_both (λ (s : Session S N). Leads env begun s → Marked env begun s.journal)
      (env.is_closed core) _ _ (λ _ _. m)
      (λ _.
        Leads-Marked env begun (record { core = core; paused = none; dead = false }) j refl refl)

observe-Marked :
    {S V N : Type 0} (env : Env S V N) (begun : S) (out : S × Outcome V) (j : Journal N)
    → Marked env begun j
    → Leads env begun (observe env out j).0
    → Marked env begun (observe env out j).0.journal
unfolding observe
observe-Marked env begun (core, tool_call id name args) j m h =
    log-Marked env begun _ j.records j refl m
observe-Marked env begun (core, done v) j m h =
    settle_end-Marked env begun (done v) core _ (log-Marked env begun _ j.records j refl m) h
observe-Marked env begun (core, failed name message kind) j m h =
    settle_end-Marked env begun (failed name message kind) core _
      (log-Marked env begun _ j.records j refl m) h

start-Marked :
    {S V N : Type 0} (env : Env S V N) (begun : S) (code : Bytes) (core : S) (j : Journal N)
    (dead : Bool) (paused : Option ℕ)
    → Marked env begun j
    → OnOk
        (λ out. Leads env begun out.0 → Marked env begun out.0.journal)
        (start env code
          (record { state = record { core = core; paused = paused; dead = dead }; journal = j }))
unfolding start
start-Marked env begun code core j true paused m = tt
start-Marked env begun code core j false (some id) m = tt
start-Marked env begun code core j false none m =
    observe-Marked env begun (env.execute code core) _ (log-Marked env begun _ j.records j refl m)

resumed-Marked :
    {S V N : Type 0} (env : Env S V N) (begun : S) (id : ℕ) (core : S) (j : Journal N)
    (given : Option (Record N × Sent V))
    → Marked env begun j
    → OnOk
        (λ out. Leads env begun out.0 → Marked env begun out.0.journal)
        (resumed env id core j given)
resumed-Marked env begun id core j none m = tt
resumed-Marked env begun id core j (some (r, sent)) m =
    observe-Marked env begun (env.answer id sent core) _ (log-Marked env begun r j.records j refl m)

resume-Marked :
    {S V N : Type 0} (env : Env S V N) (begun : S) (id : ℕ) (a : Answer V) (core : S)
    (j : Journal N) (dead : Bool) (paused : Option ℕ)
    → Marked env begun j
    → OnOk
        (λ out. Leads env begun out.0 → Marked env begun out.0.journal)
        (resume env id a
          (record { state = record { core = core; paused = paused; dead = dead }; journal = j }))
unfolding resume
resume-Marked env begun id a core j true paused m = tt
resume-Marked env begun id a core j false none m = tt
resume-Marked env begun id a core j false (some call) m =
    if_both (OnOk (λ out. Leads env begun out.0 → Marked env begun out.0.journal)) (id == call) _ _
      (λ _. resumed-Marked env begun call core j (answer_of env a) m) (λ _. tt)

replay_lost-Marked :
    {S V N : Type 0} (env : Env S V N) (begun : S) (calls : ℕ) (reason : Bytes) (s : Session S N)
    → s.state.paused ≡ none
    → s.state.dead ≡ false
    → Leads env begun (replay_lost env calls reason s)
    → Marked env begun (replay_lost env calls reason s).journal
unfolding replay_lost
replay_lost-Marked env begun calls reason s free alive =
    Leads-Marked env begun (record s.state { core = env.charge calls s.state.core }) _ free alive

mark_dead-Marked :
    {S V N : Type 0} (env : Env S V N) (begun : S) (reason : Bytes) (s : Session S N)
    → Marked env begun s.journal
    → Marked env begun (mark_dead env reason s).journal
unfolding mark_dead
mark_dead-Marked {S} {V} {N} env begun reason s m =
    if_both (λ (s : Session S N). Marked env begun s.journal) s.state.dead _ _ (λ _. m) (λ _. m)

Step-Marked :
    {S V N : Type 0} (env : Env S V N) (begun : S) {s t : Session S N}
    → Step env s t
    → Leads env begun t
    → Marked env begun s.journal
    → Marked env begun t.journal
Step-Marked env begun {s} (starts code t step e) h m =
    subst (OnOk (λ out. Leads env begun out.0 → Marked env begun out.0.journal)) e
      (start-Marked env begun code s.state.core s.journal s.state.dead s.state.paused m) h
Step-Marked env begun {s} (resumes id a t step e) h m =
    subst (OnOk (λ out. Leads env begun out.0 → Marked env begun out.0.journal)) e
      (resume-Marked env begun id a s.state.core s.journal s.state.dead s.state.paused m) h
Step-Marked env begun {s} (recovers calls reason free alive) h m =
    replay_lost-Marked env begun calls reason s free alive h
Step-Marked env begun {s} (dies reason) h m = mark_dead-Marked env begun reason s m

pub Reach-Marked :
    {S V N : Type 0} (env : Env S V N) (begun : S) {s : Session S N}
    → IsStable env
    → env.calls_made begun ≡ 0
    → Reach env (begin begun) s
    → Marked env begun s.journal
unfolding replay_plan
Reach-Marked env begun stable fresh here = (omega arith, (fresh, refl, refl, refl, refl))
Reach-Marked env begun stable fresh (next r step) =
    Step-Marked env begun step (Step-Leads env begun stable step (Reach-Leads env begun stable r))
      (Reach-Marked env begun stable fresh r)
