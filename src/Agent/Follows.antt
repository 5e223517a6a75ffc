-- ===== src/Agent/Follows.antt =====
-- The plan behind the records of a journal, `_replay_plan` of python/pydeno/_agent.py, record by record.
use pydeno.Prelude.{
  ℕ, ◌+◌, ◌≡◌, refl, false, Option, none, some, List, [], ◌∷◌, ◌++◌, Bytes, same_refl, ltb, if_both,
  Result, ok, err, ◌>>=◌,
}
use pydeno.Agent.{
  Outcome, tool_call, done, failed, Record, run, observed, Env, State, Journal, Session, begin,
  AgentError, log, kind_of, call_of, mark_dead, settle_end, set_checkpoint, observe, start,
}
use pydeno.Agent.Plan.{Input, run_input, Plan, begin_plan, request, compare, round, replay_plan}

-- A predicate on what a call gives, false of an error.
abbrev pub Holds : {A : Type 0} → (A → Type 0) → Result AgentError A → Type 0
Holds Q (ok a) = Q a
Holds Q (err e) = ⊥

-- A predicate on what a call gives, if it does not raise.
abbrev pub OnOk : {A : Type 0} → (A → Type 0) → Result AgentError A → Type 0
OnOk Q (ok a) = Q a
OnOk Q (err e) = Unit

pub Holds-ok :
    {A : Type 0} (Q : A → Type 0) (m : Result AgentError A) → Holds Q m → Holds Q (m >>= ok)
Holds-ok Q (ok a) h = h
Holds-ok Q (err e) h = h

pub Holds-bind :
    {A B C : Type 0} (P : B → Type 0) (Q : C → Type 0) (m : Result AgentError A)
    (f : A → Result AgentError B) (g : A → Result AgentError C)
    → ((a : A) → Holds P (f a) → Holds Q (g a))
    → Holds P (m >>= f)
    → Holds Q (m >>= g)
Holds-bind P Q (ok a) f g k h = k a h
Holds-bind P Q (err e) f g k h = h

pub Holds-only :
    {A : Type 0} (P Q : A → Type 0) (m : Result AgentError A)
    → ((a : A) → P a → Q a)
    → Holds P m
    → Holds Q m
Holds-only P Q (ok a) k h = k a h
Holds-only P Q (err e) k h = h

pub replay_plan-append :
    {S V N : Type 0} (env : Env S V N) (Q : Plan S N → Type 0) (r : Record N)
    (records : List (Record N)) (p : Plan S N)
    → Holds (λ q. Holds Q (round env r q)) (replay_plan env records p)
    → Holds Q (replay_plan env (records ++ r ∷ []) p)
unfolding replay_plan
replay_plan-append env Q r [] p h = Holds-ok Q (round env r p) h
replay_plan-append env Q r (x ∷ xs) p h =
    Holds-bind (λ q. Holds Q (round env r q)) Q (round env x p) _ _
      (λ q. replay_plan-append env Q r xs q) h

-- What the plan is at behind the records of a journal, if they have not outgrown it.
abbrev pub Follows :
    {S V N : Type 0} → Env S V N → S → (Plan S N → Type 0) → Option (List (Record N)) → Type 0
Follows env core Q none = Unit
Follows env core Q (some records) = Holds Q (replay_plan env records (begin_plan (begin core)))

pub log-Follows :
    {S V N : Type 0} (env : Env S V N) (core : S) (P Q : Plan S N → Type 0) (r : Record N)
    (records : Option (List (Record N))) (j : Journal N)
    → j.records ≡ records
    → ((p : Plan S N) → P p → Holds Q (round env r p))
    → Follows env core P records
    → Follows env core Q (log env r j).records
unfolding log
log-Follows env core P Q r none j e k h = rw e tt
log-Follows {N = N} env core P Q r (some records) j e k h = rw e (
    if_both (λ (j : Journal N). Follows env core Q j.records)
      (ltb env.max_journal_bytes (j.journal_size + env.size r)) _ _ (λ _. tt)
      (λ _. replay_plan-append env Q r records _ (Holds-only P _ _ k h)))

-- A plan between two inputs, and one that has an input, in a session of a given state.
abbrev pub IsAt : {S N : Type 0} → State S → Option (Input N) → Plan S N → Type 0
IsAt s pending p = (p.session.state ≡ s) × (p.step ≡ s.paused) × (p.pending ≡ pending)

abbrev pub state_after : {S V N : Type 0} → Env S V N → S × Outcome V → State S
state_after env (core, step) = elim (call_of step) [
  | some id ↦ record { core = core; paused = some id; dead = false }
  | none ↦ record { core = core; paused = none; dead = env.is_closed core }
]

pub settle_end_state :
    {S V N : Type 0} (env : Env S V N) (step : Outcome V) (core : S) (j : Journal N)
    → (settle_end env step core j).state
      ≡ record { core = core; paused = none; dead = env.is_closed core }
unfolding mark_dead
settle_end_state {S} {V} {N} env step core j =
    if_both
      (λ (s : Session S N).
        s.state ≡ record { core = core; paused = none; dead = env.is_closed core })
      (env.is_closed core) _ _ (λ c. rw c refl) (λ c. rw c refl)

pub set_checkpoint_records :
    {N : Type 0} (calls : ℕ) (j : Journal N) (records : Option (List (Record N)))
    → j.records ≡ records
    → (set_checkpoint calls j).records ≡ j.records
set_checkpoint_records calls j none e = rw e refl
set_checkpoint_records calls j (some records) e = rw e refl

pub settle_end_records :
    {S V N : Type 0} (env : Env S V N) (step : Outcome V) (core : S) (j : Journal N)
    → (settle_end env step core j).journal.records ≡ j.records
unfolding mark_dead
settle_end_records {S} {V} {N} env step core j =
    if_both (λ (s : Session S N). s.journal.records ≡ j.records) (env.is_closed core) _ _
      (λ _. refl) (λ _. set_checkpoint_records (env.calls_made core) j j.records refl)

pub observe_state :
    {S V N : Type 0} (env : Env S V N) (out : S × Outcome V) (j : Journal N)
    → (observe env out j).0.state ≡ state_after env out
unfolding observe mark_dead
observe_state env (core, tool_call id name args) j = refl
observe_state env (core, done v) j = settle_end_state env (done v) core _
observe_state env (core, failed name message kind) j =
    settle_end_state env (failed name message kind) core _

pub observe_records :
    {S V N : Type 0} (env : Env S V N) (out : S × Outcome V) (j : Journal N)
    → (observe env out j).0.journal.records
      ≡ (log env (observed (kind_of out.1) (env.digest out.1)) j).records
unfolding observe mark_dead
observe_records env (core, tool_call id name args) j = refl
observe_records env (core, done v) j = settle_end_records env (done v) core _
observe_records env (core, failed name message kind) j =
    settle_end_records env (failed name message kind) core _

pub compare-IsAt :
    {S V N : Type 0} (env : Env S V N) (out : S × Outcome V) (j : Journal N)
    → Holds
        (IsAt (state_after env out) none)
        (compare env (kind_of out.1) (env.digest out.1) (observe env out j))
unfolding compare observe
compare-IsAt env (core, tool_call id name args) j =
    rw (same_refl (env.digest (tool_call id name args)))
      (observe_state env (core, tool_call id name args) j, refl, refl)
compare-IsAt env (core, done v) j =
    rw (same_refl (env.digest (done v))) (observe_state env (core, done v) j, refl, refl)
compare-IsAt env (core, failed name message kind) j =
    rw (same_refl (env.digest (failed name message kind)))
      (observe_state env (core, failed name message kind) j, refl, refl)

pub run_round :
    {S V N : Type 0} (env : Env S V N) (code : Bytes) (core : S) (p : Plan S N)
    → IsAt (record { core = core; paused = none; dead = false }) (some (run_input code)) p
    → Holds (IsAt (state_after env (env.execute code core)) none) (
        round env
          (observed (kind_of (env.execute code core).1) (env.digest (env.execute code core).1))
          p)
unfolding round request start
run_round env code core p (a, b, c) =
    rw c (rw a (compare-IsAt env (env.execute code core) (log env (run code) p.session.journal)))

pub begin_round :
    {S V N : Type 0} (env : Env S V N) (code : Bytes) (core : S) (p : Plan S N)
    → IsAt (record { core = core; paused = none; dead = false }) none p
    → Holds
        (IsAt (record { core = core; paused = none; dead = false }) (some (run_input code)))
        (round env (run code) p)
unfolding round
begin_round env code core p (a, b, c) = rw b (rw c (a, refl, refl))
