-- ===== src/Agent.antt =====
-- python/pydeno/_agent.py: an agent session and its journal. `start` and `resume` write what goes in and
-- what comes out, and `_replay_plan` runs a journal again. The core, with its worker, its tool budget
-- and the guest in it, is a parameter, as are the form of a value in the journal and the digest of an
-- outcome.
pub mod Plan
pub mod Follows
pub mod Answers
pub mod Replay
pub mod Marks
pub mod Lost
use pydeno.Prelude.{
  ℕ, suc, ◌+◌, ◌-◌, ◌^◌, min, ◌≡◌, Bool, true, false, ◌&&◌, ◌||◌, not, Option, none, some, List, [],
  ◌∷◌, ◌++◌, Bytes, codes, length, take, same, ltb, leb, ◌==◌, if◌then◌else◌, Result, ok, err,
  ◌>>=◌,
}
use pydeno.Tools.Names.{is_safe}

-- What a run came to: a call of a tool that waits for its answer, a value, or an error with the name of
-- its class, its message and its `error_type`.
pub data Outcome (V : Type 0) : Type 0 where
  tool_call : ℕ → Bytes → List V → Outcome V
  done : V → Outcome V
  failed : Bytes → Bytes → Bytes → Outcome V

pub data Kind : Type 0 where
  call_kind done_kind failed_kind : Kind

-- What the guest is told: a value, or an error of a class and with a message.
pub data Sent (V : Type 0) : Type 0 where
  sent_value : V → Sent V
  sent_error : Bytes → Bytes → Sent V

-- The records of a journal, `N` being what a value is there.
pub data Record (N : Type 0) : Type 0 where
  run : Bytes → Record N
  answered : N → Record N
  raised : Bytes → Bytes → Record N
  observed : Kind → Bytes → Record N
  lost : ℕ → Bytes → Record N

-- What a session stands on. `size` is the length of a record as JSON.
pub record Env (S V N : Type 0) : Type 0 where
  pub execute : Bytes → S → S × Outcome V
  pub answer : ℕ → Sent V → S → S × Outcome V
  pub is_closed : S → Bool
  pub calls_made : S → ℕ
  pub charge : ℕ → S → S
  pub encode : V → Option N
  pub decode : N → Option V
  pub digest : Outcome V → Bytes
  pub size : Record N → ℕ
  pub max_journal_bytes : ℕ
  pub redact : Bool

-- `_core`, the `call_id` of `_paused`, and `_dead`.
pub record State (S : Type 0) : Type 0 where
  pub core : S
  pub paused : Option ℕ
  pub dead : Bool

pub record Journal (N : Type 0) : Type 0 where
  pub records : Option (List (Record N))
  pub journal_size : ℕ
  pub checkpoint : ℕ
  pub checkpoint_calls : ℕ
  pub lost_run : Option (Record N)
  pub lost_runs : ℕ

pub record Session (S N : Type 0) : Type 0 where
  pub state : State S
  pub journal : Journal N

abbrev pub begin : {S N : Type 0} → S → Session S N
begin core = record {
  state = record { core = core; paused = none; dead = false };
  journal = record {
    records = some [];
    journal_size = 0;
    checkpoint = 0;
    checkpoint_calls = 0;
    lost_run = none;
    lost_runs = 0;
  };
}

pub data AgentError : Type 0 where
  worker_gone is_paused not_paused type_error journal_error journal_too_large diverged : AgentError

-- `_SAFE_ERROR_NAME.fullmatch`
abbrev pub is_error_name : Bytes → Bool
is_error_name name = is_safe name && leb (length name) 64

-- The class name that `_error_class` gives.
unfoldable pub error_class : Bytes → Bytes
error_class name = if is_error_name name then name else codes "Exception"

-- `_MAX_LOST_CALLS`
abbrev pub max_lost_calls : ℕ
max_lost_calls = 2 ^ 53

-- `_record`
unfoldable pub log : {S V N : Type 0} → Env S V N → Record N → Journal N → Journal N
log env r j = elim j.records [
  | none ↦ j
  | some records ↦
      let journal_size = j.journal_size + env.size r in
      if ltb env.max_journal_bytes journal_size
      then record j { records = none; journal_size = journal_size }
      else record j { records = some (records ++ r ∷ []); journal_size = journal_size }
]

abbrev pub kind_of : {V : Type 0} → Outcome V → Kind
kind_of (tool_call id name args) = call_kind
kind_of (done v) = done_kind
kind_of (failed name message kind) = failed_kind

abbrev pub call_of : {V : Type 0} → Outcome V → Option ℕ
call_of (tool_call id name args) = some id
call_of (done v) = none
call_of (failed name message kind) = none

-- `_lost_reason`
abbrev pub lost_reason : {V : Type 0} → Outcome V → Bytes
lost_reason (failed name message kind) = if is_error_name kind then kind else codes "Error"
lost_reason _ = codes "WorkerCrashed"

-- The record that `_mark_dead` keeps.
abbrev pub lost_record : {S V N : Type 0} → Env S V N → Bytes → S → Journal N → Record N
lost_record env reason core j =
    lost (min (env.calls_made core - j.checkpoint_calls) max_lost_calls)
      (if is_error_name reason then reason else codes "Error")

-- `_mark_dead(reason)`
unfoldable pub mark_dead : {S V N : Type 0} → Env S V N → Bytes → Session S N → Session S N
mark_dead env reason s = if s.state.dead then s else record {
  state = record { core = s.state.core; paused = none; dead = true };
  journal = record s.journal { lost_run = some (lost_record env reason s.state.core s.journal) };
}

-- `self._checkpoint = len(self._records)`, where there are records
abbrev pub set_checkpoint : {N : Type 0} → ℕ → Journal N → Journal N
set_checkpoint calls j = elim j.records [
  | none ↦ j
  | some records ↦ record j { checkpoint = length records; checkpoint_calls = calls }
]

-- `_observe`, of what the core came to; the state before it is not dead.
abbrev pub settle_end : {S V N : Type 0} → Env S V N → Outcome V → S → Journal N → Session S N
settle_end env step core j =
    if env.is_closed core
    then mark_dead env (lost_reason step)
        (record { state = record { core = core; paused = none; dead = false }; journal = j })
    else record {
      state = record { core = core; paused = none; dead = false };
      journal = set_checkpoint (env.calls_made core) j;
    }

abbrev pub settle : {S V N : Type 0} → Env S V N → Outcome V → S → Journal N → Session S N
settle env (tool_call id name args) core j = record {
  state = record { core = core; paused = some id; dead = false };
  journal = j;
}
settle env (done v) core j = settle_end env (done v) core j
settle env (failed name message kind) core j = settle_end env (failed name message kind) core j

unfoldable pub observe :
    {S V N : Type 0} → Env S V N → S × Outcome V → Journal N → Session S N × Outcome V
unfolding log mark_dead
observe env (core, step) j =
    (settle env step core (log env (observed (kind_of step) (env.digest step)) j), step)

-- `_start`, in a session that has not been closed
unfoldable pub start :
    {S V N : Type 0} → Env S V N → Bytes → Session S N → Result AgentError (Session S N × Outcome V)
unfolding observe log
start env code s = elim s.state.dead [
  | true ↦ err worker_gone
  | false ↦ elim s.state.paused [
    | some id ↦ err is_paused
    | none ↦ ok (observe env (env.execute code s.state.core) (log env (run code) s.journal))
  ]
]

-- An answer of the host. Of an error, whether its message is public and whether the redaction shows it.
pub data Answer (V : Type 0) : Type 0 where
  value : V → Answer V
  error : Bytes → Bytes → Bool → Bool → Answer V

abbrev pub message_of : Bool → Bytes → Bool → Bool → Bytes
message_of redact message is_public exposed =
    if redact && (not is_public && not exposed) then codes "host function failed" else message

abbrev pub decoded : {V N : Type 0} → N → Option V → Option (Record N × Sent V)
decoded n none = none
decoded n (some v) = some (answered n, sent_value v)

abbrev pub encoded : {S V N : Type 0} → Env S V N → Option N → Option (Record N × Sent V)
encoded env none = none
encoded env (some n) = decoded n (env.decode n)

-- What `_answer` records, and what it sends.
unfoldable pub answer_of : {S V N : Type 0} → Env S V N → Answer V → Option (Record N × Sent V)
unfolding error_class
answer_of env (value v) = encoded env (env.encode v)
answer_of env (error name message is_public exposed) =
    let text = message_of env.redact message is_public exposed in
    some (raised name text, sent_error (error_class name) text)

abbrev pub resumed :
    {S V N : Type 0}
    → Env S V N
    → ℕ
    → S
    → Journal N
    → Option (Record N × Sent V)
    → Result AgentError (Session S N × Outcome V)
resumed env id core j none = err type_error
resumed env id core j (some (r, sent)) = ok (observe env (env.answer id sent core) (log env r j))

-- `_resume`, of the call with this `call_id`. The call is of this session, and the session has not been
-- closed.
unfoldable pub resume :
    {S V N : Type 0}
    → Env S V N
    → ℕ
    → Answer V
    → Session S N
    → Result AgentError (Session S N × Outcome V)
unfolding observe log answer_of
resume env id a s = elim s.state.dead [
  | true ↦ err worker_gone
  | false ↦ elim s.state.paused [
    | none ↦ err not_paused
    | some call ↦
        if id == call
        then resumed env call s.state.core s.journal (answer_of env a)
        else err not_paused
  ]
]

-- `_replay_lost`
unfoldable pub replay_lost : {S V N : Type 0} → Env S V N → ℕ → Bytes → Session S N → Session S N
unfolding log
replay_lost env calls reason s =
    let core = env.charge calls s.state.core in
    let j =
      log env (lost calls reason) (record s.journal { lost_runs = suc s.journal.lost_runs }) in
    record {
      state = record s.state { core = core };
      journal = set_checkpoint (env.calls_made core) j;
    }

-- `_journal`, the records that `dump` signs
abbrev pub with_lost : {N : Type 0} → Option (Record N) → List (Record N)
with_lost none = []
with_lost (some r) = r ∷ []

unfoldable pub journal_of : {S N : Type 0} → Session S N → Result AgentError (List (Record N))
journal_of s = elim s.journal.records [
  | none ↦ err journal_too_large
  | some records ↦
      if s.state.dead
      then ok (take s.journal.checkpoint records ++ with_lost s.journal.lost_run)
      else ok records
]
