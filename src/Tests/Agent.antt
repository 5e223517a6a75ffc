-- ===== src/Tests/Agent.antt =====
-- Runs of an agent session at concrete inputs: a core that counts its calls, and a guest that calls a
-- tool and returns what it answers.
use pydeno.Prelude.{
  ℕ, suc, ◌+◌, ◌≡◌, refl, true, false, none, some, List, [], ◌∷◌, Bytes, codes, ok, ◌>>=◌, ◌≤◌,
  arith,
}
use pydeno.Agent.{
  Outcome, tool_call, done, failed, Sent, sent_value, sent_error, Record, run, lost, answered,
  observed, call_kind, done_kind, Env, Session, begin, start, resume, value, journal_of, observe,
  log, answer_of, mark_dead,
}
use pydeno.Agent.Plan.{replay, Reach, here, next, starts, resumes, dies}
use pydeno.Agent.Follows.{Holds}
use pydeno.Tools.Names.{is_safe, all_parts}
use pydeno.Agent.Lost.{dead_journal-replay}
use pydeno.Agent.Replay.{journal-replay}

abbrev digest_of : Outcome ℕ → Bytes
digest_of (tool_call id name args) = name
digest_of (done v) = v ∷ []
digest_of (failed name message kind) = message

abbrev reply : Sent ℕ → Outcome ℕ
reply (sent_value v) = done v
reply (sent_error name message) = failed name message name

-- The state of the core is how many calls it has made.
abbrev env : Env ℕ ℕ ℕ
env = record {
  execute = λ code calls. (suc calls, tool_call calls code []);
  answer = λ id sent calls. (calls, reply sent);
  is_closed = λ _. false;
  calls_made = λ calls. calls;
  charge = λ more calls. more + calls;
  encode = some;
  decode = some;
  digest = digest_of;
  size = λ _. 10;
  max_journal_bytes = 100;
  redact = true;
}

abbrev records : List (Record ℕ)
records =
    run (codes "go")
    ∷ observed call_kind (codes "go")
    ∷ answered 7
    ∷ observed done_kind (7 ∷ [])
    ∷ []

abbrev started : Session ℕ ℕ
started = record {
  state = record { core = 1; paused = some 0; dead = false };
  journal = record {
    records = some (run (codes "go") ∷ observed call_kind (codes "go") ∷ []);
    journal_size = 20;
    checkpoint = 0;
    checkpoint_calls = 0;
    lost_run = none;
    lost_runs = 0;
  };
}

abbrev answered_session : Session ℕ ℕ
answered_session = record {
  state = record { core = 1; paused = none; dead = false };
  journal = record {
    records = some records;
    journal_size = 40;
    checkpoint = 4;
    checkpoint_calls = 1;
    lost_run = none;
    lost_runs = 0;
  };
}

start_go : start env (codes "go") (begin 0) ≡ ok (started, tool_call 0 (codes "go") [])
unfolding start observe log
start_go = refl

resume_go : resume env 0 (value 7) started ≡ ok (answered_session, done 7)
unfolding resume observe log answer_of mark_dead
resume_go = refl

reached : Reach env (begin 0) answered_session
reached =
    next (next here (starts (codes "go") started (tool_call 0 (codes "go") []) start_go))
      (resumes 0 (value 7) answered_session (done 7) resume_go)

journal-replay_example :
    (journal_of answered_session ≡ ok records)
    × Holds (λ (t : Session ℕ ℕ). t.state ≡ answered_session.state) (replay env records (begin 0))
journal-replay_example = journal-replay env 0 records (λ given v n e h. refl) reached refl refl

-- The worker dies while the guest waits for its first answer.
abbrev crashed_session : Session ℕ ℕ
crashed_session = record started {
  state = record { core = 1; paused = none; dead = true };
  journal = record started.journal { lost_run = some (lost 1 (codes "WorkerCrashed")) };
}

crashed : Reach env (begin 0) crashed_session
unfolding mark_dead is_safe all_parts
crashed =
    next (next here (starts (codes "go") started (tool_call 0 (codes "go") []) start_go))
      (dies (codes "WorkerCrashed"))

dead_journal-replay_example :
    Holds
      (λ (t : Session ℕ ℕ). (t.state.paused ≡ none) × (t.state.dead ≡ false) × (1 ≤ t.state.core))
      (journal_of crashed_session >>= λ signed. replay env signed (begin 0))
dead_journal-replay_example =
    dead_journal-replay env 0 (run (codes "go") ∷ observed call_kind (codes "go") ∷ [])
      (λ given v n e h. refl) (λ n core. refl) refl crashed refl refl (omega arith)
