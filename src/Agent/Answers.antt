-- ===== src/Agent/Answers.antt =====
-- An answer of the host, `_answer` of python/pydeno/_agent.py, and the answer that a replay gives.
use pydeno.Prelude.{
  ℕ, ◌≡◌, refl, Bool, true, false, Option, none, some, Bytes, ==_iff, if_both, arith,
}
use pydeno.Agent.{
  Sent, sent_value, sent_error, Record, answered, raised, observed, Env, log, kind_of, Answer,
  value, error, answer_of, resume, error_class, is_error_name, message_of, decoded, encoded,
}
use pydeno.Tools.Names.{is_safe, all_parts}
use pydeno.Agent.Plan.{answer_input, Plan, answer_again, request, round}
use pydeno.Agent.Follows.{Holds, IsAt, compare-IsAt, state_after}

abbrev pub decode_again : {S V N : Type 0} → Env S V N → Option N → Option V
decode_again env none = none
decode_again env (some n) = env.decode n

-- What is decoded from an answer's record is decoded again from what it is encoded as.
abbrev pub IsStable : {S V N : Type 0} → Env S V N → Type 0
IsStable {V = V} {N = N} env =
    (given v : V) (n : N)
    → env.encode given ≡ some n
    → env.decode n ≡ some v
    → decode_again env (env.encode v) ≡ some v

-- The answer that the plan gives is sent as the host's was.
pub record IsAgain {S V N : Type 0} (env : Env S V N) (r : Record N) (sent : Sent V) : Type 0 where
  pub answer : Answer V
  pub record_of : Record N
  pub read : answer_again env r ≡ some answer
  pub sent_lem : answer_of env answer ≡ some (record_of, sent)
  pub begins :
      (id : ℕ) (core : S) (p : Plan S N)
      → IsAt (record { core = core; paused = some id; dead = false }) none p
      → Holds
          (IsAt (record { core = core; paused = some id; dead = false }) (some (answer_input r)))
          (round env r p)

pub answer_round :
    {S V N : Type 0} (env : Env S V N) (r : Record N) (sent : Sent V) (id : ℕ) (core : S)
    (p : Plan S N)
    → IsAgain env r sent
    → IsAt (record { core = core; paused = some id; dead = false }) (some (answer_input r)) p
    → Holds (IsAt (state_after env (env.answer id sent core)) none) (
        round env
          (observed (kind_of (env.answer id sent core).1) (env.digest (env.answer id sent core).1))
          p)
unfolding round request resume
answer_round env r sent id core p again (a, b, c) = rw c (
    rw b (
      rw again.read (
        rw a (
          rw ((==_iff id id).1 refl) (
            rw again.sent_lem (
              compare-IsAt env (env.answer id sent core)
                (log env again.record_of p.session.journal)))))))

abbrev pub Again : {S V N : Type 0} → Env S V N → Option (Record N × Sent V) → Type 0
Again env none = Unit
Again env (some (r, sent)) = IsAgain env r sent

pub answer_begins :
    {S V N : Type 0} (env : Env S V N) (n : N) (id : ℕ) (core : S) (p : Plan S N)
    → IsAt (record { core = core; paused = some id; dead = false }) none p
    → Holds
        (IsAt
          (record { core = core; paused = some id; dead = false })
          (some (answer_input (answered n))))
        (round env (answered n) p)
unfolding round
answer_begins env n id core p (a, b, c) = rw b (rw c (a, refl, refl))

pub raise_begins :
    {S V N : Type 0} (env : Env S V N) (name message : Bytes) (id : ℕ) (core : S) (p : Plan S N)
    → IsAt (record { core = core; paused = some id; dead = false }) none p
    → Holds
        (IsAt
          (record { core = core; paused = some id; dead = false })
          (some (answer_input (raised name message))))
        (round env (raised name message) p)
unfolding round
raise_begins env name message id core p (a, b, c) = rw b (rw c (a, refl, refl))

pub error_class-error_class : (name : Bytes) → error_class (error_class name) ≡ error_class name
unfolding error_class is_safe all_parts
error_class-error_class name =
    if_both (λ (given : Bytes). error_class given ≡ given) (is_error_name name) _ _
      (λ safe. rw safe refl) (λ _. refl)

pub public_message :
    (redact : Bool) (message : Bytes) → message_of redact message true false ≡ message
public_message true message = refl
public_message false message = refl

pub raise-IsAgain :
    {S V N : Type 0} (env : Env S V N) (name message : Bytes)
    → IsAgain env (raised name message) (sent_error (error_class name) message)
unfolding answer_again answer_of
raise-IsAgain env name message = record {
  answer = error (error_class name) message true false;
  record_of = raised (error_class name) message;
  read = refl;
  sent_lem = rw (public_message env.redact message) (rw (error_class-error_class name) refl);
  begins = raise_begins env name message;
}

pub encoded-IsAgain :
    {S V N : Type 0} (env : Env S V N) (n : N) (v : V) (en : Option N)
    → env.decode n ≡ some v
    → env.encode v ≡ en
    → decode_again env en ≡ some v
    → IsAgain env (answered n) (sent_value v)
unfolding answer_again answer_of
encoded-IsAgain env n v none d e h = ground arith
encoded-IsAgain env n v (some n') d e h = record {
  answer = value v;
  record_of = answered n';
  read = rw (d, answer_again) refl;
  sent_lem = rw e (rw h refl);
  begins = answer_begins env n;
}

pub decoded-Again :
    {S V N : Type 0} (env : Env S V N) (given : V) (n : N) (d : Option V)
    → IsStable env
    → env.encode given ≡ some n
    → env.decode n ≡ d
    → Again env (decoded n d)
decoded-Again env given n none stable h e = tt
decoded-Again env given n (some v) stable h e =
    encoded-IsAgain env n v (env.encode v) e refl (stable given v n h e)

pub value-Again :
    {S V N : Type 0} (env : Env S V N) (given : V) (en : Option N)
    → IsStable env
    → env.encode given ≡ en
    → Again env (encoded env en)
value-Again env given none stable e = tt
value-Again env given (some n) stable e = decoded-Again env given n (env.decode n) stable e refl

pub answer_of-Again :
    {S V N : Type 0} (env : Env S V N) (a : Answer V) → IsStable env → Again env (answer_of env a)
unfolding answer_of
answer_of-Again env (value v) stable = value-Again env v (env.encode v) stable refl
answer_of-Again env (error name message is_public exposed) stable =
    raise-IsAgain env name (message_of env.redact message is_public exposed)
