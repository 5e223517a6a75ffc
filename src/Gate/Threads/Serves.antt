-- ===== src/Gate/Threads/Serves.antt =====
-- What the counters of `_GatePool`, python/pydeno/_gate.py, count, and that no job is left without a
-- thread.
use pydeno.Prelude.{ℕ, ◌+◌, ◌≤◌, ◌<◌, ◌≡◌, ◌⊎◌, arith}
use pydeno.Gate.Threads.{
  GatePool, max_gate_threads, init, submit, begin_round, get_job, take_job, end_job, set_size, Step,
  submits, begins, gets, takes, ends, resizes, Reach, here, next,
}

pub record Counts (p : GatePool) : Type 0 where
  pub threads_lem : p.threads ≡ p.at_top + p.waiting + p.holding + p.running
  pub idle_lem : p.idle ≡ p.waiting + p.holding
  pub pending_lem : p.pending ≡ p.queued + p.holding
  pub sized : 1 ≤ p.size
  pub capped : (p.threads ≤ max_gate_threads) × (p.size ≤ max_gate_threads)
  pub served : (p.pending ≡ 0) ⊎ (0 < p.threads)

Counts-init : (size : ℕ) → 1 ≤ size → size ≤ max_gate_threads → Counts (init size)
unfolding init
Counts-init size h k = ground arith

-- One step keeps the counters right, and a thread for the jobs that are pending.
Step-Counts : {p q : GatePool} → Step p q → Counts p → Counts q
unfolding submit begin_round get_job take_job end_job set_size
Step-Counts (submits p) c = ground arith
Step-Counts (begins p h) c = ground arith
Step-Counts (gets p h k) c = ground arith
Step-Counts (takes p h) c = ground arith
Step-Counts (ends p h) c = ground arith
Step-Counts (resizes p count h k) c = ground arith

-- In every state that a pool of 1 to 256 threads reaches, whatever is submitted, however the
-- threads' steps interleave and however the size is set in these bounds: `threads` counts the
-- threads, `idle` those that wait or hold a job not yet counted, `pending` the jobs that are queued
-- or so held; there are at most 256 threads; and while a job is pending there is a thread.
pub Reach-Counts :
    (size : ℕ) {p : GatePool} → 1 ≤ size → size ≤ max_gate_threads → Reach (init size) p → Counts p
Reach-Counts size h k here = Counts-init size h k
Reach-Counts size h k (next r s) = Step-Counts s (Reach-Counts size h k r)
