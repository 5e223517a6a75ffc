-- ===== src/Gate/Threads.antt =====
-- `_GatePool` of python/pydeno/_gate.py: the threads that run sync gates for async callers.
--
-- Each step is one critical section of `submit`, `_work` or `set_gate_threads`, or one `jobs.get()`.
-- A thread stands at the top of its loop, waits in `jobs.get()`, holds a job that the counters do not
-- know of yet, or runs a gate.
pub mod Serves
use pydeno.Prelude.{
  ℕ, zero, suc, ◌+◌, ◌-◌, ◌≤◌, ◌<◌, ◌≡◌, Bool, true, false, ◌&&◌, ltb, if◌then◌else◌,
}

abbrev pub max_gate_threads : ℕ
max_gate_threads = 256

pub record GatePool : Type 0 where
  pub size : ℕ
  pub threads : ℕ
  pub idle : ℕ
  pub pending : ℕ
  pub queued : ℕ  -- `self.jobs`, by its length
  pub at_top : ℕ
  pub waiting : ℕ
  pub holding : ℕ
  pub running : ℕ

-- `_reset`, with the size that the process asks for
unfoldable pub init : ℕ → GatePool
init size = record {
  size = size;
  threads = 0;
  idle = 0;
  pending = 0;
  queued = 0;
  at_top = 0;
  waiting = 0;
  holding = 0;
  running = 0;
}

abbrev enqueue : GatePool → GatePool
enqueue p = record p { queued = p.queued + 1; pending = p.pending + 1 }

-- `submit`: the new thread starts at the top of its loop.
unfoldable pub submit : GatePool → GatePool
submit p =
    let q = enqueue p in
    if ltb q.idle q.pending && ltb q.threads q.size
    then record q { threads = q.threads + 1; at_top = q.at_top + 1 }
    else q

-- The top of the loop of `_work`: the thread ends if there are more than `size`, or becomes idle.
unfoldable pub begin_round : GatePool → GatePool
begin_round p =
    if ltb p.size p.threads
    then record p { threads = p.threads - 1; at_top = p.at_top - 1 }
    else record p { idle = p.idle + 1; at_top = p.at_top - 1; waiting = p.waiting + 1 }

-- `jobs.get()` returns.
unfoldable pub get_job : GatePool → GatePool
get_job p = record p { queued = p.queued - 1; waiting = p.waiting - 1; holding = p.holding + 1 }

-- The critical section behind it.
unfoldable pub take_job : GatePool → GatePool
take_job p = record p {
  idle = p.idle - 1;
  pending = p.pending - 1;
  holding = p.holding - 1;
  running = p.running + 1;
}

-- The gate returned or raised, or its caller had given up: back to the top.
unfoldable pub end_job : GatePool → GatePool
end_job p = record p { running = p.running - 1; at_top = p.at_top + 1 }

-- `set_gate_threads`, for a count that it takes
unfoldable pub set_size : ℕ → GatePool → GatePool
set_size count p = record p { size = count }

-- What can happen next. A thread takes a step only where there is one to take it.
pub data Step : GatePool → GatePool → Type 0 where
  submits : (p : GatePool) → Step p (submit p)
  begins : (p : GatePool) → 0 < p.at_top → Step p (begin_round p)
  gets : (p : GatePool) → 0 < p.waiting → 0 < p.queued → Step p (get_job p)
  takes : (p : GatePool) → 0 < p.holding → Step p (take_job p)
  ends : (p : GatePool) → 0 < p.running → Step p (end_job p)
  resizes :
      (p : GatePool) (count : ℕ) → 1 ≤ count → count ≤ max_gate_threads → Step p (set_size count p)

pub data Reach (p : GatePool) : GatePool → Type 0 where
  here : Reach p p
  next : {q r : GatePool} → Reach p q → Step q r → Reach p r
