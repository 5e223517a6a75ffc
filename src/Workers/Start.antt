-- ===== src/Workers/Start.antt =====
-- The steps of python/pydeno/_sandbox_pool.py that touch a capacity: each is a critical section of
-- `_Core.new` or `_Core.fill`, the start of a process between two of them, or the exit of one.
use pydeno.Prelude.{ℕ, suc, ◌<◌, ◌≡◌, Bool, true, false, Option, none, some, ◌==◌, if◌then◌else◌}
use pydeno.Workers.{
  Held, reserved, process, handover, WorkerCapacity, init, live, available, find, assign, hand_over,
  replacement_pending, release, reserve,
}

-- A capacity among its processes: which have not exited, and which one each start has running. Processes
-- from `next_proc` on have not been started.
pub record System : Type 0 where
  pub capacity : WorkerCapacity
  pub alive : ℕ → Bool
  pub running : ℕ → Option ℕ
  pub next_proc : ℕ

abbrev pub put {ℓ} : {A : Type ℓ} → ℕ → A → (ℕ → A) → ℕ → A
put key value f at = if at == key then value else f at

abbrev pub begin : Option ℕ → System
begin maximum = record {
  capacity = init maximum;
  alive = λ _. false;
  running = λ _. none;
  next_proc = 0;
}

-- What a start may do with its slot: a reserved one, or one whose old process has exited.
abbrev pub CanStart : (ℕ → Bool) → Option Held → Type 0
CanStart alive none = ⊥
CanStart alive (some reserved) = Unit
CanStart alive (some (process p)) = ⊥
CanStart alive (some (handover p)) = alive p ≡ false

abbrev pub with_workers : WorkerCapacity → ℕ → Held → WorkerCapacity
with_workers c token held = record c { workers = assign token held c.workers }

pub data Step (s : System) : System → Type 0 where
  -- `live`, by `stats` or a wait
  polls : Step s (record s { capacity = (live s.alive s.capacity).0 })
  -- `if capacity.available(): token = capacity.reserve()`
  reserves :
      (available s.alive s.capacity).1 ≡ true
      → Step s (record s { capacity = (reserve (available s.alive s.capacity).0).0 })
  -- `factory()` or `_create`, behind the wait for the old process: the process runs
  starts :
      (token : ℕ)
      → CanStart s.alive (find token s.capacity.workers)
      → s.running token ≡ none
      → Step s (record s {
        alive = put s.next_proc true s.alive;
        running = put token (some s.next_proc) s.running;
        next_proc = suc s.next_proc;
      })
  -- `capacity.workers[token] = rt._proc`, of the process that the start has running, if it has not exited
  records :
      (token p : ℕ)
      → CanStart s.alive (find token s.capacity.workers)
      → p < s.next_proc
      → s.running token ≡ (if s.alive p then some p else none)
      → Step s (record s { capacity = with_workers s.capacity token (process p) })
  -- `capacity.release(token)`, of a start that raised, or of a wait for the old process that ended
  gives_up :
      (token : ℕ)
      → (replacement_pending s.alive token s.capacity ≡ false → s.running token ≡ none)
      → Step s (record s { capacity = release s.alive token s.capacity })
  -- `hand_over`
  hands_over : (p : ℕ) → Step s (record s { capacity = (hand_over p s.capacity).0 })
  -- A process exits.
  exits :
      (token p : ℕ)
      → s.running token ≡ some p
      → Step s (record s { alive = put p false s.alive; running = put token none s.running })

pub data Reach (s : System) : System → Type 0 where
  here : Reach s s
  next : {t u : System} → Reach s t → Step t u → Reach s u
