-- ===== src/Workers.antt =====
-- python/pydeno/_sandbox_pool.py: `_WorkerCapacity`, the slots that the workers of a pool take. A token
-- and a process, which the code compares by identity, are numbers.
pub mod Start
pub mod Slots
pub mod Kept
pub mod Turns
pub mod Caps
pub mod Capped
pub mod Bound
pub mod Core
use pydeno.Prelude.{
  ℕ, suc, ◌+◌, Bool, true, false, ◌&&◌, ◌||◌, Option, none, some, List, [], ◌∷◌, ◌++◌, ltb, ◌==◌,
  length, if◌then◌else◌,
}

-- What a token holds: None, a process, or a `_Handover` of one.
pub data Held : Type 0 where
  reserved : Held
  process : ℕ → Held
  handover : ℕ → Held

abbrev pub Workers : Type 0
Workers = List (ℕ × Held)

pub record WorkerCapacity : Type 0 where
  pub maximum : Option ℕ
  pub workers : Workers
  pub waiters : ℕ
  pub timeouts : ℕ
  pub next_token : ℕ

unfoldable pub init : Option ℕ → WorkerCapacity
init maximum = record { maximum = maximum; workers = []; waiters = 0; timeouts = 0; next_token = 0 }

-- `proc is None or proc.poll() is None`, with the processes that have not exited; the `poll` of a
-- `_Handover` is always None.
abbrev pub counts : (ℕ → Bool) → Held → Bool
counts alive reserved = true
counts alive (process p) = alive p
counts alive (handover p) = true

-- The workers that `live` keeps.
unfoldable pub prune : (ℕ → Bool) → Workers → Workers
prune alive [] = []
prune alive ((token, held) ∷ rest) =
    if counts alive held then (token, held) ∷ prune alive rest else prune alive rest

-- `live`
unfoldable pub live : (ℕ → Bool) → WorkerCapacity → WorkerCapacity × ℕ
unfolding prune
live alive c = (record c { workers = prune alive c.workers }, length (prune alive c.workers))

-- `available`, of what `live` gives where there is a cap
abbrev pub below : Option ℕ → ℕ → Bool
below none n = true
below (some maximum) n = ltb n maximum

unfoldable pub available : (ℕ → Bool) → WorkerCapacity → WorkerCapacity × Bool
unfolding live
available alive c = elim c.maximum [
  | none ↦ (c, true)
  | some maximum ↦ ((live alive c).0, ltb (live alive c).1 maximum)
]

-- `self.workers.get(token)`, of a token that is there
unfoldable pub find : ℕ → Workers → Option Held
find token [] = none
find token ((other, held) ∷ rest) =
    let later = find token rest in if token == other then some held else later

-- `self.workers[token] = held`
unfoldable pub assign : ℕ → Held → Workers → Workers
assign token held [] = (token, held) ∷ []
assign token held ((other, old) ∷ rest) =
    if token == other then (other, held) ∷ rest else (other, old) ∷ assign token held rest

-- `self.workers.pop(token, None)`
unfoldable pub pop : ℕ → Workers → Workers
pop token [] = []
pop token ((other, held) ∷ rest) = if token == other then rest else (other, held) ∷ pop token rest

abbrev pub is_process : ℕ → Held → Bool
is_process p reserved = false
is_process p (process q) = p == q
is_process p (handover q) = false

-- The token of `hand_over`.
unfoldable pub token_of : ℕ → Workers → Option ℕ
token_of p [] = none
token_of p ((token, held) ∷ rest) =
    let later = token_of p rest in if is_process p held then some token else later

-- `self.workers[token] = _Handover(proc)`, where there is a token
abbrev pub handed : Option ℕ → ℕ → Workers → Workers
handed none p workers = workers
handed (some token) p workers = assign token (handover p) workers

-- `hand_over`
unfoldable pub hand_over : ℕ → WorkerCapacity → WorkerCapacity × Option ℕ
unfolding token_of assign
hand_over p c =
    (record c { workers = handed (token_of p c.workers) p c.workers }, token_of p c.workers)

abbrev pub is_pending : (ℕ → Bool) → Option Held → Bool
is_pending alive (some (handover p)) = alive p
is_pending alive _ = false

-- `replacement_pending`
unfoldable pub replacement_pending : (ℕ → Bool) → ℕ → WorkerCapacity → Bool
unfolding find
replacement_pending alive token c = is_pending alive (find token c.workers)

abbrev pub let_go : (ℕ → Bool) → ℕ → Option Held → Workers → Workers
let_go alive token (some (handover p)) workers =
    if alive p then assign token (process p) workers else pop token workers
let_go alive token _ workers = pop token workers

-- `release`
unfoldable pub release : (ℕ → Bool) → ℕ → WorkerCapacity → WorkerCapacity
unfolding find assign pop
release alive token c = record c { workers = let_go alive token (find token c.workers) c.workers }

-- `if self.maximum is not None: self.workers[token] = None`
abbrev pub add_reserved : Option ℕ → ℕ → Workers → Workers
add_reserved none token workers = workers
add_reserved (some maximum) token workers = assign token reserved workers

-- `reserve`: the capacity, and the new token.
unfoldable pub reserve : WorkerCapacity → WorkerCapacity × ℕ
unfolding assign
reserve c = (
  record c {
    workers = add_reserved c.maximum c.next_token c.workers;
    next_token = suc c.next_token;
  },
  c.next_token,
)
