-- ===== src/Pool/Room.antt =====
-- The map of live sessions of `SessionPool`, python/pydeno/_pool.py, in its order, the least recently
-- used first: `_make_room`, `evict_idle`, and how `get` adds a session.
pub mod Caps
pub mod Sweep
use mathlib.Core.Option
use pydeno.Prelude.{
  min, ℕ, zero, suc, ◌+◌, ◌-◌, Bool, true, false, not, ◌&&◌, ◌||◌, Option, none, some, List, [],
  ◌∷◌, ◌++◌, Result, ok, err, length, same, ltb, leb, ◌==◌, if◌then◌else◌,
}

-- What eviction reads of an `_Entry`: `leased` is `lock.locked()`, `unsaved` what `unsaved()` gives,
-- `closed` whether it has a sandbox that is closed.
pub record Slot : Type 0 where
  pub owner : List ℕ
  pub session_id : List ℕ
  pub leased : Bool
  pub waiters : ℕ
  pub unsaved : Bool
  pub closed : Bool
  pub last_used : ℕ

abbrev pub Slots : Type 0
Slots = List Slot

-- `idle`
abbrev pub idle : Slot → Bool
idle e = not e.leased && e.waiters == 0

-- `evictable`
unfoldable pub evictable : Slot → Bool
evictable e = idle e && not e.unsaved

abbrev pub owned_by : List ℕ → Slot → Bool
owned_by owner e = same e.owner owner

abbrev pub count : (Slot → Bool) → Slots → ℕ
count p [] = 0
count p (e ∷ es) = let n = count p es in if p e then suc n else n

-- `_evict` of the first entry with a property, where there is one.
unfoldable pub evict_first : (Slot → Bool) → Slots → Option Slots
evict_first p [] = none
evict_first p (e ∷ es) =
    let rest = evict_first p es in if p e then some es else Option.map (◌∷◌ e) rest

-- `PoolFull`
pub data PoolFull : Type 0 where
  pool_full : PoolFull

-- The end of each of the two tests of `_make_room`: whether something was evicted.
abbrev pub evicted_or_full : Option Slots → Result PoolFull (Bool × Slots)
evicted_or_full none = err pool_full
evicted_or_full (some es) = ok (true, es)

-- The cap of one owner
unfoldable pub room_of_owner : Option ℕ → List ℕ → Slots → Result PoolFull (Bool × Slots)
unfolding evict_first evictable
room_of_owner none owner es = ok (false, es)
room_of_owner (some cap) owner es =
    if leb cap (count (owned_by owner) es)
    then evicted_or_full (evict_first (λ e. owned_by owner e && evictable e) es)
    else ok (false, es)

-- The cap of the pool
unfoldable pub room_of_all : ℕ → Bool → Slots → Result PoolFull (Bool × Slots)
unfolding evict_first evictable
room_of_all max_sessions evicted es =
    if leb max_sessions (length es)
    then evicted_or_full (evict_first evictable es)
    else ok (evicted, es)

abbrev pub room_after : ℕ → Result PoolFull (Bool × Slots) → Result PoolFull (Bool × Slots)
room_after max_sessions (err x) = err x
room_after max_sessions (ok (evicted, es)) = room_of_all max_sessions evicted es

-- `_make_room`
unfoldable pub make_room : ℕ → Option ℕ → List ℕ → Slots → Result PoolFull (Bool × Slots)
unfolding room_of_owner room_of_all
make_room max_sessions max_per_owner owner es =
    room_after max_sessions (room_of_owner max_per_owner owner es)

-- A new `_Entry`
abbrev pub new_slot : List ℕ → List ℕ → ℕ → Slot
new_slot owner session_id now = record {
  owner = owner;
  session_id = session_id;
  leased = false;
  waiters = 0;
  unsaved = false;
  closed = false;
  last_used = now;
}

-- What the loop of `get` does behind `_make_room`: it looks again if something was evicted.
abbrev pub add_after :
    Result PoolFull (Bool × Slots)
    → Slot
    → (Slots → Option (Result PoolFull Slots))
    → Option (Result PoolFull Slots)
add_after (err x) e again = some (err x)
add_after (ok (false, rest)) e again = some (ok (rest ++ e ∷ []))
add_after (ok (true, rest)) e again = again rest

-- How the loop of `get` adds a session that is not in the map; `none` is a loop that has not ended
-- in `fuel` rounds.
unfoldable pub add_session : ℕ → ℕ → Option ℕ → Slot → Slots → Option (Result PoolFull Slots)
unfolding make_room
add_session zero max_sessions max_per_owner e es = none
add_session (suc fuel) max_sessions max_per_owner e es =
    add_after (make_room max_sessions max_per_owner e.owner es) e
      (add_session fuel max_sessions max_per_owner e)

abbrev pub is_idle_for : Option ℕ → ℕ → Slot → Bool
is_idle_for none now e = false
is_idle_for (some idle_timeout) now e = leb idle_timeout (now - e.last_used)

-- The first victims of `evict_idle`
unfoldable pub expired : Option ℕ → ℕ → Slot → Bool
unfolding evictable
expired idle_timeout now e = evictable e && (e.closed || is_idle_for idle_timeout now e)

abbrev pub without : (Slot → Bool) → Slots → Slots
without p [] = []
without p (e ∷ es) = let rest = without p es in if p e then rest else e ∷ rest

-- Evicts the first `excess` sessions that can be evicted.
unfoldable pub trim : ℕ → Slots → Slots
unfolding evictable
trim excess [] = []
trim zero (e ∷ es) = e ∷ es
trim (suc excess) (e ∷ es) =
    let less = trim excess es in
    let rest = trim (suc excess) es in if evictable e then less else e ∷ rest

-- `evict_idle`: the number evicted, and the sessions left
unfoldable pub evict_idle : ℕ → Option ℕ → ℕ → Slots → ℕ × Slots
unfolding trim expired
evict_idle max_sessions idle_timeout now es =
    let live = without (expired idle_timeout now) es in
    let excess = length live - max_sessions in
    (count (expired idle_timeout now) es + min excess (count evictable live), trim excess live)
