-- ===== src/Pool/Session.antt =====
-- One session of `SessionPool`, python/pydeno/_pool.py, and its values in the store: `_restore`,
-- `_persist_held`, `_write`, `_drop_state`, `_prepare`, `_release` and `drop`.
--
-- A store that raises is left out. What other tasks do to the entry while a call awaits the store,
-- an eviction, a drop or the closing of the pool, is an argument: what the call finds in
-- `entry.dropped` and `entry.gone` behind each of its awaits.
pub mod Restore
pub mod Persist
pub mod Drop
pub mod Lease
use pydeno.Prelude.{
  ℕ, suc, ◌+◌, ◌≡◌, ◌≢◌, Bool, true, false, not, ◌||◌, max, Option, none, some, List, [], ◌∷◌, ◌++◌,
  Bytes, codes, Result, ok, err, ◌>>=◌, length, take, drop, starts_with, ltb, if◌then◌else◌,
}
use pydeno.Pool.Numbers.{digits, int, isdigit, pack_counter, unpack_counter}
use pydeno.Pool.Ids.{journal_key, counter_key, bound}
use pydeno.Pool.Store.{JournalStore}

pub data PoolError : Type 0 where
  journal_error : PoolError
  stale_journal : PoolError
  journal_too_large : PoolError
  struct_error : PoolError  -- a counter of more than 64 bits
  sandbox_error : PoolError  -- whatever the sandbox raised
  not_leased : PoolError

-- What `dump` gives: a signed journal, a JournalError since it is over its cap, or another exception.
pub data Dump : Type 0 where
  dumped : Bytes → Dump
  over_cap : Dump
  failed : Dump

-- What the pool uses of `AsyncAgentSandbox`, with the key and the pool's options fixed. A text is
-- the associated data that a journal is signed with.
pub record Sandboxes : Type 1 where
  pub Sandbox : Type 0
  pub create : Option Sandbox
  pub load : Bytes → List ℕ → Option Sandbox
  pub dump : Sandbox → List ℕ → Dump
  -- the journal without state that charges what the sandbox spent
  pub spent : Sandbox → List ℕ → Bytes
  pub is_closed : Sandbox → Bool
  pub close : Sandbox → Sandbox
  pub journal_size : Sandbox → ℕ
  -- the signature binds the associated data
  pub load-dump :
      (s : Sandbox) (a a' : List ℕ) (b : Bytes) (s' : Sandbox)
      → dump s a ≡ dumped b
      → load b a' ≡ some s'
      → a ≡ a'

-- `_ENVELOPE`
abbrev pub envelope : Bytes
envelope = codes "pydeno-session1" ++ 0 ∷ []

-- `len(_ENVELOPE) + _COUNTER.size`
abbrev pub head : ℕ
head = 24

-- The stored value of a journal.
unfoldable pub sealed : Bytes → Bytes → Bytes
sealed packed blob = envelope ++ (packed ++ blob)

-- `_Entry`, less what schedules its waiters. No saved size is the code's -1.
pub record Entry (S : Type 0) : Type 0 where
  pub counter : ℕ
  pub sandbox : Option S
  pub dirty : Bool
  pub saved_size : Option ℕ
  pub gone : Bool

-- What a call finds in `entry.dropped`: behind the reading of the counter, before the journal is
-- written, behind it, and behind the writing of the counter.
pub record Dropped : Type 0 where
  pub after_stored : Bool
  pub before_journal : Bool
  pub after_journal : Bool
  pub after_counter : Bool

-- What `_prepare` finds in `entry.gone`: behind the counter, behind `_persist`, behind `_restore`.
pub record Gone : Type 0 where
  pub after_stored : Bool
  pub after_persist : Bool
  pub after_restore : Bool

-- The counter in the stored bytes.
unfoldable pub read_counter : Option Bytes → Result PoolError ℕ
unfolding int
read_counter none = ok 0
read_counter (some raw) = if isdigit raw then ok (int raw) else err journal_error

module _ (js : JournalStore) (sb : Sandboxes) where
  -- What a call that stores something leaves.
  abbrev pub Stored : Type 0 → Type 0
  Stored R = Result PoolError R × js.Store × Entry sb.Sandbox

  abbrev pub dropped_state : Stored Bool → Stored (Unit {0})
  dropped_state (err x, s, e) = (err x, s, e)
  dropped_state (ok _, s, e) =
      (err journal_too_large, s, record e { sandbox = none; dirty = false; gone = true })

  abbrev pub saved : sb.Sandbox → Stored Bool → Stored (Unit {0})
  saved x (err y, s, e) = (err y, s, e)
  saved x (ok false, s, e) = (ok tt, s, e)
  saved x (ok true, s, e) =
      (ok tt, s, record e { dirty = false; saved_size = some (sb.journal_size x) })

module _ (js : JournalStore) (sb : Sandboxes) (prefix owner session_id : List ℕ) where
  open js use {Store, get, set, delete}
  open sb use {Sandbox, create, load, dump, spent, is_closed, close, journal_size}

  -- `_stored_counter`
  unfoldable pub stored_counter : Store → Result PoolError ℕ
  unfolding read_counter
  stored_counter s = read_counter (get (counter_key prefix owner session_id) s)

  unfoldable pub loaded :
      Option Sandbox → ℕ → Entry Sandbox → Result PoolError Sandbox × Entry Sandbox
  loaded none counter e = (err sandbox_error, e)
  loaded (some x) counter e = (ok x, record e { counter = counter })

  -- The stored journal, once its shape is right.
  unfoldable pub load_at : ℕ → ℕ → Bytes → Entry Sandbox → Result PoolError Sandbox × Entry Sandbox
  unfolding loaded
  load_at floor counter blob e =
      if ltb counter floor
      then (err stale_journal, e)
      else loaded (load blob (bound owner session_id counter)) counter e

  unfoldable pub created : Option Sandbox → Entry Sandbox → Result PoolError Sandbox × Entry Sandbox
  created none e = (err sandbox_error, e)
  created (some x) e = (ok x, e)

  unfoldable pub restore_from :
      ℕ → Option Bytes → Entry Sandbox → Result PoolError Sandbox × Entry Sandbox
  unfolding load_at created unpack_counter
  restore_from floor none e = created create (record e { counter = floor })
  restore_from floor (some raw) e =
      if ltb (length raw) head || not (starts_with envelope raw)
      then (err journal_error, e)
      else load_at floor (unpack_counter (take 8 (drop (length envelope) raw))) (drop head raw) e

  unfoldable pub restore_above :
      Result PoolError ℕ → Store → Entry Sandbox → Result PoolError Sandbox × Entry Sandbox
  unfolding restore_from
  restore_above (err x) s e = (err x, e)
  restore_above (ok stored) s e =
      restore_from (max e.counter stored) (get (journal_key prefix owner session_id) s) e

  -- `_restore`
  unfoldable pub restore : Store → Entry Sandbox → Result PoolError Sandbox × Entry Sandbox
  unfolding restore_above stored_counter
  restore s e = restore_above (stored_counter s) s e

  -- The writes of `_write`, with the counter's eight bytes packed.
  unfoldable pub write_packed :
      Option Bytes → Dropped → ℕ → Bytes → Store → Entry Sandbox → Stored js sb Bool
  unfolding sealed
  write_packed none d counter blob s e = (err struct_error, s, e)
  write_packed (some packed) d counter blob s e =
      let written = set (journal_key prefix owner session_id) (sealed packed blob) s in
      if d.after_journal
      then (ok false, delete (journal_key prefix owner session_id) written, e)
      else (let counted = set (counter_key prefix owner session_id) (digits counter) written in
          if d.after_counter
          then (
            ok false,
            delete (journal_key prefix owner session_id) counted,
            record e { counter = counter },
          )
          else (ok true, counted, record e { counter = counter }))

  -- `_write`
  unfoldable pub write : Dropped → ℕ → Bytes → Store → Entry Sandbox → Stored js sb Bool
  unfolding write_packed pack_counter
  write d counter blob s e =
      if d.before_journal
      then (ok false, s, e)
      else write_packed (pack_counter counter) d counter blob s e

  -- `_drop_state`, and the JournalTooLarge that `_persist_held` raises behind it
  unfoldable pub drop_state :
      Dropped → Sandbox → ℕ → Store → Entry Sandbox → Stored js sb (Unit {0})
  unfolding write
  drop_state d x counter s e = dropped_state js sb (
      write d counter (spent (close x) (bound owner session_id counter)) s
        (record e { sandbox = some (close x); dirty = true }))

  unfoldable pub persist_dump :
      Dump → Dropped → Sandbox → ℕ → Store → Entry Sandbox → Stored js sb (Unit {0})
  unfolding write drop_state
  persist_dump failed d x counter s e = (err sandbox_error, s, e)
  persist_dump over_cap d x counter s e = drop_state d x counter s e
  persist_dump (dumped blob) d x counter s e = saved js sb x (write d counter blob s e)

  unfoldable pub persist_above :
      Result PoolError ℕ → Dropped → Sandbox → Store → Entry Sandbox → Stored js sb (Unit {0})
  unfolding persist_dump
  persist_above (err y) d x s e = (err y, s, e)
  persist_above (ok stored) d x s e =
      if d.after_stored
      then (ok tt, s, e)
      else if ltb e.counter stored
      then (err stale_journal, s, record e { sandbox = none; dirty = false })
      else persist_dump (dump x (bound owner session_id (suc e.counter))) d x (suc e.counter) s e

  -- `_persist_held`
  unfoldable pub persist_held : Dropped → Sandbox → Store → Entry Sandbox → Stored js sb (Unit {0})
  unfolding persist_above stored_counter
  persist_held d x s e = persist_above (stored_counter s) d x s e

  -- What `drop` puts into the store, behind the counter that it read: no journal, and a counter
  -- above that of the store and that of the entry it dropped, 0 where there was none.
  unfoldable pub drop_above : Result PoolError ℕ → ℕ → Store → Result PoolError (Unit {0}) × Store
  drop_above (err x) live s = (err x, s)
  drop_above (ok stored) live s = (
    ok tt,
    set (counter_key prefix owner session_id) (digits (suc (max stored live)))
        (delete (journal_key prefix owner session_id) s),
  )

  -- The store's part of `drop`
  unfoldable pub drop_session : ℕ → Store → Result PoolError (Unit {0}) × Store
  unfolding drop_above stored_counter
  drop_session live s = drop_above (stored_counter s) live s
