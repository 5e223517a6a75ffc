-- ===== src/Pool/Session/Lease.antt =====
-- Taking and ending a lease of one session of `SessionPool`, python/pydeno/_pool.py: `_prepare` and
-- `_release`, with the entry's lock held.
pub mod Fresh
use pydeno.Prelude.{
  ℕ, Bool, true, false, Option, none, some, List, Result, ok, err, ltb, if◌then◌else◌,
}
use pydeno.Pool.Store.{JournalStore}
use pydeno.Pool.Session.{
  PoolError, not_leased, Sandboxes, Entry, Dropped, Gone, Stored, stored_counter, restore,
  persist_held,
}

module _ (js : JournalStore) (sb : Sandboxes) where
  abbrev pub restored :
      Gone → js.Store → Result PoolError sb.Sandbox × Entry sb.Sandbox → Stored js sb Bool
  restored g s (err x, e) = (err x, s, e)
  restored g s (ok x, e) =
      if g.after_restore
      then (ok false, s, e)
      else (ok true, s, record e { sandbox = some x; saved_size = some (sb.journal_size x) })

  -- The closed sandbox is let go, once what it held is stored.
  abbrev pub let_go : Bool → Stored js sb (Unit {0}) → Stored js sb (Unit {0})
  let_go closed (err x, s, e) = (err x, s, e)
  let_go closed (ok _, s, e) =
      if closed then (ok tt, s, record e { sandbox = none }) else (ok tt, s, e)

module _ (js : JournalStore) (sb : Sandboxes) (prefix owner session_id : List ℕ) where
  open js use {Store}
  open sb use {Sandbox, is_closed}

  unfoldable pub prepare_restored : Gone → Store → Entry Sandbox → Stored js sb Bool
  unfolding restore
  prepare_restored g s e = restored js sb g s (restore js sb prefix owner session_id s e)

  abbrev pub prepare_stored : Gone → Stored js sb (Unit {0}) → Stored js sb Bool
  prepare_stored g (err x, s, e) = (err x, s, e)
  prepare_stored g (ok _, s, e) =
      if g.after_persist
      then (ok false, s, e)
      else prepare_restored g s (record e { sandbox = none })

  unfoldable pub prepare_live :
      Result PoolError ℕ → Gone → Dropped → Sandbox → Store → Entry Sandbox → Stored js sb Bool
  unfolding prepare_restored persist_held
  prepare_live (err y) g d x s e = (err y, s, e)
  prepare_live (ok stored) g d x s e =
      if g.after_stored
      then (ok false, s, e)
      else if ltb e.counter stored
      then prepare_restored g s (record e { sandbox = none; dirty = false })
      else if is_closed x
      then prepare_stored g (persist_held js sb prefix owner session_id d x s e)
      else (ok true, s, e)

  unfoldable pub prepare_with :
      Option Sandbox → Gone → Dropped → Store → Entry Sandbox → Stored js sb Bool
  unfolding prepare_live stored_counter
  prepare_with none g d s e = prepare_restored g s e
  prepare_with (some x) g d s e =
      prepare_live (stored_counter js sb prefix owner session_id s) g d x s e

  -- `_prepare`
  unfoldable pub prepare : Gone → Dropped → Store → Entry Sandbox → Stored js sb Bool
  unfolding prepare_with
  prepare g d s e = prepare_with e.sandbox g d s e

  unfoldable pub release_with :
      Option Sandbox → Dropped → Store → Entry Sandbox → Stored js sb (Unit {0})
  unfolding persist_held
  release_with none d s e = (ok tt, s, e)
  release_with (some x) d s e =
      let_go js sb (is_closed x) (persist_held js sb prefix owner session_id d x s e)

  -- `_release` of an entry that is in the map and no drop's barrier
  unfoldable pub release : Bool → Dropped → Store → Entry Sandbox → Stored js sb (Unit {0})
  unfolding release_with
  release leased d s e =
      if leased
      then (if e.gone then (ok tt, s, e) else release_with e.sandbox d s e)
      else (err not_leased, s, e)
