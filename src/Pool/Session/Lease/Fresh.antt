-- ===== src/Pool/Session/Lease/Fresh.antt =====
-- A lease of python/pydeno/_pool.py never hands out a state that is older than the store's.
use pydeno.Prelude.{
  ℕ, ◌≤◌, ◌≡◌, refl, Bool, true, false, not, ◌||◌, max, Option, none, some, List, Bytes, Result, ok,
  err, length, take, drop, starts_with, ltb, if◌then◌else◌, arith,
}
use pydeno.Pool.Numbers.{unpack_counter}
use pydeno.Pool.Ids.{journal_key, bound}
use pydeno.Pool.Store.{JournalStore}
use pydeno.Pool.Session.{
  PoolError, Sandboxes, Entry, Dropped, Gone, Stored, envelope, head, stored_counter, loaded,
  load_at, created, restore_from, restore_above, restore, persist_held,
}
use pydeno.Pool.Session.Persist.{Recorded, persist_held-Recorded}
use pydeno.Pool.Session.Lease.{
  restored, prepare_restored, prepare_stored, prepare_live, prepare_with, prepare,
}

module _ (js : JournalStore) (sb : Sandboxes) where
  open js use {Store}
  open sb use {Sandbox, load, is_closed}

  -- A result, if it is one, stands at the counter `n` or above.
  abbrev RestoredAbove : ℕ → Result PoolError Sandbox × Entry Sandbox → Type 0
  RestoredAbove n (err x, e) = Unit
  RestoredAbove n (ok x, e) = n ≤ e.counter

  -- A lease that is ready has a sandbox, whose counter is `n` or above.
  abbrev pub IsFresh : ℕ → Stored js sb Bool → Type 0
  IsFresh n (ok true, s, e) = ((x : Sandbox) × (e.sandbox ≡ some x)) × (n ≤ e.counter)
  IsFresh n (ok false, s, e) = Unit
  IsFresh n (err x, s, e) = Unit

  if-RestoredAbove :
      (b : Bool) (n : ℕ) (x y : Result PoolError Sandbox × Entry Sandbox)
      → (b ≡ true → RestoredAbove n x)
      → (b ≡ false → RestoredAbove n y)
      → RestoredAbove n (if b then x else y)
  if-RestoredAbove true n x y hx hy = hx refl
  if-RestoredAbove false n x y hx hy = hy refl

  if-IsFresh :
      (b : Bool) (n : ℕ) (x y : Stored js sb Bool)
      → (b ≡ true → IsFresh n x)
      → (b ≡ false → IsFresh n y)
      → IsFresh n (if b then x else y)
  if-IsFresh true n x y hx hy = hx refl
  if-IsFresh false n x y hx hy = hy refl

  restored-IsFresh :
      (n : ℕ) (g : Gone) (s : Store) (r : Result PoolError Sandbox × Entry Sandbox)
      → RestoredAbove n r
      → IsFresh n (restored js sb g s r)
  restored-IsFresh n g s (err x, e) h = tt
  restored-IsFresh n g s (ok x, e) h =
      if-IsFresh g.after_restore n _ _ (λ _. tt) (λ _. ((x, refl), h))

module _ (js : JournalStore) (sb : Sandboxes) (prefix owner session_id : List ℕ) where
  open js use {Store, get}
  open sb use {Sandbox, create, load, is_closed}

  loaded-Above :
      (o : Option Sandbox) (n counter : ℕ) (e : Entry Sandbox)
      → n ≤ counter
      → RestoredAbove js sb n (loaded js sb prefix owner session_id o counter e)
  unfolding loaded
  loaded-Above none n counter e h = tt
  loaded-Above (some x) n counter e h = h

  created-Above :
      (o : Option Sandbox) (n : ℕ) (e : Entry Sandbox)
      → n ≤ e.counter
      → RestoredAbove js sb n (created js sb prefix owner session_id o e)
  unfolding created
  created-Above none n e h = tt
  created-Above (some x) n e h = h

  restore_from-Above :
      (o : Option Bytes) (n floor : ℕ) (e : Entry Sandbox)
      → n ≤ floor
      → RestoredAbove js sb n (restore_from js sb prefix owner session_id floor o e)
  unfolding restore_from load_at
  restore_from-Above none n floor e h = created-Above create n (record e { counter = floor }) h
  restore_from-Above (some raw) n floor e h =
      let counter = unpack_counter (take 8 (drop (length envelope) raw)) in
      if-RestoredAbove js sb (ltb (length raw) head || not (starts_with envelope raw)) n _ _
        (λ _. tt)
        (λ _.
          if-RestoredAbove js sb (ltb counter floor) n _ _ (λ _. tt)
            (λ new.
              loaded-Above (load (drop head raw) (bound owner session_id counter)) n counter e
                (ground (arith, new, h))))

  restore_above-Above :
      (r : Result PoolError ℕ) (n : ℕ) (s : Store) (e : Entry Sandbox)
      → r ≡ ok n
      → RestoredAbove js sb n (restore_above js sb prefix owner session_id r s e)
  unfolding restore_above
  restore_above-Above (err x) n s e h = tt
  restore_above-Above (ok stored) n s e h =
      restore_from-Above (get (journal_key prefix owner session_id) s) n (max e.counter stored) e
        (ground (arith, h))

  prepare_restored-IsFresh :
      (g : Gone) (n m : ℕ) (s : Store) (e : Entry Sandbox)
      → stored_counter js sb prefix owner session_id s ≡ ok m
      → n ≤ m
      → IsFresh js sb n (prepare_restored js sb prefix owner session_id g s e)
  unfolding prepare_restored restore
  prepare_restored-IsFresh g n m s e h k =
      restored-IsFresh js sb n g s (restore js sb prefix owner session_id s e) (
        weaken (restore js sb prefix owner session_id s e)
          (restore_above-Above (stored_counter js sb prefix owner session_id s) m s e h))
    where
      weaken :
          (r : Result PoolError Sandbox × Entry Sandbox)
          → RestoredAbove js sb m r
          → RestoredAbove js sb n r
      weaken (err x, e') a = tt
      weaken (ok x, e') a = omega (arith, a, k)

  prepare_stored-IsFresh :
      (g : Gone) (n : ℕ) (r : Stored js sb (Unit {0}))
      → Recorded js sb prefix owner session_id n r.1
      → IsFresh js sb n (prepare_stored js sb prefix owner session_id g r)
  prepare_stored-IsFresh g n (err x, s, e) h = tt
  prepare_stored-IsFresh g n (ok _, s, e) (m, h, k) =
      if-IsFresh js sb g.after_persist n _ _ (λ _. tt)
        (λ _. prepare_restored-IsFresh g n m s (record e { sandbox = none }) h k)

  prepare_live-IsFresh :
      (r : Result PoolError ℕ) (g : Gone) (d : Dropped) (x : Sandbox) (n : ℕ) (s : Store)
      (e : Entry Sandbox)
      → e.sandbox ≡ some x
      → r ≡ ok n
      → stored_counter js sb prefix owner session_id s ≡ ok n
      → IsFresh js sb n (prepare_live js sb prefix owner session_id r g d x s e)
  unfolding prepare_live
  prepare_live-IsFresh (err y) g d x n s e has r h = tt
  prepare_live-IsFresh (ok stored) g d x n s e has r h =
      if-IsFresh js sb g.after_stored n _ _ (λ _. tt)
        (λ _.
          if-IsFresh js sb (ltb e.counter stored) n _ _
            (λ _.
              prepare_restored-IsFresh g n n s (record e { sandbox = none; dirty = false }) h
                (omega arith))
            (λ older.
              if-IsFresh js sb (is_closed x) n _ _
                (λ _.
                  prepare_stored-IsFresh g n (persist_held js sb prefix owner session_id d x s e)
                    (persist_held-Recorded js sb prefix owner session_id d x n s e h))
                (λ _. ((x, has), ground (arith, r, older)))))

  prepare_with-IsFresh :
      (o : Option Sandbox) (g : Gone) (d : Dropped) (n : ℕ) (s : Store) (e : Entry Sandbox)
      → e.sandbox ≡ o
      → stored_counter js sb prefix owner session_id s ≡ ok n
      → IsFresh js sb n (prepare_with js sb prefix owner session_id o g d s e)
  unfolding prepare_with
  prepare_with-IsFresh none g d n s e has h = prepare_restored-IsFresh g n n s e h (omega arith)
  prepare_with-IsFresh (some x) g d n s e has h =
      prepare_live-IsFresh (stored_counter js sb prefix owner session_id s) g d x n s e has h h

  -- Where `_prepare` reports that the session is ready, whether it kept the live copy, let an
  -- older one go, stored what a dead worker left, or restored a journal: the entry has a sandbox,
  -- and its counter is not below the one that was recorded before the call, which could be read.
  pub prepare-IsFresh :
      (g : Gone) (d : Dropped) (n : ℕ) (s : Store) (e : Entry Sandbox)
      → stored_counter js sb prefix owner session_id s ≡ ok n
      → IsFresh js sb n (prepare js sb prefix owner session_id g d s e)
  unfolding prepare
  prepare-IsFresh g d n s e h = prepare_with-IsFresh e.sandbox g d n s e refl h
