-- ===== src/Pool/Session/Persist.antt =====
-- What `_persist_held` of python/pydeno/_pool.py stores: a journal that the next `_restore` accepts,
-- never over a newer one, and never a lower counter.
use pydeno.Prelude.{
  ℕ, suc, ◌≤◌, ◌<◌, ◌≡◌, refl, ◌∙◌, Bool, true, false, Option, none, some, List, Bytes, Result, ok,
  err, ltb, lt→ltb, le→ltb, if◌then◌else◌, arith,
}
use pydeno.Pool.Numbers.{digits, limit, big_endian, pack_counter}
use pydeno.Pool.Ids.{journal_key, counter_key, bound}
use pydeno.Pool.Store.{JournalStore}
use pydeno.Pool.Session.{
  PoolError, stale_journal, journal_too_large, Dump, dumped, over_cap, failed, Sandboxes, Entry,
  Dropped, sealed, stored_counter, restore, Stored, saved, dropped_state, write_packed, write,
  drop_state, persist_dump, persist_above, persist_held,
}
use pydeno.Pool.Session.Restore.{journal_key_ne, stored_counter_of, restore-write}
use pydeno.Pool.Session.Drop.{pack_counter_fits}

-- The session is dropped at no time during the call.
abbrev pub undropped : Dropped
undropped = record {
  after_stored = false;
  before_journal = false;
  after_journal = false;
  after_counter = false;
}

module _ (js : JournalStore) (sb : Sandboxes) (prefix owner session_id : List ℕ) where
  open js use {Store, get, set, delete, get-set, get-set_ne, get-delete_ne}
  open sb use {Sandbox, load, dump, spent, close, journal_size}

  -- The counter in the store is at least the given one.
  abbrev pub Recorded : ℕ → Store → Type 0
  Recorded n s = (m : ℕ) × (stored_counter js sb prefix owner session_id s ≡ ok m) × (n ≤ m)

  same_counter :
      (s t : Store)
      → get (counter_key prefix owner session_id) s ≡ get (counter_key prefix owner session_id) t
      → stored_counter js sb prefix owner session_id s
        ≡ stored_counter js sb prefix owner session_id t
  unfolding stored_counter
  same_counter s t h = rw h refl

  counter_of_write :
      (v : Bytes) (s : Store)
      → stored_counter js sb prefix owner session_id (set (journal_key prefix owner session_id) v s)
        ≡ stored_counter js sb prefix owner session_id s
  counter_of_write v s =
      same_counter _ _ (get-set_ne _ _ _ _ (journal_key_ne prefix owner session_id))

  counter_of_delete :
      (s : Store)
      → stored_counter js sb prefix owner session_id
          (delete (journal_key prefix owner session_id) s)
        ≡ stored_counter js sb prefix owner session_id s
  counter_of_delete s =
      same_counter _ _ (get-delete_ne _ _ _ (journal_key_ne prefix owner session_id))

  counter_of_count :
      (n : ℕ) (s : Store)
      → stored_counter js sb prefix owner session_id
          (set (counter_key prefix owner session_id) (digits n) s)
        ≡ ok n
  counter_of_count n s = stored_counter_of js sb prefix owner session_id n _ (get-set _ _ _)

  if-Recorded :
      {R : Type 0} (b : Bool) (n : ℕ) (x y : Stored js sb R)
      → (b ≡ true → Recorded n x.1)
      → (b ≡ false → Recorded n y.1)
      → Recorded n (if b then x else y).1
  if-Recorded true n x y hx hy = hx refl
  if-Recorded false n x y hx hy = hy refl

  write_packed-Recorded :
      (p : Option Bytes) (d : Dropped) (n counter : ℕ) (blob : Bytes) (s : Store)
      (e : Entry Sandbox)
      → stored_counter js sb prefix owner session_id s ≡ ok n
      → n ≤ counter
      → Recorded n (write_packed js sb prefix owner session_id p d counter blob s e).1
  unfolding write_packed
  write_packed-Recorded none d n counter blob s e h k = (n, h, omega arith)
  write_packed-Recorded (some packed) d n counter blob s e h k =
      if-Recorded d.after_journal n _ _
        (λ _. (n, counter_of_delete _ ∙ counter_of_write _ s ∙ h, omega arith))
        (λ _.
          if-Recorded d.after_counter n _ _
            (λ _. (counter, counter_of_delete _ ∙ counter_of_count counter _, k))
            (λ _. (counter, counter_of_count counter _, k)))

  write-Recorded :
      (d : Dropped) (n counter : ℕ) (blob : Bytes) (s : Store) (e : Entry Sandbox)
      → stored_counter js sb prefix owner session_id s ≡ ok n
      → n ≤ counter
      → Recorded n (write js sb prefix owner session_id d counter blob s e).1
  unfolding write
  write-Recorded d n counter blob s e h k =
      if-Recorded d.before_journal n _ _ (λ _. (n, h, omega arith))
        (λ _. write_packed-Recorded (pack_counter counter) d n counter blob s e h k)

  saved-Recorded :
      (n : ℕ) (x : Sandbox) (r : Stored js sb Bool)
      → Recorded n r.1
      → Recorded n (saved js sb x r).1
  saved-Recorded n x (err y, s, e) h = h
  saved-Recorded n x (ok false, s, e) h = h
  saved-Recorded n x (ok true, s, e) h = h

  dropped_state-Recorded :
      (n : ℕ) (r : Stored js sb Bool) → Recorded n r.1 → Recorded n (dropped_state js sb r).1
  dropped_state-Recorded n (err y, s, e) h = h
  dropped_state-Recorded n (ok _, s, e) h = h

  persist_dump-Recorded :
      (r : Dump) (d : Dropped) (x : Sandbox) (n counter : ℕ) (s : Store) (e : Entry Sandbox)
      → stored_counter js sb prefix owner session_id s ≡ ok n
      → n ≤ counter
      → Recorded n (persist_dump js sb prefix owner session_id r d x counter s e).1
  unfolding persist_dump drop_state
  persist_dump-Recorded failed d x n counter s e h k = (n, h, omega arith)
  persist_dump-Recorded over_cap d x n counter s e h k =
      dropped_state-Recorded n _ (write-Recorded d n counter _ s _ h k)
  persist_dump-Recorded (dumped blob) d x n counter s e h k =
      saved-Recorded n x _ (write-Recorded d n counter blob s e h k)

  persist_above-Recorded :
      (r : Result PoolError ℕ) (d : Dropped) (x : Sandbox) (n : ℕ) (s : Store) (e : Entry Sandbox)
      → r ≡ ok n
      → stored_counter js sb prefix owner session_id s ≡ ok n
      → Recorded n (persist_above js sb prefix owner session_id r d x s e).1
  unfolding persist_above
  persist_above-Recorded (err y) d x n s e h k = cc
  persist_above-Recorded (ok stored) d x n s e h k =
      if-Recorded d.after_stored n _ _ (λ _. (n, k, omega arith))
        (λ _.
          if-Recorded (ltb e.counter stored) n _ _ (λ _. (n, k, omega arith))
            (λ older.
              persist_dump-Recorded (dump x (bound owner session_id (suc e.counter))) d x n
                (suc e.counter) s e k (ground (arith, h, older))))

  -- Whatever `_persist_held` meets, a drop, a newer journal, a journal over its cap, a sandbox
  -- that raises, the counter recorded in the store does not go down and can still be read, if it
  -- could be read before.
  pub persist_held-Recorded :
      (d : Dropped) (x : Sandbox) (n : ℕ) (s : Store) (e : Entry Sandbox)
      → stored_counter js sb prefix owner session_id s ≡ ok n
      → Recorded n (persist_held js sb prefix owner session_id d x s e).1
  unfolding persist_held
  persist_held-Recorded d x n s e h =
      persist_above-Recorded (stored_counter js sb prefix owner session_id s) d x n s e h h

  -- Another pool has stored a newer journal of the session, and the session is not dropped by
  -- then: nothing is stored, the call raises StaleJournal, and the entry lets the live copy go.
  pub persist_held_newer :
      (d : Dropped) (x : Sandbox) (n : ℕ) (s : Store) (e : Entry Sandbox)
      → stored_counter js sb prefix owner session_id s ≡ ok n
      → e.counter < n
      → d.after_stored ≡ false
      → persist_held js sb prefix owner session_id d x s e
        ≡ (err stale_journal, s, record e { sandbox = none; dirty = false })
  unfolding persist_held persist_above
  persist_held_newer d x n s e h newer kept = rw h (rw kept (rw (lt→ltb e.counter n newer) refl))

  abbrev written : ℕ → Bytes → Store → Store
  written counter blob s =
      set (counter_key prefix owner session_id) (digits counter)
        (set (journal_key prefix owner session_id) (sealed (big_endian 8 counter) blob) s)

  write-undropped :
      (counter : ℕ) (blob : Bytes) (s : Store) (e : Entry Sandbox)
      → counter < limit 8
      → write js sb prefix owner session_id undropped counter blob s e
        ≡ (ok true, written counter blob s, record e { counter = counter })
  unfolding write write_packed
  write-undropped counter blob s e small = rw (pack_counter_fits counter small) refl

  -- A session whose journal fits its cap is stored under the next counter, and `_restore`, of this
  -- entry or of another that has seen no later counter, gives what loads from that journal. The
  -- recorded counter can be read and is not above the entry's, the next one has 64 bits, and the
  -- session is not dropped meanwhile.
  pub persist_held-restore :
      (x y : Sandbox) (n : ℕ) (blob : Bytes) (s : Store) (e o : Entry Sandbox)
      → stored_counter js sb prefix owner session_id s ≡ ok n
      → n ≤ e.counter
      → suc e.counter < limit 8
      → dump x (bound owner session_id (suc e.counter)) ≡ dumped blob
      → load blob (bound owner session_id (suc e.counter)) ≡ some y
      → o.counter ≤ suc e.counter
      → let (r, s', e') = persist_held js sb prefix owner session_id undropped x s e in
        (r ≡ ok tt)
        × (e' ≡ record e {
          counter = suc e.counter;
          dirty = false;
          saved_size = some (journal_size x);
        })
        × (restore js sb prefix owner session_id s' o
            ≡ (ok y, record o { counter = suc e.counter }))
  unfolding persist_held persist_above persist_dump
  persist_held-restore x y n blob s e o h older small made loads seen = rw h (
      rw (le→ltb e.counter n older) (
        rw made (
          rw (write-undropped (suc e.counter) blob s e small) (
            refl,
            refl,
            restore-write js sb prefix owner session_id undropped (suc e.counter) blob s
                (written (suc e.counter) blob s) e (record e { counter = suc e.counter }) o y
                (write-undropped (suc e.counter) blob s e small) loads seen,
          ))))

  -- A session whose journal is over its cap, with no newer journal in the store, a next counter of
  -- 64 bits and no drop meanwhile: the call raises JournalTooLarge, the entry is gone without a
  -- sandbox, and what `_restore` gives next is what loads from the journal without state that
  -- charges what the closed sandbox spent, under the next counter.
  pub persist_held_over_cap :
      (x y : Sandbox) (n : ℕ) (s : Store) (e o : Entry Sandbox)
      → stored_counter js sb prefix owner session_id s ≡ ok n
      → n ≤ e.counter
      → suc e.counter < limit 8
      → dump x (bound owner session_id (suc e.counter)) ≡ over_cap
      → load
          (spent (close x) (bound owner session_id (suc e.counter)))
          (bound owner session_id (suc e.counter))
        ≡ some y
      → o.counter ≤ suc e.counter
      → let (r, s', e') = persist_held js sb prefix owner session_id undropped x s e in
        (r ≡ err journal_too_large)
        × (e' ≡ record e { counter = suc e.counter; sandbox = none; dirty = false; gone = true })
        × (restore js sb prefix owner session_id s' o
            ≡ (ok y, record o { counter = suc e.counter }))
  unfolding persist_held persist_above persist_dump drop_state
  persist_held_over_cap x y n s e o h older small made loads seen =
      let blob = spent (close x) (bound owner session_id (suc e.counter)) in
      let stored =
        write-undropped (suc e.counter) blob s (record e { sandbox = some (close x); dirty = true })
          small in
      rw h (
        rw (le→ltb e.counter n older) (
          rw made (
            rw stored (
              refl,
              refl,
              restore-write js sb prefix owner session_id undropped (suc e.counter) blob s
                  (written (suc e.counter) blob s)
                  (record e { sandbox = some (close x); dirty = true })
                  (record e { sandbox = some (close x); dirty = true; counter = suc e.counter }) o y
                  stored loads seen,
            ))))
