-- ===== src/Pool/Session/Drop.antt =====
-- What a `drop` of python/pydeno/_pool.py forgets, and what a `_write` leaves that a drop overtakes.
use pydeno.Prelude.{
  ℕ, suc, ◌≤◌, ◌<◌, ◌≡◌, refl, ap, ◌∙◌, true, false, ◌||◌, max, none, some, List, Bytes, Result, ok,
  err, lt→ltb, arith, Bool-cases, inl, inr,
}
use pydeno.Pool.Numbers.{
  digits, limit, big_endian, length-big_endian, unpack_counter-big_endian, pack_counter,
}
use pydeno.Pool.Ids.{journal_key, counter_key}
use pydeno.Pool.Store.{JournalStore}
use pydeno.Pool.Session.{
  PoolError, stale_journal, Sandboxes, Entry, Dropped, sealed, stored_counter, restore,
  write_packed, write, drop_above, drop_session,
}
use pydeno.Pool.Session.Restore.{counter_key_ne, stored_counter_of, restore_stale}

pub pack_counter_fits : (n : ℕ) → n < limit 8 → pack_counter n ≡ some (big_endian 8 n)
unfolding pack_counter
pack_counter_fits n h = rw (lt→ltb n (limit 8) h) refl

module _ (js : JournalStore) (sb : Sandboxes) (prefix owner session_id : List ℕ) where
  open js use {Store, get, set, delete, get-set, get-set_ne, get-delete}
  open sb use {Sandbox}

  drop_above-ok :
      (stored : Result PoolError ℕ) (live n : ℕ) (s : Store)
      → stored ≡ ok n
      → drop_above js sb prefix owner session_id stored live s ≡ (
        ok tt,
        set
            (counter_key prefix owner session_id)
            (digits (suc (max n live)))
            (delete (journal_key prefix owner session_id) s),
      )
  unfolding drop_above
  drop_above-ok stored live n s h = rw h refl

  -- A drop, where the recorded counter can be read, leaves no journal of the session. From then
  -- on, as long as the counter that it recorded stands, a journal that someone puts back under an
  -- envelope with a counter that was recorded or live at the drop, or a lower one, is refused as
  -- stale, whichever entry asks. The envelope's counter has 64 bits.
  pub drop_session-restore :
      (live n counter : ℕ) (blob : Bytes) (s t : Store) (e : Entry Sandbox)
      → stored_counter js sb prefix owner session_id s ≡ ok n
      → counter ≤ max n live
      → counter < limit 8
      → get (counter_key prefix owner session_id) t
        ≡ get
            (counter_key prefix owner session_id)
            (drop_session js sb prefix owner session_id live s).1
      → get (journal_key prefix owner session_id) t ≡ some (sealed (big_endian 8 counter) blob)
      → ((drop_session js sb prefix owner session_id live s).0 ≡ ok tt)
        × (get
              (journal_key prefix owner session_id)
              (drop_session js sb prefix owner session_id live s).1
            ≡ none)
        × (restore js sb prefix owner session_id t e ≡ (err stale_journal, e))
  unfolding drop_session
  drop_session-restore live n counter blob s t e hc old small same_counter back =
      let dropped = drop_above-ok (stored_counter js sb prefix owner session_id s) live n s hc in
      let recorded = stored_counter_of js sb prefix owner session_id (suc (max n live)) t (
        same_counter
        ∙ ap (λ p. get (counter_key prefix owner session_id) p.1) dropped
        ∙ get-set _ _ _) in
      (
        ap (λ p. p.0) dropped,
        ap (λ p. get (journal_key prefix owner session_id) p.1) dropped
            ∙ get-set_ne _ _ _ _ (counter_key_ne prefix owner session_id)
            ∙ get-delete _ _,
        restore_stale js sb prefix owner session_id (suc (max n live)) (big_endian 8 counter) blob t
            e recorded back (length-big_endian 8 counter)
            (let u = unpack_counter-big_endian counter small in omega (arith, u, old)),
      )

  write_packed_dropped :
      (packed : Bytes) (d : Dropped) (counter : ℕ) (blob : Bytes) (s : Store) (e : Entry Sandbox)
      → (d.after_journal || d.after_counter) ≡ true
      → ((write_packed js sb prefix owner session_id (some packed) d counter blob s e).0 ≡ ok false)
        × (get
              (journal_key prefix owner session_id)
              (write_packed js sb prefix owner session_id (some packed) d counter blob s e).1
            ≡ none)
  unfolding write_packed
  write_packed_dropped packed d counter blob s e seen = elim (Bool-cases d.after_journal) [
    | inl now ↦ rw now (refl, get-delete _ _)
    | inr not_yet ↦
        let later : d.after_counter ≡ true = ground (arith, seen, not_yet) in
        rw not_yet (rw later (refl, get-delete _ _))
  ]

  -- A `_write`, under a counter of 64 bits, that finds behind one of its two writes that the
  -- session was dropped meanwhile, and not before: it reports that nothing was stored, and leaves
  -- no journal.
  pub write_dropped :
      (d : Dropped) (counter : ℕ) (blob : Bytes) (s : Store) (e : Entry Sandbox)
      → d.before_journal ≡ false
      → counter < limit 8
      → (d.after_journal || d.after_counter) ≡ true
      → ((write js sb prefix owner session_id d counter blob s e).0 ≡ ok false)
        × (get
              (journal_key prefix owner session_id)
              (write js sb prefix owner session_id d counter blob s e).1
            ≡ none)
  unfolding write
  write_dropped d counter blob s e before small seen =
      let fits = pack_counter_fits counter small in
      rw before (rw fits (write_packed_dropped (big_endian 8 counter) d counter blob s e seen))
