-- ===== src/Pool/Session/Restore.antt =====
-- What `_restore` of python/pydeno/_pool.py accepts: the journal that `_write` stored, and no
-- journal that was signed for another session or under an older counter.
use pydeno.Prelude.{
  ℕ, ◌≤◌, ◌<◌, ◌≡◌, refl, sym, ap, ◌∙◌, true, false, max, Option, none, some, List, [], ◌∷◌, ◌++◌,
  Bytes, ok, err, same, length, length-append, take, drop, take-length_append, drop-length_append,
  drop_add-append, starts_with, starts_with-append, ltb, le→ltb, arith, Bool-cases, inl, inr,
}
use pydeno.Pool.Numbers.{
  digits, int-digits, isdigit-digits, limit, big_endian, length-big_endian, pack_counter,
  unpack_counter, unpack_counter-big_endian,
}
use pydeno.Pool.Ids.{check_id, journal_key, counter_key, bound}
use pydeno.Pool.Ids.Unique.{bound-inj}
use pydeno.Pool.Store.{JournalStore}
use pydeno.Pool.Session.{
  stale_journal, dumped, Sandboxes, Entry, Dropped, envelope, head, sealed, stored_counter, loaded,
  load_at, restore_from, restore, write_packed, write,
}

same-append : (p x y : List ℕ) → same (p ++ x) (p ++ y) ≡ same x y
unfolding same
same-append [] x y = refl
same-append (c ∷ p) x y = ground (arith, same-append p x y)

pub counter_key_ne : (p o s : List ℕ) → same (counter_key p o s) (journal_key p o s) ≡ false
unfolding counter_key journal_key same
counter_key_ne p o s = same-append p _ _ ∙ same-append o _ _ ∙ same-append s _ _

pub journal_key_ne : (p o s : List ℕ) → same (journal_key p o s) (counter_key p o s) ≡ false
unfolding counter_key journal_key same
journal_key_ne p o s = same-append p _ _ ∙ same-append o _ _ ∙ same-append s _ _

length-sealed : (packed blob : Bytes) → length packed ≡ 8 → head ≤ length (sealed packed blob)
unfolding sealed
length-sealed packed blob h =
    omega (arith, length-append envelope (packed ++ blob), length-append packed blob)

sealed_counter :
    (packed blob : Bytes)
    → length packed ≡ 8
    → take 8 (drop (length envelope) (sealed packed blob)) ≡ packed
unfolding sealed
sealed_counter packed blob h =
    ap (take 8) (drop-length_append 16 envelope (packed ++ blob) refl)
    ∙ take-length_append 8 packed blob (sym h)

sealed_blob : (packed blob : Bytes) → length packed ≡ 8 → drop head (sealed packed blob) ≡ blob
unfolding sealed
sealed_blob packed blob h =
    drop_add-append 16 8 envelope (packed ++ blob) refl ∙ drop-length_append 8 packed blob (sym h)

starts_with-sealed : (packed blob : Bytes) → starts_with envelope (sealed packed blob) ≡ true
unfolding sealed
starts_with-sealed packed blob = starts_with-append envelope (packed ++ blob)

module _ (js : JournalStore) (sb : Sandboxes) (prefix owner session_id : List ℕ) where
  open js use {Store, get, set, delete, get-set, get-set_ne}
  open sb use {Sandbox, load, dump, load-dump}

  -- The counter that was written last is the one that is read.
  pub stored_counter_of :
      (n : ℕ) (s : Store)
      → get (counter_key prefix owner session_id) s ≡ some (digits n)
      → stored_counter js sb prefix owner session_id s ≡ ok n
  unfolding stored_counter
  stored_counter_of n s h = rw h (rw (isdigit-digits n) (ap ok (int-digits n)))

  pub restore_sealed :
      (floor : ℕ) (packed blob : Bytes) (e : Entry Sandbox)
      → length packed ≡ 8
      → restore_from js sb prefix owner session_id floor (some (sealed packed blob)) e
        ≡ load_at js sb prefix owner session_id floor (unpack_counter packed) blob e
  unfolding restore_from
  restore_sealed floor packed blob e h =
      rw (le→ltb (length (sealed packed blob)) head (length-sealed packed blob h)) (
        rw (starts_with-sealed packed blob)
          (rw (sealed_counter packed blob h) (rw (sealed_blob packed blob h) refl)))

  restore_stored :
      (n : ℕ) (packed blob : Bytes) (s : Store) (e : Entry Sandbox)
      → stored_counter js sb prefix owner session_id s ≡ ok n
      → get (journal_key prefix owner session_id) s ≡ some (sealed packed blob)
      → length packed ≡ 8
      → restore js sb prefix owner session_id s e
        ≡ load_at js sb prefix owner session_id (max e.counter n) (unpack_counter packed) blob e
  unfolding restore
  restore_stored n packed blob s e hc hj h =
      rw hc (rw hj (restore_sealed (max e.counter n) packed blob e h))

  -- A stored journal is refused as stale if the counter in its envelope is below the one recorded,
  -- or below the one that the entry has seen.
  pub restore_stale :
      (n : ℕ) (packed blob : Bytes) (s : Store) (e : Entry Sandbox)
      → stored_counter js sb prefix owner session_id s ≡ ok n
      → get (journal_key prefix owner session_id) s ≡ some (sealed packed blob)
      → length packed ≡ 8
      → unpack_counter packed < max e.counter n
      → restore js sb prefix owner session_id s e ≡ (err stale_journal, e)
  unfolding load_at
  restore_stale n packed blob s e hc hj h old =
      restore_stored n packed blob s e hc hj h ∙ ground arith

  loaded-ok :
      (o : Option Sandbox) (counter : ℕ) (e e' : Entry Sandbox) (x : Sandbox)
      → loaded js sb prefix owner session_id o counter e ≡ (ok x, e')
      → (o ≡ some x) × (e'.counter ≡ counter)
  unfolding loaded
  loaded-ok none counter e e' x h = cc (ap (λ p. p.0) h)
  loaded-ok (some y) counter e e' x h =
      (ground (arith, ap (λ p. p.0) h), sym (ap (λ p. p.1.counter) h))

  load_at_above :
      (floor counter : ℕ) (blob : Bytes) (e : Entry Sandbox) (x : Sandbox)
      → floor ≤ counter
      → load blob (bound owner session_id counter) ≡ some x
      → load_at js sb prefix owner session_id floor counter blob e
        ≡ (ok x, record e { counter = counter })
  unfolding load_at loaded
  load_at_above floor counter blob e x h loads = rw (le→ltb counter floor h) (rw loads refl)

  load_at-ok :
      (floor counter : ℕ) (blob : Bytes) (e e' : Entry Sandbox) (x : Sandbox)
      → load_at js sb prefix owner session_id floor counter blob e ≡ (ok x, e')
      → (floor ≤ counter)
        × (load blob (bound owner session_id counter) ≡ some x)
        × (e'.counter ≡ counter)
  unfolding load_at
  load_at-ok floor counter blob e e' x h = elim (Bool-cases (ltb counter floor)) [
    | inl old ↦ cc (ap (λ p. p.0) (rw old at h))
    | inr new ↦
        let (loads, kept) =
          loaded-ok (load blob (bound owner session_id counter)) counter e e' x (rw new at h) in
        (ground (arith, new), loads, kept)
  ]

  -- Whoever wrote the journal's value, whatever counter its envelope claims: if the session is
  -- restored from a journal that some sandbox was dumped to for an owner, a session and a counter,
  -- it was this owner, this session and the counter that the entry has from then on, and that
  -- counter is neither below the one recorded nor below the entry's. The envelope's counter has
  -- eight bytes, the recorded one can be read, and the ids are such as `_check_id` lets pass.
  pub restore-dump :
      (owner' session_id' : List ℕ) (n counter : ℕ) (packed blob : Bytes) (s : Store)
      (e e' : Entry Sandbox) (x y : Sandbox)
      → check_id owner ≡ true
      → check_id session_id ≡ true
      → check_id owner' ≡ true
      → check_id session_id' ≡ true
      → stored_counter js sb prefix owner session_id s ≡ ok n
      → get (journal_key prefix owner session_id) s ≡ some (sealed packed blob)
      → length packed ≡ 8
      → dump y (bound owner' session_id' counter) ≡ dumped blob
      → restore js sb prefix owner session_id s e ≡ (ok x, e')
      → (owner' ≡ owner)
        × (session_id' ≡ session_id)
        × (counter ≡ e'.counter)
        × (e.counter ≤ e'.counter)
        × (n ≤ e'.counter)
  restore-dump owner' session_id' n counter packed blob s e e' x y ho hs ho' hs' hc hj h made
        restored =
      let (above, loads, kept) =
        load_at-ok (max e.counter n) (unpack_counter packed) blob e e' x
          (sym (restore_stored n packed blob s e hc hj h) ∙ restored) in
      let (eo, es, ec) =
        bound-inj owner' owner session_id' session_id counter (unpack_counter packed) ho' ho hs' hs
          (load-dump y (bound owner' session_id' counter)
            (bound owner session_id (unpack_counter packed)) blob x made loads) in
      (eo, es, ec ∙ sym kept, omega (arith, above, kept), omega (arith, above, kept))

  write-ok :
      (d : Dropped) (counter : ℕ) (blob : Bytes) (s s' : Store) (e e' : Entry Sandbox)
      → write js sb prefix owner session_id d counter blob s e ≡ (ok true, s', e')
      → (counter < limit 8)
        × (s'
            ≡ set
                (counter_key prefix owner session_id)
                (digits counter)
                (set (journal_key prefix owner session_id) (sealed (big_endian 8 counter) blob) s))
        × (e' ≡ record e { counter = counter })
  unfolding write write_packed pack_counter
  write-ok d counter blob s s' e e' h = ground arith

  -- Where `_write` reports that the journal was stored, the next `_restore`, of this entry or of one
  -- with an older counter, gives what the sandbox loads from that very journal, under its counter.
  pub restore-write :
      (d : Dropped) (counter : ℕ) (blob : Bytes) (s s' : Store) (e e' o : Entry Sandbox)
      (x : Sandbox)
      → write js sb prefix owner session_id d counter blob s e ≡ (ok true, s', e')
      → load blob (bound owner session_id counter) ≡ some x
      → o.counter ≤ counter
      → restore js sb prefix owner session_id s' o ≡ (ok x, record o { counter = counter })
  restore-write d counter blob s s' e e' o x h loads older =
      let (small, stored, _) = write-ok d counter blob s s' e e' h in
      restore_stored counter (big_endian 8 counter) blob s' o
        (stored_counter_of counter s'
          (ap (get (counter_key prefix owner session_id)) stored ∙ get-set _ _ _))
        (ap (get (journal_key prefix owner session_id)) stored
          ∙ get-set_ne _ _ _ _ (counter_key_ne prefix owner session_id)
          ∙ get-set _ _ _)
        (length-big_endian 8 counter)
      ∙ ap (λ c. load_at js sb prefix owner session_id (max o.counter counter) c blob o)
          (unpack_counter-big_endian counter small)
      ∙ load_at_above (max o.counter counter) counter blob o x (omega (arith, older)) loads
