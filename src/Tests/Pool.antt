-- ===== src/Tests/Pool.antt =====
-- The session pool: python/pydeno/_pool.py at concrete inputs.
use pydeno.Prelude.{
  starts_with, ℕ, ◌≤◌, ◌≡◌, refl, sym, ap, ◌∙◌, true, false, Option, none, some, List, [], ◌∷◌,
  ◌++◌, Bytes, codes, ok, err, same, eq_of_same, length, take, drop, take-length_append, ltb,
  if◌then◌else◌, arith, Bool-cases, inl, inr,
}
use pydeno.Pool.Numbers.{digits, big_endian}
use pydeno.Pool.Ids.{check_id, journal_key, counter_key, bound}
use pydeno.Pool.Ids.Unique.{bound-inj}
use pydeno.Pool.Store.{JournalStore, Items, get, set, delete}
use pydeno.Pool.Store.Memory.{in_memory}
use pydeno.Pool.Session.{
  Sandboxes, Dump, dumped, over_cap, Entry, stale_journal, journal_too_large, sealed, read_counter,
  stored_counter, restore, write, persist_held, drop_session,
}
use pydeno.Pool.Session.Restore.{restore-dump}
use pydeno.Pool.Session.Persist.{
  undropped, Recorded, persist_held-Recorded, persist_held-restore, persist_held_over_cap,
}
use pydeno.Pool.Session.Drop.{drop_session-restore}
use pydeno.Pool.Session.Lease.{prepare}
use pydeno.Pool.Session.Lease.Fresh.{IsFresh, prepare-IsFresh}
use pydeno.Pool.Room.{Slots, new_slot, add_session, evict_idle}
use pydeno.Pool.Room.Caps.Adds.{IsAdded, add_session-IsAdded}

abbrev ann : List ℕ
ann = codes "ann"

abbrev one : List ℕ
one = codes "s1"

abbrev pre : List ℕ
pre = codes "p:"

bound-inj_example : (ann ≡ ann) × (one ≡ one) × (◌≡◌ {A = ℕ} 12 12)
unfolding check_id
bound-inj_example = bound-inj ann ann one one 12 12 refl refl refl refl refl

-- A sandbox is its journal. A signed journal is the text that it is bound to, by its length, and the
-- journal; the cap is three.
abbrev seal : List ℕ → List ℕ → Bytes
seal s a = length a ∷ (a ++ s)

abbrev open_seal : Bytes → List ℕ → Option (List ℕ)
open_seal [] a = none
open_seal (n ∷ rest) a = if same (take n rest) a then some (drop n rest) else none

abbrev dump_of : List ℕ → List ℕ → Dump
dump_of s a = if ltb 3 (length s) then over_cap else dumped (seal s a)

open_seal_bound : (s a a' : List ℕ) (s' : List ℕ) → open_seal (seal s a) a' ≡ some s' → a ≡ a'
open_seal_bound s a a' s' h = elim (Bool-cases (same (take (length a) (a ++ s)) a')) [
  | inl good ↦
      sym (take-length_append (length a) a s refl) ∙ eq_of_same (take (length a) (a ++ s)) a' good
  | inr bad ↦ cc (rw bad at h)
]

abbrev blob_of_dump : Dump → Bytes
blob_of_dump (dumped b) = b
blob_of_dump _ = []

load-dump_of :
    (s a a' : List ℕ) (b : Bytes) (s' : List ℕ)
    → dump_of s a ≡ dumped b
    → open_seal b a' ≡ some s'
    → a ≡ a'
load-dump_of s a a' b s' made loads = elim (Bool-cases (ltb 3 (length s))) [
  | inl over ↦ cc (rw over at made)
  | inr fits ↦
      let e : seal s a ≡ b = ap blob_of_dump (rw fits at made) in
      open_seal_bound s a a' s' (ap (λ c. open_seal c a') e ∙ loads)
]

abbrev sandboxes : Sandboxes
sandboxes = record {
  Sandbox = List ℕ;
  create = some [];
  load = open_seal;
  dump = dump_of;
  spent = λ s a. seal [] a;
  is_closed = λ s. false;
  close = λ s. s;
  journal_size = λ s. length s;
  load-dump = load-dump_of;
}

abbrev store : JournalStore
store = in_memory 0 60

-- A live session that was stored under the counter 4.
abbrev live : Entry (List ℕ)
live = record {
  counter = 4;
  sandbox = some (1 ∷ 2 ∷ []);
  dirty = true;
  saved_size = some 1;
  gone = false;
}

-- The store in which the counter 4 is recorded.
abbrev at_four : Items
at_four = (counter_key pre ann one, digits 4, none) ∷ []

abbrev journal_of : ℕ → List ℕ → Bytes
journal_of counter s = sealed (big_endian 8 counter) (seal s (bound ann one counter))

-- Someone put back the journal of the counter 3, as it is, and with a 9 in its envelope.
abbrev rolled_back : Items
rolled_back = (journal_key pre ann one, journal_of 3 (1 ∷ []), none) ∷ at_four

refused :
    ((restore store sandboxes pre ann one rolled_back
        (record live { sandbox = none; counter = 0 })).0
      ≡ err stale_journal)
    × ((write store sandboxes pre ann one undropped 5 (3 ∷ []) at_four live).0 ≡ ok true)
unfolding restore write get set delete read_counter stored_counter same check_id journal_key
    counter_key digits big_endian sealed bound starts_with drop_session
refused = (refl, refl)

-- The journal of the counter 5 is loaded over the recorded 4.
abbrev newer : Items
newer = (journal_key pre ann one, journal_of 5 (1 ∷ []), none) ∷ at_four

restore-dump_example :
    (ann ≡ ann)
    × (one ≡ one)
    × (5 ≡ (restore store sandboxes pre ann one newer live).1.counter)
    × (4 ≤ (restore store sandboxes pre ann one newer live).1.counter)
    × (4 ≤ (restore store sandboxes pre ann one newer live).1.counter)
unfolding restore write get set delete read_counter stored_counter same check_id journal_key
    counter_key digits big_endian sealed bound starts_with drop_session
restore-dump_example =
    restore-dump store sandboxes pre ann one ann one 4 5 (big_endian 8 5)
      (seal (1 ∷ []) (bound ann one 5)) newer live
      (restore store sandboxes pre ann one newer live).1 (1 ∷ []) (1 ∷ []) refl refl refl refl refl
      refl refl refl refl

persist_held-Recorded_example :
    Recorded store sandboxes pre ann one 4
      (persist_held store sandboxes pre ann one
        (record undropped { after_journal = true })
        (1 ∷ 2 ∷ [])
        at_four
        live).1
unfolding restore write get set delete read_counter stored_counter same check_id journal_key
    counter_key digits big_endian sealed bound starts_with drop_session
persist_held-Recorded_example =
    persist_held-Recorded store sandboxes pre ann one (record undropped { after_journal = true })
      (1 ∷ 2 ∷ []) 4 at_four live refl

persist_held-restore_example :
    let (r, s', e') =
      persist_held store sandboxes pre ann one undropped (1 ∷ 2 ∷ []) at_four live in
    (r ≡ ok tt)
    × (e' ≡ record live { counter = 5; dirty = false; saved_size = some 2 })
    × (restore store sandboxes pre ann one s' live ≡ (ok (1 ∷ 2 ∷ []), record live { counter = 5 }))
unfolding restore write get set delete read_counter stored_counter same check_id journal_key
    counter_key digits big_endian sealed bound starts_with drop_session
persist_held-restore_example =
    persist_held-restore store sandboxes pre ann one (1 ∷ 2 ∷ []) (1 ∷ 2 ∷ []) 4
      (seal (1 ∷ 2 ∷ []) (bound ann one 5)) at_four live live refl (omega arith) (omega arith) refl
      refl (omega arith)

persist_held_over_cap_example :
    let (r, s', e') =
      persist_held store sandboxes pre ann one undropped (1 ∷ 2 ∷ 3 ∷ 4 ∷ []) at_four live in
    (r ≡ err journal_too_large)
    × (e' ≡ record live { counter = 5; sandbox = none; dirty = false; gone = true })
    × (restore store sandboxes pre ann one s' live ≡ (ok [], record live { counter = 5 }))
unfolding restore write get set delete read_counter stored_counter same check_id journal_key
    counter_key digits big_endian sealed bound starts_with drop_session
persist_held_over_cap_example =
    persist_held_over_cap store sandboxes pre ann one (1 ∷ 2 ∷ 3 ∷ 4 ∷ []) [] 4 at_four live live
      refl (omega arith) (omega arith) refl refl (omega arith)

-- Another pool stored the counter 5, so the live copy of 4 is let go.
prepare-IsFresh_example : IsFresh store sandboxes 5 (
    prepare store sandboxes pre ann one
      (record { after_stored = false; after_persist = false; after_restore = false })
      undropped
      ((counter_key pre ann one, digits 5, none) ∷ [])
      live)
unfolding restore write get set delete read_counter stored_counter same check_id journal_key
    counter_key digits big_endian sealed bound starts_with drop_session
prepare-IsFresh_example =
    prepare-IsFresh store sandboxes pre ann one
      (record { after_stored = false; after_persist = false; after_restore = false }) undropped 5
      ((counter_key pre ann one, digits 5, none) ∷ []) live refl

-- After the drop, which records 5, the journal of the counter 3 is put back.
abbrev put_back : Items
put_back =
    (journal_key pre ann one, journal_of 3 (1 ∷ []), none)
    ∷ (counter_key pre ann one, digits 5, none)
    ∷ []

drop_session-restore_example :
    ((drop_session store sandboxes pre ann one 2 at_four).0 ≡ ok tt)
    × (store.get (journal_key pre ann one) (drop_session store sandboxes pre ann one 2 at_four).1
        ≡ none)
    × (restore store sandboxes pre ann one put_back live ≡ (err stale_journal, live))
unfolding restore write get set delete read_counter stored_counter same check_id journal_key
    counter_key digits big_endian sealed bound starts_with drop_session
drop_session-restore_example =
    drop_session-restore store sandboxes pre ann one 2 4 3 (seal (1 ∷ []) (bound ann one 3)) at_four
      put_back live refl (omega arith) (omega arith) refl refl

-- Two sessions, of which the first, older one is leased.
abbrev slots : Slots
slots = record (new_slot ann one 3) { leased = true } ∷ new_slot ann (codes "s2") 4 ∷ []

added :
    (add_session 3 2 none (new_slot ann (codes "s3") 5) slots
      ≡ some
          (ok (record (new_slot ann one 3) { leased = true } ∷ new_slot ann (codes "s3") 5 ∷ [])))
    × (evict_idle 2 (some 10) 14 slots ≡ (1, record (new_slot ann one 3) { leased = true } ∷ []))
unfolding add_session evict_idle
added = (refl, refl)

add_session-IsAdded_example :
    IsAdded 2
      (some 2)
      ann
      (new_slot ann (codes "s3") 5)
      slots
      (add_session 3 2 (some 2) (new_slot ann (codes "s3") 5) slots)
add_session-IsAdded_example = add_session-IsAdded 2 (some 2) ann (codes "s3") 5 slots
