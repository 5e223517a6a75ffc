-- ===== src/Pool/Store/Memory.antt =====
-- `InMemoryJournalStore` of python/pydeno/_pool.py keeps what it is given until it expires.
use pydeno.Prelude.{
  ℕ, suc, ◌≡◌, refl, true, false, Option, none, some, List, [], ◌∷◌, Bytes, same, same_refl,
  eq_of_same, if◌then◌else◌, arith, Bool-cases, inl, inr,
}
use pydeno.Pool.Store.{
  JournalStore, Items, find, remove, is_expired, serve, get, expiry, set, delete,
}

find-remove : (key : List ℕ) (items : Items) → find key (remove key items) ≡ none
unfolding find remove
find-remove key [] = refl
find-remove key ((k, v, expires) ∷ rest) = ground (arith, find-remove key rest)

same_trans : (k a b : List ℕ) → same k a ≡ true → same a b ≡ false → same k b ≡ false
same_trans k a b h ne = let e = eq_of_same k a h in rw e ne

find-remove_ne :
    (key other : List ℕ) (items : Items)
    → same key other ≡ false
    → find other (remove key items) ≡ find other items
unfolding find remove
find-remove_ne key other [] ne = refl
find-remove_ne key other ((k, v, expires) ∷ rest) ne =
    ground (arith, find-remove_ne key other rest, same_trans k key other)

find-set :
    (now : ℕ) (key : List ℕ) (value : Bytes) (ttl : Option ℕ) (items : Items)
    → find key (set now key value ttl items) ≡ some (value, expiry now ttl)
unfolding find set
find-set now key value ttl items = rw (same_refl key) refl

find-set_ne :
    (now : ℕ) (key other : List ℕ) (value : Bytes) (ttl : Option ℕ) (items : Items)
    → same key other ≡ false
    → find other (set now key value ttl items) ≡ find other items
unfolding find set
find-set_ne now key other value ttl items ne = rw ne (find-remove_ne key other items ne)

get_cong :
    (now : ℕ) (key : List ℕ) (a b : Items)
    → find key a ≡ find key b
    → (get now key a).0 ≡ (get now key b).0
unfolding get serve
get_cong now key a b e = rw e (go (find key b))
  where
    go : (o : Option (Bytes × Option ℕ)) → (serve now key o a).0 ≡ (serve now key o b).0
    go none = refl
    go (some (v, expires)) = ground arith

-- A value is served as it was stored before its time to live has passed, and not at all from then
-- on; without a time to live, always; once deleted, never. What is stored, deleted or read under
-- one key does not change what is served under another.
pub get-set :
    (now later : ℕ) (key other : List ℕ) (value : Bytes) (ttl : Option ℕ) (items : Items)
    → same key other ≡ false
    → ((get later key (set now key value ttl items)).0
        ≡ (if is_expired later (expiry now ttl) then none else some value))
      × ((get later other (set now key value ttl items)).0 ≡ (get later other items).0)
      × ((get later other (delete key items)).0 ≡ (get later other items).0)
      × ((get later key (delete key items)).0 ≡ none)
      × ((get later other (get now key items).1).0 ≡ (get later other items).0)
unfolding get delete serve
get-set now later key other value ttl items ne = (
  served,
  get_cong later other _ _ (find-set_ne now key other value ttl items ne),
  get_cong later other _ _ (find-remove_ne key other items ne),
  rw (find-remove key items) refl,
  kept (find key items),
)
  where
    served :
        (serve later key (find key (set now key value ttl items)) (set now key value ttl items)).0
        ≡ (if is_expired later (expiry now ttl) then none else some value)
    served = rw (find-set now key value ttl items) (ground arith)

    kept :
        (o : Option (Bytes × Option ℕ))
        → (get later other (serve now key o items).1).0 ≡ (get later other items).0
    kept none = refl
    kept (some (v, expires)) = elim (Bool-cases (is_expired now expires)) [
      | inl e ↦ rw e (get_cong later other _ _ (find-remove_ne key other items ne))
      | inr e ↦ rw e refl
    ]

pub get-set_now :
    (now ttl : ℕ) (k : List ℕ) (v : Bytes) (s : Items)
    → (get now k (set now k v (some (suc ttl)) s)).0 ≡ some v
unfolding get serve
get-set_now now ttl k v s = rw (find-set now k v (some (suc ttl)) s) (ground arith)

pub get-set_other :
    (now ttl : ℕ) (k k' : List ℕ) (v : Bytes) (s : Items)
    → same k k' ≡ false
    → (get now k' (set now k v (some (suc ttl)) s)).0 ≡ (get now k' s).0
get-set_other now ttl k k' v s ne =
    get_cong now k' (set now k v (some (suc ttl)) s) s
      (find-set_ne now k k' v (some (suc ttl)) s ne)

pub get-delete_now : (now : ℕ) (k : List ℕ) (s : Items) → (get now k (delete k s)).0 ≡ none
unfolding get serve delete
get-delete_now now k s = rw (find-remove k s) refl

pub get-delete_other :
    (now : ℕ) (k k' : List ℕ) (s : Items)
    → same k k' ≡ false
    → (get now k' (delete k s)).0 ≡ (get now k' s).0
unfolding delete
get-delete_other now k k' s ne = get_cong now k' (remove k s) s (find-remove_ne k k' s ne)

-- The store at one moment, with a time to live of at least one tick, as `SessionPool` uses it.
abbrev pub in_memory : ℕ → ℕ → JournalStore
in_memory now ttl = record {
  Store = Items;
  get = λ k s. (get now k s).0;
  set = λ k v s. set now k v (some (suc ttl)) s;
  delete = delete;
  get-set = get-set_now now ttl;
  get-set_ne = get-set_other now ttl;
  get-delete = get-delete_now now;
  get-delete_ne = get-delete_other now;
}
