-- ===== src/Pool/Store.antt =====
-- The stores of python/pydeno/_pool.py: what `SessionPool` relies on of a `JournalStore`, and
-- `InMemoryJournalStore` with its clock, `time.monotonic()`, as an argument.
pub mod Memory
use pydeno.Prelude.{
  ℕ, zero, suc, ◌+◌, ◌≡◌, Bool, true, false, Option, none, some, List, [], ◌∷◌, Bytes, same, leb,
  if◌then◌else◌,
}

-- `JournalStore`, at one moment and with times to live that have not run out at it.
pub record JournalStore : Type 1 where
  pub Store : Type 0
  pub get : List ℕ → Store → Option Bytes
  pub set : List ℕ → Bytes → Store → Store
  pub delete : List ℕ → Store → Store
  pub get-set : (k : List ℕ) (v : Bytes) (s : Store) → get k (set k v s) ≡ some v
  pub get-set_ne :
      (k k' : List ℕ) (v : Bytes) (s : Store) → same k k' ≡ false → get k' (set k v s) ≡ get k' s
  pub get-delete : (k : List ℕ) (s : Store) → get k (delete k s) ≡ none
  pub get-delete_ne :
      (k k' : List ℕ) (s : Store) → same k k' ≡ false → get k' (delete k s) ≡ get k' s

-- `_data`: a value and when it expires, for a key
abbrev pub Items : Type 0
Items = List (List ℕ × Bytes × Option ℕ)

unfoldable pub find : List ℕ → Items → Option (Bytes × Option ℕ)
find key [] = none
find key ((k, value, expires) ∷ rest) = if same k key then some (value, expires) else find key rest

unfoldable pub remove : List ℕ → Items → Items
remove key [] = []
remove key ((k, value, expires) ∷ rest) =
    let others = remove key rest in if same k key then others else (k, value, expires) ∷ others

abbrev pub is_expired : ℕ → Option ℕ → Bool
is_expired now none = false
is_expired now (some expires) = leb expires now

-- What `get` does with the item that it found.
unfoldable pub serve : ℕ → List ℕ → Option (Bytes × Option ℕ) → Items → Option Bytes × Items
unfolding remove
serve now key none items = (none, items)
serve now key (some (value, expires)) items =
    if is_expired now expires then (none, remove key items) else (some value, items)

-- `get`: an item that has expired is deleted.
unfoldable pub get : ℕ → List ℕ → Items → Option Bytes × Items
unfolding find serve
get now key items = serve now key (find key items) items

abbrev pub expiry : ℕ → Option ℕ → Option ℕ
expiry now none = none
expiry now (some ttl) = some (now + ttl)

-- `set`, of a value that is a byte string
unfoldable pub set : ℕ → List ℕ → Bytes → Option ℕ → Items → Items
unfolding remove
set now key value ttl items = (key, value, expiry now ttl) ∷ remove key items

-- `delete`
unfoldable pub delete : List ℕ → Items → Items
unfolding remove
delete key items = remove key items
