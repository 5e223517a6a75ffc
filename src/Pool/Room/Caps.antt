-- ===== src/Pool/Room/Caps.antt =====
-- The caps of `SessionPool`, python/pydeno/_pool.py, when `get` adds a session.
pub mod Adds
use mathlib.Core.Option
use pydeno.Prelude.{
  ℕ, zero, suc, ◌+◌, ◌-◌, ◌≤◌, ◌<◌, ◌≡◌, ◌⊎◌, refl, sym, ap, ◌∙◌, subst, Bool, true, false, not,
  ◌&&◌, ◌||◌, Option, none, some, List, [], ◌∷◌, ◌++◌, Result, ok, err, length, length-append, same,
  same_refl, ltb, leb, ◌==◌, if◌then◌else◌, arith, Bool-cases, inl, inr,
}
use pydeno.Pool.Room.{
  Slot, Slots, evictable, owned_by, count, evict_first, PoolFull, pool_full, evicted_or_full,
  room_of_owner, room_of_all, room_after, make_room, add_session,
}

-- A session that must not be evicted: leased, waited for, or not stored since it ran.
abbrev pub must_stay : Slot → Bool
must_stay e = e.leased || ltb 0 e.waiters || e.unsaved

pub must_stay_lem : (e : Slot) → must_stay e ≡ not (evictable e)
unfolding evictable
must_stay_lem e = ground arith

abbrev pub busy : Slots → Slots
busy [] = []
busy (e ∷ es) = let rest = busy es in if must_stay e then e ∷ rest else rest

pub busy-append : (es fs : Slots) → busy (es ++ fs) ≡ busy es ++ busy fs
busy-append [] fs = refl
busy-append (e ∷ es) fs = ground (arith, busy-append es fs)

pub count-append : (p : Slot → Bool) (es fs : Slots) → count p (es ++ fs) ≡ count p es + count p fs
count-append p [] fs = omega arith
count-append p (e ∷ es) fs = ground (arith, count-append p es fs)

-- What an eviction by a property that only sessions have that can be evicted leaves.
pub record Evicted (q : Slot → Bool) (es left : Slots) : Type 0 where
  kept : busy left ≡ busy es
  fewer : suc (length left) ≡ length es
  owned : count q left ≤ count q es

abbrev pub FirstEvicted : (Slot → Bool) → (Slot → Bool) → Slots → Option Slots → Type 0
FirstEvicted p q es none = count p es ≡ 0
FirstEvicted p q es (some left) = Evicted q es left

evict_first-step :
    (p q : Slot → Bool) (e : Slot) (es : Slots) (o : Option Slots)
    → p e ≡ false
    → FirstEvicted p q es o
    → FirstEvicted p q (e ∷ es) (Option.map (◌∷◌ e) o)
evict_first-step p q e es none h k = ground (arith, h, k)
evict_first-step p q e es (some left) h k = record {
  kept = ground (arith, k.kept);
  fewer = omega (arith, k.fewer);
  owned = ground (arith, k.owned);
}

pub evict_first-FirstEvicted :
    (p q : Slot → Bool) (es : Slots)
    → ((e : Slot) → p e ≡ true → evictable e ≡ true)
    → FirstEvicted p q es (evict_first p es)
unfolding evict_first
evict_first-FirstEvicted p q [] sound = refl
evict_first-FirstEvicted p q (e ∷ es) sound = elim (Bool-cases (p e)) [
  | inl hit ↦ rw hit (record {
    kept = ground (arith, sound e hit, must_stay_lem e);
    fewer = omega arith;
    owned = ground arith;
  })
  | inr miss ↦
      rw miss
        (evict_first-step p q e es (evict_first p es) miss (evict_first-FirstEvicted p q es sound))
]

-- A cap, where there is one, is kept with room for one more; is kept; is reached.
abbrev pub UnderCap : Option ℕ → ℕ → Type 0
UnderCap none n = Unit
UnderCap (some cap) n = n < cap

abbrev pub WithinCap : Option ℕ → ℕ → Type 0
WithinCap none n = Unit
WithinCap (some cap) n = n ≤ cap

abbrev pub AtCap : Option ℕ → ℕ → Type 0
AtCap none n = ⊥
AtCap (some cap) n = cap ≤ n

-- The sessions that must not be evicted reach a cap by themselves.
abbrev pub BusyFull : ℕ → Option ℕ → List ℕ → Slots → Type 0
BusyFull max_sessions max_per_owner owner es =
    (max_sessions ≤ length (busy es)) ⊎ AtCap max_per_owner (count (owned_by owner) (busy es))

abbrev pub RoomOf : ℕ → Option ℕ → List ℕ → Slots → Result PoolFull (Bool × Slots) → Type 0
RoomOf max_sessions max_per_owner owner es (err x) = BusyFull max_sessions max_per_owner owner es
RoomOf max_sessions max_per_owner owner es (ok (false, left)) =
    (left ≡ es) × (length es < max_sessions) × UnderCap max_per_owner (count (owned_by owner) es)
RoomOf max_sessions max_per_owner owner es (ok (true, left)) =
    (busy left ≡ busy es) × (length left < length es)

-- The same of the owner's test alone.
abbrev pub OwnerRoom : Option ℕ → List ℕ → Slots → Result PoolFull (Bool × Slots) → Type 0
OwnerRoom max_per_owner owner es (err x) = AtCap max_per_owner (count (owned_by owner) (busy es))
OwnerRoom max_per_owner owner es (ok (false, left)) =
    (left ≡ es) × UnderCap max_per_owner (count (owned_by owner) es)
OwnerRoom max_per_owner owner es (ok (true, left)) =
    (busy left ≡ busy es) × (length left < length es)

count-busy :
    (p : Slot → Bool) (es : Slots)
    → count (λ e. p e && evictable e) es ≡ 0
    → count p es ≡ count p (busy es)
count-busy p [] h = refl
count-busy p (e ∷ es) h = ground (arith, count-busy p es, must_stay_lem e)

length-busy : (es : Slots) → count evictable es ≡ 0 → length es ≡ length (busy es)
length-busy [] h = refl
length-busy (e ∷ es) h = ground (arith, length-busy es, must_stay_lem e)

owner_evicted :
    (cap : ℕ) (owner : List ℕ) (es : Slots) (o : Option Slots)
    → cap ≤ count (owned_by owner) es
    → FirstEvicted (λ e. owned_by owner e && evictable e) (owned_by owner) es o
    → OwnerRoom (some cap) owner es (evicted_or_full o)
owner_evicted cap owner es none reached h = omega (arith, count-busy (owned_by owner) es h)
owner_evicted cap owner es (some left) reached h = (h.kept, omega (arith, h.fewer))

pub room_of_owner-OwnerRoom :
    (max_per_owner : Option ℕ) (owner : List ℕ) (es : Slots)
    → OwnerRoom max_per_owner owner es (room_of_owner max_per_owner owner es)
unfolding room_of_owner
room_of_owner-OwnerRoom none owner es = (refl, tt)
room_of_owner-OwnerRoom (some cap) owner es =
    elim (Bool-cases (leb cap (count (owned_by owner) es))) [
      | inl reached ↦ rw reached (
          owner_evicted cap owner es (evict_first (λ e. owned_by owner e && evictable e) es)
            (ground (arith, reached))
            (evict_first-FirstEvicted (λ e. owned_by owner e && evictable e) (owned_by owner) es
              (λ e h. ground (arith, h))))
      | inr below ↦ rw below (refl, ground (arith, below))
    ]

pub all_evicted :
    (max_sessions : ℕ) (max_per_owner : Option ℕ) (owner : List ℕ) (es : Slots) (o : Option Slots)
    → max_sessions ≤ length es
    → FirstEvicted evictable (owned_by owner) es o
    → RoomOf max_sessions max_per_owner owner es (evicted_or_full o)
all_evicted max_sessions max_per_owner owner es none reached h =
    inl (omega (arith, length-busy es h))
all_evicted max_sessions max_per_owner owner es (some left) reached h =
    (h.kept, omega (arith, h.fewer))
