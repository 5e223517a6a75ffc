-- ===== src/Pool/Room/Caps/Adds.antt =====
-- How the loop of `get`, python/pydeno/_pool.py, adds a session within the caps.
use pydeno.Prelude.{
  ℕ, zero, suc, ◌≤◌, ◌<◌, ◌≡◌, ◌⊎◌, refl, sym, ◌∙◌, subst, Bool, true, false, Option, none, some,
  List, [], ◌∷◌, ◌++◌, Result, ok, err, length, length-append, leb, arith, Bool-cases, inl, inr,
}
use pydeno.Pool.Room.{
  Slot, Slots, evictable, owned_by, count, evict_first, PoolFull, evicted_or_full, room_of_owner,
  room_of_all, room_after, make_room, new_slot, add_after, add_session,
}
use pydeno.Pool.Room.Caps.{
  busy, count-append, UnderCap, WithinCap, AtCap, BusyFull, RoomOf, OwnerRoom,
  evict_first-FirstEvicted, all_evicted, room_of_owner-OwnerRoom,
}

busy_full :
    (max_sessions : ℕ) (max_per_owner : Option ℕ) (owner : List ℕ) (es left : Slots)
    → busy left ≡ busy es
    → BusyFull max_sessions max_per_owner owner left
    → BusyFull max_sessions max_per_owner owner es
busy_full max_sessions max_per_owner owner es left e h =
    subst (λ b. (max_sessions ≤ length b) ⊎ AtCap max_per_owner (count (owned_by owner) b)) e h

shrunk-RoomOf :
    (max_sessions : ℕ) (max_per_owner : Option ℕ) (owner : List ℕ) (es left : Slots)
    (o : Option Slots)
    → busy left ≡ busy es
    → length left < length es
    → RoomOf max_sessions max_per_owner owner left (evicted_or_full o)
    → RoomOf max_sessions max_per_owner owner es (evicted_or_full o)
shrunk-RoomOf max_sessions max_per_owner owner es left none e h r =
    busy_full max_sessions max_per_owner owner es left e r
shrunk-RoomOf max_sessions max_per_owner owner es left (some rest) e h r =
    (r.0 ∙ e, omega (arith, r.1))

evicted-RoomOf :
    (max_sessions : ℕ) (max_per_owner : Option ℕ) (owner : List ℕ) (es : Slots)
    → leb max_sessions (length es) ≡ true
    → RoomOf max_sessions max_per_owner owner es (evicted_or_full (evict_first evictable es))
evicted-RoomOf max_sessions max_per_owner owner es reached =
    all_evicted max_sessions max_per_owner owner es (evict_first evictable es)
      (ground (arith, reached)) (evict_first-FirstEvicted evictable (owned_by owner) es (λ e h. h))

room_after-RoomOf :
    (max_sessions : ℕ) (max_per_owner : Option ℕ) (owner : List ℕ) (es : Slots)
    (r : Result PoolFull (Bool × Slots))
    → OwnerRoom max_per_owner owner es r
    → RoomOf max_sessions max_per_owner owner es (room_after max_sessions r)
unfolding room_of_all
room_after-RoomOf max_sessions max_per_owner owner es (err x) h = inr h
room_after-RoomOf max_sessions max_per_owner owner es (ok (false, left)) (e, under) =
    subst (λ l. RoomOf max_sessions max_per_owner owner es (room_of_all max_sessions false l))
      (sym e)
      (elim (Bool-cases (leb max_sessions (length es))) [
        | inl reached ↦ rw reached (evicted-RoomOf max_sessions max_per_owner owner es reached)
        | inr below ↦ rw below (refl, ground (arith, below), under)
      ])
room_after-RoomOf max_sessions max_per_owner owner es (ok (true, left)) (e, fewer) =
    elim (Bool-cases (leb max_sessions (length left))) [
      | inl reached ↦ rw reached (
          shrunk-RoomOf max_sessions max_per_owner owner es left (evict_first evictable left) e
            fewer (evicted-RoomOf max_sessions max_per_owner owner left reached))
      | inr below ↦ rw below (e, fewer)
    ]

-- What the loop ends with: the new session as the last one, behind sessions of which none is gone that
-- must not be evicted, and all within both caps; or `PoolFull`, where those alone reach a cap.
abbrev pub IsAdded : ℕ → Option ℕ → List ℕ → Slot → Slots → Option (Result PoolFull Slots) → Type 0
IsAdded max_sessions max_per_owner owner e es none = ⊥
IsAdded max_sessions max_per_owner owner e es (some (err x)) =
    BusyFull max_sessions max_per_owner owner es
IsAdded max_sessions max_per_owner owner e es (some (ok left)) =
    (rest : Slots) × (left ≡ rest ++ e ∷ [])
    × (busy rest ≡ busy es)
    × (length rest ≤ length es)
    × (length left ≤ max_sessions)
    × WithinCap max_per_owner (count (owned_by owner) left)

within_of_under : (cap : Option ℕ) (n m : ℕ) → m ≤ suc n → UnderCap cap n → WithinCap cap m
within_of_under none n m h u = tt
within_of_under (some c) n m h u = omega (arith, u)

appended-IsAdded :
    (max_sessions : ℕ) (max_per_owner : Option ℕ) (owner : List ℕ) (e : Slot) (es : Slots)
    → length es < max_sessions
    → UnderCap max_per_owner (count (owned_by owner) es)
    → IsAdded max_sessions max_per_owner owner e es (some (ok (es ++ e ∷ [])))
appended-IsAdded max_sessions max_per_owner owner e es room under = (
  es,
  refl,
  refl,
  omega arith,
  omega (arith, length-append es (e ∷ [])),
  within_of_under max_per_owner (count (owned_by owner) es) (count (owned_by owner) (es ++ e ∷ []))
      (ground (arith, count-append (owned_by owner) es (e ∷ []))) under,
)

shrunk-IsAdded :
    (max_sessions : ℕ) (max_per_owner : Option ℕ) (owner : List ℕ) (e : Slot) (es left : Slots)
    (o : Option (Result PoolFull Slots))
    → busy left ≡ busy es
    → length left < length es
    → IsAdded max_sessions max_per_owner owner e left o
    → IsAdded max_sessions max_per_owner owner e es o
shrunk-IsAdded max_sessions max_per_owner owner e es left none same fewer h = h
shrunk-IsAdded max_sessions max_per_owner owner e es left (some (err x)) same fewer h =
    busy_full max_sessions max_per_owner owner es left same h
shrunk-IsAdded max_sessions max_per_owner owner e es left (some (ok all)) same fewer
      (rest, last, kept, shorter, few, within) =
    (rest, last, kept ∙ same, omega (arith, shorter, fewer), few, within)

add_after-IsAdded :
    (max_sessions : ℕ) (max_per_owner : Option ℕ) (owner : List ℕ) (e : Slot) (es : Slots)
    (r : Result PoolFull (Bool × Slots)) (again : Slots → Option (Result PoolFull Slots))
    → RoomOf max_sessions max_per_owner owner es r
    → ((left : Slots)
        → length left < length es
        → IsAdded max_sessions max_per_owner owner e left (again left))
    → IsAdded max_sessions max_per_owner owner e es (add_after r e again)
add_after-IsAdded max_sessions max_per_owner owner e es (err x) again h ih = h
add_after-IsAdded max_sessions max_per_owner owner e es (ok (false, left)) again
      (same_es, room, under) ih =
    subst (λ l. IsAdded max_sessions max_per_owner owner e es (some (ok (l ++ e ∷ []))))
      (sym same_es) (appended-IsAdded max_sessions max_per_owner owner e es room under)
add_after-IsAdded max_sessions max_per_owner owner e es (ok (true, left)) again (kept, fewer) ih =
    shrunk-IsAdded max_sessions max_per_owner owner e es left (again left) kept fewer
      (ih left fewer)

add_session-within :
    (fuel max_sessions : ℕ) (max_per_owner : Option ℕ) (e : Slot) (es : Slots)
    → length es < fuel
    → IsAdded max_sessions max_per_owner e.owner e es
        (add_session fuel max_sessions max_per_owner e es)
unfolding add_session make_room
add_session-within zero max_sessions max_per_owner e es h = absurd (omega (arith, h))
add_session-within (suc fuel) max_sessions max_per_owner e es h =
    add_after-IsAdded max_sessions max_per_owner e.owner e es
      (room_after max_sessions (room_of_owner max_per_owner e.owner es))
      (add_session fuel max_sessions max_per_owner e)
      (room_after-RoomOf max_sessions max_per_owner e.owner es
        (room_of_owner max_per_owner e.owner es) (room_of_owner-OwnerRoom max_per_owner e.owner es))
      (λ left fewer.
        add_session-within fuel max_sessions max_per_owner e left (omega (arith, fewer)))

-- The loop of `get` that adds a session, on a map that no other task changes meanwhile, ends in at
-- most one round for each session there was and one more. It ends with the new session added as the
-- last one of the map, behind no more sessions than there were and with every session among them that
-- is leased, waited for or not stored, in order; there are then at most `max_sessions` sessions and at
-- most `max_per_owner` of the new one's owner. Or it ends with PoolFull, and then the sessions that are
-- leased, waited for or not stored alone reach one of the two caps.
pub add_session-IsAdded :
    (max_sessions : ℕ) (max_per_owner : Option ℕ) (owner session_id : List ℕ) (now : ℕ) (es : Slots)
    → IsAdded max_sessions max_per_owner owner (new_slot owner session_id now) es (
        add_session (suc (length es)) max_sessions max_per_owner (new_slot owner session_id now) es)
add_session-IsAdded max_sessions max_per_owner owner session_id now es =
    add_session-within (suc (length es)) max_sessions max_per_owner (new_slot owner session_id now)
      es (omega arith)
