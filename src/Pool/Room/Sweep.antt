-- ===== src/Pool/Room/Sweep.antt =====
-- One sweep of `evict_idle`, python/pydeno/_pool.py.
use pydeno.Prelude.{
  ℕ, zero, suc, ◌+◌, ◌-◌, ◌≤◌, ◌≡◌, ◌⊎◌, refl, ap, ◌∙◌, Bool, true, Option, [], ◌∷◌, min, length,
  arith,
}
use pydeno.Pool.Room.{Slot, Slots, evictable, count, expired, without, trim, evict_idle}
use pydeno.Pool.Room.Caps.{busy, must_stay_lem}

busy-without :
    (p : Slot → Bool) (es : Slots)
    → ((e : Slot) → p e ≡ true → evictable e ≡ true)
    → busy (without p es) ≡ busy es
busy-without p [] sound = refl
busy-without p (e ∷ es) sound = ground (arith, busy-without p es sound, sound e, must_stay_lem e)

length-without : (p : Slot → Bool) (es : Slots) → count p es + length (without p es) ≡ length es
length-without p [] = refl
length-without p (e ∷ es) = ground (arith, length-without p es)

count-without : (p : Slot → Bool) (es : Slots) → count p (without p es) ≡ 0
count-without p [] = refl
count-without p (e ∷ es) = ground (arith, count-without p es)

busy-trim : (n : ℕ) (es : Slots) → busy (trim n es) ≡ busy es
unfolding trim
busy-trim n [] = refl
busy-trim zero (e ∷ es) = refl
busy-trim (suc n) (e ∷ es) = ground (arith, busy-trim n es, busy-trim (suc n) es, must_stay_lem e)

length-trim : (n : ℕ) (es : Slots) → min n (count evictable es) + length (trim n es) ≡ length es
unfolding trim
length-trim n [] = omega arith
length-trim zero (e ∷ es) = omega arith
length-trim (suc n) (e ∷ es) = ground (arith, length-trim n es, length-trim (suc n) es)

count-trim_le : (p : Slot → Bool) (n : ℕ) (es : Slots) → count p (trim n es) ≤ count p es
unfolding trim
count-trim_le p n [] = omega arith
count-trim_le p zero (e ∷ es) = omega arith
count-trim_le p (suc n) (e ∷ es) = ground (arith, count-trim_le p n es, count-trim_le p (suc n) es)

length-busy-evictable : (es : Slots) → count evictable es + length (busy es) ≡ length es
length-busy-evictable [] = refl
length-busy-evictable (e ∷ es) = ground (arith, length-busy-evictable es, must_stay_lem e)

trim_left :
    (m : ℕ) (es : Slots)
    → (length (trim (length es - m) es) ≤ m)
      ⊎ (length (trim (length es - m) es) ≡ length (busy (trim (length es - m) es)))
trim_left m es = ground (
  arith,
  length-trim (length es - m) es,
  length-busy-evictable es,
  ap (λ b. length b) (busy-trim (length es - m) es),
)

expired-evictable :
    (idle_timeout : Option ℕ) (now : ℕ) (e : Slot)
    → expired idle_timeout now e ≡ true
    → evictable e ≡ true
unfolding expired
expired-evictable idle_timeout now e h = ground (arith, h)

-- A sweep evicts no session that is leased, waited for or not stored. It leaves no other session
-- that was idle for too long or whose worker is dead, and at most `max_sessions` sessions, or none
-- but those that it must not evict. Its result is the number of sessions that it evicted.
pub evict_idle_lem :
    (max_sessions : ℕ) (idle_timeout : Option ℕ) (now : ℕ) (es : Slots)
    → let (evicted, left) = evict_idle max_sessions idle_timeout now es in
      (busy left ≡ busy es)
      × (count (expired idle_timeout now) left ≡ 0)
      × ((length left ≤ max_sessions) ⊎ (length left ≡ length (busy left)))
      × (evicted + length left ≡ length es)
unfolding evict_idle
evict_idle_lem max_sessions idle_timeout now es =
    let live = without (expired idle_timeout now) es in
    let excess = length live - max_sessions in
    (
      busy-trim excess live
          ∙ busy-without (expired idle_timeout now) es (expired-evictable idle_timeout now),
      omega (
        arith,
        count-trim_le (expired idle_timeout now) excess live,
        count-without (expired idle_timeout now) es,
      ),
      trim_left max_sessions live,
      omega (arith, length-trim excess live, length-without (expired idle_timeout now) es),
    )
