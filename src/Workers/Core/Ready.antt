-- ===== src/Workers/Core/Ready.antt =====
-- What a pool of python/pydeno/_sandbox_pool.py keeps ready, and what it hands out.
use pydeno.Prelude.{
  ℕ, suc, ◌+◌, ◌≤◌, ◌≡◌, refl, ap, subst, Bool, true, false, ◌&&◌, not, Option, none, some, List,
  Result, [], ◌∷◌, ◌++◌, ltb→lt, length, length-append, if◌then◌else◌, ok, err, All, arith, if_both,
}
use pydeno.Workers.Core.{
  Runtime, Core, PoolClosed, pool_closed, is_usable, Taken, take_first, one_if_some, take,
  count_cold_start, may_fill, begin_fill, Filled, end_fill, retire, close, Step, takes, counts,
  fills, ends, retires, closes,
}

-- What `take` hands out and what it closes.
abbrev pub IsFirst : (ℕ → Bool) → List Runtime → Taken → Type 0
IsFirst alive ready t = All (λ rt. is_usable alive rt ≡ false) t.dead × (elim t.rt [
  | none ↦ (ready ≡ t.dead) × (t.left ≡ [])
  | some rt ↦ (ready ≡ t.dead ++ rt ∷ t.left) × (is_usable alive rt ≡ true)
])

behind :
    (alive : ℕ → Bool) (candidate : Runtime) (ready : List Runtime) (rt : Option Runtime)
    (dead left : List Runtime)
    → is_usable alive candidate ≡ false
    → IsFirst alive ready (record { rt = rt; dead = dead; left = left })
    → IsFirst alive (candidate ∷ ready) (record { rt = rt; dead = candidate ∷ dead; left = left })
behind alive candidate ready none dead left d h = ((d, h.0), (ap (◌∷◌ candidate) h.1.0, h.1.1))
behind alive candidate ready (some rt) dead left d h = ((d, h.0), (ap (◌∷◌ candidate) h.1.0, h.1.1))

take_first-IsFirst :
    (alive : ℕ → Bool) (ready : List Runtime) → IsFirst alive ready (take_first alive ready)
unfolding take_first
take_first-IsFirst alive [] = (tt, (refl, refl))
take_first-IsFirst alive (candidate ∷ ready) =
    let later = take_first alive ready in
    if_both (IsFirst alive (candidate ∷ ready)) (is_usable alive candidate) _ _
      (λ usable. (tt, (refl, usable)))
      (λ d.
        behind alive candidate ready later.rt later.dead later.left d
          (take_first-IsFirst alive ready))

take_first_shorter :
    (alive : ℕ → Bool) (ready : List Runtime) → length (take_first alive ready).left ≤ length ready
unfolding take_first
take_first_shorter alive [] = omega arith
take_first_shorter alive (candidate ∷ ready) =
    if_both (λ (t : Taken). length t.left ≤ suc (length ready)) (is_usable alive candidate) _ _
      (λ _. omega arith) (λ _. omega (arith, take_first_shorter alive ready))

opened :
    {A : Type 0} (b : Bool) (x y : A)
    → (if b then err pool_closed else ok x) ≡ ok y
    → (b ≡ false) × (x ≡ y)
opened true x y h = cc
opened false x y h = (refl, ap (λ r. elim r [ err _ ↦ x | ok a ↦ a ]) h)

-- What a checkout that takes from the pool leaves: the runtimes behind the one that it hands out, and one
-- checkout more where it hands one out.
abbrev pub Leaves : Core → Core × Taken → Type 0
Leaves core r = (r.0.ready ≡ r.1.left) × (r.0.checkouts ≡ core.checkouts + one_if_some r.1.rt)

-- What a checkout gives in a pool that is closed, and in one that is open.
abbrev pub IsTaken : (ℕ → Bool) → Core → Result PoolClosed (Core × Taken) → Type 0
IsTaken alive core (err e) = core.closed ≡ true
IsTaken alive core (ok (core', found)) =
    (core.closed ≡ false) × IsFirst alive core.ready found × Leaves core (core', found)

-- `take` raises where the pool is closed, and only there. Where it is open, it hands out the first
-- runtime that is not closed and whose process has not exited: those before it are closed or have
-- exited, and are given up to be closed; those behind it stay, in order; and it hands out none, which is
-- no error, only where there is no such runtime. One that it hands out is no longer ready, and is counted.
pub take-IsTaken : (alive : ℕ → Bool) (core : Core) → IsTaken alive core (take alive core)
unfolding take
take-IsTaken alive core =
    if_both (IsTaken alive core) core.closed _ _ (λ c. c)
      (λ o. (o, take_first-IsFirst alive core.ready, (refl, refl)))

-- The room of a pool: what is ready and what is starting is at most its size, and a closed pool keeps
-- nothing ready.
pub record IsWithin (core : Core) : Type 0 where
  pub room : length core.ready + core.starting ≤ core.size
  pub emptied : core.closed ≡ true → core.ready ≡ []

take-IsWithin :
    (alive : ℕ → Bool) (core core' : Core) (found : Taken)
    → take alive core ≡ ok (core', found)
    → IsWithin core
    → IsWithin core'
unfolding take
take-IsWithin alive core core' found h w =
    let (is_open, same) = opened core.closed _ (core', found) h in
    subst (λ r. IsWithin r.0) same
      (record {
        room = omega (arith, take_first_shorter alive core.ready, w.room);
        emptied = λ c. cc;
      })

retire-IsWithin :
    (core : Core) (ready : List Runtime)
    → core.ready ≡ ready
    → core.closed ≡ false
    → IsWithin core
    → IsWithin (elim ready [ [] ↦ core | rt ∷ rest ↦ record core { ready = rest } ])
retire-IsWithin core [] e o w = w
retire-IsWithin core (rt ∷ rest) e o w = record {
  room = omega (arith, ap length e, w.room);
  emptied = λ c. cc;
}

has_room : (closed room rest : Bool) → (not closed && (room && rest)) ≡ true → room ≡ true
has_room true room rest h = cc
has_room false true rest h = refl
has_room false false rest h = cc

end_fill-IsWithin :
    (core : Core) (rt : Option Runtime) (backoff n : ℕ)
    → core.starting ≡ suc n
    → IsWithin core
    → IsWithin (end_fill rt backoff core).core
unfolding end_fill
end_fill-IsWithin core none backoff n e w = record {
  room = omega (arith, e, w.room);
  emptied = w.emptied;
}
end_fill-IsWithin core (some rt) backoff n e w =
    if_both (λ (f : Filled). IsWithin f.core) core.closed _ _
      (λ _. record { room = omega (arith, e, w.room); emptied = w.emptied })
      (λ o. record {
        room = omega (arith, length-append core.ready (rt ∷ []), e, w.room);
        emptied = λ c. cc;
      })

-- A pool keeps to its size and to its end: whatever checkouts, fillers and a closing do, in whatever order
-- their critical sections come, the runtimes that are ready and those that are being started are together
-- at most `size`, and once the pool is closed nothing is ready, not even what was being started then.
pub Step-IsWithin : {core core' : Core} → Step core core' → IsWithin core → IsWithin core'
unfolding count_cold_start begin_fill retire close may_fill
Step-IsWithin {core} (takes alive core' found h) w = take-IsWithin alive core core' found h w
Step-IsWithin counts w = record { room = w.room; emptied = w.emptied }
Step-IsWithin {core} (fills waiting has_slot h) w = record {
  room =
      omega
        (arith, ltb→lt (length core.ready + core.starting) core.size (has_room core.closed _ _ h));
  emptied = w.emptied;
}
Step-IsWithin {core} (ends rt backoff n e) w = end_fill-IsWithin core rt backoff n e w
Step-IsWithin {core} (retires o) w = retire-IsWithin core core.ready refl o w
Step-IsWithin {core} closes w = record { room = omega (arith, w.room); emptied = λ _. refl }
