-- ===== src/Workers/Core.antt =====
-- python/pydeno/_sandbox_pool.py: the runtimes that a pool keeps ready, `_Core`. A step is a critical
-- section of a checkout, of a filler or of the closing of the pool.
pub mod Ready
use pydeno.Prelude.{
  ℕ, suc, ◌+◌, ◌-◌, ◌*◌, max, min, ◌≡◌, Bool, true, false, ◌&&◌, not, Option, none, some, List, [],
  ◌∷◌, ◌++◌, ltb, ◌==◌, length, if◌then◌else◌, Result, ok, err,
}

-- An `IsolatedRuntime`: `is_closed()`, and its process.
pub record Runtime : Type 0 where
  pub is_closed : Bool
  pub proc : ℕ

pub record Core : Type 0 where
  pub size : ℕ
  pub ready : List Runtime
  pub starting : ℕ
  pub closed : Bool
  pub checkouts : ℕ
  pub cold_starts : ℕ

-- `RuntimeError("this SandboxPool is closed")`
pub data PoolClosed : Type 0 where
  pool_closed : PoolClosed

-- `not candidate.is_closed() and candidate._proc.poll() is None`
abbrev pub is_usable : (ℕ → Bool) → Runtime → Bool
is_usable alive rt = not rt.is_closed && alive rt.proc

-- What the loop of `take` finds: the runtime, those before it, and those behind it.
pub record Taken : Type 0 where
  pub rt : Option Runtime
  pub dead : List Runtime
  pub left : List Runtime

unfoldable pub take_first : (ℕ → Bool) → List Runtime → Taken
take_first alive [] = record { rt = none; dead = []; left = [] }
take_first alive (candidate ∷ ready) =
    let later = take_first alive ready in
    if is_usable alive candidate
    then record { rt = some candidate; dead = []; left = ready }
    else record later { dead = candidate ∷ later.dead }

abbrev pub one_if_some : Option Runtime → ℕ
one_if_some none = 0
one_if_some (some rt) = 1

-- `take`: the core, and what the loop found; the dead are closed behind the section.
unfoldable pub take : (ℕ → Bool) → Core → Result PoolClosed (Core × Taken)
unfolding take_first
take alive core =
    let found = take_first alive core.ready in
    if core.closed
    then err pool_closed
    else ok (
      record core { ready = found.left; checkouts = core.checkouts + one_if_some found.rt },
      found,
    )

-- A cold start that `new` counts, once it has started.
unfoldable pub count_cold_start : Core → Core
count_cold_start core = record core {
  checkouts = core.checkouts + 1;
  cold_starts = core.cold_starts + 1;
}

-- The test of a filler: `waiting` checkouts, and whether the capacity has a slot.
unfoldable pub may_fill : ℕ → Bool → Core → Bool
may_fill waiting has_slot core =
    not core.closed
    && (ltb (length core.ready + core.starting) core.size && (waiting == 0 && has_slot))

unfoldable pub begin_fill : Core → Core
begin_fill core = record core { starting = core.starting + 1 }

-- `_FIRST_BACKOFF` and `_MAX_BACKOFF`, in tenths of a second.
abbrev pub next_backoff : ℕ → ℕ
next_backoff backoff = min (max 1 (backoff * 2)) 300

-- The end of a filler's round, of the runtime that it started or of none: the core, the backoff, and the
-- runtime that it has to close.
pub record Filled : Type 0 where
  pub core : Core
  pub backoff : ℕ
  pub surplus : Option Runtime

unfoldable pub end_fill : Option Runtime → ℕ → Core → Filled
end_fill (some rt) backoff core =
    if core.closed
    then record {
      core = record core { starting = core.starting - 1 };
      backoff = backoff;
      surplus = some rt;
    }
    else record {
      core = record core { starting = core.starting - 1; ready = core.ready ++ rt ∷ [] };
      backoff = 0;
      surplus = none;
    }
end_fill none backoff core = record {
  core = record core { starting = core.starting - 1 };
  backoff = next_backoff backoff;
  surplus = none;
}

-- `self.ready.popleft()` of a checkout that waits for a slot, which retires the runtime or returns it.
unfoldable pub retire : Core → Core
retire core = elim core.ready [ [] ↦ core | rt ∷ ready ↦ record core { ready = ready } ]

-- The section of `close`: the core, and the runtimes that are closed.
unfoldable pub close : Core → Core × List Runtime
close core = (record core { closed = true; ready = [] }, core.ready)

pub data Step (core : Core) : Core → Type 0 where
  takes :
      (alive : ℕ → Bool) (core' : Core) (found : Taken)
      → take alive core ≡ ok (core', found)
      → Step core core'
  counts : Step core (count_cold_start core)
  fills :
      (waiting : ℕ) (has_slot : Bool)
      → may_fill waiting has_slot core ≡ true
      → Step core (begin_fill core)
  ends :
      (rt : Option Runtime) (backoff n : ℕ)
      → core.starting ≡ suc n
      → Step core (end_fill rt backoff core).core
  retires : core.closed ≡ false → Step core (retire core)
  closes : Step core (close core).0
