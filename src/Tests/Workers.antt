-- ===== src/Tests/Workers.antt =====
-- A pool of workers: python/pydeno/_sandbox_pool.py at concrete inputs.
use pydeno.Prelude.{
  ℕ, ◌≤◌, ◌≡◌, refl, Bool, true, false, some, [], ◌∷◌, ◌==◌, length, arith, if◌then◌else◌,
}
use pydeno.Workers.{
  find, init, process, handover, reserve, release, hand_over, available, replacement_pending,
  WorkerCapacity,
}
use pydeno.Workers.Start.{System, begin, Reach, here, next, reserves, starts}
use pydeno.Workers.Bound.{running_capped}
use pydeno.Workers.Core.{Runtime, Core, Taken, take, ends, end_fill, close}
use pydeno.Workers.Core.Ready.{IsTaken, take-IsTaken, IsWithin, Step-IsWithin}

-- One slot: the second reservation waits until the first process has exited.
abbrev one_slot : WorkerCapacity
one_slot = record (init (some 1)) { workers = (0, process 7) ∷ []; next_token = 1 }

slots :
    ((available (λ p. p == 7) one_slot).1 ≡ false)
    × ((available (λ _. false) one_slot).1 ≡ true)
    × ((hand_over 7 one_slot).0.workers ≡ (0, handover 7) ∷ [])
    × ((release (λ p. p == 7) 0 (hand_over 7 one_slot).0).workers ≡ (0, process 7) ∷ [])
    × ((release (λ _. false) 0 (hand_over 7 one_slot).0).workers ≡ [])
    × (replacement_pending (λ p. p == 7) 0 (hand_over 7 one_slot).0 ≡ true)
unfolding available hand_over release replacement_pending init
slots = (refl, refl, refl, refl, refl, refl)

abbrev Running : Type 0
Running = (s : System) × Reach (begin (some 2)) s × (s.alive 0 ≡ true)

started : Running
unfolding init available reserve find
started = (_, next (next here (reserves refl)) (starts 0 tt refl), refl)

running_capped_example : length {A = ℕ} (0 ∷ []) ≤ 2
running_capped_example = running_capped 2 started.0 (0 ∷ []) started.1 (refl, tt) (started.2, tt)

abbrev runtime : ℕ → Runtime
runtime p = record { is_closed = false; proc = p }

-- Three are ready, of which the first has exited; nothing is being started but one.
abbrev core : Core
core = record {
  size = 4;
  ready = runtime 1 ∷ runtime 2 ∷ runtime 3 ∷ [];
  starting = 1;
  closed = false;
  checkouts = 0;
  cold_starts = 0;
}

abbrev first_exited : ℕ → Bool
first_exited p = if p == 1 then false else true

abbrev taken : Taken
taken = record { rt = some (runtime 2); dead = runtime 1 ∷ []; left = runtime 3 ∷ [] }

abbrev core_taken : Core
core_taken = record core { ready = runtime 3 ∷ []; checkouts = 1 }

take-IsTaken_example : IsTaken first_exited core (take first_exited core)
take-IsTaken_example = take-IsTaken first_exited core

Step-IsWithin_example : IsWithin (end_fill (some (runtime 9)) 0 core).core
Step-IsWithin_example =
    Step-IsWithin (ends (some (runtime 9)) 0 0 refl)
      (record { room = omega arith; emptied = λ c. cc })

-- A runtime that was being started while the pool closed is given up.
closed_meanwhile : (end_fill (some (runtime 9)) 0 (close core).0).surplus ≡ some (runtime 9)
unfolding end_fill close
closed_meanwhile = refl
