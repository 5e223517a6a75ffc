-- ===== src/Workers/Bound.antt =====
-- How many workers of a pool in python/pydeno/_sandbox_pool.py run at once.
use native.Mathlib.Nat.{le_trans}
use pydeno.Prelude.{
  ℕ, suc, ◌≤◌, ◌≡◌, sym, ap, ◌∙◌, Bool, true, false, ◌||◌, Option, some, List, [], ◌∷◌, ◌==◌,
  ==_iff, length, All, arith, Bool-cases, inl, inr,
}
use pydeno.Workers.{Workers, pop}
use pydeno.Workers.Start.{System, begin, Reach}
use pydeno.Workers.Slots.{has, has-pop_ne}
use pydeno.Workers.Caps.{IsCapped, of_some}
use pydeno.Workers.Capped.{Reach-IsCapped, begin-IsCapped}

-- No process twice.
abbrev pub among : ℕ → List ℕ → Bool
among p [] = false
among p (q ∷ ps) = p == q || among p ps

abbrev pub AreApart : List ℕ → Type 0
AreApart [] = Unit
AreApart (p ∷ ps) = (among p ps ≡ false) × AreApart ps

-- A slot of its own in a table for each process of a list.
abbrev HaveSlots : (ℕ → Option ℕ) → Workers → List ℕ → Type 0
HaveSlots running ws [] = Unit
HaveSlots running ws (p ∷ ps) =
    ((token : ℕ) × (running token ≡ some p) × (has token ws ≡ true)) × HaveSlots running ws ps

length-pop-has :
    (token : ℕ) (ws : Workers) → has token ws ≡ true → suc (length (pop token ws)) ≡ length ws
unfolding pop
length-pop-has token [] h = cc
length-pop-has token ((t, held) ∷ ws) h = ground (arith, length-pop-has token ws)

HaveSlots-pop :
    (running : ℕ → Option ℕ) (ws : Workers) (token p : ℕ) (ps : List ℕ)
    → running token ≡ some p
    → among p ps ≡ false
    → HaveSlots running ws ps
    → HaveSlots running (pop token ws) ps
HaveSlots-pop running ws token p [] r a h = tt
HaveSlots-pop running ws token p (q ∷ ps) r a h =
    let (t, runs, there) = h.0 in
    (
      (
        t,
        runs,
        elim (Bool-cases (t == token)) [
          | inl same ↦
              let p_is : p ≡ q =
                of_some p q (sym r ∙ ap running (sym ((==_iff t token).0 same)) ∙ runs) in
              ground (arith, p_is)
          | inr other ↦ has-pop_ne t token ws other ∙ there
        ],
      ),
      HaveSlots-pop running ws token p ps r (ground arith) h.1,
    )

slots_enough :
    (running : ℕ → Option ℕ) (ps : List ℕ) (ws : Workers)
    → AreApart ps
    → HaveSlots running ws ps
    → length ps ≤ length ws
slots_enough running [] ws a h = omega arith
slots_enough running (p ∷ ps) ws a h =
    let (t, runs, there) = h.0 in
    omega (
      arith,
      length-pop-has t ws there,
      slots_enough running ps (pop t ws) a.1 (HaveSlots-pop running ws t p ps runs a.0 h.1),
    )

have_slots :
    (maximum : ℕ) (s : System) (ps : List ℕ)
    → IsCapped maximum s
    → All (λ p. s.alive p ≡ true) ps
    → HaveSlots s.running s.capacity.workers ps
have_slots maximum s [] h a = tt
have_slots maximum s (p ∷ ps) h a =
    let (token, runs) = h.kept.housed p a.0 in
    ((token, runs, (h.kept.covered token p runs).0), have_slots maximum s ps h a.1)

-- A pool with `max_workers` never has more worker processes than that: whatever checkouts and fillers
-- reserve, start, record, replace and give up, in whatever order their critical sections interleave, and
-- whenever processes exit, the processes that have not exited are at most `max_workers`. Each start makes
-- one process, in a slot of its own whose old process, if it had one, has exited, and
-- one that raises leaves none running.
pub running_capped :
    (max_workers : ℕ) (s : System) (processes : List ℕ)
    → Reach (begin (some max_workers)) s
    → AreApart processes
    → All (λ p. s.alive p ≡ true) processes
    → length processes ≤ max_workers
running_capped max_workers s processes r apart alive =
    let h = Reach-IsCapped max_workers r (begin-IsCapped max_workers) in
    le_trans
      (slots_enough s.running processes s.capacity.workers apart
        (have_slots max_workers s processes h alive))
      h.size
