-- ===== src/Workers/Caps.antt =====
-- A capacity within its cap, `max_workers` in python/pydeno/_sandbox_pool.py, and what its operations do
-- to the slots.
use pydeno.Prelude.{
  ℕ, suc, ◌≤◌, ◌<◌, ◌≡◌, refl, sym, ap, ◌∙◌, subst, Bool, true, false, Option, none, some, [], ◌∷◌,
  ltb, ◌==◌, ==_iff, length, All, arith, if_both, Bool-cases, inl, inr,
}
use pydeno.Workers.{
  Held, reserved, process, handover, Workers, WorkerCapacity, prune, live, available, find, assign,
  pop, token_of, handed, is_pending, let_go, reserve, add_reserved,
}
use pydeno.Workers.Start.{System, CanStart}
use pydeno.Workers.Slots.{has, length-pop, length-assign, has-find, found, All-find}
use pydeno.Workers.Kept.{HoldsWell, AreKept, assign-AreKept, pop-AreKept}

-- At most as many slots as the cap, and in them all that runs.
pub record IsCapped (maximum : ℕ) (s : System) : Type 0 where
  pub cap : s.capacity.maximum ≡ some maximum
  pub size : length s.capacity.workers ≤ maximum
  pub kept : AreKept s.alive s.running s.next_proc s.capacity.next_token s.capacity.workers

pub available_capped :
    (alive : ℕ → Bool) (maximum : ℕ) (c : WorkerCapacity)
    → c.maximum ≡ some maximum
    → available alive c
      ≡ (record c { workers = prune alive c.workers }, ltb (length (prune alive c.workers)) maximum)
unfolding available live
available_capped alive maximum c e =
    ap (λ o. elim o [ none ↦ (c, true) | some m ↦ ((live alive c).0, ltb (live alive c).1 m) ]) e

pub reserve_capped :
    (maximum : ℕ) (c : WorkerCapacity)
    → c.maximum ≡ some maximum
    → (reserve c).0
      ≡ record c { workers = assign c.next_token reserved c.workers; next_token = suc c.next_token }
unfolding reserve
reserve_capped maximum c e =
    ap
      (λ o. record c {
        workers = add_reserved o c.next_token c.workers;
        next_token = suc c.next_token;
      })
      e

pub fresh_token :
    (next_token : ℕ) (P : ℕ × Held → Type 0) (ws : Workers)
    → All (λ e. (e.0 < next_token) × P e) ws
    → has next_token ws ≡ false
fresh_token next_token P [] h = refl
fresh_token next_token P ((t, held) ∷ ws) h = ground (arith, h.0.0, fresh_token next_token P ws h.1)

pub of_some : (a b : ℕ) → some a ≡ some b → a ≡ b
of_some a b h = ap (λ o. elim o [ none ↦ a | some x ↦ x ]) h

behind :
    {P Q : Type 0} (t token : ℕ) (l : Workers)
    → P × Q × (has token l ≡ true)
    → P × Q × (has token ((t, reserved) ∷ l) ≡ true)
behind t token l h = (h.0, h.1, ground (arith, h.2))

-- The slot of a process that `hand_over` finds.
handed_slot :
    (alive : ℕ → Bool) (running : ℕ → Option ℕ) (next_proc next_token p token : ℕ) (l : Workers)
    → All (λ e. (e.0 < next_token) × HoldsWell alive next_proc (running e.0) e.1) l
    → token_of p l ≡ some token
    → (token < next_token)
      × HoldsWell alive next_proc (running token) (process p)
      × (has token l ≡ true)
unfolding token_of
handed_slot alive running next_proc next_token p token [] h e = cc
handed_slot alive running next_proc next_token p token ((t, reserved) ∷ l) h e =
    behind t token l (handed_slot alive running next_proc next_token p token l h.1 e)
handed_slot alive running next_proc next_token p token ((t, handover q) ∷ l) h e =
    behind t token l (handed_slot alive running next_proc next_token p token l h.1 e)
handed_slot alive running next_proc next_token p token ((t, process q) ∷ l) h e =
    elim (Bool-cases (p == q)) [
      | inl mine ↦
          let t_is : t ≡ token = of_some t token (rw mine at e) in
          let well : HoldsWell alive next_proc (running t) (process p) =
            subst (λ x. HoldsWell alive next_proc (running t) (process x))
              (sym ((==_iff p q).0 mine)) h.0.1 in
          (
            subst (λ x. x < next_token) t_is h.0.0,
            subst (λ x. HoldsWell alive next_proc (running x) (process p)) t_is well,
            rw t_is (rw ((==_iff token token).1 refl) refl),
          )
      | inr other ↦
          behind t token l
            (handed_slot alive running next_proc next_token p token l h.1 (rw other at e))
    ]

module _ (alive : ℕ → Bool) (running : ℕ → Option ℕ) (next_proc next_token : ℕ) (ws : Workers)
    (k : AreKept alive running next_proc next_token ws) where
  grows-AreKept : AreKept alive running next_proc (suc next_token) ws
  grows-AreKept = record {
    slots = All-find _ _ ws k.distinct (λ t held e h. (omega (arith, h.0), h.1)) k.slots;
    distinct = k.distinct;
    covered = k.covered;
    apart = k.apart;
    housed = k.housed;
  }

  pub reserve-AreKept :
      AreKept alive running next_proc (suc next_token) (assign next_token reserved ws)
  reserve-AreKept =
      assign-AreKept alive running next_proc (suc next_token) next_token reserved ws (omega arith)
        tt grows-AreKept

  pub start_token :
      (token : ℕ) (o : Option Held)
      → find token ws ≡ o
      → CanStart alive o
      → (token < next_token) × (has token ws ≡ true)
  start_token token none e c = absurd c
  start_token token (some held) e c =
      ((found _ token held ws k.slots e).0, has-find token held ws e)

  -- `release` of a start that has nothing running, or that waits for a process that has not exited.
  pub let_go-AreKept :
      (token : ℕ) (o : Option Held)
      → find token ws ≡ o
      → (is_pending alive o ≡ false → running token ≡ none)
      → AreKept alive running next_proc next_token (let_go alive token o ws)
        × (length (let_go alive token o ws) ≤ length ws)
  let_go-AreKept token none e n =
      (pop-AreKept alive running next_proc next_token token ws (n refl) k, length-pop token ws)
  let_go-AreKept token (some reserved) e n =
      (pop-AreKept alive running next_proc next_token token ws (n refl) k, length-pop token ws)
  let_go-AreKept token (some (process p)) e n =
      (pop-AreKept alive running next_proc next_token token ws (n refl) k, length-pop token ws)
  let_go-AreKept token (some (handover p)) e n =
      let slot = found _ token (handover p) ws k.slots e in
      if_both (λ l. AreKept alive running next_proc next_token l × (length l ≤ length ws)) (alive p)
        (assign token (process p) ws) (pop token ws)
        (λ a. (
          assign-AreKept alive running next_proc next_token token (process p) ws slot.0
              (slot.1.0, slot.1.1 a ∙ rw a refl) k,
          ground (arith, length-assign token (process p) ws, has-find token (handover p) ws e),
        ))
        (λ d.
          (pop-AreKept alive running next_proc next_token token ws (n d) k, length-pop token ws))

  pub handed-AreKept :
      (p : ℕ) (o : Option ℕ)
      → token_of p ws ≡ o
      → AreKept alive running next_proc next_token (handed o p ws)
        × (length (handed o p ws) ≡ length ws)
  handed-AreKept p none e = (k, refl)
  handed-AreKept p (some token) e =
      let (below, well, there) =
        handed_slot alive running next_proc next_token p token ws k.slots e in
      (
        assign-AreKept alive running next_proc next_token token (handover p) ws below
            (well.0, λ a. well.1 ∙ rw a refl) k,
        length-assign token (handover p) ws ∙ rw there refl,
      )
