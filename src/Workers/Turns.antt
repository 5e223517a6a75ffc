-- ===== src/Workers/Turns.antt =====
-- The start and the exit of a process of a pool in python/pydeno/_sandbox_pool.py: the slots stay kept.
use pydeno.Prelude.{
  ℕ, suc, ◌≡◌, refl, sym, ap, ◌∙◌, subst, Bool, true, false, Option, none, some, ◌==◌, ==_iff,
  arith, Bool-cases, inl, inr,
}
use pydeno.Workers.{Held, reserved, process, handover, Workers, find}
use pydeno.Workers.Start.{put, CanStart}
use pydeno.Workers.Slots.{has, All-find, has-find}
use pydeno.Workers.Kept.{HoldsWell, AreKept}

put_same {ℓ} : {A : Type ℓ} (k : ℕ) (v : A) (f : ℕ → A) → put k v f k ≡ v
put_same k v f = rw ((==_iff k k).1 refl) refl

put_other {ℓ} :
    {A : Type ℓ} (k : ℕ) (v : A) (f : ℕ → A) (x : ℕ) → (x == k) ≡ false → put k v f x ≡ f x
put_other k v f x e = rw e refl

of_some : (a b : ℕ) → some a ≡ some b → a ≡ b
of_some a b h = ap (λ o. elim o [ none ↦ a | some x ↦ x ]) h

-- A slot when a process starts under another token, or under its own.
started_slot :
    (alive : ℕ → Bool) (next_proc token : ℕ) (running : ℕ → Option ℕ) (t : ℕ) (held : Held)
    (mine : Bool)
    → (t == token) ≡ mine
    → (mine ≡ true → CanStart alive (some held))
    → HoldsWell alive next_proc (running t) held
    → HoldsWell
        (put next_proc true alive)
        (suc next_proc)
        (put token (some next_proc) running t)
        held
started_slot alive next_proc token running t reserved mine e c h = tt
started_slot alive next_proc token running t (process q) true e c h = absurd (c refl)
started_slot alive next_proc token running t (process q) false e c h = ground arith
started_slot alive next_proc token running t (handover q) true e c h =
    (omega arith, λ a. ground (arith, c refl))
started_slot alive next_proc token running t (handover q) false e c h =
    (omega arith, λ a. let l : alive q ≡ true = ground arith in ground (arith, h.1 l))

exited_slot :
    (alive : ℕ → Bool) (next_proc token p : ℕ) (running : ℕ → Option ℕ) (t : ℕ) (held : Held)
    (mine : Bool)
    → (t == token) ≡ mine
    → running token ≡ some p
    → alive p ≡ true
    → (running t ≡ some p → t ≡ token)
    → HoldsWell alive next_proc (running t) held
    → HoldsWell (put p false alive) next_proc (put token none running t) held
exited_slot alive next_proc token p running t reserved mine e r a u h = tt
exited_slot alive next_proc token p running t (process q) true e r a u h =
    ground (arith, ap running ((==_iff t token).0 e))
exited_slot alive next_proc token p running t (process q) false e r a u h =
    elim (Bool-cases (q == p)) [
      | inl same ↦ ground (arith, (==_iff t token).1)
      | inr other ↦ ground arith
    ]
exited_slot alive next_proc token p running t (handover q) true e r a u h = (
  h.0,
  λ l.
      let l' : alive q ≡ true = ground arith in
      ground (arith, h.1 l', ap running ((==_iff t token).0 e)),
)
exited_slot alive next_proc token p running t (handover q) false e r a u h =
    (h.0, λ l. let l' : alive q ≡ true = ground arith in ground (arith, h.1 l'))

-- What `find` finds under a token that may start.
CanStart-has :
    (alive : ℕ → Bool) (token : ℕ) (ws : Workers) (o : Option Held)
    → find token ws ≡ o
    → CanStart alive o
    → has token ws ≡ true
CanStart-has alive token ws none e c = absurd c
CanStart-has alive token ws (some held) e c = has-find token held ws e

module _ (alive : ℕ → Bool) (running : ℕ → Option ℕ) (next_proc next_token : ℕ) (ws : Workers)
    (k : AreKept alive running next_proc next_token ws) where
  -- A process that starts under a token whose own process has exited, or was never started.
  pub starts-AreKept :
      (token : ℕ)
      → CanStart alive (find token ws)
      → running token ≡ none
      → AreKept
          (put next_proc true alive)
          (put token (some next_proc) running)
          (suc next_proc)
          next_token
          ws
  starts-AreKept token c n = record {
    slots =
        All-find _ _ ws k.distinct
          (λ t held e h. (
            h.0,
            started_slot alive next_proc token running t held (t == token) refl
                (λ m.
                  subst (CanStart alive) (ap (λ x. find x ws) (sym ((==_iff t token).0 m)) ∙ e) c)
                h.1,
          ))
          k.slots;
    distinct = k.distinct;
    covered = λ t p e. elim (Bool-cases (t == token)) [
      | inl mine ↦
          let p_is : next_proc ≡ p = of_some next_proc p (rw mine at e) in
          let t_is : t ≡ token = (==_iff t token).0 mine in
          (
            rw t_is (CanStart-has alive token ws (find token ws) refl c),
            rw (← p_is) (put_same next_proc true alive),
            omega arith,
          )
      | inr other ↦
          let old : running t ≡ some p = rw other at e in
          let kept = k.covered t p old in (kept.0, ground (arith, kept), ground (arith, kept))
    ];
    apart = λ t u p e f. ground (arith, k.covered t p, k.covered u p, k.apart t u p);
    housed = λ p a. elim (Bool-cases (p == next_proc)) [
      | inl new ↦ (token, rw ((==_iff p next_proc).0 new) (put_same token (some next_proc) running))
      | inr old ↦
          let (t, runs) = k.housed p (rw old at a) in
          (
            t,
            elim (Bool-cases (t == token)) [
              | inl mine ↦ cc (sym runs ∙ ap running ((==_iff t token).0 mine) ∙ n)
              | inr other ↦ rw other runs
            ],
          )
    ];
  }

  pub exits-AreKept :
      (token p : ℕ)
      → running token ≡ some p
      → AreKept (put p false alive) (put token none running) next_proc next_token ws
  exits-AreKept token p r = record {
    slots =
        All-find _ _ ws k.distinct
          (λ t held e h. (
            h.0,
            exited_slot alive next_proc token p running t held (t == token) refl r
                (k.covered token p r).1 (λ m. k.apart t token p m r) h.1,
          ))
          k.slots;
    distinct = k.distinct;
    covered = λ t q e. elim (Bool-cases (t == token)) [
      | inl mine ↦ cc (rw mine at e)
      | inr other ↦
          let old : running t ≡ some q = rw other at e in
          let kept = k.covered t q old in
          (kept.0, ground (arith, kept.1, k.apart t token p, (==_iff t token).1), kept.2)
    ];
    apart = λ t u q e f. ground (arith, k.apart t u q);
    housed = λ q a. elim (Bool-cases (q == p)) [
      | inl gone ↦ cc (rw gone at a)
      | inr stays ↦
          let (t, runs) = k.housed q (rw stays at a) in
          (
            t,
            elim (Bool-cases (t == token)) [
              | inl mine ↦
                  let q_is : p ≡ q =
                    of_some p q (sym r ∙ ap running (sym ((==_iff t token).0 mine)) ∙ runs) in
                  absurd (ground (arith, q_is, stays))
              | inr other ↦ rw other runs
            ],
          )
    ];
  }
