-- ===== src/Workers/Kept.antt =====
-- The slots of a pool of workers in python/pydeno/_sandbox_pool.py: every process that runs has its own.
use pydeno.Prelude.{
  ℕ, ◌<◌, ◌≡◌, refl, sym, ap, ◌∙◌, subst, Bool, true, Option, none, some, [], ◌∷◌, ◌==◌, ==_iff,
  if◌then◌else◌, All, arith, if_both, Bool-cases, inl, inr,
}
use pydeno.Workers.{Held, reserved, process, handover, Workers, counts, prune, assign, pop}
use pydeno.Workers.Slots.{
  has, AreDistinct, has-pop_ne, has-assign, AreDistinct-prune, AreDistinct-pop, AreDistinct-assign,
  All-prune, All-pop, All-assign,
}

-- What a slot says of the process that runs under its token.
abbrev pub HoldsWell : (ℕ → Bool) → ℕ → Option ℕ → Held → Type 0
HoldsWell alive next_proc running reserved = Unit
HoldsWell alive next_proc running (process p) =
    (p < next_proc) × (running ≡ (if alive p then some p else none))
HoldsWell alive next_proc running (handover p) =
    (p < next_proc) × (alive p ≡ true → running ≡ some p)

-- Every process that runs has its slot, and a slot has at most one.
pub record AreKept (alive : ℕ → Bool) (running : ℕ → Option ℕ) (next_proc next_token : ℕ)
    (ws : Workers) : Type 0 where
  pub slots : All (λ e. (e.0 < next_token) × HoldsWell alive next_proc (running e.0) e.1) ws
  pub distinct : AreDistinct ws
  pub covered :
      (token p : ℕ)
      → running token ≡ some p
      → (has token ws ≡ true) × (alive p ≡ true) × (p < next_proc)
  pub apart : (token other p : ℕ) → running token ≡ some p → running other ≡ some p → token ≡ other
  pub housed : (p : ℕ) → alive p ≡ true → (token : ℕ) × (running token ≡ some p)

running_counts :
    (alive : ℕ → Bool) (next_proc p : ℕ) (running : Option ℕ) (held : Held)
    → running ≡ some p
    → HoldsWell alive next_proc running held
    → counts alive held ≡ true
running_counts alive next_proc p running reserved e h = refl
running_counts alive next_proc p running (handover q) e h = refl
running_counts alive next_proc p running (process q) e h = elim (Bool-cases (alive q)) [
  | inl lives ↦ lives
  | inr dead ↦ let gone : running ≡ none = rw dead at (h.1) in cc (sym e ∙ gone)
]

module _ (alive : ℕ → Bool) (running : ℕ → Option ℕ) (next_proc next_token : ℕ) where
  prune_keeps_running :
      (token p : ℕ) (ws : Workers)
      → running token ≡ some p
      → All (λ e. (e.0 < next_token) × HoldsWell alive next_proc (running e.0) e.1) ws
      → has token ws ≡ true
      → has token (prune alive ws) ≡ true
  unfolding prune
  prune_keeps_running token p [] e h m = m
  prune_keeps_running token p ((t, held) ∷ ws) e h m = elim (Bool-cases (token == t)) [
    | inl same ↦
        let e' : running t ≡ some p = subst (λ k. running k ≡ some p) ((==_iff token t).0 same) e in
        rw (running_counts alive next_proc p (running t) held e' h.0.1, same) refl
    | inr other ↦
        let later = prune_keeps_running token p ws e h.1 (rw other at m) in
        if_both (λ l. has token l ≡ true) (counts alive held) ((t, held) ∷ prune alive ws)
          (prune alive ws) (λ _. rw other later) (λ _. later)
  ]

  pub prune-AreKept :
      (ws : Workers)
      → AreKept alive running next_proc next_token ws
      → AreKept alive running next_proc next_token (prune alive ws)
  prune-AreKept ws k = record {
    slots = All-prune _ alive ws k.slots;
    distinct = AreDistinct-prune alive ws k.distinct;
    covered = λ token p e. (
      prune_keeps_running token p ws e k.slots (k.covered token p e).0,
      (k.covered token p e).1,
      (k.covered token p e).2,
    );
    apart = k.apart;
    housed = k.housed;
  }

  pub assign-AreKept :
      (token : ℕ) (held : Held) (ws : Workers)
      → token < next_token
      → HoldsWell alive next_proc (running token) held
      → AreKept alive running next_proc next_token ws
      → AreKept alive running next_proc next_token (assign token held ws)
  assign-AreKept token held ws f w k = record {
    slots = All-assign _ token held ws k.slots (f, w);
    distinct = AreDistinct-assign token held ws k.distinct;
    covered = λ t p e. (
      ground (arith, has-assign t token held ws, k.covered t p e),
      (k.covered t p e).1,
      (k.covered t p e).2,
    );
    apart = k.apart;
    housed = k.housed;
  }

  pub pop-AreKept :
      (token : ℕ) (ws : Workers)
      → running token ≡ none
      → AreKept alive running next_proc next_token ws
      → AreKept alive running next_proc next_token (pop token ws)
  pop-AreKept token ws n k = record {
    slots = All-pop _ token ws k.slots;
    distinct = AreDistinct-pop token ws k.distinct;
    covered = λ t p e. (
      elim (Bool-cases (t == token)) [
        | inl same ↦ cc (sym e ∙ ap running ((==_iff t token).0 same) ∙ n)
        | inr other ↦ has-pop_ne t token ws other ∙ (k.covered t p e).0
      ],
      (k.covered t p e).1,
      (k.covered t p e).2,
    );
    apart = k.apart;
    housed = k.housed;
  }
