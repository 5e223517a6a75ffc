-- ===== src/Workers/Slots.antt =====
-- The table of a capacity in python/pydeno/_sandbox_pool.py: its tokens, once each, and what they hold.
use pydeno.Prelude.{
  ℕ, suc, ◌≤◌, ◌≡◌, refl, Bool, true, false, ◌||◌, none, some, [], ◌∷◌, ◌==◌, ==_iff, length,
  if◌then◌else◌, All, arith, if_both, Bool-cases, inl, inr, subst, ap, sym,
}
use pydeno.Workers.{Held, Workers, counts, prune, find, assign, pop}

abbrev pub has : ℕ → Workers → Bool
has token [] = false
has token ((other, held) ∷ rest) = token == other || has token rest

-- No token stands twice.
abbrev pub AreDistinct : Workers → Type 0
AreDistinct [] = Unit
AreDistinct ((token, held) ∷ rest) = (has token rest ≡ false) × AreDistinct rest

pub length-prune : (alive : ℕ → Bool) (ws : Workers) → length (prune alive ws) ≤ length ws
unfolding prune
length-prune alive [] = omega arith
length-prune alive ((t, h) ∷ ws) = ground (arith, length-prune alive ws)

pub length-pop : (token : ℕ) (ws : Workers) → length (pop token ws) ≤ length ws
unfolding pop
length-pop token [] = omega arith
length-pop token ((t, h) ∷ ws) = ground (arith, length-pop token ws)

pub length-assign :
    (token : ℕ) (held : Held) (ws : Workers)
    → length (assign token held ws) ≡ (if has token ws then length ws else suc (length ws))
unfolding assign
length-assign token held [] = omega arith
length-assign token held ((t, h) ∷ ws) = ground (arith, length-assign token held ws)

pub has-prune :
    (alive : ℕ → Bool) (token : ℕ) (ws : Workers)
    → has token ws ≡ false
    → has token (prune alive ws) ≡ false
unfolding prune
has-prune alive token [] h = refl
has-prune alive token ((t, held) ∷ ws) h = ground (arith, has-prune alive token ws)

pub has-pop :
    (token popped : ℕ) (ws : Workers) → has token ws ≡ false → has token (pop popped ws) ≡ false
unfolding pop
has-pop token popped [] h = refl
has-pop token popped ((t, held) ∷ ws) h = ground (arith, has-pop token popped ws)

-- Another token that stood there stands there still.
pub has-pop_ne :
    (token popped : ℕ) (ws : Workers)
    → (token == popped) ≡ false
    → has token (pop popped ws) ≡ has token ws
unfolding pop
has-pop_ne token popped [] n = refl
has-pop_ne token popped ((t, held) ∷ ws) n = ground (arith, has-pop_ne token popped ws)

pub has-assign :
    (token key : ℕ) (held : Held) (ws : Workers)
    → has token (assign key held ws) ≡ (token == key || has token ws)
unfolding assign
has-assign token key held [] = ground arith
has-assign token key held ((t, h) ∷ ws) = ground (arith, has-assign token key held ws)

pub AreDistinct-prune :
    (alive : ℕ → Bool) (ws : Workers) → AreDistinct ws → AreDistinct (prune alive ws)
unfolding prune
AreDistinct-prune alive [] d = tt
AreDistinct-prune alive ((t, h) ∷ ws) d =
    if_both AreDistinct (counts alive h) ((t, h) ∷ prune alive ws) (prune alive ws)
      (λ _. (has-prune alive t ws d.0, AreDistinct-prune alive ws d.1))
      (λ _. AreDistinct-prune alive ws d.1)

pub AreDistinct-pop : (token : ℕ) (ws : Workers) → AreDistinct ws → AreDistinct (pop token ws)
unfolding pop
AreDistinct-pop token [] d = tt
AreDistinct-pop token ((t, h) ∷ ws) d =
    if_both AreDistinct (token == t) ws ((t, h) ∷ pop token ws) (λ _. d.1)
      (λ _. (has-pop t token ws d.0, AreDistinct-pop token ws d.1))

pub AreDistinct-assign :
    (token : ℕ) (held : Held) (ws : Workers) → AreDistinct ws → AreDistinct (assign token held ws)
unfolding assign
AreDistinct-assign token held [] d = (refl, tt)
AreDistinct-assign token held ((t, h) ∷ ws) d =
    if_both AreDistinct (token == t) ((t, held) ∷ ws) ((t, h) ∷ assign token held ws) (λ _. d)
      (λ n. (ground (arith, has-assign t token held ws), AreDistinct-assign token held ws d.1))

module _ {ℓ} (P : ℕ × Held → Type ℓ) where
  pub All-prune : (alive : ℕ → Bool) (ws : Workers) → All P ws → All P (prune alive ws)
  unfolding prune
  All-prune alive [] h = tt
  All-prune alive ((t, held) ∷ ws) h =
      if_both (All P) (counts alive held) ((t, held) ∷ prune alive ws) (prune alive ws)
        (λ _. (h.0, All-prune alive ws h.1)) (λ _. All-prune alive ws h.1)

  pub All-pop : (token : ℕ) (ws : Workers) → All P ws → All P (pop token ws)
  unfolding pop
  All-pop token [] h = tt
  All-pop token ((t, held) ∷ ws) h =
      if_both (All P) (token == t) ws ((t, held) ∷ pop token ws) (λ _. h.1)
        (λ _. (h.0, All-pop token ws h.1))

  pub All-assign :
      (token : ℕ) (held : Held) (ws : Workers)
      → All P ws
      → P (token, held)
      → All P (assign token held ws)
  unfolding assign
  All-assign token held [] h p = (p, tt)
  All-assign token held ((t, old) ∷ ws) h p =
      if_both (All P) (token == t) ((t, held) ∷ ws) ((t, old) ∷ assign token held ws)
        (λ e. (subst (λ k. P (k, held)) ((==_iff token t).0 e) p, h.1))
        (λ _. (h.0, All-assign token held ws h.1 p))

of_some {ℓ} : {A : Type ℓ} (a b : A) → some a ≡ some b → a ≡ b
of_some a b h = ap (λ o. elim o [ none ↦ a | some x ↦ x ]) h

-- What a token that is found holds.
pub found {ℓ} :
    (P : ℕ × Held → Type ℓ) (token : ℕ) (held : Held) (ws : Workers)
    → All P ws
    → find token ws ≡ some held
    → P (token, held)
unfolding find
found P token held [] h e = cc
found P token held ((t, old) ∷ ws) h e = elim (Bool-cases (token == t)) [
  | inl here ↦
      let same : old ≡ held = of_some old held (rw here at e) in
      subst (λ k. P (k, held)) (sym ((==_iff token t).0 here)) (subst (λ o. P (t, o)) same h.0)
  | inr there ↦ found P token held ws h.1 (rw there at e)
]

pub has-find :
    (token : ℕ) (held : Held) (ws : Workers) → find token ws ≡ some held → has token ws ≡ true
unfolding find
has-find token held [] e = cc
has-find token held ((t, old) ∷ ws) e = ground (arith, has-find token held ws)

-- What each slot is known to hold carries over from one fact of the slots to another.
pub All-find {ℓ κ} :
    (P : ℕ × Held → Type ℓ) (Q : ℕ × Held → Type κ) (ws : Workers)
    → AreDistinct ws
    → ((token : ℕ) (held : Held) → find token ws ≡ some held → P (token, held) → Q (token, held))
    → All P ws
    → All Q ws
unfolding find
All-find P Q [] d f h = tt
All-find P Q ((t, old) ∷ ws) d f h = (
  f t old (rw ((==_iff t t).1 refl) refl) h.0,
  All-find P Q ws d.1 (λ token held e p. f token held (elsewhere t token old held ws d.0 e) p) h.1,
)
  where
    elsewhere :
        (t token : ℕ) (old held : Held) (ws : Workers)
        → has t ws ≡ false
        → find token ws ≡ some held
        → find token ((t, old) ∷ ws) ≡ some held
    elsewhere t token old held ws d e = ground (arith, has-find token held ws, e)
