-- ===== src/Fetch/Vet/Vetted.antt =====
-- What `_vet`, python/pydeno/tools/http_fetch.py, lets the tool connect to.
use pydeno.Prelude.{
  ℕ, ◌≡◌, refl, sym, ap, ◌∙◌, Bool, true, false, not, ◌&&◌, ◌||◌, List, [], ◌∷◌, ◌++◌, ok, All,
  is_empty, same, eq_of_same, arith, Bool-cases, inl, inr,
}
use pydeno.Fetch.Target.{Target}
use pydeno.Fetch.Vet.{
  Lookup, answers, late, raised, own_error, among, any_refused, each_once, vet_answers, vet_lookup,
  lookup_of, vet,
}

among-append :
    (a : List ℕ) (xs ys : List (List ℕ)) → among a (xs ++ ys) ≡ (among a xs || among a ys)
unfolding among
among-append a [] ys = refl
among-append a (x ∷ xs) ys = ground (arith, among-append a xs ys)

same_comm : (x y : List ℕ) → same x y ≡ same y x
unfolding same
same_comm [] [] = refl
same_comm [] (y ∷ ys) = refl
same_comm (x ∷ xs) [] = refl
same_comm (x ∷ xs) (y ∷ ys) = ground (arith, same_comm xs ys)

abbrev pub no_repeats : List (List ℕ) → Bool
no_repeats [] = true
no_repeats (a ∷ rest) = not (among a rest) && no_repeats rest

no_repeats-append :
    (xs : List (List ℕ)) (c : List ℕ)
    → no_repeats xs ≡ true
    → among c xs ≡ false
    → no_repeats (xs ++ c ∷ []) ≡ true
unfolding among
no_repeats-append [] c h k = refl
no_repeats-append (x ∷ xs) c h k =
    ground (arith, no_repeats-append xs c, among-append x xs (c ∷ []), same_comm x c)

same_or :
    (x c : List ℕ) (seen : List (List ℕ))
    → among c seen ≡ true
    → (among x seen || same x c) ≡ among x seen
same_or x c seen h = elim (Bool-cases (same x c)) [
  | inl e ↦
      let k : among x seen ≡ true = ap (λ y. among y seen) (eq_of_same x c e) ∙ h in
      ground (arith, k, e)
  | inr e ↦ ground (arith, e)
]

module _ (refused : List ℕ → Bool) (canonical : List ℕ → List ℕ) where
  -- The canonical forms of the answers.
  abbrev pub canonical_all : List (List ℕ) → List (List ℕ)
  canonical_all [] = []
  canonical_all (a ∷ rest) = canonical a ∷ canonical_all rest

  among-each_once :
      (x : List ℕ) (seen rest : List (List ℕ))
      → among x (each_once refused canonical seen rest)
        ≡ (among x seen || among x (canonical_all rest))
  unfolding each_once among
  among-each_once x seen [] = ground arith
  among-each_once x seen (a ∷ rest) = elim (Bool-cases (among (canonical a) seen)) [
    | inl old ↦
        rw old (among-each_once x seen rest ∙ ground (arith, same_or x (canonical a) seen old))
    | inr new ↦ rw new (
        among-each_once x (seen ++ canonical a ∷ []) rest
        ∙ ground (arith, among-append x seen (canonical a ∷ [])))
  ]

  no_repeats-each_once :
      (seen rest : List (List ℕ))
      → no_repeats seen ≡ true
      → no_repeats (each_once refused canonical seen rest) ≡ true
  unfolding each_once
  no_repeats-each_once seen [] h = h
  no_repeats-each_once seen (a ∷ rest) h = elim (Bool-cases (among (canonical a) seen)) [
    | inl old ↦ rw old (no_repeats-each_once seen rest h)
    | inr new ↦ rw new (
        no_repeats-each_once (seen ++ canonical a ∷ []) rest
          (no_repeats-append seen (canonical a) h new))
  ]

  any_refused-none :
      (found : List (List ℕ))
      → any_refused refused canonical found ≡ false
      → All (λ a. refused a ≡ false) found
  unfolding any_refused
  any_refused-none [] h = tt
  any_refused-none (a ∷ rest) h = (ground (arith, h), any_refused-none rest (ground (arith, h)))

  -- The addresses come from these answers, of which there is one and none is refused, each once.
  abbrev pub IsVetted : List (List ℕ) → List (List ℕ) → Type 0
  IsVetted found addresses =
      (is_empty found ≡ false)
      × All (λ a. refused a ≡ false) found
      × ((x : List ℕ) → among x addresses ≡ among x (canonical_all found))
      × (no_repeats addresses ≡ true)

  vet_answers-IsVetted :
      (found addresses : List (List ℕ))
      → vet_answers refused canonical found ≡ ok addresses
      → IsVetted found addresses
  unfolding vet_answers among
  vet_answers-IsVetted found addresses h = elim (Bool-cases (is_empty found)) [
    | inl bare ↦ cc (rw bare at h)
    | inr some_found ↦ elim (Bool-cases (any_refused refused canonical found)) [
      | inl bad ↦ cc (rw some_found at rw bad at h)
      | inr good ↦
          let e : each_once refused canonical [] found ≡ addresses =
            ground (arith, h, some_found, good) in
          (
            some_found,
            any_refused-none found good,
            (λ x. ap (among x) (sym e) ∙ among-each_once x [] found),
            ap no_repeats (sym e) ∙ no_repeats-each_once [] found refl,
          )
    ]
  ]

  vet_lookup-IsVetted :
      (l : Lookup) (addresses : List (List ℕ))
      → vet_lookup refused canonical l ≡ ok addresses
      → (found : List (List ℕ)) × (l ≡ answers found) × IsVetted found addresses
  unfolding vet_lookup
  vet_lookup-IsVetted (answers found) addresses h =
      (found, refl, vet_answers-IsVetted found addresses h)
  vet_lookup-IsVetted late addresses h = cc
  vet_lookup-IsVetted raised addresses h = cc
  vet_lookup-IsVetted own_error addresses h = cc

  -- Where `_vet` gives addresses to connect to, the target is an address, or its name was resolved:
  -- there was an answer, none of the answers is one that the policy refuses, and the addresses are
  -- the answers in canonical form, each once.
  pub vet-IsVetted :
      (resolver : List ℕ → ℕ → Lookup) (t : Target) (addresses : List (List ℕ))
      → vet refused canonical resolver t ≡ ok addresses
      → (found : List (List ℕ)) × (lookup_of resolver t ≡ answers found) × IsVetted found addresses
  unfolding vet
  vet-IsVetted resolver t addresses h = vet_lookup-IsVetted (lookup_of resolver t) addresses h
