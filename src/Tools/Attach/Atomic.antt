-- ===== src/Tools/Attach/Atomic.antt =====
-- What `attach` and `detach` of `ToolBridge` leave callable.
use mathlib.Core.List.{reverse, reverse-append}
use pydeno.Prelude.{
  ℕ, ◌≡◌, refl, ◌∙◌, ap, true, false, not, ◌&&◌, ◌||◌, Option, none, some, List, [], ◌∷◌, ◌++◌,
  Result, ok, err, arith, ==_iff, All,
}
use pydeno.Tools.Bridge.{ToolBridge}
use pydeno.Tools.Runtime.{Registry, mem}
use pydeno.Tools.Attach.{
  after_bind, after_bind_object, bind_each, revoke_each, settle, install, attach, count_true,
  detach_loop, detach,
}

mem-append : (u : ℕ) (xs ys : List ℕ) → mem u (xs ++ ys) ≡ (mem u xs || mem u ys)
mem-append u [] ys = refl
mem-append u (x ∷ xs) ys = ground (arith, mem-append u xs ys)

mem-reverse : (u : ℕ) (xs : List ℕ) → mem u (reverse xs) ≡ mem u xs
mem-reverse u [] = refl
mem-reverse u (x ∷ xs) =
    ap (mem u) (reverse-append (x ∷ []) xs)
    ∙ mem-append u (reverse xs) (x ∷ [])
    ∙ ground (arith, mem-reverse u xs)

module _ {F : Type 0} (registry : Registry F) where
  open registry use {
    Runtime, live, bind_function, bind_object, revoke_op, bind-fresh, live-bind, bind_object-fresh,
    live-bind_object, live-revoke, tool, tool-bind, tool-bind_object,
  }

  -- `r` has the capabilities of `r₀` and the tokens `added`, none of which `r₀` had.
  record Adds (r₀ : Runtime) (added : List ℕ) (r : Runtime) : Type 0 where
    fresh : (u : ℕ) → mem u added ≡ true → live r₀ u ≡ false
    grown : (u : ℕ) → live r u ≡ (mem u added || live r₀ u)

  abbrev AddsEither : Runtime → Result (List ℕ) (List ℕ) × Runtime → Type 0
  AddsEither r₀ (ok added, r) = Adds r₀ added r
  AddsEither r₀ (err added, r) = Adds r₀ added r

  Adds-bind :
      (r₀ r r' : Runtime) (added : List ℕ) (n : List ℕ) (f : F) (t : ℕ)
      → bind_function n f r ≡ some (t, r')
      → Adds r₀ added r
      → Adds r₀ (added ++ t ∷ []) r'
  Adds-bind r₀ r r' added n f t e a = record {
    fresh = λ u h. ground (
      arith,
      mem-append u added (t ∷ []),
      a.fresh u,
      a.grown u,
      bind-fresh n f r t r' e,
      ==_iff u t,
    );
    grown = λ u. ground (arith, mem-append u added (t ∷ []), a.grown u, live-bind n f r t r' e u);
  }

  after_bind-Adds :
      (o : Option (ℕ × Runtime)) (n : List ℕ) (f : F) (r₀ r : Runtime) (added : List ℕ)
      (loop : List ℕ → Runtime → Result (List ℕ) (List ℕ) × Runtime)
      → bind_function n f r ≡ o
      → Adds r₀ added r
      → ((more : List ℕ) (r' : Runtime) → Adds r₀ more r' → AddsEither r₀ (loop more r'))
      → AddsEither r₀ (after_bind registry o added r loop)
  after_bind-Adds none n f r₀ r added loop e a ih = a
  after_bind-Adds (some (t, r')) n f r₀ r added loop e a ih =
      ih (added ++ t ∷ []) r' (Adds-bind r₀ r r' added n f t e a)

  bind_each-Adds :
      (wrapped : List (List ℕ × F)) (r₀ r : Runtime) (added : List ℕ)
      → Adds r₀ added r
      → AddsEither r₀ (bind_each registry wrapped added r)
  unfolding bind_each
  bind_each-Adds [] r₀ r added a = a
  bind_each-Adds ((n, f) ∷ rest) r₀ r added a =
      after_bind-Adds (bind_function n f r) n f r₀ r added (bind_each registry rest) refl a
        (λ more r' b. bind_each-Adds rest r₀ r' more b)

  -- Each of these tools has a token among those added, which stands for it.
  abbrev pub AreInstalled : List ℕ → Runtime → List (List ℕ × F) → Type 0
  AreInstalled added r tools = All (λ f. (t : ℕ) × (mem t added ≡ true) × (tool r t ≡ some f)) tools

  -- The loop binds these tools, and what was there before still stands for what it did.
  record Binds (r : Runtime) (added : List ℕ) (tools : List (List ℕ × F)) (added' : List ℕ)
      (r' : Runtime) : Type 0 where
    kept : (u : ℕ) → live r u ≡ true → tool r' u ≡ tool r u
    more : (u : ℕ) → mem u added ≡ true → mem u added' ≡ true
    installed : AreInstalled added' r' tools

  abbrev BindsAll :
      Runtime → List ℕ → List (List ℕ × F) → Result (List ℕ) (List ℕ) × Runtime → Type 0
  BindsAll r added tools (ok added', r') = Binds r added tools added' r'
  BindsAll r added tools (err added', r') = Unit

  Binds-bind :
      (n : List ℕ) (f : F) (rest : List (List ℕ × F)) (r r₁ : Runtime) (added : List ℕ) (t : ℕ)
      (s : Result (List ℕ) (List ℕ) × Runtime)
      → bind_function n f r ≡ some (t, r₁)
      → BindsAll r₁ (added ++ t ∷ []) rest s
      → BindsAll r added ((n, f) ∷ rest) s
  Binds-bind n f rest r r₁ added t (err added', r') e b = tt
  Binds-bind n f rest r r₁ added t (ok added', r') e b = record {
    kept = λ u l.
        b.kept u (ground (arith, live-bind n f r t r₁ e u, l))
        ∙ ground (arith, tool-bind n f r t r₁ e u, bind-fresh n f r t r₁ e, ==_iff u t, l);
    more = λ u m. b.more u (ground (arith, mem-append u added (t ∷ []), m));
    installed = (
      (
        t,
        b.more t (ground (arith, mem-append t added (t ∷ []), ==_iff t t)),
        b.kept t (ground (arith, live-bind n f r t r₁ e t, ==_iff t t))
            ∙ ground (arith, tool-bind n f r t r₁ e t, ==_iff t t),
      ),
      b.installed,
    );
  }

  after_bind-BindsAll :
      (o : Option (ℕ × Runtime)) (n : List ℕ) (f : F) (rest : List (List ℕ × F)) (r : Runtime)
      (added : List ℕ) (loop : List ℕ → Runtime → Result (List ℕ) (List ℕ) × Runtime)
      → bind_function n f r ≡ o
      → ((more : List ℕ) (r₁ : Runtime) → BindsAll r₁ more rest (loop more r₁))
      → BindsAll r added ((n, f) ∷ rest) (after_bind registry o added r loop)
  after_bind-BindsAll none n f rest r added loop e ih = tt
  after_bind-BindsAll (some (t, r₁)) n f rest r added loop e ih =
      Binds-bind n f rest r r₁ added t (loop (added ++ t ∷ []) r₁) e (ih (added ++ t ∷ []) r₁)

  bind_each-BindsAll :
      (tools : List (List ℕ × F)) (r : Runtime) (added : List ℕ)
      → BindsAll r added tools (bind_each registry tools added r)
  unfolding bind_each
  bind_each-BindsAll [] r added = record { kept = λ u l. refl; more = λ u m. m; installed = tt }
  bind_each-BindsAll ((n, f) ∷ rest) r added =
      after_bind-BindsAll (bind_function n f r) n f rest r added (bind_each registry rest) refl
        (λ more r₁. bind_each-BindsAll rest r₁ more)

  live-revoke_each :
      (ts : List ℕ) (r : Runtime) (u : ℕ)
      → live (revoke_each registry ts r) u ≡ (live r u && not (mem u ts))
  unfolding revoke_each
  live-revoke_each [] r u = ground arith
  live-revoke_each (t ∷ ts) r u =
      ground (arith, live-revoke_each ts (revoke_op t r).1 u, live-revoke t r u)

  live-detach_loop :
      (ts : List ℕ) (n : ℕ) (r : Runtime) (u : ℕ)
      → live (detach_loop registry ts n r).1 u ≡ (live r u && not (mem u ts))
  unfolding detach_loop
  live-detach_loop [] n r u = ground arith
  live-detach_loop (t ∷ ts) n r u = ground (
    arith,
    live-detach_loop ts (count_true registry (revoke_op t r).0 n) (revoke_op t r).1 u,
    live-revoke t r u,
  )

  -- `detach` forgets its tokens, and afterwards exactly the other capabilities of the runtime can be
  -- called.
  pub live-detach :
      (tokens : List ℕ) (r : Runtime) (u : ℕ)
      → ((detach registry tokens r).1 ≡ [])
        × (live (detach registry tokens r).2 u ≡ (live r u && not (mem u tokens)))
  unfolding detach
  live-detach tokens r u =
      (refl, rw (← mem-reverse u tokens) (live-detach_loop (reverse tokens) 0 r u))

  -- An attach of these tools adds tokens to those that were kept, all of them new capabilities of the
  -- runtime and one for each tool, or raises and leaves the tokens and the capabilities as they were.
  abbrev pub IsAllOrNothing :
      List (List ℕ × F)
      → Runtime
      → List ℕ
      → Result (Unit {0}) (Unit {0}) × List ℕ × Runtime
      → Type 0
  IsAllOrNothing tools r₀ tokens (ok _, tokens', r) =
      (added : List ℕ) × (tokens' ≡ tokens ++ added)
      × AreInstalled added r tools
      × ((u : ℕ) → live r u ≡ (mem u added || live r₀ u))
      × ((u : ℕ) → mem u added ≡ true → live r₀ u ≡ false)
  IsAllOrNothing tools r₀ tokens (err _, tokens', r) =
      (tokens' ≡ tokens) × ((u : ℕ) → live r u ≡ live r₀ u)

  settle-IsAllOrNothing :
      (tools : List (List ℕ × F)) (r₀ : Runtime) (tokens : List ℕ)
      (s : Result (List ℕ) (List ℕ) × Runtime)
      → AddsEither r₀ s
      → BindsAll r₀ [] tools s
      → IsAllOrNothing tools r₀ tokens (settle registry tokens s)
  unfolding settle
  settle-IsAllOrNothing tools r₀ tokens (ok added, r) a b =
      (added, refl, b.installed, a.grown, a.fresh)
  settle-IsAllOrNothing tools r₀ tokens (err added, r) a b =
      (refl, λ u. ground (arith, live-revoke_each added r u, a.grown u, a.fresh u))

  after_bind_object-IsAllOrNothing :
      (o : Option (List ℕ × Runtime)) (n : List ℕ) (tools : List (List ℕ × F)) (tokens : List ℕ)
      (r : Runtime)
      → bind_object n tools r ≡ o
      → IsAllOrNothing tools r tokens (after_bind_object registry o tokens r)
  after_bind_object-IsAllOrNothing none n tools tokens r e = (refl, λ u. refl)
  after_bind_object-IsAllOrNothing (some (added, r')) n tools tokens r e = (
    added,
    refl,
    tool-bind_object n tools r added r' e,
    live-bind_object n tools r added r' e,
    bind_object-fresh n tools r added r' e,
  )

  install-IsAllOrNothing :
      (namespace : Option (List ℕ)) (tools : List (List ℕ × F)) (tokens : List ℕ) (r : Runtime)
      → IsAllOrNothing tools r tokens (install registry namespace tools tokens r)
  unfolding install
  install-IsAllOrNothing none tools tokens r =
      settle-IsAllOrNothing tools r tokens (bind_each registry tools [] r)
        (bind_each-Adds tools r r [] (record { fresh = λ u h. cc; grown = λ u. refl }))
        (bind_each-BindsAll tools r [])
  install-IsAllOrNothing (some n) tools tokens r =
      after_bind_object-IsAllOrNothing (bind_object n tools r) n tools tokens r refl

  pub attach-IsAllOrNothing :
      (b : ToolBridge F) (tokens : List ℕ) (r : Runtime)
      → IsAllOrNothing b.tools r tokens (attach registry b tokens r)
  unfolding attach
  attach-IsAllOrNothing b tokens r = install-IsAllOrNothing b.namespace b.tools tokens r

  detach-IsAllOrNothing :
      (tools : List (List ℕ × F)) (r₀ : Runtime)
      (s : Result (Unit {0}) (Unit {0}) × List ℕ × Runtime) (u : ℕ)
      → IsAllOrNothing tools r₀ [] s
      → live (detach registry s.1 s.2).2 u ≡ live r₀ u
  detach-IsAllOrNothing tools r₀ (ok _, tokens, r) u (added, kept, installed, grown, fresh) =
      (live-detach tokens r u).1 ∙ ground (arith, ap (mem u) kept, grown u, fresh u)
  detach-IsAllOrNothing tools r₀ (err _, tokens, r) u (kept, same) =
      (live-detach tokens r u).1 ∙ ground (arith, ap (mem u) kept, same u)

  -- After a first `attach`, successful or not, `detach` leaves the runtime with exactly the
  -- capabilities that it had before.
  pub live-detach-attach :
      (b : ToolBridge F) (r : Runtime) (u : ℕ)
      → let (_, tokens, r') = attach registry b [] r in
        live (detach registry tokens r').2 u ≡ live r u
  live-detach-attach b r u =
      detach-IsAllOrNothing b.tools r (attach registry b [] r) u (attach-IsAllOrNothing b [] r)
