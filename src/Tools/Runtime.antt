-- ===== src/Tools/Runtime.antt =====
-- What `ToolBridge` uses of a runtime: the registry of host functions that a guest can call, which
-- the native extension keeps. A token is the capability behind a bound name.
use pydeno.Prelude.{
  ℕ, ◌≡◌, Bool, true, false, not, ◌&&◌, ◌||◌, Option, some, List, [], ◌∷◌, ◌==◌, if◌then◌else◌, All,
}

abbrev pub mem : ℕ → List ℕ → Bool
mem t [] = false
mem t (u ∷ us) = t == u || mem t us

pub record Registry (F : Type 0) : Type 1 where
  pub Runtime : Type 0
  -- whether a token can be called
  pub live : Runtime → ℕ → Bool
  -- the name and the function that a token was bound for
  pub tool : Runtime → ℕ → Option (List ℕ × F)
  -- `bind_function`, and `bind_object`, which checks every name before it installs any; none where
  -- they raise, and the runtime is then as it was
  pub bind_function : List ℕ → F → Runtime → Option (ℕ × Runtime)
  pub bind_object : List ℕ → List (List ℕ × F) → Runtime → Option (List ℕ × Runtime)
  pub revoke_op : ℕ → Runtime → Bool × Runtime
  -- a new token is one that was not live
  pub bind-fresh :
      (n : List ℕ) (f : F) (r : Runtime) (t : ℕ) (r' : Runtime)
      → bind_function n f r ≡ some (t, r')
      → live r t ≡ false
  pub live-bind :
      (n : List ℕ) (f : F) (r : Runtime) (t : ℕ) (r' : Runtime)
      → bind_function n f r ≡ some (t, r')
      → (u : ℕ) → live r' u ≡ (u == t || live r u)
  pub tool-bind :
      (n : List ℕ) (f : F) (r : Runtime) (t : ℕ) (r' : Runtime)
      → bind_function n f r ≡ some (t, r')
      → (u : ℕ) → tool r' u ≡ (if u == t then some (n, f) else tool r u)
  pub bind_object-fresh :
      (n : List ℕ) (fs : List (List ℕ × F)) (r : Runtime) (ts : List ℕ) (r' : Runtime)
      → bind_object n fs r ≡ some (ts, r')
      → (u : ℕ) → mem u ts ≡ true
      → live r u ≡ false
  pub live-bind_object :
      (n : List ℕ) (fs : List (List ℕ × F)) (r : Runtime) (ts : List ℕ) (r' : Runtime)
      → bind_object n fs r ≡ some (ts, r')
      → (u : ℕ) → live r' u ≡ (mem u ts || live r u)
  -- each function of the mapping has a token
  pub tool-bind_object :
      (n : List ℕ) (fs : List (List ℕ × F)) (r : Runtime) (ts : List ℕ) (r' : Runtime)
      → bind_object n fs r ≡ some (ts, r')
      → All (λ f. (t : ℕ) × (mem t ts ≡ true) × (tool r' t ≡ some f)) fs
  pub live-revoke :
      (t : ℕ) (r : Runtime) (u : ℕ) → live (revoke_op t r).1 u ≡ (live r u && not (u == t))
