-- ===== src/Fetch/Vet.antt =====
-- `_vet` of python/pydeno/tools/http_fetch.py. `resolver` stands for the host's name resolution and
-- what becomes of it in time, `refused` for `_address_refused`, and `canonical` for
-- `str(ipaddress.ip_address(str(a)))`.
pub mod Vetted
use pydeno.Prelude.{
  ℕ, ◌≡◌, refl, Bool, true, false, not, ◌&&◌, ◌||◌, Option, none, some, List, [], ◌∷◌, ◌++◌, Result,
  ok, err, All, is_empty, same, if◌then◌else◌, arith, Bool-cases, inl, inr,
}
use pydeno.Fetch.Target.{Target}

-- How a lookup ends; an exception of the tool itself goes through.
pub data Lookup : Type 0 where
  answers : List (List ℕ) → Lookup
  late : Lookup
  raised : Lookup
  own_error : Lookup

pub data FetchError : Type 0 where
  blocked timeout failed own : FetchError

-- The answers for a target: an address answers for itself.
unfoldable pub lookup_of : (List ℕ → ℕ → Lookup) → Target → Lookup
lookup_of resolver t = if t.is_ip then answers (t.host ∷ []) else resolver t.host t.port

unfoldable pub among : List ℕ → List (List ℕ) → Bool
among a [] = false
among a (b ∷ bs) = same a b || among a bs

module _ (refused : List ℕ → Bool) (canonical : List ℕ → List ℕ) where
  unfoldable pub any_refused : List (List ℕ) → Bool
  any_refused [] = false
  any_refused (a ∷ rest) = refused a || any_refused rest

  -- The loop over `answers`: each address once, at its first place.
  unfoldable pub each_once : List (List ℕ) → List (List ℕ) → List (List ℕ)
  unfolding among
  each_once seen [] = seen
  each_once seen (a ∷ rest) =
      let skip = each_once seen rest in
      let keep = each_once (seen ++ canonical a ∷ []) rest in
      if among (canonical a) seen then skip else keep

  unfoldable pub vet_answers : List (List ℕ) → Result FetchError (List (List ℕ))
  unfolding any_refused each_once
  vet_answers found =
      if is_empty found
      then err failed
      else if any_refused found
      then err blocked
      else ok (each_once [] found)

  unfoldable pub vet_lookup : Lookup → Result FetchError (List (List ℕ))
  unfolding vet_answers
  vet_lookup (answers found) = vet_answers found
  vet_lookup late = err timeout
  vet_lookup raised = err failed
  vet_lookup own_error = err own

  -- `_vet`
  unfoldable pub vet : (List ℕ → ℕ → Lookup) → Target → Result FetchError (List (List ℕ))
  unfolding vet_lookup lookup_of
  vet resolver t = vet_lookup (lookup_of resolver t)
