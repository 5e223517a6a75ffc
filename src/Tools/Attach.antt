-- ===== src/Tools/Attach.antt =====
-- `attach` and `detach` of `ToolBridge`, python/pydeno/_tools.py, on one runtime. `tokens` is what
-- the bridge keeps for that runtime, nothing where it keeps no entry.
pub mod Atomic
use mathlib.Core.List.{reverse}
use pydeno.Prelude.{
  ℕ, zero, suc, ◌+◌, ◌≡◌, refl, sym, ◌∙◌, ap, Bool, true, false, not, ◌&&◌, ◌||◌, Option, none,
  some, List, [], ◌∷◌, ◌++◌, Result, ok, err, ◌==◌, arith, ==_iff, Bool-cases, inl, inr,
}
use pydeno.Tools.Bridge.{ToolBridge}
use pydeno.Tools.Runtime.{Registry, mem}

module _ {F : Type 0} (registry : Registry F) where
  open registry use {
    Runtime, live, bind_function, bind_object, revoke_op, bind-fresh, live-bind, bind_object-fresh,
    live-bind_object, live-revoke,
  }

  -- One bind of the loop of `attach`, and then the rest of the loop.
  abbrev pub after_bind :
      Option (ℕ × Runtime)
      → List ℕ
      → Runtime
      → (List ℕ → Runtime → Result (List ℕ) (List ℕ) × Runtime)
      → Result (List ℕ) (List ℕ) × Runtime
  after_bind none added r loop = (err added, r)
  after_bind (some (t, r')) added r loop = loop (added ++ t ∷ []) r'

  -- The loop of `attach` without a namespace: the tokens added, also where a bind raises.
  unfoldable pub bind_each :
      List (List ℕ × F) → List ℕ → Runtime → Result (List ℕ) (List ℕ) × Runtime
  bind_each [] added r = (ok added, r)
  bind_each ((n, f) ∷ rest) added r = after_bind (bind_function n f r) added r (bind_each rest)

  -- `for token in added: runtime.revoke_op(token)`
  unfoldable pub revoke_each : List ℕ → Runtime → Runtime
  revoke_each [] r = r
  revoke_each (t ∷ ts) r = revoke_each ts (revoke_op t r).1

  -- The handler of the loop, and `setdefault(runtime, []).extend(added)`.
  unfoldable pub settle :
      List ℕ → Result (List ℕ) (List ℕ) × Runtime → Result (Unit {0}) (Unit {0}) × List ℕ × Runtime
  unfolding revoke_each
  settle tokens (ok added, r) = (ok tt, tokens ++ added, r)
  settle tokens (err added, r) = (err tt, tokens, revoke_each added r)

  abbrev pub after_bind_object :
      Option (List ℕ × Runtime) → List ℕ → Runtime → Result (Unit {0}) (Unit {0}) × List ℕ × Runtime
  after_bind_object none tokens r = (err tt, tokens, r)
  after_bind_object (some (added, r')) tokens r = (ok tt, tokens ++ added, r')

  unfoldable pub install :
      Option (List ℕ)
      → List (List ℕ × F)
      → List ℕ
      → Runtime
      → Result (Unit {0}) (Unit {0}) × List ℕ × Runtime
  unfolding bind_each settle
  install none wrapped tokens r = settle tokens (bind_each wrapped [] r)
  install (some name) wrapped tokens r = after_bind_object (bind_object name wrapped r) tokens r

  -- `attach`
  unfoldable pub attach :
      ToolBridge F → List ℕ → Runtime → Result (Unit {0}) (Unit {0}) × List ℕ × Runtime
  unfolding install
  attach b tokens r = install b.namespace b.tools tokens r

  abbrev count_true : Bool → ℕ → ℕ
  count_true true n = suc n
  count_true false n = n

  -- `while tokens: ...; tokens.pop()`, the last token first
  unfoldable pub detach_loop : List ℕ → ℕ → Runtime → ℕ × Runtime
  detach_loop [] revoked r = (revoked, r)
  detach_loop (t ∷ ts) revoked r =
      let (done, r') = revoke_op t r in detach_loop ts (count_true done revoked) r'

  -- `detach`: the number of capabilities revoked, and no tokens kept
  unfoldable pub detach : List ℕ → Runtime → ℕ × List ℕ × Runtime
  unfolding detach_loop
  detach tokens r = let (revoked, r') = detach_loop (reverse tokens) 0 r in (revoked, [], r')
