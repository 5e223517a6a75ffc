-- ===== src/Tools/Budget.antt =====
-- The call budget of `ToolBridge` over every sequence of calls.
use pydeno.Prelude.{
  ℕ, suc, ◌+◌, ◌-◌, ◌≤◌, ◌<◌, min, ◌≡◌, ap, ◌∙◌, Option, none, some, List, [], ◌∷◌, Result, ok, err,
  length, leb, arith, Bool-cases, inl, inr,
}
use pydeno.Tools.Bridge.{ToolBridge, call}

module _ {ℓ κ} {F : Type ℓ} {R : Type κ} (run : F → R) where
  -- The guest's calls one after the other, of any of the tools: the bridge after them, and how many
  -- reached a tool.
  abbrev was_run : Result (Unit {0}) (Option R) → ℕ → ℕ
  was_run (ok (some r)) n = suc n
  was_run (ok none) n = n
  was_run (err e) n = n

  unfoldable pub call_all : ToolBridge F → List F → ℕ × ToolBridge F
  call_all b [] = (0, b)
  call_all b (f ∷ fs) =
      let (reply, b') = call run b f in let (n, last) = call_all b' fs in (was_run reply n, last)

  call_free :
      (b : ToolBridge F) (limit n : ℕ) (f : F)
      → b.max_calls ≡ some limit
      → b.calls_made < limit
      → ((call run b f).1 ≡ record b { calls_made = b.calls_made + 1 })
        × (was_run (call run b f).0 n ≡ suc n)
  unfolding call
  call_free b limit n f e h = ground arith

  call_spent :
      (b : ToolBridge F) (limit n : ℕ) (f : F)
      → b.max_calls ≡ some limit
      → limit ≤ b.calls_made
      → ((call run b f).1 ≡ b) × (was_run (call run b f).0 n ≡ n)
  unfolding call
  call_spent b limit n f e h = ground arith

  -- Of any number of calls exactly as many reach a tool as the budget has left; the bridge is then as
  -- it was, its tools, namespace, limit and `on_exhausted` included, but for the calls it has made,
  -- which are those of before and one for each call that reached a tool.
  pub call_all_exact :
      (b : ToolBridge F) (limit : ℕ) (fs : List F)
      → b.max_calls ≡ some limit
      → b.calls_made ≤ limit
      → ((call_all b fs).0 ≡ min (length fs) (limit - b.calls_made))
        × ((call_all b fs).1
            ≡ record b { calls_made = b.calls_made + min (length fs) (limit - b.calls_made) })
  unfolding call_all
  call_all_exact b limit [] e h = (omega arith, ap (λ n. record b { calls_made = n }) (omega arith))
  call_all_exact b limit (f ∷ fs) e h = elim (Bool-cases (leb limit b.calls_made)) [
    | inl spent ↦
        let here = call_spent b limit (call_all b fs).0 f e (ground (arith, spent)) in
        let ih = call_all_exact b limit fs e h in
        rw here.0 (
          rw here.1 (
            ground (arith, ih.0, spent),
            ih.1 ∙ ap (λ n. record b { calls_made = n }) (ground (arith, spent)),
          ))
    | inr free ↦
        let b' : ToolBridge F = record b { calls_made = b.calls_made + 1 } in
        let here = call_free b limit (call_all b' fs).0 f e (ground (arith, free)) in
        let ih = call_all_exact b' limit fs e (ground (arith, free)) in
        rw here.0 (
          rw here.1 (
            ground (arith, ih.0, free),
            ih.1 ∙ ap (λ n. record b { calls_made = n }) (ground (arith, free)),
          ))
  ]
