-- ===== src/Tools/Bridge.antt =====
-- `ToolBridge.__init__` and the call budget of python/pydeno/_tools.py. `F` is the type of the
-- host's functions, of which the bridge knows only whether they can be called.
use pydeno.Prelude.{
  ℕ, ◌+◌, ◌-◌, Bool, true, false, Option, none, some, List, [], ◌∷◌, Result, ok, err, ◌>>=◌, leb,
  if◌then◌else◌,
}
use pydeno.Tools.Names.{Name, Error, type_error, value_error, check_name}

-- `on_exhausted`
pub data OnExhausted : Type 0 where
  raise silent : OnExhausted

-- An argument of `on_exhausted`: one of the two words, or anything else.
pub data Word : Type 0 where
  word : OnExhausted → Word
  unknown : Word

-- An argument of `max_calls`: None, an int of either sign, or something that is no int (a bool too).
pub data Quota : Type 0 where
  unlimited : Quota
  calls : ℕ → Quota
  negative : Quota
  no_int : Quota

pub record ToolBridge {ℓ} (F : Type ℓ) : Type ℓ where
  pub tools : List (List ℕ × F)
  pub namespace : Option (List ℕ)
  pub max_calls : Option ℕ
  pub on_exhausted : OnExhausted
  pub calls_made : ℕ

unfoldable pub check_quota : Quota → Result Error (Option ℕ)
check_quota unlimited = ok none
check_quota (calls n) = ok (some n)
check_quota negative = err value_error
check_quota no_int = err type_error

unfoldable pub check_word : Word → Result Error OnExhausted
check_word (word w) = ok w
check_word unknown = err value_error

unfoldable pub check_namespace : Option Name → Result Error (Option (List ℕ))
check_namespace none = ok none
check_namespace (some n) = do checked ← check_name n; ok (some checked)

module _ {ℓ} {F : Type ℓ} (callable : F → Bool) where
  -- the loop over `tools.items()`
  unfoldable pub check_tools : List (Name × F) → Result Error (List (List ℕ × F))
  check_tools [] = ok []
  check_tools ((n, f) ∷ rest) = do
    checked ← check_name n
    others ← (if callable f then check_tools rest else err type_error)
    ok ((checked, f) ∷ others)

  -- `__init__`; `tools` is none where it is no mapping.
  unfoldable pub init :
      Option (List (Name × F)) → Quota → Option Name → Word → Result Error (ToolBridge F)
  unfolding check_quota check_word check_namespace check_tools
  init none quota namespace on_exhausted = err type_error
  init (some tools) quota namespace on_exhausted = do
    chosen ← check_word on_exhausted
    limit ← check_quota quota
    global ← check_namespace namespace
    checked ← check_tools tools
    ok (record {
      tools = checked;
      namespace = global;
      max_calls = limit;
      on_exhausted = chosen;
      calls_made = 0;
    })

-- What `_spend` gives, or `ToolBudgetError`.
unfoldable pub refuse : OnExhausted → Result (Unit {0}) Bool
refuse raise = err tt
refuse silent = ok false

unfoldable pub is_exhausted : Option ℕ → ℕ → Bool
is_exhausted none made = false
is_exhausted (some limit) made = leb limit made

module _ {ℓ} {F : Type ℓ} where
  unfoldable pub reset_budget : ToolBridge F → ToolBridge F
  reset_budget b = record b { calls_made = 0 }

  unfoldable pub calls_remaining : ToolBridge F → Option ℕ
  calls_remaining b = elim b.max_calls [ none ↦ none | some limit ↦ some (limit - b.calls_made) ]

  -- `_spend`
  unfoldable pub spend : ToolBridge F → Result (Unit {0}) Bool × ToolBridge F
  unfolding refuse is_exhausted
  spend b =
      if is_exhausted b.max_calls b.calls_made
      then (refuse b.on_exhausted, b)
      else (ok true, record b { calls_made = b.calls_made + 1 })

  -- The shim that `_wrap` makes of a tool, sync or async: `run` calls the tool. None where the
  -- tool was not called and the guest gets None.
  unfoldable pub shim {κ} :
      {R : Type κ}
      → (F → R)
      → F
      → Result (Unit {0}) Bool × ToolBridge F
      → Result (Unit {0}) (Option R) × ToolBridge F
  shim run f (ok true, b) = (ok (some (run f)), b)
  shim run f (ok false, b) = (ok none, b)
  shim run f (err e, b) = (err e, b)

  unfoldable pub call {κ} :
      {R : Type κ} → (F → R) → ToolBridge F → F → Result (Unit {0}) (Option R) × ToolBridge F
  unfolding spend shim
  call run b f = shim run f (spend b)
