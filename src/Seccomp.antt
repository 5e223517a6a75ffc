-- ===== src/Seccomp.antt =====
-- python/pydeno/_sandbox.py: the assembler inside `_seccomp_program`. What the function appends to
-- `ins`, and the calls of `label` between, stand in one list of lines in the order of the program.
pub mod Tables
pub mod Program
pub mod Kernel
pub mod Nearest
pub mod Assembles
pub mod Blocks
pub mod Policy
pub mod Refines
pub mod Tiers
use text.Mathlib.Text.{◌==◌ as str_eq}
use pydeno.Prelude.{
  ℕ, zero, suc, ◌+◌, ◌-◌, min, String, Bool, true, false, ◌&&◌, Option, none, some, List, [], ◌∷◌,
  ltb, if◌then◌else◌,
}

-- An instruction before its jumps are resolved: the code, the two labels and the constant. Or a label.
pub data Line : Type 0 where
  ins : ℕ → Option String → Option String → ℕ → Line
  label : String → Line

-- `struct sock_filter`
pub record Instruction : Type 0 where
  pub code : ℕ
  pub jt : ℕ
  pub jf : ℕ
  pub k : ℕ

-- `labels[name]`: the positions of a label among the instructions, from a position on.
unfoldable pub positions : String → ℕ → List Line → List ℕ
positions name at [] = []
positions name at (ins code jt jf k ∷ lines) = positions name (suc at) lines
positions name at (label other ∷ lines) =
    let later = positions name at lines in if str_eq name other then at ∷ later else later

-- `min(pos for pos in ... if pos > at)`, none where it raises.
unfoldable pub nearest : ℕ → List ℕ → Option ℕ
nearest at [] = none
nearest at (pos ∷ later) =
    let best = nearest at later in
    if ltb at pos then some (elim best [ none ↦ pos | some other ↦ min pos other ]) else best

-- `target(name, at)`
unfoldable pub target : List Line → String → ℕ → Option ℕ
unfolding nearest positions
target lines name at = elim (nearest at (positions name 0 lines)) [
  | none ↦ none
  | some pos ↦ some (pos - at - 1)
]

-- `target(jt, i) if jt else 0`
unfoldable pub offset : List Line → Option String → ℕ → Option ℕ
unfolding target
offset lines none at = some 0
offset lines (some name) at = target lines name at

-- One round of the final loop, none where the function returns None or raises.
unfoldable pub encode : ℕ → ℕ → Option ℕ → Option ℕ → Option Instruction
encode code k (some jt) (some jf) =
    if ltb jt 256 && ltb jf 256
    then some (record { code = code; jt = jt; jf = jf; k = k })
    else none
encode code k _ _ = none

unfoldable pub append_to :
    Option Instruction → Option (List Instruction) → Option (List Instruction)
append_to (some i) (some rest) = some (i ∷ rest)
append_to _ _ = none

-- The final loop: the instructions from position `at` on, with the jumps resolved in `lines`.
unfoldable pub resolve_from : List Line → ℕ → List Line → Option (List Instruction)
unfolding encode append_to offset
resolve_from lines at [] = some []
resolve_from lines at (label name ∷ rest) = resolve_from lines at rest
resolve_from lines at (ins code jt jf k ∷ rest) =
    append_to (encode code k (offset lines jt at) (offset lines jf at))
      (resolve_from lines (suc at) rest)

unfoldable pub resolve : List Line → Option (List Instruction)
unfolding resolve_from
resolve lines = resolve_from lines 0 lines
