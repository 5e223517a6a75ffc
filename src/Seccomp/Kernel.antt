-- ===== src/Seccomp/Kernel.antt =====
-- The kernel's side of python/pydeno/_sandbox.py: a classic BPF machine, taken by what its documentation
-- says of the seven instructions that the filter uses, and how it runs lines with labels.
use Prim.Native.Nat.{bit_and}
use text.Mathlib.Text.{◌==◌ as str_eq}
use pydeno.Prelude.{
  ℕ, ◌≡◌, String, Bool, true, false, Option, none, some, List, [], ◌∷◌, leb, ◌==◌, if◌then◌else◌,
  drop,
}
use pydeno.Seccomp.{Line, ins, label, Instruction}
use pydeno.Seccomp.Tables.{ld_w_abs, jeq_k, jge_k, jset_k, ret_k, and_k}

-- `struct seccomp_data`: its 32-bit words by their offset.
abbrev pub Call : Type 0
Call = ℕ → ℕ

-- The instructions that jump, by their test of the accumulator.
pub data Test : Type 0 where
  equal at_least any_bit : Test

abbrev pub test_code : Test → ℕ
test_code equal = jeq_k
test_code at_least = jge_k
test_code any_bit = jset_k

abbrev pub holds : Test → ℕ → ℕ → Bool
holds equal a k = a == k
holds at_least a k = leb k a
holds any_bit a k = if bit_and a k == 0 then false else true

abbrev pub instruction : ℕ → ℕ → ℕ → ℕ → Instruction
instruction code jt jf k = record { code = code; jt = jt; jf = jf; k = k }

-- A machine that runs the instructions that are left, with an accumulator, up to the value returned.
pub record Bpf : Type 0 where
  pub run : Call → ℕ → List Instruction → Option ℕ
  pub run_load :
      (d : Call) (a jt jf k : ℕ) (rest : List Instruction)
      → run d a (instruction ld_w_abs jt jf k ∷ rest) ≡ run d (d k) rest
  pub run_mask :
      (d : Call) (a jt jf k : ℕ) (rest : List Instruction)
      → run d a (instruction and_k jt jf k ∷ rest) ≡ run d (bit_and a k) rest
  pub run_test :
      (t : Test) (d : Call) (a jt jf k : ℕ) (rest : List Instruction)
      → run d a (instruction (test_code t) jt jf k ∷ rest)
        ≡ run d a (drop (if holds t a k then jt else jf) rest)
  pub run_return :
      (d : Call) (a jt jf k : ℕ) (rest : List Instruction)
      → run d a (instruction ret_k jt jf k ∷ rest) ≡ some k

-- The lines behind the next definition of a label.
unfoldable pub after : String → List Line → List Line
after name [] = []
after name (ins code jt jf k ∷ lines) = after name lines
after name (label other ∷ lines) =
    let later = after name lines in if str_eq name other then lines else later

abbrev pub goto : Option String → List Line → List Line
goto none lines = lines
goto (some name) lines = after name lines

-- `Runs d a lines v`: lines, run with labels in place of offsets, return `v`.
pub data Runs (d : Call) : ℕ → List Line → ℕ → Type 0 where
  loads :
      {a v : ℕ} {lines : List Line} (k : ℕ)
      → Runs d (d k) lines v
      → Runs d a (ins ld_w_abs none none k ∷ lines) v
  masks :
      {a v : ℕ} {lines : List Line} (k : ℕ)
      → Runs d (bit_and a k) lines v
      → Runs d a (ins and_k none none k ∷ lines) v
  jumps :
      {a v : ℕ} {lines : List Line} (t : Test) (jt jf : Option String) (k : ℕ)
      → Runs d a (goto (if holds t a k then jt else jf) lines) v
      → Runs d a (ins (test_code t) jt jf k ∷ lines) v
  returns : {a : ℕ} {lines : List Line} (k : ℕ) → Runs d a (ins ret_k none none k ∷ lines) k
  passes :
      {a v : ℕ} {lines : List Line} (name : String)
      → Runs d a lines v
      → Runs d a (label name ∷ lines) v
