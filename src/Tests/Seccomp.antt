-- ===== src/Tests/Seccomp.antt =====
-- The filter of system calls: python/pydeno/_sandbox.py with a concrete machine, at concrete calls.
use Prim.Native.Nat.{bit_and}
use pydeno.Prelude.{
  ℕ, zero, suc, ◌≡◌, refl, true, false, Option, none, some, List, [], ◌∷◌, ◌==◌, if◌then◌else◌,
  drop,
}
use pydeno.Seccomp.{Instruction, resolve}
use pydeno.Seccomp.Kernel.{Call, Test, equal, at_least, any_bit, test_code, holds, instruction, Bpf}
use pydeno.Seccomp.Tables.{
  numbers, signals, x86_64, ld_w_abs, jeq_k, jge_k, jset_k, ret_k, and_k, ret_allow,
  ret_kill_process, ret_eperm,
}
use pydeno.Seccomp.Nearest.{assemble, resolve-assemble}
use pydeno.Seccomp.Program.{program, kill, seccomp_program}
use pydeno.Seccomp.Policy.{policy}
use pydeno.Seccomp.Refines.{run-seccomp_program}
use pydeno.Seccomp.Tiers.{run_signal, run_kill}

-- A machine: what an instruction does to the accumulator, and how many instructions it skips.
data Effect : Type 0 where
  halt : ℕ → Effect
  go : ℕ → ℕ → Effect

effect : Call → ℕ → Instruction → Effect
effect d a i =
    if i.code == ld_w_abs
    then go (d i.k) 0
    else if i.code == and_k
    then go (bit_and a i.k) 0
    else if i.code == jeq_k
    then go a (if holds equal a i.k then i.jt else i.jf)
    else if i.code == jge_k
    then go a (if holds at_least a i.k then i.jt else i.jf)
    else if i.code == jset_k
    then go a (if holds any_bit a i.k then i.jt else i.jf)
    else halt i.k

execute : Call → ℕ → ℕ → List Instruction → Option ℕ
execute d a skip [] = none
execute d a (suc skip) (i ∷ rest) = execute d a skip rest
execute d a zero (i ∷ rest) = elim (effect d a i) [
  | halt v ↦ some v
  | go a' skip ↦ execute d a' skip rest
]

execute-drop :
    (d : Call) (a skip : ℕ) (rest : List Instruction)
    → execute d a skip rest ≡ execute d a 0 (drop skip rest)
unfolding execute
execute-drop d a zero rest = refl
execute-drop d a (suc skip) [] = refl
execute-drop d a (suc skip) (i ∷ rest) = execute-drop d a skip rest

execute_test :
    (t : Test) (d : Call) (a jt jf k : ℕ) (rest : List Instruction)
    → execute d a 0 (instruction (test_code t) jt jf k ∷ rest)
      ≡ execute d a 0 (drop (if holds t a k then jt else jf) rest)
unfolding execute effect
execute_test equal d a jt jf k rest = execute-drop d a (if holds equal a k then jt else jf) rest
execute_test at_least d a jt jf k rest =
    execute-drop d a (if holds at_least a k then jt else jf) rest
execute_test any_bit d a jt jf k rest = execute-drop d a (if holds any_bit a k then jt else jf) rest

execute_load :
    (d : Call) (a jt jf k : ℕ) (rest : List Instruction)
    → execute d a 0 (instruction ld_w_abs jt jf k ∷ rest) ≡ execute d (d k) 0 rest
unfolding execute effect
execute_load d a jt jf k rest = refl

execute_mask :
    (d : Call) (a jt jf k : ℕ) (rest : List Instruction)
    → execute d a 0 (instruction and_k jt jf k ∷ rest) ≡ execute d (bit_and a k) 0 rest
unfolding execute effect
execute_mask d a jt jf k rest = refl

execute_return :
    (d : Call) (a jt jf k : ℕ) (rest : List Instruction)
    → execute d a 0 (instruction ret_k jt jf k ∷ rest) ≡ some k
unfolding execute effect
execute_return d a jt jf k rest = refl

abbrev machine : Bpf
machine = record {
  run = λ d a code. execute d a 0 code;
  run_load = execute_load;
  run_mask = execute_mask;
  run_test = execute_test;
  run_return = execute_return;
}

-- A call on x86_64, by its number and the low halves of its arguments.
abbrev call : ℕ → ℕ → ℕ → ℕ → Call
call nr arg0 arg1 arg2 at =
    if at == 4
    then 0xC000003E
    else if at == 0
    then nr
    else if at == 16
    then arg0
    else if at == 24
    then arg1
    else arg2

abbrev filter : List Instruction
filter = elim (seccomp_program x86_64 false 77) [ none ↦ [] | some out ↦ out ]

built : seccomp_program x86_64 false 77 ≡ some filter
unfolding seccomp_program
built = refl

run-seccomp_program_example :
    (out : List Instruction) × (seccomp_program x86_64 false 77 ≡ some out)
    × ((d : Call) → machine.run d 0 out ≡ some (policy d 77 x86_64 false))
run-seccomp_program_example = run-seccomp_program x86_64 false 77 machine

run_signal_example : machine.run (call 62 1 9 0) 0 filter ≡ some ret_eperm
unfolding numbers signals
run_signal_example = run_signal machine x86_64 false 77 (call 62 1 9 0) filter built refl refl

run_kill_example : machine.run (call 59 0 0 0) 0 filter ≡ some ret_kill_process
unfolding kill
run_kill_example = run_kill machine x86_64 false 77 (call 59 0 0 0) filter built refl refl

-- Evaluation of the filter itself.
read_allowed : machine.run (call 0 3 0 0) 0 filter ≡ some ret_allow
unfolding seccomp_program execute effect
read_allowed = refl

resolve-assemble_example : resolve (program x86_64 true 77) ≡ assemble (program x86_64 true 77)
resolve-assemble_example = resolve-assemble (program x86_64 true 77)
