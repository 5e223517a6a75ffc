-- ===== src/Seccomp/Refines.antt =====
-- The filter of `_seccomp_program` in python/pydeno/_sandbox.py answers each call as the policy does.
use pydeno.Prelude.{
  ℕ, ◌≡◌, refl, String, Bool, true, false, Option, none, some, List, ◌∷◌, ◌++◌, if◌then◌else◌,
}
use pydeno.Seccomp.{Line, Instruction}
use pydeno.Seccomp.Kernel.{Call, equal, at_least, after, Runs, loads, returns, Bpf}
use pydeno.Seccomp.Tables.{
  Arch, numbers, signals, self_pid_arg0, self_pid_arg1, which_process, fcntl, ioctl, prctl,
  socketpair, clone, clone3, exec_checked, audit_arch, ret_allow, ret_eperm, ret_enosys,
  ret_kill_process, first_unreviewed, prot_exec, fcntl_allowed_cmds, ioctl_allowed_cmds,
  prctl_allowed,
}
use pydeno.Seccomp.Tables.Allowed.{allowed}
use pydeno.Seccomp.Program.{
  ret, tests, stubs_enosys, blocks, noexec_block, socketpair_block, noexec_tests, judged_tests,
  selfpid1_tests, kill, program, seccomp_program,
}
use pydeno.Seccomp.Policy.{among, has, allow_if, stream_pair, judge, policy}
use pydeno.Seccomp.Assembles.{run-resolve}
use pydeno.Seccomp.Blocks.{
  after-tests, jump_choose, tests_choose, test_choose, clone_judges, signal_judges, self_judges,
  selfpid1_judges, command_judges, noexec_judges, socketpair_judges,
}

-- The lines from the tests of the calls that are killed on.
abbrev tail : Arch → Bool → ℕ → List Line
tail arch allow_exec pid =
    tests "violation" (kill arch) ++ ret ret_eperm ∷ stubs_enosys (blocks allow_exec pid)

socket_block :
    (allow_exec : Bool) {d : Call} {a : ℕ}
    → Runs d a
        (after "socketpair" (noexec_block allow_exec socketpair_block))
        (allow_if (stream_pair d))
unfolding noexec_block after
socket_block true = socketpair_judges
socket_block false = socketpair_judges

noexec_tests_choose :
    (allow_exec : Bool) (arch : Arch) {d : Call} {a v w : ℕ} (rest : List Line)
    → (allow_exec ≡ false → Runs d a (after "noexec" rest) v)
    → Runs d a rest w
    → Runs d a
        (tests "noexec" (noexec_tests arch allow_exec) ++ rest)
        (if (if allow_exec then false else among a (exec_checked arch)) then v else w)
unfolding noexec_tests tests
noexec_tests_choose true arch rest x y = y
noexec_tests_choose false arch rest x y = tests_choose "noexec" (exec_checked arch) (x refl) y

noexec_block_answers :
    (allow_exec : Bool) (pid : ℕ) {d : Call} {a : ℕ}
    → allow_exec ≡ false
    → Runs d a
        (after "noexec" (blocks allow_exec pid))
        (allow_if (if has (d 32) prot_exec then false else true))
unfolding blocks after
noexec_block_answers true pid e = cc
noexec_block_answers false pid e = noexec_judges

after-judged_tests :
    (name : String) (arch : Arch) (rest : List Line)
    → after name (judged_tests arch rest) ≡ after name rest
unfolding judged_tests selfpid1_tests self_pid_arg1 after
after-judged_tests name arch rest = simp after-tests

module _ (arch : Arch) (allow_exec : Bool) (pid : ℕ) (d : Call) where
  tail_answers :
      Runs d
        (d 0)
        (tail arch allow_exec pid)
        (if among (d 0) (kill arch) then ret_kill_process else ret_eperm)
  unfolding after
  tail_answers = tests_choose "violation" (kill arch) (returns ret_kill_process) (returns ret_eperm)

  judged_answers :
      Runs d
        (d 0)
        (judged_tests arch (tail arch allow_exec pid))
        (judge d pid arch (if among (d 0) (kill arch) then ret_kill_process else ret_eperm))
  unfolding judged_tests selfpid1_tests self_pid_arg1 after blocks which_process
  judged_answers = test_choose "clone" (clone arch) (simp after-tests clone_judges) (
      test_choose "enosys" (clone3 arch) (simp after-tests (returns ret_enosys)) (
        tests_choose "signal" (numbers arch signals) (simp after-tests (signal_judges pid)) (
          tests_choose "selfpid0" (numbers arch self_pid_arg0)
            (simp after-tests (self_judges 16 pid))
            (tests_choose "selfpid1_setpriority" _ (simp after-tests (selfpid1_judges 0 pid)) (
              tests_choose "selfpid1_ioprio_set" _ (simp after-tests (selfpid1_judges 1 pid)) (
                test_choose "fcntl" (fcntl arch)
                  (simp after-tests (command_judges _ 24 fcntl_allowed_cmds))
                  (test_choose "ioctl" (ioctl arch)
                    (simp after-tests (command_judges _ 24 ioctl_allowed_cmds))
                    (test_choose "prctl" (prctl arch)
                      (simp after-tests (command_judges _ 16 prctl_allowed))
                      (test_choose "socketpair" (socketpair arch)
                        (simp after-tests (socket_block allow_exec)) tail_answers)))))))))

  exec_answers :
      allow_exec ≡ false
      → Runs d
          (d 0)
          (after "noexec"
            (tests "allow" (numbers arch allowed) ++ judged_tests arch (tail arch allow_exec pid)))
          (allow_if (if has (d 32) prot_exec then false else true))
  unfolding after
  exec_answers e =
      rw (after-tests, after-judged_tests, after-tests) (noexec_block_answers allow_exec pid e)

  program_answers : Runs d 0 (program arch allow_exec pid) (policy d pid arch allow_exec)
  unfolding program after
  program_answers = loads 4 (
      jump_choose equal (some "nr") (some "kill") (audit_arch arch)
        (loads 0 (
          jump_choose at_least (some "enosys") none first_unreviewed
            (rw (after-tests, after-tests, after-judged_tests, after-tests) (returns ret_enosys))
            (noexec_tests_choose allow_exec arch _ exec_answers (
              tests_choose "allow" (numbers arch allowed)
                (rw (after-judged_tests, after-tests) (returns ret_allow)) judged_answers))))
        (returns ret_kill_process))

  pub answers :
      (bpf : Bpf) (out : List Instruction)
      → seccomp_program arch allow_exec pid ≡ some out
      → bpf.run d 0 out ≡ some (policy d pid arch allow_exec)
  unfolding seccomp_program
  answers bpf out h =
      run-resolve bpf d (policy d pid arch allow_exec) (program arch allow_exec pid) out h
        program_answers

is_some {ℓ} : {A : Type ℓ} → Option A → Bool
is_some none = false
is_some (some a) = true

some_of_is_some {ℓ} : {A : Type ℓ} (o : Option A) → is_some o ≡ true → (a : A) × (o ≡ some a)
unfolding is_some
some_of_is_some none h = cc
some_of_is_some (some a) h = (a, refl)

-- Every jump reaches its label, and is short enough.
seccomp_program_reaches :
    (arch : Arch) (allow_exec : Bool) (pid : ℕ)
    → is_some (seccomp_program arch allow_exec pid) ≡ true
unfolding is_some seccomp_program
seccomp_program_reaches Arch.x86_64 true pid = refl
seccomp_program_reaches Arch.x86_64 false pid = refl
seccomp_program_reaches Arch.aarch64 true pid = refl
seccomp_program_reaches Arch.aarch64 false pid = refl

-- For either architecture, jitless or not, and for any process id, `_seccomp_program` returns a filter,
-- and a machine that runs the filter on a call, on any call, returns what the policy in the docstring
-- answers to it.
pub run-seccomp_program :
    (arch : Arch) (allow_exec : Bool) (pid : ℕ) (bpf : Bpf)
    → (out : List Instruction) × (seccomp_program arch allow_exec pid ≡ some out)
      × ((d : Call) → bpf.run d 0 out ≡ some (policy d pid arch allow_exec))
run-seccomp_program arch allow_exec pid bpf =
    let (out, h) =
      some_of_is_some (seccomp_program arch allow_exec pid)
        (seccomp_program_reaches arch allow_exec pid) in
    (out, h, λ d. answers arch allow_exec pid d bpf out h)
