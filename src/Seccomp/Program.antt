-- ===== src/Seccomp/Program.antt =====
-- python/pydeno/_sandbox.py: `_seccomp_program`, the lines of the filter in the order in which the
-- function appends them, and what it returns before the instructions are packed into bytes.
use Prim.Native.String.{◌++◌ as concat}
use pydeno.Prelude.{ℕ, String, Bool, true, false, Option, none, some, List, [], ◌∷◌, ◌++◌}
use pydeno.Seccomp.{Line, ins, label, Instruction, resolve}
use pydeno.Seccomp.Tables.{
  Arch, Row, row, numbers, named, kill_names, signals, self_pid_arg0, self_pid_arg1, which_process,
  fcntl_allowed_cmds, ioctl_allowed_cmds, prctl_allowed, fcntl, ioctl, prctl, socketpair, clone,
  clone3, exec_checked, audit_arch, ld_w_abs, jeq_k, jge_k, jset_k, ret_k, and_k, ret_allow,
  ret_kill_process, ret_eperm, ret_enosys, first_unreviewed, prot_exec, af_unix, sock_stream,
  sock_type_mask, clone_thread, clone_new_mask,
}
use pydeno.Seccomp.Tables.Syscalls.{syscalls}
use pydeno.Seccomp.Tables.Allowed.{allowed}

-- `ins.append((_BPF_LD_W_ABS, None, None, at))` and `ins.append((_BPF_RET_K, None, None, k))`
abbrev pub load : ℕ → Line
load at = ins ld_w_abs none none at

abbrev pub ret : ℕ → Line
ret k = ins ret_k none none k

abbrev pub jeq : Option String → Option String → ℕ → Line
jeq yes_label no_label k = ins jeq_k yes_label no_label k

-- `for nr in numbers: ins.append((_BPF_JEQ_K, name, None, nr))`
unfoldable pub tests : String → List ℕ → List Line
tests name [] = []
tests name (nr ∷ rest) = jeq (some name) none nr ∷ tests name rest

-- `stubs()` and `stubs(enosys=True)`
abbrev pub stubs : List Line → List Line
stubs rest = label "allow" ∷ ret ret_allow ∷ label "eperm" ∷ ret ret_eperm ∷ rest

abbrev pub stubs_enosys : List Line → List Line
stubs_enosys rest =
    stubs (label "enosys" ∷ ret ret_enosys ∷ label "violation" ∷ ret ret_kill_process ∷ rest)

abbrev pub clone_block : List Line → List Line
clone_block rest =
    label "clone"
    ∷ load 16
    ∷ ins jset_k (some "eperm") none clone_new_mask
    ∷ ins jset_k (some "allow") (some "eperm") clone_thread
    ∷ stubs rest

abbrev pub signal_block : ℕ → List Line → List Line
signal_block pid rest =
    label "signal" ∷ load 16 ∷ jeq (some "allow") (some "eperm") pid ∷ stubs rest

abbrev pub selfpid0_block : ℕ → List Line → List Line
selfpid0_block pid rest =
    label "selfpid0"
    ∷ load 16
    ∷ jeq (some "allow") none 0
    ∷ jeq (some "allow") (some "eperm") pid
    ∷ stubs rest

-- `for name in _SELF_PID_ARG1`
unfoldable pub selfpid1_blocks : ℕ → List Row → List Line → List Line
unfolding which_process
selfpid1_blocks pid [] rest = rest
selfpid1_blocks pid (row name x86 arm ∷ rows) rest =
    label (concat "selfpid1_" name)
    ∷ load 16
    ∷ jeq none (some "eperm") (which_process name)
    ∷ load 24
    ∷ jeq (some "allow") none 0
    ∷ jeq (some "allow") (some "eperm") pid
    ∷ stubs (selfpid1_blocks pid rows rest)

-- `fcntl`, `ioctl` and `prctl`: the command at an offset, from a list.
abbrev pub command_block : String → ℕ → List ℕ → List Line → List Line
command_block name at commands rest =
    label name ∷ load at ∷ (tests "allow" commands ++ ret ret_eperm ∷ stubs rest)

unfoldable pub noexec_block : Bool → List Line → List Line
noexec_block true rest = rest
noexec_block false rest =
    label "noexec" ∷ load 32 ∷ ins jset_k (some "eperm") (some "allow") prot_exec ∷ stubs rest

abbrev pub socketpair_block : List Line
socketpair_block =
    label "socketpair"
    ∷ load 16
    ∷ jeq none (some "eperm") af_unix
    ∷ load 24
    ∷ ins and_k none none sock_type_mask
    ∷ jeq (some "allow") (some "eperm") sock_stream
    ∷ stubs []

-- From `label("clone")` on.
unfoldable pub blocks : Bool → ℕ → List Line
unfolding selfpid1_blocks noexec_block self_pid_arg1 fcntl_allowed_cmds ioctl_allowed_cmds
    prctl_allowed tests
blocks allow_exec pid = clone_block (
    signal_block pid (
      selfpid0_block pid (
        selfpid1_blocks pid self_pid_arg1 (
          command_block "fcntl" 24 fcntl_allowed_cmds (
            command_block "ioctl" 24 ioctl_allowed_cmds (
              command_block "prctl" 16 prctl_allowed
                (noexec_block allow_exec socketpair_block)))))))

-- The tests of `_SELF_PID_ARG1`.
unfoldable pub selfpid1_tests : Arch → List Row → List Line → List Line
selfpid1_tests arch [] rest = rest
selfpid1_tests arch (row name x86 arm ∷ rows) rest =
    tests (concat "selfpid1_" name) (numbers arch (row name x86 arm ∷ []))
    ++ selfpid1_tests arch rows rest

unfoldable pub noexec_tests : Arch → Bool → List ℕ
noexec_tests arch true = []
noexec_tests arch false = exec_checked arch

-- The calls that are killed.
unfoldable pub kill : Arch → List ℕ
unfolding named kill_names syscalls
kill arch = named arch syscalls kill_names

-- From the tests of `_CLONE` on, up to the return that is the default, and its stubs.
unfoldable pub judged_tests : Arch → List Line → List Line
unfolding tests numbers selfpid1_tests self_pid_arg0 self_pid_arg1 signals
judged_tests arch rest =
    tests "clone" (clone arch ∷ [])
    ++ (tests "enosys" (clone3 arch ∷ [])
        ++ (tests "signal" (numbers arch signals)
            ++ (tests "selfpid0" (numbers arch self_pid_arg0)
                ++ selfpid1_tests arch self_pid_arg1 (
                    tests "fcntl" (fcntl arch ∷ [])
                    ++ (tests "ioctl" (ioctl arch ∷ [])
                        ++ (tests "prctl" (prctl arch ∷ [])
                            ++ (tests "socketpair" (socketpair arch ∷ []) ++ rest)))))))

unfoldable pub program : Arch → Bool → ℕ → List Line
unfolding tests noexec_tests judged_tests blocks kill numbers allowed
program arch allow_exec pid =
    load 4
    ∷ jeq (some "nr") (some "kill") (audit_arch arch)
    ∷ label "kill"
    ∷ ret ret_kill_process
    ∷ label "nr"
    ∷ load 0
    ∷ ins jge_k (some "enosys") none first_unreviewed
    ∷ (tests "noexec" (noexec_tests arch allow_exec)
        ++ (tests "allow" (numbers arch allowed)
            ++ judged_tests arch (
                tests "violation" (kill arch)
                ++ ret ret_eperm ∷ stubs_enosys (blocks allow_exec pid))))

-- `_seccomp_program`, up to the packing
unfoldable pub seccomp_program : Arch → Bool → ℕ → Option (List Instruction)
unfolding program resolve
seccomp_program arch allow_exec pid = resolve (program arch allow_exec pid)
