-- ===== src/Seccomp/Tables.antt =====
-- python/pydeno/_sandbox.py: the tables of `_seccomp_program`. A row has the numbers of a system call
-- on x86_64 and on aarch64.
pub mod Syscalls
pub mod Allowed
use text.Mathlib.Text.{◌==◌ as str_eq}
use pydeno.Prelude.{ℕ, ◌+◌, ◌*◌, ◌^◌, String, Option, none, some, List, [], ◌∷◌, if◌then◌else◌}

pub data Arch : Type 0 where
  x86_64 aarch64 : Arch

pub data Row : Type 0 where
  row : String → Option ℕ → Option ℕ → Row

-- `pair[idx]`
abbrev pub at_arch : Arch → Option ℕ → Option ℕ → Option ℕ
at_arch x86_64 x86 arm = x86
at_arch aarch64 x86 arm = arm

abbrev pub prepend : Option ℕ → List ℕ → List ℕ
prepend none rest = rest
prepend (some n) rest = n ∷ rest

-- `[pair[idx] for pair in table.values() if pair[idx] is not None]`
unfoldable pub numbers : Arch → List Row → List ℕ
numbers arch [] = []
numbers arch (row name x86 arm ∷ rows) = prepend (at_arch arch x86 arm) (numbers arch rows)

-- `table[name][idx]`, none where it is None or the table has no such name.
unfoldable pub entry : Arch → List Row → String → Option ℕ
entry arch [] name = none
entry arch (row other x86 arm ∷ rows) name =
    let later = entry arch rows name in if str_eq other name then at_arch arch x86 arm else later

-- `[_SYSCALLS[name][idx] for name in ... if _SYSCALLS[name][idx] is not None]`
unfoldable pub named : Arch → List Row → List String → List ℕ
unfolding entry
named arch table [] = []
named arch table (name ∷ names) = prepend (entry arch table name) (named arch table names)

-- `sorted(_KILL)`
unfoldable pub kill_names : List String
kill_names =
    "_sysctl" ∷ "acct" ∷ "add_key" ∷ "adjtimex" ∷ "bpf" ∷ "chroot" ∷ "clock_adjtime"
    ∷ "clock_settime" ∷ "delete_module" ∷ "execve" ∷ "execveat" ∷ "fchroot" ∷ "finit_module"
    ∷ "fsconfig" ∷ "fsmount" ∷ "fsopen" ∷ "fspick" ∷ "init_module" ∷ "io_uring_enter"
    ∷ "io_uring_register" ∷ "io_uring_setup" ∷ "ioperm" ∷ "iopl" ∷ "kcmp" ∷ "kexec_file_load"
    ∷ "kexec_load" ∷ "keyctl" ∷ "lookup_dcookie" ∷ "lsm_set_self_attr" ∷ "memfd_create"
    ∷ "memfd_secret" ∷ "modify_ldt" ∷ "mount" ∷ "mount_setattr" ∷ "move_mount" ∷ "name_to_handle_at"
    ∷ "nfsservctl" ∷ "open_by_handle_at" ∷ "open_tree" ∷ "open_tree_attr" ∷ "perf_event_open"
    ∷ "pidfd_getfd" ∷ "pivot_root" ∷ "process_vm_readv" ∷ "process_vm_writev" ∷ "ptrace"
    ∷ "quotactl" ∷ "quotactl_fd" ∷ "reboot" ∷ "request_key" ∷ "setdomainname" ∷ "sethostname"
    ∷ "setns" ∷ "settimeofday" ∷ "swapoff" ∷ "swapon" ∷ "syslog" ∷ "umount2" ∷ "unshare" ∷ "uselib"
    ∷ "userfaultfd" ∷ []

-- `_SIGNALS`
unfoldable pub signals : List Row
signals =
    row "kill" (some 62) (some 129)
    ∷ row "tgkill" (some 234) (some 131)
    ∷ row "rt_sigqueueinfo" (some 129) (some 138)
    ∷ row "rt_tgsigqueueinfo" (some 297) (some 240)
    ∷ []

-- `_SELF_PID_ARG0`
unfoldable pub self_pid_arg0 : List Row
self_pid_arg0 =
    row "sched_setscheduler" (some 144) (some 119)
    ∷ row "sched_setparam" (some 142) (some 118)
    ∷ row "sched_setattr" (some 314) (some 274)
    ∷ row "sched_setaffinity" (some 203) (some 122)
    ∷ row "prlimit64" (some 302) (some 261)
    ∷ row "get_robust_list" (some 274) (some 100)
    ∷ row "getpgid" (some 121) (some 155)
    ∷ row "getsid" (some 124) (some 156)
    ∷ []

-- `_SELF_PID_ARG1`
unfoldable pub self_pid_arg1 : List Row
self_pid_arg1 = row "setpriority" (some 141) (some 140) ∷ row "ioprio_set" (some 251) (some 30) ∷ []

-- `_WHICH_PROCESS`, 0 where the source would raise.
unfoldable pub which_process : String → ℕ
which_process name = if str_eq name "ioprio_set" then 1 else 0

-- `_FCNTL_ALLOWED_CMDS`
unfoldable pub fcntl_allowed_cmds : List ℕ
fcntl_allowed_cmds =
    0 ∷ 1 ∷ 2 ∷ 3 ∷ 4 ∷ 5 ∷ 6 ∷ 7 ∷ 9 ∷ 11 ∷ 16 ∷ 36 ∷ 37 ∷ 38 ∷ 1025 ∷ 1030 ∷ 1032 ∷ 1034 ∷ []

-- `_IOCTL_ALLOWED_CMDS`
unfoldable pub ioctl_allowed_cmds : List ℕ
ioctl_allowed_cmds = 21505 ∷ 21523 ∷ 21531 ∷ 21537 ∷ 21584 ∷ 21585 ∷ []

-- `_PRCTL_ALLOWED`
unfoldable pub prctl_allowed : List ℕ
prctl_allowed = 15 ∷ 16 ∷ 1398164801 ∷ 3 ∷ []

-- `_FCNTL`
abbrev pub fcntl : Arch → ℕ
fcntl x86_64 = 72
fcntl aarch64 = 25

-- `_IOCTL`
abbrev pub ioctl : Arch → ℕ
ioctl x86_64 = 16
ioctl aarch64 = 29

-- `_PRCTL`
abbrev pub prctl : Arch → ℕ
prctl x86_64 = 157
prctl aarch64 = 167

-- `_SOCKETPAIR`
abbrev pub socketpair : Arch → ℕ
socketpair x86_64 = 53
socketpair aarch64 = 199

-- `_CLONE`
abbrev pub clone : Arch → ℕ
clone x86_64 = 56
clone aarch64 = 220

-- `_CLONE3`
abbrev pub clone3 : Arch → ℕ
clone3 x86_64 = 435
clone3 aarch64 = 435

-- `_EXEC_CHECKED`
abbrev pub exec_checked : Arch → List ℕ
exec_checked x86_64 = 9 ∷ 10 ∷ []
exec_checked aarch64 = 222 ∷ 226 ∷ []

-- `_AUDIT_ARCH`
abbrev pub audit_arch : Arch → ℕ
audit_arch x86_64 = 0xC000003E
audit_arch aarch64 = 0xC00000B7

-- `_BPF_LD_W_ABS`
abbrev pub ld_w_abs : ℕ
ld_w_abs = 0x20

-- `_BPF_JEQ_K`
abbrev pub jeq_k : ℕ
jeq_k = 0x15

-- `_BPF_JGE_K`
abbrev pub jge_k : ℕ
jge_k = 0x35

-- `_BPF_JSET_K`
abbrev pub jset_k : ℕ
jset_k = 0x45

-- `_BPF_RET_K`
abbrev pub ret_k : ℕ
ret_k = 0x06

-- `_BPF_AND_K`
abbrev pub and_k : ℕ
and_k = 0x54

-- `_SECCOMP_RET_ALLOW`
abbrev pub ret_allow : ℕ
ret_allow = 0x7FFF0000

-- `_SECCOMP_RET_KILL_PROCESS`
abbrev pub ret_kill_process : ℕ
ret_kill_process = 0x80000000

-- `_SECCOMP_RET_ERRNO | _EPERM`
abbrev pub ret_eperm : ℕ
ret_eperm = 0x00050001

-- `_SECCOMP_RET_ERRNO | _ENOSYS`
abbrev pub ret_enosys : ℕ
ret_enosys = 0x00050026

-- `_FIRST_UNREVIEWED`
abbrev pub first_unreviewed : ℕ
first_unreviewed = 473

-- `_PROT_EXEC`
abbrev pub prot_exec : ℕ
prot_exec = 4

-- `_AF_UNIX`
abbrev pub af_unix : ℕ
af_unix = 1

-- `_SOCK_STREAM`
abbrev pub sock_stream : ℕ
sock_stream = 1

-- `_SOCK_TYPE_MASK`
abbrev pub sock_type_mask : ℕ
sock_type_mask = 0xF

-- `_CLONE_THREAD`
abbrev pub clone_thread : ℕ
clone_thread = 0x10000

-- `_CLONE_NEW_MASK`
abbrev pub clone_new_mask : ℕ
clone_new_mask = 0x7E020000
