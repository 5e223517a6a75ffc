-- ===== src/Seccomp/Policy.antt =====
-- What the docstring of `_seccomp_program` in python/pydeno/_sandbox.py promises of each call.
use Prim.Native.Nat.{bit_and}
use pydeno.Prelude.{ℕ, Bool, true, false, ◌&&◌, ◌||◌, List, [], ◌∷◌, leb, ◌==◌, if◌then◌else◌}
use pydeno.Seccomp.Kernel.{Call}
use pydeno.Seccomp.Tables.{
  Arch, Row, row, numbers, signals, self_pid_arg0, self_pid_arg1, which_process, fcntl_allowed_cmds,
  ioctl_allowed_cmds, prctl_allowed, fcntl, ioctl, prctl, socketpair, clone, clone3, exec_checked,
  audit_arch, ret_allow, ret_kill_process, ret_eperm, ret_enosys, first_unreviewed, prot_exec,
  af_unix, sock_stream, sock_type_mask, clone_thread, clone_new_mask,
}
use pydeno.Seccomp.Tables.Allowed.{allowed}
use pydeno.Seccomp.Program.{kill}

abbrev pub among : ℕ → List ℕ → Bool
among n [] = false
among n (x ∷ xs) = n == x || among n xs

-- Some bit of a mask is set.
abbrev pub has : ℕ → ℕ → Bool
has n mask = if bit_and n mask == 0 then false else true

-- What a call is answered where it is allowed on a condition.
abbrev pub allow_if : Bool → ℕ
allow_if ok = if ok then ret_allow else ret_eperm

-- 0 names the caller.
abbrev pub own_pid : ℕ → ℕ → Bool
own_pid who pid = who == 0 || who == pid

-- The words of a call: its number, and the low halves of its arguments.
module _ (d : Call) where
  abbrev pub nr : ℕ
  nr = d 0

  abbrev pub arg0 : ℕ
  arg0 = d 16

  abbrev pub arg1 : ℕ
  arg1 = d 24

  abbrev pub arg2 : ℕ
  arg2 = d 32

  -- Only threads: no new namespace, and `CLONE_THREAD`.
  abbrev pub thread_only : Bool
  thread_only = if has arg0 clone_new_mask then false else has arg0 clone_thread

  -- Only a stream socket pair.
  abbrev pub stream_pair : Bool
  stream_pair = arg0 == af_unix && bit_and arg1 sock_type_mask == sock_stream

  module _ (pid : ℕ) where
    -- `nr` is one of the rows, and its target is a process, this one.
    abbrev pub judge_self_pid1 : Arch → List Row → ℕ → ℕ
    judge_self_pid1 arch [] otherwise = otherwise
    judge_self_pid1 arch (row name x86 arm ∷ rows) otherwise =
        if among nr (numbers arch (row name x86 arm ∷ []))
        then allow_if (arg0 == which_process name && own_pid arg1 pid)
        else judge_self_pid1 arch rows otherwise

    -- The calls that are judged on their arguments, and what is answered to the others.
    abbrev pub judge : Arch → ℕ → ℕ
    judge arch otherwise =
        if nr == clone arch
        then allow_if thread_only
        else if nr == clone3 arch
        then ret_enosys
        else if among nr (numbers arch signals)
        then allow_if (arg0 == pid)
        else if among nr (numbers arch self_pid_arg0)
        then allow_if (own_pid arg0 pid)
        else judge_self_pid1 arch self_pid_arg1 (
            if nr == fcntl arch
            then allow_if (among arg1 fcntl_allowed_cmds)
            else if nr == ioctl arch
            then allow_if (among arg1 ioctl_allowed_cmds)
            else if nr == prctl arch
            then allow_if (among arg0 prctl_allowed)
            else if nr == socketpair arch
            then allow_if stream_pair
            else otherwise)

    abbrev pub policy : Arch → Bool → ℕ
    policy arch allow_exec =
        if d 4 == audit_arch arch
        then if leb first_unreviewed nr
          then ret_enosys
          else if (if allow_exec then false else among nr (exec_checked arch))
          then allow_if (if has arg2 prot_exec then false else true)
          else if among nr (numbers arch allowed)
          then ret_allow
          else judge arch (if among nr (kill arch) then ret_kill_process else ret_eperm)
        else ret_kill_process
