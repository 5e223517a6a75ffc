-- ===== src/Seccomp/Tiers.antt =====
-- The tables of python/pydeno/_sandbox.py do not shadow one another: what the policy says of the calls
-- that are killed, of those that send a signal, and of those that map memory.
use pydeno.Prelude.{
  ℕ, ◌≡◌, refl, ap, Bool, true, false, not, ◌&&◌, some, List, [], ◌∷◌, ◌==◌, leb, ==_iff, ◌∙◌,
  if◌then◌else◌, Bool-cases, inl, inr, arith, All,
}
use pydeno.Seccomp.{Instruction}
use pydeno.Seccomp.Kernel.{Call, Bpf}
use pydeno.Seccomp.Refines.{answers}
use pydeno.Seccomp.Tables.{
  Arch, numbers, signals, self_pid_arg0, self_pid_arg1, fcntl, ioctl, prctl, socketpair, clone,
  clone3, exec_checked, audit_arch, ret_eperm, ret_kill_process, first_unreviewed, prot_exec,
}
use pydeno.Seccomp.Tables.Allowed.{allowed}
use pydeno.Seccomp.Program.{kill, seccomp_program}
use pydeno.Seccomp.Policy.{among, has, allow_if, judge, judge_self_pid1, policy}

every : (ℕ → Bool) → List ℕ → Bool
every p [] = true
every p (x ∷ xs) = p x && every p xs

every-among :
    (p : ℕ → Bool) (xs : List ℕ) (n : ℕ) → every p xs ≡ true → among n xs ≡ true → p n ≡ true
unfolding every
every-among p [] n h m = cc
every-among p (x ∷ xs) n h m = elim (Bool-cases (n == x)) [
  | inl e ↦ rw ((==_iff n x).0 e) (ground arith)
  | inr e ↦ every-among p xs n (ground arith) (rw e at m)
]

none_hold : List Bool → Bool
none_hold [] = true
none_hold (b ∷ bs) = not b && none_hold bs

All-none_hold : (bs : List Bool) → none_hold bs ≡ true → All (λ b. b ≡ false) bs
unfolding none_hold
All-none_hold [] h = tt
All-none_hold (false ∷ bs) h = (refl, All-none_hold bs h)
All-none_hold (true ∷ bs) h = cc

-- What is asked before the calls that are judged on their arguments, before those that send a signal,
-- and before those that are killed.
abbrev before_judged : Arch → ℕ → List Bool
before_judged arch n =
    leb first_unreviewed n ∷ among n (exec_checked arch) ∷ among n (numbers arch allowed) ∷ []

abbrev before_signals : Arch → ℕ → List Bool
before_signals arch n = (n == clone arch) ∷ (n == clone3 arch) ∷ []

abbrev before_kill : Arch → ℕ → List Bool
before_kill arch n =
    among n (numbers arch signals)
    ∷ among n (numbers arch self_pid_arg0)
    ∷ among n (numbers arch self_pid_arg1)
    ∷ (n == fcntl arch)
    ∷ (n == ioctl arch)
    ∷ (n == prctl arch)
    ∷ (n == socketpair arch)
    ∷ []

if_false {ℓ} : {A : Type ℓ} (b : Bool) (x : A) → (if b then x else x) ≡ x
if_false true x = refl
if_false false x = refl

past_self_pid1 :
    (d : Call) (pid : ℕ) (arch : Arch) (otherwise : ℕ)
    → among (d 0) (numbers arch self_pid_arg1) ≡ false
    → judge_self_pid1 d pid arch self_pid_arg1 otherwise ≡ otherwise
unfolding self_pid_arg1 numbers
past_self_pid1 d pid Arch.x86_64 otherwise h = ground arith
past_self_pid1 d pid Arch.aarch64 otherwise h = ground arith

module _ (d : Call) (pid : ℕ) (arch : Arch) (allow_exec : Bool)
    (native : d 4 ≡ audit_arch arch) where
  policy-judged :
      none_hold (before_judged arch (d 0)) ≡ true
      → policy d pid arch allow_exec
        ≡ judge d pid arch (if among (d 0) (kill arch) then ret_kill_process else ret_eperm)
  policy-judged h =
      let (reviewed, (not_exec, (not_allowed, _))) = All-none_hold (before_judged arch (d 0)) h in
      rw
        (
          (==_iff (d 4) (audit_arch arch)).1 native,
          reviewed,
          not_exec,
          not_allowed,
          if_false allow_exec false,
        )
        refl

  judge-signals :
      (otherwise : ℕ)
      → none_hold (before_signals arch (d 0)) ≡ true
      → among (d 0) (numbers arch signals) ≡ true
      → judge d pid arch otherwise ≡ allow_if (d 16 == pid)
  judge-signals otherwise h m =
      let (not_clone, (not_clone3, _)) = All-none_hold (before_signals arch (d 0)) h in
      rw (not_clone, not_clone3, m) refl

  judge-otherwise :
      (otherwise : ℕ)
      → none_hold (before_signals arch (d 0)) ≡ true
      → none_hold (before_kill arch (d 0)) ≡ true
      → judge d pid arch otherwise ≡ otherwise
  judge-otherwise otherwise h k =
      let (not_clone, (not_clone3, _)) = All-none_hold (before_signals arch (d 0)) h in
      let (s, (p0, (p1, (f, (i, (p, (sp, _))))))) = All-none_hold (before_kill arch (d 0)) k in
      rw (not_clone, not_clone3, s, p0, past_self_pid1 d pid arch _ p1, f, i, p, sp) refl

-- The tables are apart, by evaluation.
signals_judged :
    (arch : Arch) → every (λ n. none_hold (before_judged arch n)) (numbers arch signals) ≡ true
unfolding every none_hold signals numbers allowed
signals_judged Arch.x86_64 = refl
signals_judged Arch.aarch64 = refl

signals_first :
    (arch : Arch) → every (λ n. none_hold (before_signals arch n)) (numbers arch signals) ≡ true
unfolding every none_hold signals numbers
signals_first Arch.x86_64 = refl
signals_first Arch.aarch64 = refl

kill_judged : (arch : Arch) → every (λ n. none_hold (before_judged arch n)) (kill arch) ≡ true
unfolding every none_hold numbers allowed kill
kill_judged Arch.x86_64 = refl
kill_judged Arch.aarch64 = refl

kill_apart :
    (arch : Arch)
    → every (λ n. none_hold (before_signals arch n)) (kill arch)
        && every (λ n. none_hold (before_kill arch n)) (kill arch)
      ≡ true
unfolding every none_hold signals numbers kill self_pid_arg0 self_pid_arg1
kill_apart Arch.x86_64 = refl
kill_apart Arch.aarch64 = refl

exec_reviewed : (arch : Arch) → every (λ n. not (leb first_unreviewed n)) (exec_checked arch) ≡ true
unfolding every
exec_reviewed Arch.x86_64 = refl
exec_reviewed Arch.aarch64 = refl

off : (b : Bool) → not b ≡ true → b ≡ false
off true h = cc
off false h = refl

not-if : (b : Bool) → (if b then false else true) ≡ not b
not-if true = refl
not-if false = refl

both : (b c : Bool) → (b && c) ≡ true → (b ≡ true) × (c ≡ true)
both true c h = (refl, h)
both false c h = cc

policy_exec :
    (d : Call) (pid : ℕ) (arch : Arch)
    → d 4 ≡ audit_arch arch
    → among (d 0) (exec_checked arch) ≡ true
    → policy d pid arch false ≡ allow_if (not (has (d 32) prot_exec))
policy_exec d pid arch native m =
    let reviewed = off _ (every-among _ (exec_checked arch) (d 0) (exec_reviewed arch) m) in
    rw ((==_iff (d 4) (audit_arch arch)).1 native, reviewed, m)
      (ap allow_if (not-if (has (d 32) prot_exec)))

module _ (bpf : Bpf) (arch : Arch) (allow_exec : Bool) (pid : ℕ) (d : Call) (out : List Instruction)
    (built : seccomp_program arch allow_exec pid ≡ some out) (native : d 4 ≡ audit_arch arch) where
  -- The filter of a worker allows a call of `_SIGNALS` exactly where the process that it names is the
  -- worker itself, whatever its other arguments.
  pub run_signal :
      among (d 0) (numbers arch signals) ≡ true → bpf.run d 0 out ≡ some (allow_if (d 16 == pid))
  run_signal m =
      let judged = every-among _ (numbers arch signals) (d 0) (signals_judged arch) m in
      let first = every-among _ (numbers arch signals) (d 0) (signals_first arch) m in
      answers arch allow_exec pid d bpf out built
      ∙ ap some (
          policy-judged d pid arch allow_exec native judged
          ∙ judge-signals d pid arch allow_exec native _ first m)

  -- The filter answers a call of `_KILL` by ending the process, whatever its arguments.
  pub run_kill : among (d 0) (kill arch) ≡ true → bpf.run d 0 out ≡ some ret_kill_process
  run_kill m =
      let judged = every-among _ (kill arch) (d 0) (kill_judged arch) m in
      let (first, apart) = both _ _ (kill_apart arch) in
      answers arch allow_exec pid d bpf out built
      ∙ ap some (
          policy-judged d pid arch allow_exec native judged
          ∙ judge-otherwise d pid arch allow_exec native _ (every-among _ (kill arch) (d 0) first m)
              (every-among _ (kill arch) (d 0) apart m)
          ∙ rw m refl)

-- The filter of a jitless worker answers `mmap` and `mprotect` with an error exactly where the memory
-- would be executable, and allows them otherwise.
pub run_exec :
    (bpf : Bpf) (arch : Arch) (pid : ℕ) (d : Call) (out : List Instruction)
    → seccomp_program arch false pid ≡ some out
    → d 4 ≡ audit_arch arch
    → among (d 0) (exec_checked arch) ≡ true
    → bpf.run d 0 out ≡ some (allow_if (not (has (d 32) prot_exec)))
run_exec bpf arch pid d out built native m =
    answers arch false pid d bpf out built ∙ ap some (policy_exec d pid arch native m)
