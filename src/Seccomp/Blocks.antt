-- ===== src/Seccomp/Blocks.antt =====
-- How the lines of `_seccomp_program` in python/pydeno/_sandbox.py run: the tests of numbers, and the
-- blocks that judge a call on its arguments.
use Prim.Native.Nat.{bit_and}
use pydeno.Prelude.{
  ℕ, ◌≡◌, refl, String, Bool, true, false, ◌||◌, ◌&&◌, Option, none, some, List, [], ◌∷◌, ◌++◌,
  ◌==◌, if◌then◌else◌, subst,
}
use pydeno.Seccomp.{Line, ins}
use pydeno.Seccomp.Kernel.{
  Call, Test, equal, any_bit, test_code, holds, after, goto, Runs, loads, masks, jumps, returns,
}
use pydeno.Seccomp.Tables.{
  ret_allow, ret_eperm, clone_new_mask, clone_thread, prot_exec, af_unix, sock_stream,
  sock_type_mask, and_k, jset_k,
}
use pydeno.Seccomp.Program.{load, ret, jeq, tests, stubs}
use pydeno.Seccomp.Policy.{
  among, has, allow_if, thread_only, stream_pair, own_pid, arg0, arg1, arg2,
}

pub after-tests :
    (name other : String) (numbers : List ℕ) (rest : List Line)
    → after name (tests other numbers ++ rest) ≡ after name rest
unfolding after tests
after-tests name other [] rest = refl
after-tests name other (nr ∷ numbers) rest = after-tests name other numbers rest

-- The sequel of a jump is chosen by its test.
pub jump_choose :
    {d : Call} {a v w : ℕ} {rest : List Line} (t : Test) (jt jf : Option String) (k : ℕ)
    → Runs d a (goto jt rest) v
    → Runs d a (goto jf rest) w
    → Runs d a (ins (test_code t) jt jf k ∷ rest) (if holds t a k then v else w)
jump_choose {d} {a} {v} {w} {rest} t jt jf k x y = jumps t jt jf k (choose (holds t a k))
  where
    choose : (b : Bool) → Runs d a (goto (if b then jt else jf) rest) (if b then v else w)
    choose true = x
    choose false = y

if-or {ℓ} :
    {A : Type ℓ} (b c : Bool) (x y : A)
    → (if b then x else if c then x else y) ≡ (if b || c then x else y)
if-or true c x y = refl
if-or false c x y = refl

pub tests_choose :
    {d : Call} {a v w : ℕ} {rest : List Line} (name : String) (numbers : List ℕ)
    → Runs d a (after name rest) v
    → Runs d a rest w
    → Runs d a (tests name numbers ++ rest) (if among a numbers then v else w)
unfolding tests
tests_choose name [] x y = y
tests_choose {d} {a} {v} {w} {rest} name (nr ∷ numbers) x y =
    subst (Runs d a (tests name (nr ∷ numbers) ++ rest)) (if-or (a == nr) (among a numbers) v w) (
      jump_choose equal (some name) none nr (rw (after-tests name name numbers rest) x)
        (tests_choose name numbers x y))

-- The test of one number.
pub test_choose :
    {d : Call} {a v w : ℕ} {rest : List Line} (name : String) (nr : ℕ)
    → Runs d a (after name rest) v
    → Runs d a rest w
    → Runs d a (tests name (nr ∷ []) ++ rest) (if a == nr then v else w)
unfolding tests
test_choose name nr x y = jump_choose equal (some name) none nr x y

-- A test that refuses, one that goes on, and one that allows, before what is left to ask.
refuse_first :
    {d : Call} {a : ℕ} {rest : List Line} (ok : Bool) (t : Test) (k : ℕ)
    → Runs d a (after "eperm" rest) ret_eperm
    → Runs d a rest (allow_if ok)
    → Runs d a
        (ins (test_code t) (some "eperm") none k ∷ rest)
        (allow_if (if holds t a k then false else ok))
refuse_first {d} {a} {rest} ok t k x y =
    subst (Runs d a _) (same (holds t a k)) (jump_choose t (some "eperm") none k x y)
  where
    same : (b : Bool) → (if b then ret_eperm else allow_if ok) ≡ allow_if (if b then false else ok)
    same true = refl
    same false = refl

require_first :
    {d : Call} {a : ℕ} {rest : List Line} (ok : Bool) (k : ℕ)
    → Runs d a (after "eperm" rest) ret_eperm
    → Runs d a rest (allow_if ok)
    → Runs d a (jeq none (some "eperm") k ∷ rest) (allow_if (a == k && ok))
require_first {d} {a} {rest} ok k x y =
    subst (Runs d a _) (same (a == k)) (jump_choose equal none (some "eperm") k y x)
  where
    same : (b : Bool) → (if b then allow_if ok else ret_eperm) ≡ allow_if (b && ok)
    same true = refl
    same false = refl

allow_first :
    {d : Call} {a : ℕ} {rest : List Line} (ok : Bool) (k : ℕ)
    → Runs d a (after "allow" rest) ret_allow
    → Runs d a rest (allow_if ok)
    → Runs d a (jeq (some "allow") none k ∷ rest) (allow_if (a == k || ok))
allow_first {d} {a} {rest} ok k x y =
    subst (Runs d a _) (same (a == k)) (jump_choose equal (some "allow") none k x y)
  where
    same : (b : Bool) → (if b then ret_allow else allow_if ok) ≡ allow_if (b || ok)
    same true = refl
    same false = refl

-- The stubs answer.
decides :
    {d : Call} {a : ℕ} {rest : List Line} (t : Test) (k : ℕ)
    → Runs d a
        (ins (test_code t) (some "allow") (some "eperm") k ∷ stubs rest)
        (allow_if (holds t a k))
unfolding after
decides t k = jump_choose t (some "allow") (some "eperm") k (returns ret_allow) (returns ret_eperm)

-- A pid at an offset, 0 or this process.
pub self_judges :
    {d : Call} {a : ℕ} {rest : List Line} (at pid : ℕ)
    → Runs d a
        (load at ∷ jeq (some "allow") none 0 ∷ jeq (some "allow") (some "eperm") pid ∷ stubs rest)
        (allow_if (own_pid (d at) pid))
unfolding after
self_judges {d} at pid =
    loads at (allow_first (d at == pid) 0 (returns ret_allow) (decides equal pid))

pub selfpid1_judges :
    {d : Call} {a : ℕ} {rest : List Line} (which pid : ℕ)
    → Runs d a
        (load 16
          ∷ jeq none (some "eperm") which
          ∷ load 24
          ∷ jeq (some "allow") none 0
          ∷ jeq (some "allow") (some "eperm") pid
          ∷ stubs rest)
        (allow_if (arg0 d == which && own_pid (arg1 d) pid))
unfolding after
selfpid1_judges {d} which pid =
    loads 16 (require_first (own_pid (arg1 d) pid) which (returns ret_eperm) (self_judges 24 pid))

module _ {d : Call} {a : ℕ} {rest : List Line} where
  pub clone_judges :
      Runs d a
        (load 16
          ∷ ins jset_k (some "eperm") none clone_new_mask
          ∷ ins jset_k (some "allow") (some "eperm") clone_thread
          ∷ stubs rest)
        (allow_if (thread_only d))
  unfolding after
  clone_judges = loads 16 (
      refuse_first (has (arg0 d) clone_thread) any_bit clone_new_mask (returns ret_eperm)
        (decides any_bit clone_thread))

  pub signal_judges :
      (pid : ℕ)
      → Runs d a
          (load 16 ∷ jeq (some "allow") (some "eperm") pid ∷ stubs rest)
          (allow_if (arg0 d == pid))
  signal_judges pid = loads 16 (decides equal pid)

  pub noexec_judges :
      Runs d a
        (load 32 ∷ ins jset_k (some "eperm") (some "allow") prot_exec ∷ stubs rest)
        (allow_if (if has (arg2 d) prot_exec then false else true))
  unfolding after
  noexec_judges = loads 32 (
      subst (Runs d (d 32) _) (flip (has (arg2 d) prot_exec)) (
        jump_choose any_bit (some "eperm") (some "allow") prot_exec (returns ret_eperm)
          (returns ret_allow)))
    where
      flip :
          (b : Bool) → (if b then ret_eperm else ret_allow) ≡ allow_if (if b then false else true)
      flip true = refl
      flip false = refl

pub command_judges :
    {d : Call} {a : ℕ} (rest : List Line) (at : ℕ) (commands : List ℕ)
    → Runs d a
        (load at ∷ (tests "allow" commands ++ ret ret_eperm ∷ stubs rest))
        (allow_if (among (d at) commands))
unfolding after
command_judges rest at commands =
    loads at (tests_choose "allow" commands (returns ret_allow) (returns ret_eperm))

pub socketpair_judges :
    {d : Call} {a : ℕ}
    → Runs d a
        (load 16
          ∷ jeq none (some "eperm") af_unix
          ∷ load 24
          ∷ ins and_k none none sock_type_mask
          ∷ jeq (some "allow") (some "eperm") sock_stream
          ∷ stubs [])
        (allow_if (stream_pair d))
unfolding after
socketpair_judges {d} = loads 16 (
    require_first (bit_and (arg1 d) sock_type_mask == sock_stream) af_unix (returns ret_eperm)
      (loads 24 (masks sock_type_mask (decides equal sock_stream))))
