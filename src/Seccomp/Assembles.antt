-- ===== src/Seccomp/Assembles.antt =====
-- The assembler of python/pydeno/_sandbox.py is right: the instructions do what the lines say.
use text.Mathlib.Text.{◌==◌ as str_eq}
use pydeno.Prelude.{
  ℕ, suc, ◌≡◌, refl, ap, String, Bool, true, false, Option, none, some, List, [], ◌∷◌, ltb,
  if◌then◌else◌, Bool-cases, inl, inr, ◌&&◌, drop, ◌∙◌, sym, subst, Option-cases,
}
use pydeno.Seccomp.{Line, ins, label, encode, append_to, Instruction, resolve}
use Prim.Native.Nat.{bit_and}
use pydeno.Seccomp.Tables.{ld_w_abs, and_k, ret_k}
use pydeno.Seccomp.Nearest.{distance, jump, assemble, resolve-assemble}
use pydeno.Seccomp.Kernel.{
  Call, test_code, holds, instruction, Bpf, after, goto, Runs, loads, masks, jumps, returns, passes,
}

-- A successful round of the loop: both jumps are resolved, and the rest is assembled.
record Assembled (code k : ℕ) (jt jf : Option ℕ) (rest : Option (List Instruction))
    (out : List Instruction) : Type 0 where
  yes_offset : ℕ
  no_offset : ℕ
  later : List Instruction
  yes_is : jt ≡ some yes_offset
  no_is : jf ≡ some no_offset
  rest_is : rest ≡ some later
  out_is : out ≡ instruction code yes_offset no_offset k ∷ later

Assembled-append_to :
    (code k : ℕ) (jt jf : Option ℕ) (rest : Option (List Instruction)) (out : List Instruction)
    → append_to (encode code k jt jf) rest ≡ some out
    → Assembled code k jt jf rest out
unfolding append_to encode
Assembled-append_to code k (some t) (some f) (some l) out h =
    elim (Bool-cases (ltb t 256 && ltb f 256)) [
      | inl fits ↦ record {
        yes_offset = t;
        no_offset = f;
        later = l;
        yes_is = refl;
        no_is = refl;
        rest_is = refl;
        out_is = ap (λ o. elim o [ none ↦ out | some x ↦ x ]) (sym (rw fits at h));
      }
      | inr over ↦ cc (rw over at h)
    ]
Assembled-append_to code k (some t) (some f) none out h =
    elim (Bool-cases (ltb t 256 && ltb f 256)) [
      | inl fits ↦ cc (rw fits at h)
      | inr over ↦ cc (rw over at h)
    ]
Assembled-append_to code k none jf rest out h = cc
Assembled-append_to code k (some t) none rest out h = cc

of_some {ℓ} : {A : Type ℓ} (a b : A) → some a ≡ some b → a ≡ b
of_some a b h = ap (λ o. elim o [ none ↦ a | some x ↦ x ]) h

after_if :
    (b : Bool) (here later : List Line) (o : Option ℕ) (n : ℕ) (out : List Instruction)
    → (if b then some 0 else o) ≡ some n
    → assemble here ≡ some out
    → (o ≡ some n → assemble later ≡ some (drop n out))
    → assemble (if b then here else later) ≡ some (drop n out)
after_if true here later o n out d h g =
    subst (λ m. assemble here ≡ some (drop m out)) (of_some 0 n d) h
after_if false here later o n out d h g = g d

-- The lines behind a label are assembled to the instructions at its distance.
assemble-after :
    (name : String) (lines : List Line) (n : ℕ) (out : List Instruction)
    → distance name lines ≡ some n
    → assemble lines ≡ some out
    → assemble (after name lines) ≡ some (drop n out)
unfolding assemble distance after
assemble-after name [] n out d h = cc
assemble-after name (label other ∷ lines) n out d h =
    after_if (str_eq name other) lines (after name lines) (distance name lines) n out d h
      (λ e. assemble-after name lines n out e h)
assemble-after name (ins code jt jf k ∷ lines) n out d h =
    let parts = Assembled-append_to code k (jump jt lines) (jump jf lines) (assemble lines) out h in
    elim (Option-cases (distance name lines)) [
      | inl nowhere ↦ cc (rw nowhere at d)
      | inr (m, there) ↦
          let n_is : suc m ≡ n = of_some (suc m) n (rw there at d) in
          rw (sym n_is, parts.out_is) (assemble-after name lines m parts.later there parts.rest_is)
    ]

assemble-goto :
    (to : Option String) (lines : List Line) (n : ℕ) (out : List Instruction)
    → jump to lines ≡ some n
    → assemble lines ≡ some out
    → assemble (goto to lines) ≡ some (drop n out)
assemble-goto none lines n out d h =
    subst (λ m. assemble lines ≡ some (drop m out)) (of_some 0 n d) h
assemble-goto (some name) lines n out d h = assemble-after name lines n out d h

goto_if :
    (b : Bool) (jt jf : Option String) (lines : List Line) (t f : ℕ) (out : List Instruction)
    → jump jt lines ≡ some t
    → jump jf lines ≡ some f
    → assemble lines ≡ some out
    → assemble (goto (if b then jt else jf) lines) ≡ some (drop (if b then t else f) out)
goto_if true jt jf lines t f out ht hf h = assemble-goto jt lines t out ht h
goto_if false jt jf lines t f out ht hf h = assemble-goto jf lines f out hf h

module _ (bpf : Bpf) (d : Call) where
  -- Lines that return a value are assembled to instructions that do.
  run-assemble :
      (a v : ℕ) (lines : List Line) (out : List Instruction)
      → Runs d a lines v
      → assemble lines ≡ some out
      → bpf.run d a out ≡ some v
  unfolding assemble
  run-assemble a v _ out (loads {lines = lines} k r) h =
      let parts = Assembled-append_to ld_w_abs k (some 0) (some 0) (assemble lines) out h in
      rw (parts.out_is, bpf.run_load) (run-assemble (d k) v lines parts.later r parts.rest_is)
  run-assemble a v _ out (masks {lines = lines} k r) h =
      let parts = Assembled-append_to and_k k (some 0) (some 0) (assemble lines) out h in
      rw (parts.out_is, bpf.run_mask)
        (run-assemble (bit_and a k) v lines parts.later r parts.rest_is)
  run-assemble a v _ out (jumps {lines = lines} t jt jf k r) h =
      let parts =
        Assembled-append_to (test_code t) k (jump jt lines) (jump jf lines) (assemble lines) out
          h in
      rw (parts.out_is, bpf.run_test)
        (run-assemble a v (goto (if holds t a k then jt else jf) lines) _ r (
          goto_if (holds t a k) jt jf lines parts.yes_offset parts.no_offset parts.later
            parts.yes_is parts.no_is parts.rest_is))
  run-assemble a v _ out (returns {lines = lines} k) h =
      let parts = Assembled-append_to ret_k k (some 0) (some 0) (assemble lines) out h in
      rw (parts.out_is) (bpf.run_return d a parts.yes_offset parts.no_offset k parts.later)
  run-assemble a v _ out (passes {lines = lines} name r) h = run-assemble a v lines out r h

  -- Where the function returns a filter, a call that its lines, run by their labels, answer with a value
  -- is answered with that value by the filter.
  pub run-resolve :
      (v : ℕ) (lines : List Line) (out : List Instruction)
      → resolve lines ≡ some out
      → Runs d 0 lines v
      → bpf.run d 0 out ≡ some v
  run-resolve v lines out h r = run-assemble 0 v lines out r (sym (resolve-assemble lines) ∙ h)
