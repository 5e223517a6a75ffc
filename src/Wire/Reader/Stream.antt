-- ===== src/Wire/Reader/Stream.antt =====
-- `FrameReader.read` as an account of bytes: what is still to come before a call, and after it.
use pydeno.Prelude.{
  ℕ, zero, suc, ◌≤◌, ◌<◌, ◌≡◌, refl, ◌∙◌, ◌⊎◌, Bool, true, false, none, some, [], ◌∷◌, ◌++◌,
  append_assoc, Bytes, length, ltb, arith, Bool-cases, inl, inr, ltb→lt,
}
use pydeno.Wire.Reader.{
  ReadError, closed, timed_out, late, arrives, Wakes, FrameReader, Out, ret, raise, wait_read,
  read_chunk, take_in, after_fill, fill, fill_loop, fill_until,
}

-- The bytes that the peer will have sent when it closes its end.
abbrev pub bytes_of : Wakes → Bytes
bytes_of [] = []
bytes_of (late ∷ ws) = bytes_of ws
bytes_of (arrives chunk ∷ ws) = chunk ++ bytes_of ws

-- The bytes that no call of `read` has handed over yet.
abbrev pub pending : FrameReader → Wakes → Bytes
pending r ws = r.buf ++ bytes_of ws

-- No byte lost and none made up, and the reader's settings as they were.
pub record Kept (r₀ : FrameReader) (ws₀ : Wakes) (r : FrameReader) (ws : Wakes) : Type 0 where
  pub bytes : pending r ws ≡ pending r₀ ws₀
  pub cap : r.max_frame ≡ r₀.max_frame
  pub fd : r.fd ≡ r₀.fd

pub Kept-refl : (r : FrameReader) (ws : Wakes) → Kept r ws r ws
Kept-refl r ws = record { bytes = refl; cap = refl; fd = refl }

pub Kept-trans :
    {r₀ r₁ r₂ : FrameReader} {ws₀ ws₁ ws₂ : Wakes}
    → Kept r₀ ws₀ r₁ ws₁
    → Kept r₁ ws₁ r₂ ws₂
    → Kept r₀ ws₀ r₂ ws₂
Kept-trans k l = record { bytes = l.bytes ∙ k.bytes; cap = l.cap ∙ k.cap; fd = l.fd ∙ k.fd }

-- The exceptions of `_chunk`: the descriptor was invalidated, or the deadline passed.
abbrev pub IsInterrupt : ReadError → Type 0
IsInterrupt closed = Unit
IsInterrupt timed_out = Unit
IsInterrupt _ = ⊥

abbrev pub Waited : FrameReader → Wakes → Out Bytes → Type 0
Waited r₀ ws₀ (ret chunk r ws) =
    (r ≡ r₀) × (chunk ++ bytes_of ws ≡ bytes_of ws₀) × ((chunk ≡ []) ⊎ (length ws < length ws₀))
Waited r₀ ws₀ (raise e r ws) = (r ≡ r₀) × (bytes_of ws ≡ bytes_of ws₀) × IsInterrupt e

wait_read-Waited : (d : Bool) (r : FrameReader) (ws : Wakes) → Waited r ws (wait_read d r ws)
unfolding wait_read
wait_read-Waited d r [] = (refl, refl, inl refl)
wait_read-Waited true r (late ∷ ws) = (refl, refl, tt)
wait_read-Waited false r (late ∷ ws) = widen (wait_read false r ws) (wait_read-Waited false r ws)
  where
    widen : (o : Out Bytes) → Waited r ws o → Waited r (late ∷ ws) o
    widen (ret chunk r' ws') (same, bytes, inl e) = (same, bytes, inl e)
    widen (ret chunk r' ws') (same, bytes, inr h) = (same, bytes, inr (omega arith))
    widen (raise e r' ws') h = h
wait_read-Waited d r (arrives chunk ∷ ws) = (refl, refl, inr (omega arith))

pub read_chunk-Waited : (d : Bool) (r : FrameReader) (ws : Wakes) → Waited r ws (read_chunk d r ws)
unfolding read_chunk
read_chunk-Waited d r ws =
    elim (r.fd)
      as (λ o. Waited r ws (elim o [ none ↦ raise closed r ws | some _ ↦ wait_read d r ws ])) [
        | none ↦ (refl, refl, tt)
        | some _ ↦ wait_read-Waited d r ws
      ]

abbrev pub Grown : FrameReader → Wakes → Out Bool → Type 0
Grown r₀ ws₀ (ret true r ws) = Kept r₀ ws₀ r ws × (length ws < length ws₀)
Grown r₀ ws₀ (ret false r ws) = Kept r₀ ws₀ r ws × (r ≡ r₀)
Grown r₀ ws₀ (raise e r ws) = Kept r₀ ws₀ r ws × IsInterrupt e

take_in-Grown :
    (r₀ : FrameReader) (ws₀ : Wakes) (o : Out Bytes) → Waited r₀ ws₀ o → Grown r₀ ws₀ (take_in o)
unfolding take_in
take_in-Grown r₀ ws₀ (raise e r ws) h = (ground arith, h.2)
take_in-Grown r₀ ws₀ (ret [] r ws) h = ground arith
take_in-Grown r₀ ws₀ (ret (b ∷ bs) r ws) (same, bytes, inl e) = cc
take_in-Grown r₀ ws₀ (ret (b ∷ bs) r ws) (same, bytes, inr h) =
    ground (arith, append_assoc r.buf (b ∷ bs) (bytes_of ws))

pub fill-Grown : (d : Bool) (r : FrameReader) (ws : Wakes) → Grown r ws (fill d r ws)
unfolding fill
fill-Grown d r ws = take_in-Grown r ws (read_chunk d r ws) (read_chunk-Waited d r ws)

-- The loop ends with enough bytes, or at the end of the file with too few.
abbrev pub Filled : ℕ → FrameReader → Wakes → Out Bool → Type 0
Filled size r₀ ws₀ (ret true r ws) = Kept r₀ ws₀ r ws × (size ≤ length r.buf)
Filled size r₀ ws₀ (ret false r ws) = Kept r₀ ws₀ r ws × (length r.buf < size)
Filled size r₀ ws₀ (raise e r ws) = Kept r₀ ws₀ r ws × IsInterrupt e

pub Filled-trans :
    (size : ℕ) (r₀ r₁ : FrameReader) (ws₀ ws₁ : Wakes) (o : Out Bool)
    → Kept r₀ ws₀ r₁ ws₁
    → Filled size r₁ ws₁ o
    → Filled size r₀ ws₀ o
Filled-trans size r₀ r₁ ws₀ ws₁ (ret true r ws) k h = (Kept-trans k h.0, h.1)
Filled-trans size r₀ r₁ ws₀ ws₁ (ret false r ws) k h = (Kept-trans k h.0, h.1)
Filled-trans size r₀ r₁ ws₀ ws₁ (raise e r ws) k h = (Kept-trans k h.0, h.1)

after_fill-Filled :
    (size : ℕ) (r₀ : FrameReader) (ws₀ : Wakes) (rest : FrameReader → Wakes → Out Bool)
    (o : Out Bool)
    → length r₀.buf < size
    → ((r : FrameReader) (ws : Wakes) → length ws < length ws₀ → Filled size r ws (rest r ws))
    → Grown r₀ ws₀ o
    → Filled size r₀ ws₀ (after_fill rest o)
after_fill-Filled size r₀ ws₀ rest (ret true r ws) short ih g =
    Filled-trans size r₀ r ws₀ ws (rest r ws) g.0 (ih r ws g.1)
after_fill-Filled size r₀ ws₀ rest (ret false r ws) short ih g = (g.0, rw g.1 short)
after_fill-Filled size r₀ ws₀ rest (raise e r ws) short ih g = g

fill_loop-Filled :
    (fuel size : ℕ) (d : Bool) (r : FrameReader) (ws : Wakes)
    → length ws < fuel
    → Filled size r ws (fill_loop fuel size d r ws)
unfolding fill_loop
fill_loop-Filled zero size d r ws h = elim h [ ]
fill_loop-Filled (suc fuel) size d r ws h = elim (Bool-cases (ltb (length r.buf) size)) [
  | inl short ↦
      rw (short, Filled)
        (after_fill-Filled size r ws (fill_loop fuel size d) (fill d r ws) (ltb→lt _ _ short)
          (λ r' ws' less. fill_loop-Filled fuel size d r' ws' (omega arith)) (fill-Grown d r ws))
  | inr full ↦ rw (full, Filled) (Kept-refl r ws, ground arith)
]

pub fill_until-Filled :
    (size : ℕ) (d : Bool) (r : FrameReader) (ws : Wakes) → Filled size r ws (fill_until size d r ws)
unfolding fill_until
fill_until-Filled size d r ws = fill_loop-Filled (suc (length ws)) size d r ws (omega arith)
