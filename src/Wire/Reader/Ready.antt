-- ===== src/Wire/Reader/Ready.antt =====
-- `FrameReader.read` on a peer that keeps sending: every poll finds bytes before the deadline.
use pydeno.Prelude.{
  ℕ, zero, suc, ◌+◌, ◌<◌, ◌≡◌, refl, Bool, true, false, Option, none, some, [], ◌∷◌, Bytes, All,
  length, is_empty, ltb, arith, Bool-cases, inl, inr,
}
use pydeno.Wire.Codec.{header_size, unpack_from}
use pydeno.Wire.Reader.{
  FrameReader, Wake, Wakes, late, arrives, Out, ret, raise, closed, timed_out, over_cap, mid_header,
  mid_frame, push, wait_read, read_chunk, take_in, fill, after_fill, fill_loop, fill_until,
  cut_frame, end_payload, read_payload, end_header, read_buffered, first_chunk, begin_empty, read,
}
use pydeno.Wire.Reader.Stream.{Grown, fill-Grown}

abbrev pub IsReady : Bool → Wake → Type 0
IsReady deadline late = deadline ≡ false
IsReady deadline (arrives chunk) = is_empty chunk ≡ false

-- The descriptor is open, and the wakes to come are ready.
abbrev pub IsLive : Bool → FrameReader → Wakes → Type 0
IsLive d r ws = ((n : ℕ) × (r.fd ≡ some n)) × All (IsReady d) ws

-- Then only the end of the wakes ends the bytes, and nothing interrupts.
abbrev Chunked : Bool → Out Bytes → Type 0
Chunked d (ret [] r ws) = ws ≡ []
Chunked d (ret (b ∷ bs) r ws) = IsLive d r ws
Chunked d (raise e r ws) = ⊥

abbrev Looped : Bool → Out Bool → Type 0
Looped d (ret true r ws) = IsLive d r ws
Looped d (ret false r ws) = ws ≡ []
Looped d (raise e r ws) = ⊥

abbrev pub Ends : Bool → Out (Option Bytes) → Type 0
Ends d (ret none r ws) = ws ≡ []
Ends d (ret (some p) r ws) = IsLive d r ws
Ends d (raise closed r ws) = ⊥
Ends d (raise timed_out r ws) = ⊥
Ends d (raise over_cap r ws) = Unit
Ends d (raise mid_header r ws) = ws ≡ []
Ends d (raise mid_frame r ws) = ws ≡ []

wait_read-Chunked :
    (d : Bool) (r : FrameReader) (ws : Wakes) → IsLive d r ws → Chunked d (wait_read d r ws)
unfolding wait_read
wait_read-Chunked d r [] h = refl
wait_read-Chunked true r (late ∷ ws) h = cc (h.1.0)
wait_read-Chunked false r (late ∷ ws) h = wait_read-Chunked false r ws (h.0, h.1.1)
wait_read-Chunked d r (arrives [] ∷ ws) h = cc (h.1.0)
wait_read-Chunked d r (arrives (b ∷ bs) ∷ ws) h = (h.0, h.1.1)

read_chunk-Chunked :
    (d : Bool) (r : FrameReader) (ws : Wakes) → IsLive d r ws → Chunked d (read_chunk d r ws)
unfolding read_chunk
read_chunk-Chunked d r ws h =
    (elim (r.fd)
        as (λ o.
          o ≡ some (h.0.0)
          → Chunked d (elim o [ none ↦ raise closed r ws | some _ ↦ wait_read d r ws ])) [
            | none ↦ λ e. cc
            | some _ ↦ λ e. wait_read-Chunked d r ws h
          ])
      (h.0.1)

take_in-Looped : (d : Bool) (o : Out Bytes) → Chunked d o → Looped d (take_in o)
unfolding take_in
take_in-Looped d (ret [] r ws) h = h
take_in-Looped d (ret (b ∷ bs) r ws) h = h
take_in-Looped d (raise e r ws) h = h

fill-Looped : (d : Bool) (r : FrameReader) (ws : Wakes) → IsLive d r ws → Looped d (fill d r ws)
unfolding fill
fill-Looped d r ws h = take_in-Looped d (read_chunk d r ws) (read_chunk-Chunked d r ws h)

after_fill-Looped :
    (d : Bool) (r₀ : FrameReader) (ws₀ : Wakes) (loop : FrameReader → Wakes → Out Bool)
    (o : Out Bool)
    → ((r : FrameReader) (ws : Wakes)
        → length ws < length ws₀
        → IsLive d r ws
        → Looped d (loop r ws))
    → Grown r₀ ws₀ o
    → Looped d o
    → Looped d (after_fill loop o)
after_fill-Looped d r₀ ws₀ loop (ret true r ws) ih g h = ih r ws g.1 h
after_fill-Looped d r₀ ws₀ loop (ret false r ws) ih g h = h
after_fill-Looped d r₀ ws₀ loop (raise e r ws) ih g h = h

fill_loop-Looped :
    (fuel size : ℕ) (d : Bool) (r : FrameReader) (ws : Wakes)
    → length ws < fuel
    → IsLive d r ws
    → Looped d (fill_loop fuel size d r ws)
unfolding fill_loop
fill_loop-Looped zero size d r ws less h = elim less [ ]
fill_loop-Looped (suc fuel) size d r ws less h = elim (Bool-cases (ltb (length r.buf) size)) [
  | inl short ↦
      rw (short, Looped)
        (after_fill-Looped d r ws (fill_loop fuel size d) (fill d r ws)
          (λ r' ws' l. fill_loop-Looped fuel size d r' ws' (omega arith)) (fill-Grown d r ws)
          (fill-Looped d r ws h))
  | inr full ↦ rw (full, Looped) h
]

fill_until-Looped :
    (size : ℕ) (d : Bool) (r : FrameReader) (ws : Wakes)
    → IsLive d r ws
    → Looped d (fill_until size d r ws)
unfolding fill_until
fill_until-Looped size d r ws = fill_loop-Looped (suc (length ws)) size d r ws (omega arith)

end_payload-Ends : (size : ℕ) (d : Bool) (o : Out Bool) → Looped d o → Ends d (end_payload size o)
unfolding end_payload cut_frame
end_payload-Ends size d (ret true r ws) h = h
end_payload-Ends size d (ret false r ws) h = h
end_payload-Ends size d (raise e r ws) h = elim h [ ]

read_payload-Ends :
    (size : ℕ) (d : Bool) (r : FrameReader) (ws : Wakes)
    → IsLive d r ws
    → Ends d (read_payload size d r ws)
unfolding read_payload
read_payload-Ends size d r ws h = elim (Bool-cases (ltb r.max_frame size)) [
  | inl over ↦ rw (over, Ends) tt
  | inr fits ↦ rw fits (
      end_payload-Ends size d (fill_until (header_size + size) d r ws)
        (fill_until-Looped (header_size + size) d r ws h))
]

end_header-Ends : (d : Bool) (o : Out Bool) → Looped d o → Ends d (end_header d o)
unfolding end_header
end_header-Ends d (ret true r ws) h = read_payload-Ends (unpack_from r.buf) d r ws h
end_header-Ends d (ret false r ws) h = elim (Bool-cases (is_empty r.buf)) [
  | inl bare ↦ rw bare h
  | inr part ↦ rw part h
]
end_header-Ends d (raise e r ws) h = elim h [ ]

read_buffered-Ends :
    (d : Bool) (r : FrameReader) (ws : Wakes) → IsLive d r ws → Ends d (read_buffered d r ws)
unfolding read_buffered
read_buffered-Ends d r ws h =
    end_header-Ends d (fill_until header_size d r ws) (fill_until-Looped header_size d r ws h)

first_chunk-Ends :
    (d : Bool) (chunk : Bytes) (r : FrameReader) (ws : Wakes)
    → Chunked d (ret chunk r ws)
    → Ends d (first_chunk d chunk r ws)
unfolding first_chunk
first_chunk-Ends d [] r ws h = h
first_chunk-Ends d (b ∷ bs) r ws h = ground (arith, read_buffered-Ends d (push r (b ∷ bs)) ws h)

begin_empty-Ends : (d : Bool) (o : Out Bytes) → Chunked d o → Ends d (begin_empty d o)
unfolding begin_empty
begin_empty-Ends d (ret chunk r ws) h = first_chunk-Ends d chunk r ws h
begin_empty-Ends d (raise e r ws) h = elim h [ ]

-- With the descriptor open and every poll in time, no call of `read` is interrupted, and one that
-- returns no frame, or raises for a closed peer, has used up all the wakes.
pub read-Ends : (d : Bool) (r : FrameReader) (ws : Wakes) → IsLive d r ws → Ends d (read d r ws)
unfolding read
read-Ends d r ws h = elim (Bool-cases (is_empty r.buf)) [
  | inl bare ↦ rw bare (begin_empty-Ends d (read_chunk d r ws) (read_chunk-Chunked d r ws h))
  | inr held ↦ rw held (read_buffered-Ends d r ws h)
]
