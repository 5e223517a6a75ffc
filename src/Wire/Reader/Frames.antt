-- ===== src/Wire/Reader/Frames.antt =====
-- Frames through `FrameReader.read`: one call for each, however the bytes are cut into reads.
use pydeno.Prelude.{
  ℕ, zero, suc, ◌+◌, ◌≤◌, ◌<◌, ◌≡◌, refl, sym, ap, ◌∙◌, subst, Bool, Option, none, some, List, [],
  ◌∷◌, ◌++◌, append-nil, Bytes, All, All-append_right, length, length-append, take, drop,
  take-length_append, drop-length_append, arith,
}
use pydeno.Wire.Codec.{IsByte, header, unpack_from, unpack_from-header}
use pydeno.Wire.Reader.{
  FrameReader, Wakes, Out, ret, raise, closed, timed_out, over_cap, mid_header, mid_frame, read,
}
use pydeno.Wire.Reader.Stream.{pending, Kept}
use pydeno.Wire.Reader.Delivers.{Delivers, read-Delivers}
use pydeno.Wire.Reader.Ready.{IsLive, Ends, read-Ends}

length-header : (n : ℕ) → length (header n) ≡ 4
unfolding header
length-header n = refl

-- A payload on the wire.
abbrev pub frame : Bytes → Bytes
frame payload = header (length payload) ++ payload

-- A call of `read` handed over `payload`, `rest` is still to come, and the reader is as ready.
pub record Received (d : Bool) (r₀ : FrameReader) (payload rest : Bytes) (o : Out (Option Bytes))
    : Type 0 where
  pub reader : FrameReader
  pub wakes : Wakes
  pub result : o ≡ ret (some payload) reader wakes
  pub left : pending reader wakes ≡ rest
  pub live : IsLive d reader wakes
  pub cap : reader.max_frame ≡ r₀.max_frame

-- A stream of bytes begins with one frame at most.
header_injective :
    (p q xs ys : Bytes)
    → length p < 4294967296
    → length q < 4294967296
    → header (length p) ++ (p ++ xs) ≡ header (length q) ++ (q ++ ys)
    → (p ≡ q) × (xs ≡ ys)
header_injective p q xs ys hp hq e = (
  sym (take-length_append (length p) p xs refl)
      ∙ ap (take (length p)) body
      ∙ rw same (take-length_append (length q) q ys refl),
  sym (drop-length_append (length p) p xs refl)
      ∙ ap (drop (length p)) body
      ∙ rw same (drop-length_append (length q) q ys refl),
)
  where
    same : length p ≡ length q
    same =
        sym (unpack_from-header (length p) (p ++ xs) hp)
        ∙ ap unpack_from e
        ∙ unpack_from-header (length q) (q ++ ys) hq

    body : p ++ xs ≡ q ++ ys
    body =
        sym (drop-length_append 4 (header (length p)) (p ++ xs) (sym (length-header (length p))))
        ∙ ap (drop 4) e
        ∙ drop-length_append 4 (header (length q)) (q ++ ys) (sym (length-header (length q)))

module _ (d : Bool) (r : FrameReader) (ws : Wakes) (payload rest : Bytes)
    (cap : r.max_frame < 4294967296) (fits : length payload ≤ r.max_frame)
    (stream : pending r ws ≡ header (length payload) ++ (payload ++ rest)) where
  size : length (pending r ws) ≡ 4 + (length payload + length rest)
  size = rw stream (
      omega (
        arith,
        length-append (header (length payload)) (payload ++ rest),
        length-header (length payload),
        length-append payload rest,
      ))

  announced : unpack_from (pending r ws) ≡ length payload
  announced = rw stream (unpack_from-header (length payload) (payload ++ rest) (omega arith))

  -- At the end of the wakes the buffer is all that was pending.
  buffered :
      (r' : FrameReader) (ws' : Wakes)
      → Kept r ws r' ws'
      → ws' ≡ []
      → length r'.buf ≡ 4 + (length payload + length rest)
  buffered r' ws' k e =
      ap length (sym (append-nil r'.buf))
      ∙ ap (λ v. length (pending r' v)) (sym e)
      ∙ ap length k.bytes
      ∙ size

  received : (o : Out (Option Bytes)) → Delivers r ws o → Ends d o → Received d r payload rest o
  received (ret none r' ws') h e = absurd (omega (arith, buffered r' ws' h.0 e, ap length h.1))
  received (ret (some p) r' ws') h e =
      let same =
        header_injective p payload (pending r' ws') rest (omega (arith, h.1)) (omega arith)
          (h.0 ∙ stream) in
      record {
        reader = r';
        wakes = ws';
        result = ap (λ q. ret (some q) r' ws') same.0;
        left = same.1;
        live = e;
        cap = h.2;
      }
  received (raise closed r' ws') h e = elim e [ ]
  received (raise timed_out r' ws') h e = elim e [ ]
  received (raise over_cap r' ws') h e = absurd (omega (arith, announced))
  received (raise mid_header r' ws') h e = absurd (omega (arith, buffered r' ws' h.0 e))
  received (raise mid_frame r' ws') h e = absurd (omega (arith, buffered r' ws' h.0 e, announced))

-- If the pending bytes begin with a whole frame within the cap, and the polls are in time, one
-- call of `read` returns its payload and leaves exactly the bytes behind it.
pub read-frame :
    (d : Bool) (r : FrameReader) (ws : Wakes) (payload rest : Bytes)
    → r.max_frame < 4294967296
    → length payload ≤ r.max_frame
    → All IsByte (pending r ws)
    → IsLive d r ws
    → pending r ws ≡ header (length payload) ++ (payload ++ rest)
    → Received d r payload rest (read d r ws)
read-frame d r ws payload rest cap fits valid live stream =
    received d r ws payload rest cap fits stream (read d r ws) (read-Delivers d r ws valid)
      (read-Ends d r ws live)

-- The payloads, one frame after the other.
abbrev pub frames : List Bytes → Bytes
frames [] = []
frames (p ∷ ps) = header (length p) ++ (p ++ frames ps)

-- A client's loop: `read` until it returns no frame or raises.
abbrev collect : (FrameReader → Wakes → List Bytes) → Out (Option Bytes) → List Bytes
collect loop (ret (some p) r ws) = p ∷ loop r ws
collect loop (ret none r ws) = []
collect loop (raise e r ws) = []

unfoldable pub drain : ℕ → Bool → FrameReader → Wakes → List Bytes
drain zero d r ws = []
drain (suc fuel) d r ws = collect (drain fuel d) (read d r ws)

-- With nothing pending, `read` returns no frame.
collect-nil :
    (loop : FrameReader → Wakes → List Bytes) (r : FrameReader) (ws : Wakes)
    (o : Out (Option Bytes))
    → pending r ws ≡ []
    → Delivers r ws o
    → collect loop o ≡ []
collect-nil loop r ws (ret none r' ws') bare h = refl
collect-nil loop r ws (ret (some p) r' ws') bare h = absurd (
    omega (
      arith,
      ap length (h.0 ∙ bare),
      length-append (header (length p)) (p ++ pending r' ws'),
      length-header (length p),
    ))
collect-nil loop r ws (raise e r' ws') bare h = refl

-- Frames within the cap, one behind the other, are read one by one, in order and to the last,
-- however the bytes are cut into reads. The pending values are bytes, the descriptor is open and
-- every poll finds bytes in time.
pub drain-frames :
    (d : Bool) (r : FrameReader) (ws : Wakes) (ps : List Bytes)
    → r.max_frame < 4294967296
    → All (λ p. length p ≤ r.max_frame) ps
    → All IsByte (pending r ws)
    → IsLive d r ws
    → pending r ws ≡ frames ps
    → drain (suc (length ps)) d r ws ≡ ps
unfolding drain
drain-frames d r ws [] cap fits valid live stream =
    collect-nil (drain 0 d) r ws (read d r ws) stream (read-Delivers d r ws valid)
drain-frames d r ws (p ∷ ps) cap fits valid live stream = rw got.result (
    ap (◌∷◌ p) (
      drain-frames d got.reader got.wakes ps (rw got.cap cap)
        (subst (λ m. All (λ q. length q ≤ m) ps) (sym got.cap) (fits.1))
        (subst (All IsByte) (sym got.left) rest_valid) got.live got.left))
  where
    got : Received d r p (frames ps) (read d r ws)
    got = read-frame d r ws p (frames ps) cap fits.0 valid live stream

    rest_valid : All IsByte (frames ps)
    rest_valid = All-append_right IsByte p (frames ps) (
        All-append_right IsByte (header (length p)) (p ++ frames ps)
          (subst (All IsByte) stream valid))
