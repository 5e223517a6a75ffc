-- ===== src/Wire/Reader/Delivers.antt =====
-- What `FrameReader.read` gives for every way in which the bytes can arrive.
use pydeno.Prelude.{
  ℕ, ◌+◌, ◌≤◌, ◌<◌, ◌≡◌, sym, ap, ◌∙◌, subst, Bool, true, false, Option, none, some, [], ◌∷◌, ◌++◌,
  append_assoc, append-nil, Bytes, All, All-append_left, length, length-take, nil_of_is_empty,
  length-pos, length-drop, take, drop, is_empty, ltb, leb, ◌==◌, arith, Bool-cases, inl, inr,
  ltb→lt, leb→le,
}
use pydeno.Wire.Codec.{
  IsByte, header, header_size, unpack_from, unpack_from-append, header-unpack_from, frame_of_buffer,
}
use pydeno.Wire.Reader.{
  ReadError, FrameReader, Wakes, Out, ret, raise, closed, timed_out, over_cap, mid_header,
  mid_frame, push, read_chunk, fill_until, cut_frame, end_payload, read_payload, end_header,
  read_buffered, first_chunk, begin_empty, read,
}
use pydeno.Wire.Reader.Stream.{
  bytes_of, pending, Kept, Kept-refl, Kept-trans, IsInterrupt, Filled, Filled-trans,
  fill_until-Filled, Waited, read_chunk-Waited,
}

-- A frame is the header and the payload of the pending bytes, in order, and within the cap. A
-- timeout, a closed descriptor and an end of file lose nothing. The protocol errors say what is
-- wrong with the bytes.
abbrev pub Delivers : FrameReader → Wakes → Out (Option Bytes) → Type 0
Delivers r₀ ws₀ (ret none r ws) = Kept r₀ ws₀ r ws × (r.buf ≡ [])
Delivers r₀ ws₀ (ret (some payload) r ws) =
    (header (length payload) ++ (payload ++ pending r ws) ≡ pending r₀ ws₀)
    × (length payload ≤ r₀.max_frame)
    × (r.max_frame ≡ r₀.max_frame)
    × (r.fd ≡ r₀.fd)
Delivers r₀ ws₀ (raise closed r ws) = Kept r₀ ws₀ r ws
Delivers r₀ ws₀ (raise timed_out r ws) = Kept r₀ ws₀ r ws
Delivers r₀ ws₀ (raise over_cap r ws) = r₀.max_frame < unpack_from (pending r₀ ws₀)
Delivers r₀ ws₀ (raise mid_header r ws) =
    Kept r₀ ws₀ r ws × (0 < length r.buf) × (length r.buf < header_size)
Delivers r₀ ws₀ (raise mid_frame r ws) =
    Kept r₀ ws₀ r ws × (length r.buf < header_size + unpack_from (pending r₀ ws₀))

module _ (r₀ : FrameReader) (ws₀ : Wakes) (valid : All IsByte (pending r₀ ws₀)) where
  cut_frame-Delivers :
      (r : FrameReader) (ws : Wakes)
      → Kept r₀ ws₀ r ws
      → unpack_from r.buf ≤ r.max_frame
      → header_size + unpack_from r.buf ≤ length r.buf
      → Delivers r₀ ws₀ (cut_frame (unpack_from r.buf) r ws)
  unfolding cut_frame
  cut_frame-Delivers r ws k fits whole =
      (frame, rw size (subst (λ m. unpack_from r.buf ≤ m) k.cap fits), k.cap, k.fd)
    where
      size : length (take (unpack_from r.buf) (drop header_size r.buf)) ≡ unpack_from r.buf
      size =
          length-take (unpack_from r.buf) (drop header_size r.buf)
            (omega (arith, length-drop header_size r.buf))

      valid_buf : All IsByte r.buf
      valid_buf =
          All-append_left IsByte r.buf (bytes_of ws) (subst (All IsByte) (sym k.bytes) valid)

      frame :
          header (length (take (unpack_from r.buf) (drop header_size r.buf)))
            ++ (take (unpack_from r.buf) (drop header_size r.buf)
                ++ (drop (header_size + unpack_from r.buf) r.buf ++ bytes_of ws))
          ≡ pending r₀ ws₀
      frame = rw size (
          rw (← append_assoc _ _ (bytes_of ws)) (
            rw (← append_assoc _ _ (bytes_of ws))
              (rw (frame_of_buffer r.buf whole valid_buf) k.bytes)))

  announced :
      (r : FrameReader) (ws : Wakes)
      → Kept r₀ ws₀ r ws
      → header_size ≤ length r.buf
      → unpack_from (pending r₀ ws₀) ≡ unpack_from r.buf
  announced r ws k h = rw (← k.bytes) (unpack_from-append r.buf (bytes_of ws) h)

  interrupt-Delivers :
      (e : ReadError) (r : FrameReader) (ws : Wakes)
      → Kept r₀ ws₀ r ws
      → IsInterrupt e
      → Delivers r₀ ws₀ (raise e r ws)
  interrupt-Delivers closed r ws k i = k
  interrupt-Delivers timed_out r ws k i = k
  interrupt-Delivers _ r ws k i = elim i [ ]

  end_payload-Delivers :
      (size : ℕ) (r : FrameReader) (ws : Wakes) (o : Out Bool)
      → Kept r₀ ws₀ r ws
      → unpack_from (pending r₀ ws₀) ≡ size
      → size ≤ r.max_frame
      → Filled (header_size + size) r ws o
      → Delivers r₀ ws₀ (end_payload size o)
  unfolding end_payload
  end_payload-Delivers size r ws (ret true r' ws') k e fits f =
      let kept = Kept-trans k f.0 in
      let same : unpack_from r'.buf ≡ size = sym (announced r' ws' kept (omega (arith, f.1))) ∙ e in
      subst (λ n. Delivers r₀ ws₀ (cut_frame n r' ws')) same
        (cut_frame-Delivers r' ws' kept (rw same (omega (arith, f.0.cap))) (rw same (f.1)))
  end_payload-Delivers size r ws (ret false r' ws') k e fits f = (Kept-trans k f.0, rw e (f.1))
  end_payload-Delivers size r ws (raise x r' ws') k e fits f =
      interrupt-Delivers x r' ws' (Kept-trans k f.0) f.1

  end_header-Delivers :
      (d : Bool) (o : Out Bool) → Filled header_size r₀ ws₀ o → Delivers r₀ ws₀ (end_header d o)
  unfolding end_header read_payload
  end_header-Delivers d (ret true r ws) (k, h) =
      elim (Bool-cases (ltb r.max_frame (unpack_from r.buf))) [
        | inl over ↦
            rw (over, Delivers) (rw (announced r ws k h) (omega (arith, k.cap, ltb→lt _ _ over)))
        | inr fits ↦ rw fits (
            end_payload-Delivers (unpack_from r.buf) r ws
              (fill_until (header_size + unpack_from r.buf) d r ws) k (announced r ws k h)
              (ground arith) (fill_until-Filled (header_size + unpack_from r.buf) d r ws))
      ]
  end_header-Delivers d (ret false r ws) (k, h) = elim (Bool-cases (is_empty r.buf)) [
    | inl bare ↦ rw bare (k, nil_of_is_empty r.buf bare)
    | inr part ↦ rw part (k, length-pos r.buf part, h)
  ]
  end_header-Delivers d (raise e r ws) (k, i) = interrupt-Delivers e r ws k i

  read_buffered-Delivers :
      (d : Bool) (r : FrameReader) (ws : Wakes)
      → Kept r₀ ws₀ r ws
      → Delivers r₀ ws₀ (read_buffered d r ws)
  unfolding read_buffered
  read_buffered-Delivers d r ws k = end_header-Delivers d (fill_until header_size d r ws) (
      Filled-trans header_size r₀ r ws₀ ws (fill_until header_size d r ws) k
        (fill_until-Filled header_size d r ws))

  -- A chunk that is exactly one frame.
  whole_chunk-Delivers :
      (chunk : Bytes) (r : FrameReader) (ws : Wakes)
      → Kept r₀ ws₀ (record r { buf = chunk }) ws
      → r.buf ≡ []
      → unpack_from chunk ≤ r.max_frame
      → length chunk ≡ header_size + unpack_from chunk
      → Delivers r₀ ws₀ (ret (some (drop header_size chunk)) r ws)
  whole_chunk-Delivers chunk r ws k bare fits whole =
      (frame, rw size (subst (λ m. unpack_from chunk ≤ m) k.cap fits), k.cap, k.fd)
    where
      size : length (drop header_size chunk) ≡ unpack_from chunk
      size = omega (arith, length-drop header_size chunk)

      valid_chunk : All IsByte chunk
      valid_chunk =
          All-append_left IsByte chunk (bytes_of ws) (subst (All IsByte) (sym k.bytes) valid)

      frame :
          header (length (drop header_size chunk)) ++ (drop header_size chunk ++ pending r ws)
          ≡ pending r₀ ws₀
      frame = rw size (
          rw (ap (λ b. b ++ bytes_of ws) bare) (
            rw (← append_assoc _ _ (bytes_of ws))
              (rw (header-unpack_from chunk (omega arith) valid_chunk) k.bytes)))

  first_chunk-Delivers :
      (d : Bool) (chunk : Bytes) (r : FrameReader) (ws : Wakes)
      → Kept r₀ ws₀ (push r chunk) ws
      → r.buf ≡ []
      → Delivers r₀ ws₀ (first_chunk d chunk r ws)
  unfolding first_chunk
  first_chunk-Delivers d [] r ws k bare = (
    record {
      bytes = ap (λ b. b ++ bytes_of ws) (sym (append-nil r.buf)) ∙ k.bytes;
      cap = k.cap;
      fd = k.fd;
    },
    bare,
  )
  first_chunk-Delivers d (b ∷ bs) r ws k bare = elim (Bool-cases (leb header_size (length chunk))) [
    | inr short ↦ rw short buffered
    | inl long ↦ rw long (elim (Bool-cases (ltb r.max_frame (unpack_from chunk))) [
      | inl over ↦
          rw (over, Delivers)
            (rw (announced held ws kept (leb→le _ _ long)) (omega (arith, k.cap, ltb→lt _ _ over)))
      | inr fits ↦ rw fits (elim (Bool-cases (length chunk == header_size + unpack_from chunk)) [
        | inl whole ↦
            rw whole (whole_chunk-Delivers chunk r ws kept bare (ground arith) (ground arith))
        | inr more ↦ rw more buffered
      ])
    ])
  ]
    where
      chunk : Bytes
      chunk = b ∷ bs

      held : FrameReader
      held = record r { buf = b ∷ bs }

      kept : Kept r₀ ws₀ (record r { buf = b ∷ bs }) ws
      kept = record {
        bytes = ap (λ c. (c ++ b ∷ bs) ++ bytes_of ws) (sym bare) ∙ k.bytes;
        cap = k.cap;
        fd = k.fd;
      }

      buffered : Delivers r₀ ws₀ (read_buffered d (push r (b ∷ bs)) ws)
      buffered = read_buffered-Delivers d (push r (b ∷ bs)) ws k

  begin_empty-Delivers :
      (d : Bool) (o : Out Bytes) → r₀.buf ≡ [] → Waited r₀ ws₀ o → Delivers r₀ ws₀ (begin_empty d o)
  unfolding begin_empty
  begin_empty-Delivers d (ret chunk r ws) bare w =
      first_chunk-Delivers d chunk r ws
        (record {
          bytes = append_assoc r.buf chunk (bytes_of ws) ∙ ground (arith, w.0, w.1);
          cap = ap (λ (q : FrameReader). q.max_frame) w.0;
          fd = ap (λ (q : FrameReader). q.fd) w.0;
        })
        (ap (λ (q : FrameReader). q.buf) w.0 ∙ bare)
  begin_empty-Delivers d (raise e r ws) bare w =
      interrupt-Delivers e r ws
        (record {
          bytes = ground (arith, w.0, w.1);
          cap = ap (λ (q : FrameReader). q.max_frame) w.0;
          fd = ap (λ (q : FrameReader). q.fd) w.0;
        })
        w.2

-- Every call of `read`, whatever bytes are buffered and however the rest arrive, either hands
-- over the frame with which the pending bytes begin (header, payload, within the cap) and keeps
-- the bytes behind it, or loses nothing (end of file between frames, a timeout, a closed
-- descriptor, a peer that closes inside a header or a frame), or refuses an announced length over
-- the cap. The pending values are bytes.
pub read-Delivers :
    (d : Bool) (r : FrameReader) (ws : Wakes)
    → All IsByte (pending r ws)
    → Delivers r ws (read d r ws)
unfolding read
read-Delivers d r ws valid = elim (Bool-cases (is_empty r.buf)) [
  | inl bare ↦ rw bare (
      begin_empty-Delivers r ws valid d (read_chunk d r ws) (nil_of_is_empty r.buf bare)
        (read_chunk-Waited d r ws))
  | inr held ↦ rw held (read_buffered-Delivers r ws valid d r ws (Kept-refl r ws))
]
