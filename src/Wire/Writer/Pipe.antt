-- ===== src/Wire/Writer/Pipe.antt =====
-- What `FrameWriter.send_encoded` puts on the descriptor.
use pydeno.Prelude.{
  ℕ, ◌<◌, ◌≡◌, refl, sym, ap, ◌∙◌, subst, Option, none, some, [], ◌∷◌, ◌++◌, append_assoc,
  append-nil, Bytes, length, take, drop, take-append-drop, arith,
}
use pydeno.Wire.Codec.{pack, header}
use pydeno.Wire.Writer.{
  WriteError, broken_pipe, blocking_io, os_error, Attempts, wrote, would_block, failed, FrameWriter,
  Sent, accept, block, resume, invalidate, write_loop, write_frame, send_frame, send_packed,
  send_encoded,
}

-- A return has put all of `view` on the descriptor; an exception, a part that begins it. The
-- descriptor and the stall limit are as they were.
abbrev pub Writes : FrameWriter → Bytes → Sent → Type 0
Writes w view (w', none) = (w'.pipe ≡ w.pipe ++ view) × (w'.fd ≡ w.fd) × (w'.stall ≡ w.stall)
Writes w view (w', some e) =
    ((part : Bytes) × (rest : Bytes) × (part ++ rest ≡ view) × (w'.pipe ≡ w.pipe ++ part))
    × (w'.fd ≡ w.fd)
    × (w'.stall ≡ w.stall)

nothing-Writes : (w : FrameWriter) (view : Bytes) (e : WriteError) → Writes w view (w, some e)
nothing-Writes w view e = (([], view, refl, sym (append-nil w.pipe)), refl, refl)

-- A write of `n` bytes and then what becomes of the others.
wrote-Writes :
    (w : FrameWriter) (view : Bytes) (n : ℕ) (s : Sent)
    → Writes (accept w (take n view)) (drop n view) s
    → Writes w view s
wrote-Writes w view n (w', none) h = (
  h.0
      ∙ append_assoc w.pipe (take n view) (drop n view)
      ∙ ap (λ v. w.pipe ++ v) (take-append-drop n view),
  h.1,
  h.2,
)
wrote-Writes w view n (w', some e) ((part, rest, cut, put), fd, stall) = (
  (
    take n view ++ part,
    rest,
    append_assoc (take n view) part rest ∙ ap (λ v. take n view ++ v) cut ∙ take-append-drop n view,
    put ∙ append_assoc w.pipe (take n view) part,
  ),
  fd,
  stall,
)

resume-Writes :
    (w : FrameWriter) (view : Bytes) (b : Option WriteError × Option ℕ) (loop : Option ℕ → Sent)
    → ((until : Option ℕ) → Writes w view (loop until))
    → Writes w view (resume b w loop)
resume-Writes w view (some e, until) loop ih = nothing-Writes w view e
resume-Writes w view (none, until) loop ih = ih until

pub write_loop-Writes :
    (w : FrameWriter) (view : Bytes) (until : Option ℕ) (attempts : Attempts)
    → Writes w view (write_loop w view until attempts)
unfolding write_loop
write_loop-Writes w [] until attempts = (sym (append-nil w.pipe), refl, refl)
write_loop-Writes w (b ∷ bs) until [] = (refl, refl, refl)
write_loop-Writes w (b ∷ bs) until (wrote n ∷ rest) =
    wrote-Writes w (b ∷ bs) n _
      (write_loop-Writes (accept w (take n (b ∷ bs))) (drop n (b ∷ bs)) until rest)
write_loop-Writes w (b ∷ bs) until (would_block now ready ∷ rest) =
    resume-Writes w (b ∷ bs) (block w.stall until now ready) _
      (λ u. write_loop-Writes w (b ∷ bs) u rest)
write_loop-Writes w (b ∷ bs) until (failed ∷ rest) = nothing-Writes w (b ∷ bs) os_error

write_frame-Writes :
    (w : FrameWriter) (view : Bytes) (attempts : Attempts)
    → Writes w view (write_frame w view attempts)
unfolding write_frame
write_frame-Writes w view [] = (refl, refl, refl)
write_frame-Writes w view (wrote n ∷ rest) =
    wrote-Writes w view n _ (write_loop-Writes (accept w (take n view)) (drop n view) none rest)
write_frame-Writes w view (would_block now ready ∷ rest) =
    elim (w.stall)
      as (λ s.
        Writes w view
          (elim s [ none ↦ (w, some blocking_io) | some _ ↦ write_loop w view none rest ])) [
            | none ↦ nothing-Writes w view blocking_io
            | some _ ↦ write_loop-Writes w view none rest
          ]
write_frame-Writes w view (failed ∷ rest) = nothing-Writes w view os_error

pub pack-eq-header : (n : ℕ) → n < 4294967296 → pack n ≡ some (header n)
unfolding pack
pack-eq-header n h = ground arith

send_frame-Writes :
    (fd : Option ℕ) (n : ℕ) (w : FrameWriter) (frame : Bytes) (attempts : Attempts)
    → fd ≡ some n
    → Writes w frame (send_frame fd w frame attempts)
unfolding send_frame
send_frame-Writes none n w frame attempts h = cc
send_frame-Writes (some k) n w frame attempts h = write_frame-Writes w frame attempts

-- On an open descriptor, a payload under 2^32 bytes: `send_encoded` returns only when header and
-- payload are on the descriptor, whole and in order, whatever sizes the single writes had; when it
-- raises, what is on the descriptor is a beginning of that frame.
pub send_encoded-Writes :
    (w : FrameWriter) (payload : Bytes) (attempts : Attempts) (n : ℕ)
    → w.fd ≡ some n
    → length payload < 4294967296
    → Writes w (header (length payload) ++ payload) (send_encoded w payload attempts)
unfolding send_encoded
send_encoded-Writes w payload attempts n open_fd small =
    subst (λ o. Writes w (header (length payload) ++ payload) (send_packed o w payload attempts))
      (sym (pack-eq-header (length payload) small))
      (send_frame-Writes w.fd n w (header (length payload) ++ payload) attempts open_fd)

-- After `invalidate`, whatever the payload: nothing is written, and the call raises.
pub send_encoded-invalidate :
    (w : FrameWriter) (payload : Bytes) (attempts : Attempts)
    → length payload < 4294967296
    → send_encoded (invalidate w) payload attempts ≡ (invalidate w, some broken_pipe)
unfolding send_encoded invalidate
send_encoded-invalidate w payload attempts small = rw (pack-eq-header (length payload) small)
