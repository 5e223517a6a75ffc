-- ===== src/Wire/Transport.antt =====
-- Writer and reader of python/pydeno/_wire.py at the two ends of one pipe.
use pydeno.Prelude.{
  ℕ, suc, ◌<◌, ◌≤◌, ◌≡◌, refl, sym, ap, ◌∙◌, subst, Bool, Option, none, some, List, [], ◌∷◌, ◌++◌,
  append_assoc, append-nil, Bytes, All, All-append, length, arith,
}
use pydeno.Wire.Codec.{IsByte, header, header-IsByte}
use pydeno.Wire.Writer
use pydeno.Wire.Writer.{FrameWriter, WriteError, Attempts, Sent, send_encoded}
use pydeno.Wire.Writer.Pipe.{Writes, send_encoded-Writes}
use pydeno.Wire.Reader
use pydeno.Wire.Reader.{Wakes, FrameReader}
use pydeno.Wire.Reader.Stream.{bytes_of}
use pydeno.Wire.Reader.Ready.{IsReady}
use pydeno.Wire.Reader.Frames.{frames, drain, drain-frames}

-- Payloads sent one after the other, each with what the descriptor does meanwhile; the first
-- exception ends it.
abbrev then_send : Sent → (FrameWriter → Sent) → Sent
then_send (w, none) next = next w
then_send (w, some e) next = (w, some e)

unfoldable pub send_all : FrameWriter → List (Bytes × Attempts) → Sent
send_all w [] = (w, none)
send_all w ((p, attempts) ∷ rest) = then_send (send_encoded w p attempts) (λ w'. send_all w' rest)

abbrev pub payloads : List (Bytes × Attempts) → List Bytes
payloads [] = []
payloads ((p, _) ∷ rest) = p ∷ payloads rest

then_send-Writes :
    (w : FrameWriter) (view more : Bytes) (s : Sent) (next : FrameWriter → Sent)
    → Writes w view s
    → ((w' : FrameWriter) → w'.fd ≡ w.fd → (next w').1 ≡ none → (next w').0.pipe ≡ w'.pipe ++ more)
    → (then_send s next).1 ≡ none
    → (then_send s next).0.pipe ≡ w.pipe ++ (view ++ more)
then_send-Writes w view more (w', none) next h ih done =
    ih w' h.1 done ∙ ap (λ b. b ++ more) h.0 ∙ append_assoc w.pipe view more
then_send-Writes w view more (w', some e) next h ih done = cc

-- If no send raises, the descriptor has taken the frames, whole and in order.
pub pipe-send_all :
    (w : FrameWriter) (n : ℕ) (messages : List (Bytes × Attempts))
    → w.fd ≡ some n
    → All (λ p. length p < 4294967296) (payloads messages)
    → (send_all w messages).1 ≡ none
    → (send_all w messages).0.pipe ≡ w.pipe ++ frames (payloads messages)
unfolding send_all
pipe-send_all w n [] open_fd small done = sym (append-nil w.pipe)
pipe-send_all w n ((p, attempts) ∷ rest) open_fd small done =
    then_send-Writes w (header (length p) ++ p) (frames (payloads rest)) (send_encoded w p attempts)
      (λ w'. send_all w' rest) (send_encoded-Writes w p attempts n open_fd small.0)
      (λ w' same ok. pipe-send_all w' n rest (same ∙ open_fd) small.1 ok) done
    ∙ ap (λ b. w.pipe ++ b) (append_assoc (header (length p)) p (frames (payloads rest)))

frames-IsByte : (ps : List Bytes) → All (All IsByte) ps → All IsByte (frames ps)
frames-IsByte [] h = tt
frames-IsByte (p ∷ ps) h =
    All-append IsByte (header (length p)) (p ++ frames ps) (header-IsByte (length p))
      (All-append IsByte p (frames ps) h.0 (frames-IsByte ps h.1))

weaken :
    (m : ℕ) (ps : List Bytes)
    → m < 4294967296
    → All (λ p. length p ≤ m) ps
    → All (λ p. length p < 4294967296) ps
weaken m [] h v = tt
weaken m (p ∷ ps) h v = (omega (arith, v.0), weaken m ps h v.1)

-- What a fresh writer sent without an exception, a fresh reader of the same pipe reads back, payload
-- by payload and in order, whatever the sizes of the single writes were and however the bytes are
-- cut into reads. The payloads are within the reader's cap, the reader's polls find bytes in time.
pub drain-send_all :
    (d : Bool) (fd out max_frame : ℕ) (stall : Option ℕ) (messages : List (Bytes × Attempts))
    (ws : Wakes)
    → max_frame < 4294967296
    → All (λ p. length p ≤ max_frame) (payloads messages)
    → All (All IsByte) (payloads messages)
    → (send_all (Writer.init out stall) messages).1 ≡ none
    → All (IsReady d) ws
    → bytes_of ws ≡ (send_all (Writer.init out stall) messages).0.pipe
    → drain (suc (length (payloads messages))) d (Reader.init fd max_frame) ws ≡ payloads messages
unfolding Writer.init Reader.init
drain-send_all d fd out max_frame stall messages ws cap fits valid sent ready pipe =
    drain-frames d (record { fd = some fd; max_frame = max_frame; buf = [] }) ws (payloads messages)
      cap fits (subst (All IsByte) (sym stream) (frames-IsByte (payloads messages) valid))
      ((fd, refl), ready) stream
  where
    stream : bytes_of ws ≡ frames (payloads messages)
    stream =
        pipe
        ∙ pipe-send_all (record { fd = some out; stall = stall; pipe = [] }) out messages refl
            (weaken max_frame (payloads messages) cap fits) sent
