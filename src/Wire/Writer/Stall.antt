-- ===== src/Wire/Writer/Stall.antt =====
-- When `FrameWriter.send_encoded` gives up on a peer that does not read.
use pydeno.Prelude.{
  ℕ, ◌+◌, ◌<◌, ◌≤◌, ◌≡◌, refl, sym, subst, Bool, true, not, ◌||◌, leb, if_both, Option, none, some,
  List, [], ◌∷◌, ◌++◌, Bytes, All, length, length-drop, take, drop, arith,
}
use pydeno.Wire.Codec.{header}
use pydeno.Wire.Writer.{
  WriteError, blocking_io, stalled_write, Attempt, Attempts, wrote, would_block, failed,
  FrameWriter, Sent, accept, block, resume, write_loop, write_frame, send_frame, send_encoded,
}
use pydeno.Wire.Writer.Pipe.{pack-eq-header}

-- The attempt is a write, or a block at a time in [start, start + stall) behind which there is room in the
-- pipe; it is no other failure of `os.write`.
abbrev pub IsInTime : ℕ → ℕ → Attempt → Type 0
IsInTime start stall (wrote n) = Unit
IsInTime start stall (would_block now ready) =
    (ready ≡ true) × (start ≤ now) × (now < start + stall)
IsInTime start stall failed = ⊥

-- The clock at which the loop gives up is not yet set, or late enough.
abbrev IsLate : ℕ → ℕ → Option ℕ → Type 0
IsLate start stall none = Unit
IsLate start stall (some t) = start + stall ≤ t

module _ (start stall : ℕ) where
  block_in_time :
      (w : FrameWriter) (limit : Option ℕ) (until : Option ℕ) (now : ℕ) (ready : Bool)
      (loop : Option ℕ → Sent)
      → limit ≡ some stall
      → IsLate start stall until
      → IsInTime start stall (would_block now ready)
      → ((u : Option ℕ) → IsLate start stall u → (loop u).1 ≡ none)
      → (resume (block limit until now ready) w loop).1 ≡ none
  unfolding block
  block_in_time w none until now ready loop e late h ih = cc
  block_in_time w (some s) none now ready loop e late h ih =
      ground (arith, ih (some (now + s)) (ground arith))
  block_in_time w (some s) (some t) now ready loop e late h ih = ground (arith, ih (some t) late)

  write_loop_in_time :
      (w : FrameWriter) (view : Bytes) (until : Option ℕ) (attempts : Attempts)
      → w.stall ≡ some stall
      → IsLate start stall until
      → All (IsInTime start stall) attempts
      → (write_loop w view until attempts).1 ≡ none
  unfolding write_loop
  write_loop_in_time w [] until attempts e late h = refl
  write_loop_in_time w (b ∷ bs) until [] e late h = refl
  write_loop_in_time w (b ∷ bs) until (wrote n ∷ rest) e late h =
      write_loop_in_time (accept w (take n (b ∷ bs))) (drop n (b ∷ bs)) until rest e late h.1
  write_loop_in_time w (b ∷ bs) until (would_block now ready ∷ rest) e late h =
      block_in_time w w.stall until now ready _ e late h.0
        (λ u l. write_loop_in_time w (b ∷ bs) u rest e l h.1)
  write_loop_in_time w (b ∷ bs) until (failed ∷ rest) e late h = elim h.0 [ ]

  write_frame_in_time :
      (w : FrameWriter) (view : Bytes) (attempts : Attempts)
      → w.stall ≡ some stall
      → All (IsInTime start stall) attempts
      → (write_frame w view attempts).1 ≡ none
  unfolding write_frame
  write_frame_in_time w view [] e h = refl
  write_frame_in_time w view (wrote n ∷ rest) e h =
      write_loop_in_time (accept w (take n view)) (drop n view) none rest e tt h.1
  write_frame_in_time w view (would_block now ready ∷ rest) e h = go w.stall e
    where
      go :
          (s : Option ℕ)
          → s ≡ some stall
          → (elim s as (λ _. Sent) [
            | none ↦ (w, some blocking_io)
            | some _ ↦ write_loop w view none rest
          ]).1
            ≡ none
      go none q = cc
      go (some s) q = write_loop_in_time w view none rest e tt h.1
  write_frame_in_time w view (failed ∷ rest) e h = elim h.0 [ ]

-- On an open descriptor, with a stall limit and a payload under 2^32 bytes: a send raises nothing
-- if every block in it falls in the stall limit counted from the start of the send, each wait ends with
-- room in the pipe, and `os.write` never fails but by blocking.
pub send_encoded_in_time :
    (w : FrameWriter) (payload : Bytes) (attempts : Attempts) (n start stall : ℕ)
    → w.fd ≡ some n
    → w.stall ≡ some stall
    → length payload < 4294967296
    → All (IsInTime start stall) attempts
    → (send_encoded w payload attempts).1 ≡ none
unfolding send_encoded
send_encoded_in_time w payload attempts n start stall open_fd limit small h =
    rw (pack-eq-header (length payload) small) (go w.fd open_fd)
  where
    go :
        (fd : Option ℕ)
        → fd ≡ some n
        → (send_frame fd w (header (length payload) ++ payload) attempts).1 ≡ none
    go none q = cc
    go (some k) q =
        write_frame_in_time start stall w (header (length payload) ++ payload) attempts limit h

-- The bytes that writes of these sizes take.
abbrev pub total : List ℕ → ℕ
total [] = 0
total (n ∷ ns) = n + total ns

abbrev pub writes : List ℕ → Attempts
writes [] = []
writes (n ∷ ns) = wrote n ∷ writes ns

-- The loop with its deadline set.
write_loop_stalls :
    (w : FrameWriter) (view : Bytes) (t now stall : ℕ) (ready : Bool) (taken : List ℕ)
    (rest : Attempts)
    → w.stall ≡ some stall
    → t ≤ now
    → total taken < length view
    → (write_loop w view (some t) (writes taken ++ would_block now ready ∷ rest)).1
      ≡ some stalled_write
unfolding write_loop
write_loop_stalls w [] t now stall ready taken rest e past less = absurd (omega arith)
write_loop_stalls w (b ∷ bs) t now stall ready [] rest e past less = go w.stall e
  where
    go :
        (s : Option ℕ)
        → s ≡ some stall
        → (resume (block s (some t) now ready) w (λ until. write_loop w (b ∷ bs) until rest)).1
          ≡ some stalled_write
    go none q = cc
    go (some s) q = unfold block in ground arith
write_loop_stalls w (b ∷ bs) t now stall ready (n ∷ ns) rest e past less =
    write_loop_stalls (accept w (take n (b ∷ bs))) (drop n (b ∷ bs)) t now stall ready ns rest e
      past (omega (arith, length-drop n (b ∷ bs)))

-- What an attempt takes, none of one that fails.
abbrev pub size_of : Attempt → Option ℕ
size_of (wrote n) = some n
size_of (would_block now ready) = some 0
size_of failed = none

-- The loop before its first block, which sets the deadline.
module _ (first now stall : ℕ) (room ready : Bool) (taken : List ℕ) (rest : Attempts) where
  abbrev pub tail : Attempts
  tail = would_block first room ∷ writes taken ++ would_block now ready ∷ rest

  first_block :
      (w : FrameWriter) (b : ℕ) (bs : Bytes) (limit : Option ℕ)
      → limit ≡ some stall
      → w.stall ≡ some stall
      → first + stall ≤ now
      → total taken < length (b ∷ bs)
      → (resume
          (block limit none first room)
          w
          (λ until. write_loop w (b ∷ bs) until (writes taken ++ would_block now ready ∷ rest))).1
        ≡ some stalled_write
  unfolding block
  first_block w b bs none e limit past less = cc
  first_block w b bs (some s) e limit past less =
      let q : s ≡ stall = cc in
      if_both
        (λ (p : Option WriteError × Option ℕ).
          (resume p w
            (λ until. write_loop w (b ∷ bs) until (writes taken ++ would_block now ready ∷ rest))).1
          ≡ some stalled_write)
        (leb (first + s) first || not room) _ _ (λ _. refl)
        (λ _.
          write_loop_stalls w (b ∷ bs) (first + s) now stall ready taken rest limit
            (omega (arith, q, past)) less)

  loop_stalls :
      (w : FrameWriter) (view : Bytes) (before : List ℕ)
      → w.stall ≡ some stall
      → first + stall ≤ now
      → total before + total taken < length view
      → (write_loop w view none (writes before ++ tail)).1 ≡ some stalled_write
  unfolding write_loop
  loop_stalls w [] before limit past less = absurd (omega (arith, less))
  loop_stalls w (b ∷ bs) [] limit past less =
      first_block w b bs w.stall limit limit past (omega (arith, less))
  loop_stalls w (b ∷ bs) (n ∷ ns) limit past less =
      loop_stalls (accept w (take n (b ∷ bs))) (drop n (b ∷ bs)) ns limit past
        (omega (arith, less, length-drop n (b ∷ bs)))

  frame_stalls :
      (w : FrameWriter) (frame : Bytes) (opening : Attempt) (before : List ℕ) (size : ℕ)
      → w.stall ≡ some stall
      → first + stall ≤ now
      → size_of opening ≡ some size
      → size + total before + total taken < length frame
      → (write_frame w frame (opening ∷ writes before ++ tail)).1 ≡ some stalled_write
  unfolding write_frame
  frame_stalls w frame (wrote n) before size limit past e less =
      let q : n ≡ size = cc in
      loop_stalls (accept w (take n frame)) (drop n frame) before limit past
        (omega (arith, q, less, length-drop n frame))
  frame_stalls w frame (would_block t r) before size limit past e less =
      rw limit (loop_stalls w frame before limit past (omega (arith, less)))
  frame_stalls w frame failed before size limit past e less = cc

  -- The stall limit runs from the first block that the loop of `send_encoded` meets, not from the last
  -- progress. On an open descriptor, with a stall limit and a payload under 2^32 bytes: whatever the
  -- first `os.write` took, or if it blocked, and whatever writes then took before a block at `first` and
  -- behind it, the next block raises StalledWrite if bytes of the frame are left and its time is
  -- `first` and the stall limit, or later.
  pub send_encoded_stalls :
      (w : FrameWriter) (payload : Bytes) (opening : Attempt) (before : List ℕ) (n size : ℕ)
      → w.fd ≡ some n
      → w.stall ≡ some stall
      → length payload < 4294967296
      → size_of opening ≡ some size
      → size + total before + total taken < 4 + length payload
      → first + stall ≤ now
      → (send_encoded w payload (
          opening ∷ writes before
          ++ (would_block first room ∷ writes taken ++ would_block now ready ∷ rest))).1
        ≡ some stalled_write
  unfolding send_encoded send_frame header
  send_encoded_stalls w payload opening before n size open_fd limit small e less past =
      rw (pack-eq-header (length payload) small) (
        subst
          (λ fd.
            (send_frame fd w (header (length payload) ++ payload)
              (opening ∷ writes before ++ tail)).1
            ≡ some stalled_write)
          (sym open_fd)
          (frame_stalls w (header (length payload) ++ payload) opening before size limit past e
            (omega (arith, less))))
