-- ===== src/Wire/Writer.antt =====
-- `FrameWriter` of python/pydeno/_wire.py.
--
-- What the descriptor does is a list of attempts, one for each `os.write`; behind the last one it
-- takes whatever is left at once. Times are readings of `time.monotonic()`, in ticks.
pub mod Pipe
pub mod Stall
use pydeno.Prelude.{
  ℕ, ◌+◌, ◌-◌, Bool, true, false, not, ◌||◌, Option, none, some, List, [], ◌∷◌, ◌++◌, Bytes, length,
  take, drop, is_empty, leb, ◌==◌, if◌then◌else◌,
}
use pydeno.Wire.Codec.{pack}

pub data WriteError : Type 0 where
  struct_error : WriteError  -- a payload of 2^32 bytes or more
  broken_pipe : WriteError
  blocking_io : WriteError
  stalled_write : WriteError
  os_error : WriteError  -- any other error of `os.write`

-- `wrote n`: the descriptor took the first `n` bytes. `would_block now ready`: BlockingIOError; the
-- clock then read `now`, and a wait for the descriptor, if there is one, ends with `ready`.
pub data Attempt : Type 0 where
  wrote : ℕ → Attempt
  would_block : ℕ → Bool → Attempt
  failed : Attempt

abbrev pub Attempts : Type 0
Attempts = List Attempt

-- `fd` is none for a negative descriptor; `pipe` is what the descriptor has taken so far.
pub record FrameWriter : Type 0 where
  pub fd : Option ℕ
  pub stall : Option ℕ
  pub pipe : Bytes

unfoldable pub init : ℕ → Option ℕ → FrameWriter
init fd stall = record { fd = some fd; stall = stall; pipe = [] }

unfoldable pub invalidate : FrameWriter → FrameWriter
invalidate w = record w { fd = none }

-- The writer after a call, and the exception that the call raised, if any.
abbrev pub Sent : Type 0
Sent = FrameWriter × Option WriteError

abbrev pub accept : FrameWriter → Bytes → FrameWriter
accept w bytes = record w { pipe = w.pipe ++ bytes }

-- The clock at which a writer that is blocked gives up: set at the first block, and kept.
abbrev pub give_up_at : Option ℕ → ℕ → ℕ → ℕ
give_up_at none now stall = now + stall
give_up_at (some t) now stall = t

-- The handler of BlockingIOError in the loop: the exception, or the new `blocked_until`.
unfoldable pub block : Option ℕ → Option ℕ → ℕ → Bool → Option WriteError × Option ℕ
block none blocked_until now ready = (some blocking_io, blocked_until)
block (some stall) blocked_until now ready =
    let until = give_up_at blocked_until now stall in
    if leb until now || not ready then (some stalled_write, some until) else (none, some until)

abbrev pub resume : Option WriteError × Option ℕ → FrameWriter → (Option ℕ → Sent) → Sent
resume (some e, until) w loop = (w, some e)
resume (none, until) w loop = loop until

-- `while view: ...`
unfoldable pub write_loop : FrameWriter → Bytes → Option ℕ → Attempts → Sent
unfolding block
write_loop w [] blocked_until attempts = (w, none)
write_loop w (b ∷ bs) blocked_until [] = (accept w (b ∷ bs), none)
write_loop w (b ∷ bs) blocked_until (wrote n ∷ rest) =
    write_loop (accept w (take n (b ∷ bs))) (drop n (b ∷ bs)) blocked_until rest
write_loop w (b ∷ bs) blocked_until (would_block now ready ∷ rest) =
    resume (block w.stall blocked_until now ready) w (λ until. write_loop w (b ∷ bs) until rest)
write_loop w (b ∷ bs) blocked_until (failed ∷ rest) = (w, some os_error)

-- The first `os.write`, before the loop, and the loop on what it left. A write that takes the
-- whole frame returns at once, which is what the loop does with no bytes.
unfoldable pub write_frame : FrameWriter → Bytes → Attempts → Sent
unfolding write_loop
write_frame w frame [] = (accept w frame, none)
write_frame w frame (wrote n ∷ rest) = write_loop (accept w (take n frame)) (drop n frame) none rest
write_frame w frame (would_block now ready ∷ rest) = elim w.stall [
  | none ↦ (w, some blocking_io)
  | some _ ↦ write_loop w frame none rest
]
write_frame w frame (failed ∷ rest) = (w, some os_error)

-- The part of `send_encoded` under the lock, on `self._fd`.
unfoldable pub send_frame : Option ℕ → FrameWriter → Bytes → Attempts → Sent
unfolding write_frame
send_frame none w frame attempts = (w, some broken_pipe)
send_frame (some _) w frame attempts = write_frame w frame attempts

-- `_HEADER.pack(len(payload)) + payload`
unfoldable pub send_packed : Option Bytes → FrameWriter → Bytes → Attempts → Sent
unfolding send_frame
send_packed none w payload attempts = (w, some struct_error)
send_packed (some head) w payload attempts = send_frame w.fd w (head ++ payload) attempts

-- `send_encoded`
unfoldable pub send_encoded : FrameWriter → Bytes → Attempts → Sent
unfolding send_packed
send_encoded w payload attempts = send_packed (pack (length payload)) w payload attempts
