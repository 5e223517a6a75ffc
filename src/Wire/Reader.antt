-- ===== src/Wire/Reader.antt =====
-- `FrameReader` of python/pydeno/_wire.py.
--
-- What the descriptor does is a list of wakes, one for each `os.read` that returns and one for
-- each `poll` that ends at the deadline; after the last one the peer has closed its end.
pub mod Stream
pub mod Delivers
pub mod Ready
pub mod Frames
use pydeno.Prelude.{
  ℕ, zero, suc, ◌+◌, Bool, true, false, Option, none, some, List, [], ◌∷◌, ◌++◌, Bytes, length,
  take, drop, is_empty, ltb, leb, ◌==◌, if◌then◌else◌,
}
use pydeno.Wire.Codec.{header_size, unpack_from}

pub data ReadError : Type 0 where
  closed : ReadError  -- OSError(EBADF)
  timed_out : ReadError  -- TimeoutError
  over_cap : ReadError  -- WireError, the three below too
  mid_header : ReadError
  mid_frame : ReadError

-- `late`: `remaining <= 0` or `poll` returned nothing. `arrives`: the bytes of one `os.read`,
-- none at end of file.
pub data Wake : Type 0 where
  late : Wake
  arrives : Bytes → Wake

abbrev pub Wakes : Type 0
Wakes = List Wake

-- `fd` is none for a negative descriptor, which `invalidate` sets.
pub record FrameReader : Type 0 where
  pub fd : Option ℕ
  pub max_frame : ℕ
  pub buf : Bytes

unfoldable pub init : ℕ → ℕ → FrameReader
init fd max_frame = record { fd = some fd; max_frame = max_frame; buf = [] }

unfoldable pub invalidate : FrameReader → FrameReader
invalidate r = record r { fd = none }

-- A method's return, or the exception that it raises, with the state that it leaves.
pub data Out {ℓ} (A : Type ℓ) : Type ℓ where
  ret : A → FrameReader → Wakes → Out A
  raise : ReadError → FrameReader → Wakes → Out A

-- The wait and the read of `_chunk`. Without a deadline there is no wait to be late for.
unfoldable pub wait_read : Bool → FrameReader → Wakes → Out Bytes
wait_read deadline r [] = ret [] r []
wait_read true r (late ∷ ws) = raise timed_out r ws
wait_read false r (late ∷ ws) = wait_read false r ws
wait_read deadline r (arrives chunk ∷ ws) = ret chunk r ws

-- `_chunk`
unfoldable pub read_chunk : Bool → FrameReader → Wakes → Out Bytes
unfolding wait_read
read_chunk deadline r ws = elim r.fd [ none ↦ raise closed r ws | some _ ↦ wait_read deadline r ws ]

abbrev pub push : FrameReader → Bytes → FrameReader
push r chunk = record r { buf = r.buf ++ chunk }

-- What `_fill` does with its chunk.
unfoldable pub take_in : Out Bytes → Out Bool
take_in (raise e r ws) = raise e r ws
take_in (ret [] r ws) = ret false r ws
take_in (ret (b ∷ bs) r ws) = ret true (push r (b ∷ bs)) ws

-- `_fill`
unfoldable pub fill : Bool → FrameReader → Wakes → Out Bool
unfolding read_chunk take_in
fill deadline r ws = take_in (read_chunk deadline r ws)

-- One round of a loop on `_fill`: the loop goes on unless the file has ended.
abbrev pub after_fill : (FrameReader → Wakes → Out Bool) → Out Bool → Out Bool
after_fill loop (ret true r ws) = loop r ws
after_fill loop (ret false r ws) = ret false r ws
after_fill loop (raise e r ws) = raise e r ws

-- `while len(self._buf) < size: if not self._fill(deadline): ...`: true once there are enough
-- bytes, false at end of file. Each round that goes on uses up a wake.
unfoldable pub fill_loop : ℕ → ℕ → Bool → FrameReader → Wakes → Out Bool
fill_loop zero size deadline r ws = ret false r ws
fill_loop (suc fuel) size deadline r ws =
    if ltb (length r.buf) size
    then after_fill (fill_loop fuel size deadline) (fill deadline r ws)
    else ret true r ws

unfoldable pub fill_until : ℕ → Bool → FrameReader → Wakes → Out Bool
unfolding fill_loop
fill_until size deadline r ws = fill_loop (suc (length ws)) size deadline r ws

-- `payload = bytes(self._buf[4:end]); del self._buf[:end]`
unfoldable pub cut_frame : ℕ → FrameReader → Wakes → Out (Option Bytes)
cut_frame size r ws =
    ret (some (take size (drop header_size r.buf)))
      (record r { buf = drop (header_size + size) r.buf }) ws

-- After the second loop.
unfoldable pub end_payload : ℕ → Out Bool → Out (Option Bytes)
unfolding cut_frame
end_payload size (ret true r ws) = cut_frame size r ws
end_payload size (ret false r ws) = raise mid_frame r ws
end_payload size (raise e r ws) = raise e r ws

-- The length test, before the payload is buffered, and the second loop.
unfoldable pub read_payload : ℕ → Bool → FrameReader → Wakes → Out (Option Bytes)
unfolding end_payload fill_until
read_payload size deadline r ws =
    if ltb r.max_frame size
    then raise over_cap r ws
    else end_payload size (fill_until (header_size + size) deadline r ws)

-- After the first loop.
unfoldable pub end_header : Bool → Out Bool → Out (Option Bytes)
unfolding read_payload
end_header deadline (ret true r ws) = read_payload (unpack_from r.buf) deadline r ws
end_header deadline (ret false r ws) =
    if is_empty r.buf then ret none r ws else raise mid_header r ws
end_header deadline (raise e r ws) = raise e r ws

-- `read` from its first loop on.
unfoldable pub read_buffered : Bool → FrameReader → Wakes → Out (Option Bytes)
unfolding end_header fill_until
read_buffered deadline r ws = end_header deadline (fill_until header_size deadline r ws)

-- `if not self._buf` with a first chunk in hand: a whole frame is handed over from the chunk.
unfoldable pub first_chunk : Bool → Bytes → FrameReader → Wakes → Out (Option Bytes)
unfolding read_buffered
first_chunk deadline [] r ws = ret none r ws
first_chunk deadline (b ∷ bs) r ws =
    let chunk = b ∷ bs in
    let size = unpack_from chunk in
    if leb header_size (length chunk)
    then (if ltb r.max_frame size
        then raise over_cap r ws
        else if length chunk == header_size + size
        then ret (some (drop header_size chunk)) r ws
        else read_buffered deadline (push r chunk) ws)
    else read_buffered deadline (push r chunk) ws

-- The first call of `_chunk` in `read`.
unfoldable pub begin_empty : Bool → Out Bytes → Out (Option Bytes)
unfolding first_chunk
begin_empty deadline (ret chunk r ws) = first_chunk deadline chunk r ws
begin_empty deadline (raise e r ws) = raise e r ws

-- `read`
unfoldable pub read : Bool → FrameReader → Wakes → Out (Option Bytes)
unfolding read_chunk begin_empty read_buffered
read deadline r ws =
    if is_empty r.buf
    then begin_empty deadline (read_chunk deadline r ws)
    else read_buffered deadline r ws
