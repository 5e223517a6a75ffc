-- ===== src/Tests/Wire.antt =====
-- Frames over a pipe: python/pydeno/_wire.py at concrete inputs.
use pydeno.Prelude.{◌≡◌, refl, true, none, some, List, [], ◌∷◌, ◌++◌, Bytes, arith}
use pydeno.Wire.Codec.{header, pack, unpack_from}
use pydeno.Wire.Writer
use pydeno.Wire.Writer.{
  FrameWriter, Attempts, wrote, would_block, failed, stalled_write, broken_pipe, send_encoded,
  write_loop,
}
use pydeno.Wire.Writer.Pipe.{Writes, send_encoded-Writes}
use pydeno.Wire.Writer.Stall.{send_encoded_in_time, send_encoded_stalls}
use pydeno.Wire.Reader
use pydeno.Wire.Reader.{
  FrameReader, Wakes, late, arrives, Out, ret, raise, timed_out, over_cap, mid_frame, read,
}
use pydeno.Wire.Reader.Delivers.{Delivers, read-Delivers}
use pydeno.Wire.Reader.Frames.{drain}
use pydeno.Wire.Transport.{send_all, drain-send_all}

abbrev open_writer : FrameWriter
open_writer = record { fd = some 4; stall = some 30; pipe = [] }

abbrev open_reader : FrameReader
open_reader = record { fd = some 3; max_frame = 16; buf = [] }

-- Three bytes in two writes, with a block between them.
abbrev slow : Attempts
slow = wrote 3 ∷ would_block 7 true ∷ wrote 2 ∷ []

-- The frame of three bytes in three reads, and the beginning of the next one.
abbrev cut_reads : Wakes
cut_reads = arrives (3 ∷ 0 ∷ []) ∷ arrives (0 ∷ 0 ∷ 104 ∷ []) ∷ arrives (105 ∷ 33 ∷ 1 ∷ []) ∷ []

-- One call of `read` gives the three bytes, and keeps the byte behind them.
read_in_pieces :
    read true open_reader cut_reads
    ≡ ret (some (104 ∷ 105 ∷ 33 ∷ [])) (record open_reader { buf = 1 ∷ [] }) []
unfolding read Reader.fill unpack_from
read_in_pieces = refl

read_over_cap :
    read true open_reader (arrives (17 ∷ 0 ∷ 0 ∷ 0 ∷ []) ∷ []) ≡ raise over_cap open_reader []
unfolding read Reader.fill unpack_from
read_over_cap = refl

send_slow :
    send_encoded open_writer (104 ∷ 105 ∷ []) slow
    ≡ (record open_writer { pipe = 2 ∷ 0 ∷ 0 ∷ 0 ∷ 104 ∷ 105 ∷ [] }, none)
unfolding send_encoded pack header
send_slow = refl

read-Delivers_example : Delivers open_reader cut_reads (read true open_reader cut_reads)
read-Delivers_example = read-Delivers true open_reader cut_reads (omega arith)

send_encoded-Writes_example :
    Writes open_writer
      (header 2 ++ (104 ∷ 105 ∷ []))
      (send_encoded open_writer (104 ∷ 105 ∷ []) slow)
send_encoded-Writes_example =
    send_encoded-Writes open_writer (104 ∷ 105 ∷ []) slow 4 refl (omega arith)

send_encoded_in_time_example : (send_encoded open_writer (104 ∷ 105 ∷ []) slow).1 ≡ none
send_encoded_in_time_example =
    send_encoded_in_time open_writer (104 ∷ 105 ∷ []) slow 4 5 30 refl refl (omega arith)
      (tt, ((refl, omega arith, omega arith), (tt, tt)))

-- The first write blocks at 3; the loop blocks first at 5, and the peer takes a byte since; still the
-- block at 35 raises.
send_encoded_stalls_example :
    (send_encoded open_writer
      (104 ∷ 105 ∷ [])
      (would_block 3 true ∷ would_block 5 true ∷ wrote 1 ∷ would_block 35 true ∷ [])).1
    ≡ some stalled_write
send_encoded_stalls_example =
    send_encoded_stalls 5 35 30 true true (1 ∷ []) [] open_writer (104 ∷ 105 ∷ [])
      (would_block 3 true) [] 4 0 refl refl (omega arith) refl (omega arith) (omega arith)

abbrev messages : List (Bytes × Attempts)
messages = ((104 ∷ 105 ∷ []), slow) ∷ ([], []) ∷ []

abbrev cut_messages : Wakes
cut_messages =
    arrives (2 ∷ []) ∷ arrives (0 ∷ 0 ∷ 0 ∷ 104 ∷ 105 ∷ 0 ∷ []) ∷ arrives (0 ∷ 0 ∷ 0 ∷ []) ∷ []

drain-send_all_example : drain 3 true (Reader.init 3 16) cut_messages ≡ (104 ∷ 105 ∷ []) ∷ [] ∷ []
unfolding Writer.init send_all send_encoded pack header
drain-send_all_example =
    drain-send_all true 3 4 16 (some 30) messages cut_messages (omega arith) (omega arith)
      (omega arith) refl (refl, (refl, (refl, tt))) refl
