-- ===== src/Pipe/Loops/Tests.antt =====
-- Two pipes of src/pipe.rs over one websocket, at a concrete input.
use sosistab2_obfsws.Base.{◌≡◌, refl, true, List, [], ◌∷◌, ◌++◌, concat}
use sosistab2_obfsws.Base.Words.{Bytes}
use sosistab2_obfsws.Base.Slices.{checked_sub, read_slice, write_slice}
use sosistab2_obfsws.Channel.{Channel, queue_channel}
use sosistab2_obfsws.Pipe.{new, poll_write, poll_read}
use sosistab2_obfsws.Pipe.Loops.{
  Event, writes, reads, sends, receives, binary, start, run, step, write_step, send_step, recv_step,
  read_step,
}
use sosistab2_obfsws.Pipe.Loops.Across.{underway, pipe_to_pipe}

abbrev C : Channel Bytes
C = queue_channel Bytes

-- Three messages are written, of which two are sent.
abbrev near : List Event
near =
    writes (1 ∷ 2 ∷ [])
    ∷ writes (3 ∷ [])
    ∷ sends true
    ∷ sends true
    ∷ sends true
    ∷ sends true
    ∷ sends true
    ∷ sends true
    ∷ writes (4 ∷ [])
    ∷ []

-- The first of them arrives, and a byte of it is read.
abbrev far : List Event
far =
    receives (binary [])
    ∷ receives (binary (1 ∷ 2 ∷ []))
    ∷ receives (binary [])
    ∷ reads (0 ∷ [])
    ∷ []

over : (run (start C [] []) near).sent ≡ (run (start C [] []) far).arrived ++ (3 ∷ []) ∷ []
unfolding run step start new write_step send_step recv_step read_step poll_write poll_read
    checked_sub read_slice write_slice
over = refl

pipe_to_pipe_example :
    concat (run (start C [] []) near).accepted
    ≡ (run (start C [] []) far).written
      ++ underway (run (start C [] []) near) ((3 ∷ []) ∷ []) (run (start C [] []) far)
pipe_to_pipe_example = pipe_to_pipe C C [] [] [] [] near far ((3 ∷ []) ∷ []) over
