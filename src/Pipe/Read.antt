-- ===== src/Pipe/Read.antt =====
-- `poll_read` of src/pipe.rs: a description of it that has no slice, no index and no panic. The
-- children prove that the code agrees with it, and what follows for the bytes of the stream.
mod Place
pub mod Exact
pub mod Stream
pub mod Pending
pub mod Session
use sosistab2_obfsws.Base.{min, none, some, List, [], ◌++◌, ltb, if◌then◌else◌, length, take, drop}
use sosistab2_obfsws.Base.Words.{Bytes}
use sosistab2_obfsws.Io.{ok, ready, pending}
use sosistab2_obfsws.Channel.{Channel}
use sosistab2_obfsws.Pipe.{ObfsWsPipe, Shared, ReadOut}

module _ {C : Channel Bytes} where
  -- The caller gets as much of `bytes` as its buffer holds, and the handle keeps the rest.
  abbrev pub serve : ObfsWsPipe → Shared C → Bytes → Bytes → ReadOut C
  serve p s buf bytes = record {
    poll = ready (ok (min (length buf) (length bytes)));
    buf = take (length buf) bytes ++ drop (length bytes) buf;
    pipe = record p { recv_buf = drop (length buf) bytes };
    shared = s;
  }

  -- No message: the poll is pending, but what the handle held is in the caller's buffer already.
  abbrev pub starve : ObfsWsPipe → Shared C → Bytes → ReadOut C
  starve p s buf = record {
    poll = pending;
    buf = p.recv_buf ++ drop (length p.recv_buf) buf;
    pipe = record p { recv_buf = [] };
    shared = s;
  }

  abbrev pub read_reference : ObfsWsPipe → Shared C → Bytes → ReadOut C
  read_reference p s buf =
      if ltb (length buf) (length p.recv_buf)
      then serve p s buf p.recv_buf
      else elim (C.try_recv s.recv_chan) [
        | none ↦ starve p s buf
        | some (msg, chan) ↦ serve p (record s { recv_chan = chan }) buf (p.recv_buf ++ msg)
      ]
