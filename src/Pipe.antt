-- ===== src/Pipe.antt =====
-- The handle `ObfsWsPipe` of src/pipe.rs and its non-blocking operations.
-- What the clones of a handle share (the two channels, the `closed` flag) is a store of its own,
-- passed in and out of each operation; `recv_buf` and `peer_url` belong to one handle.
pub mod Read
pub mod Write
pub mod Loops
pub mod Connect
mod Tests
use sosistab2_obfsws.Base.{
  ℕ, ◌+◌, Bool, true, false, Option, none, some, List, [], ◌∷◌, ◌++◌, length, ltb, if◌then◌else◌,
}
use sosistab2_obfsws.Base.Words.{Bytes}
use sosistab2_obfsws.Base.Slices.{Exec, done, panic, ◌>>=◌, checked_sub, read_slice, write_slice}
use sosistab2_obfsws.Io.{ErrorKind, broken_pipe, Result, ok, err, Poll, ready, pending, Text, codes}
use sosistab2_obfsws.Channel.{Channel}

-- `smol::channel::bounded(100000)`
abbrev pub channel_capacity : ℕ
channel_capacity = 100_000

pub record ObfsWsPipe : Type 0 where
  pub recv_buf : Bytes
  pub peer_url : Text

module _ (C : Channel Bytes) where
  pub record Shared : Type 0 where
    pub send_chan : C.Chan
    pub recv_chan : C.Chan
    pub closed : Bool

-- What a poll of the reader leaves: its answer, the caller's buffer, the handle and the store.
module _ (C : Channel Bytes) where
  pub record ReadOut : Type 0 where
    pub poll : Poll (Result ErrorKind ℕ)
    pub buf : Bytes
    pub pipe : ObfsWsPipe
    pub shared : Shared C

unfoldable pub protocol : ObfsWsPipe → Text
protocol p = codes "sosistab3-obfsws"

-- `#[derive(Clone)]`: the clone shares the store, and has a copy of the buffer.
unfoldable pub clone : ObfsWsPipe → ObfsWsPipe
clone p = record { recv_buf = p.recv_buf; peer_url = p.peer_url }

-- The state that `new` makes; Pipe/Loops has the two loops that it spawns.
unfoldable pub new : (C : Channel Bytes) → Text → Text → ObfsWsPipe × Shared C
new C peer_url peer_metadata =
    (record { recv_buf = []; peer_url = peer_url ++ codes "#" ++ peer_metadata }, store)
  where
    store : Shared C
    store = record {
      send_chan = C.bounded channel_capacity;
      recv_chan = C.bounded channel_capacity;
      closed = false;
    }

module _ {C : Channel Bytes} where
  unfoldable pub is_closed : Shared C → Bool
  is_closed s = s.closed

  -- The message is dropped where the channel takes none, and its length is returned all the same.
  unfoldable pub poll_write : Shared C → Bytes → Poll (Result ErrorKind ℕ) × Shared C
  poll_write s msg =
      if s.closed then (ready (err broken_pipe), s) else (ready (ok (length msg)), sent)
    where
      sent : Shared C
      sent = elim (C.try_send s.send_chan msg) [
        | none ↦ s
        | some chan ↦ record s { send_chan = chan }
      ]

  unfoldable pub poll_flush : Shared C → Poll (Result ErrorKind (Unit {0}))
  poll_flush s = ready (if s.closed then err broken_pipe else ok tt)

  unfoldable pub poll_close : Shared C → Poll (Result ErrorKind (Unit {0})) × Shared C
  poll_close s = (ready (ok tt), record s { closed = true })

  unfoldable pub remote_addr : ObfsWsPipe → Shared C → Option Text
  unfolding is_closed
  remote_addr p s = if is_closed s then none else some p.peer_url

  -- The second half of `poll_read`: a message `buf2` goes into `buf` from `buf_pos` on, and what
  -- does not fit into `recv_buf`.
  unfoldable pub place_message : ObfsWsPipe → Shared C → Bytes → ℕ → Bytes → Exec (ReadOut C)
  place_message p s buf buf_pos buf2 = do
    buf_remaining ← checked_sub (length buf) buf_pos
    if ltb buf_remaining (length buf2) then overfull buf_remaining else fits
    where
      overfull : ℕ → Exec (ReadOut C)
      overfull buf_remaining = do
        head ← read_slice buf2 0 buf_remaining
        buf' ← write_slice buf buf_pos (length buf) head
        tail ← read_slice buf2 buf_remaining (length buf2)
        done (record {
          poll = ready (ok (buf_pos + buf_remaining));
          buf = buf';
          pipe = record p { recv_buf = p.recv_buf ++ tail };
          shared = s;
        })

      fits : Exec (ReadOut C)
      fits = do
        buf' ← write_slice buf buf_pos (buf_pos + length buf2) buf2
        done
            (record { poll = ready (ok (buf_pos + length buf2)); buf = buf'; pipe = p; shared = s })

  unfoldable pub poll_channel : ObfsWsPipe → Shared C → Bytes → ℕ → Exec (ReadOut C)
  unfolding place_message
  poll_channel p s buf buf_pos = elim (C.try_recv s.recv_chan) [
    | none ↦ done (record { poll = pending; buf = buf; pipe = p; shared = s })
    | some (buf2, chan) ↦ place_message p (record s { recv_chan = chan }) buf buf_pos buf2
  ]

  -- Bytes left over from an earlier message come first.
  unfoldable pub poll_read : ObfsWsPipe → Shared C → Bytes → Exec (ReadOut C)
  unfolding poll_channel
  poll_read p s buf = if ltb 0 (length p.recv_buf) then leftover else poll_channel p s buf 0
    where
      from_buffer : Exec (ReadOut C)
      from_buffer = do
        head ← read_slice p.recv_buf 0 (length buf)
        buf' ← write_slice buf 0 (length buf) head
        rest ← read_slice p.recv_buf (length buf) (length p.recv_buf)
        done (record {
          poll = ready (ok (length buf));
          buf = buf';
          pipe = record p { recv_buf = rest };
          shared = s;
        })

      drain : Exec (ReadOut C)
      drain = do
        buf' ← write_slice buf 0 (length p.recv_buf) p.recv_buf
        poll_channel (record p { recv_buf = [] }) s buf' (0 + length p.recv_buf)

      leftover : Exec (ReadOut C)
      leftover = do
        buf_remaining ← checked_sub (length buf) 0
        if ltb buf_remaining (length p.recv_buf) then from_buffer else drain
