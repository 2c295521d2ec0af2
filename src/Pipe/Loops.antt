-- ===== src/Pipe/Loops.antt =====
-- The two background loops of src/pipe.rs, `send_loop` and `recv_loop`, which `new` spawns as one
-- race, beside the calls of the handle. A step of a loop runs it from one `await` to the next.
pub mod Outgoing
pub mod Delivery
pub mod Closing
pub mod Progress
pub mod Across
mod Tests
use sosistab2_obfsws.Base.{
  ℕ, Bool, true, false, Option, none, some, List, [], ◌∷◌, ◌++◌, length, take, if◌then◌else◌,
}
use sosistab2_obfsws.Base.Words.{Bytes}
use sosistab2_obfsws.Base.Slices.{done, panic}
use sosistab2_obfsws.Io.{ok, err, ready, pending, Text}
use sosistab2_obfsws.Channel.{Channel, accepts}
use sosistab2_obfsws.Pipe.{ObfsWsPipe, Shared, ReadOut, new, poll_write, poll_close, poll_read}

-- Where `send_loop` stands: at the test of `closed`, at `recv().await`, at `send(msg).await`, or
-- gone. A message whose sending was cut off goes with it.
pub data SendLoop : Type 0 where
  testing waiting : SendLoop
  writing : Bytes → SendLoop
  gone : List Bytes → SendLoop

-- `recv_loop`: at the test, at `next().await`, at `send(msg).await`, or gone.
pub data RecvLoop : Type 0 where
  testing waiting : RecvLoop
  forwarding : Bytes → RecvLoop
  gone : List Bytes → RecvLoop

-- What the websocket's stream yields: `Some(Ok(Binary))`, `Some(Ok(_))`, `Some(Err)` and `None`.
pub data Incoming : Type 0 where
  binary : Bytes → Incoming
  other_message failed ended : Incoming

-- A handle, the store, the loops, and what went over: the messages that `poll_write` put into the
-- channel, those that the websocket took, those that it gave, and the bytes that `poll_read` wrote
-- into its callers' buffers.
module _ (C : Channel Bytes) where
  pub record Session : Type 0 where
    pub pipe : ObfsWsPipe
    pub shared : Shared C
    pub sender : SendLoop
    pub receiver : RecvLoop
    pub accepted : List Bytes
    pub sent : List Bytes
    pub arrived : List Bytes
    pub written : Bytes

-- The message that a loop has in its hands.
abbrev pub sending : SendLoop → List Bytes
sending (writing msg) = msg ∷ []
sending (SendLoop.gone lost) = lost
sending _ = []

abbrev pub receiving : RecvLoop → List Bytes
receiving (forwarding msg) = msg ∷ []
receiving (RecvLoop.gone lost) = lost
receiving _ = []

unfoldable pub start : (C : Channel Bytes) → Text → Text → Session C
start C peer_url peer_metadata =
    let (pipe, shared) = new C peer_url peer_metadata in
    record {
      pipe = pipe;
      shared = shared;
      sender = testing;
      receiver = testing;
      accepted = [];
      sent = [];
      arrived = [];
      written = [];
    }

module _ {C : Channel Bytes} where
  -- The end of one loop ends the race: both are dropped, with their ends of the channels.
  unfoldable pub finish : Session C → Session C
  finish t = record t {
    sender = gone (sending t.sender);
    receiver = gone (receiving t.receiver);
    shared = record t.shared {
      send_chan = C.close t.shared.send_chan;
      recv_chan = C.close t.shared.recv_chan;
    };
  }

  abbrev set_closed : Session C → Session C
  set_closed t = record t { shared = record t.shared { closed = true } }

  -- `while ! closed.load(Relaxed)`, then `inner_send_rx.recv().await?`
  -- `sink_ok` is the answer of the websocket to `send(msg).await`.
  unfoldable pub send_step : Session C → Bool → Session C
  unfolding finish
  send_step t sink_ok = elim t.sender [
    | testing ↦ if t.shared.closed then finish t else record t { sender = waiting }
    | waiting ↦ elim (C.try_recv t.shared.send_chan) [
      | none ↦ if (C.view t.shared.send_chan).closed then finish t else t
      | some (msg, chan) ↦ record t {
        sender = writing msg;
        shared = record t.shared { send_chan = chan };
      }
    ]
    | writing msg ↦
        if sink_ok
        then record t { sender = testing; sent = t.sent ++ msg ∷ [] }
        else finish (set_closed t)
    | gone lost ↦ t
  ]

  unfoldable pub recv_step : Session C → Incoming → Session C
  unfolding finish
  recv_step t event = elim t.receiver [
    | testing ↦ if t.shared.closed then finish t else record t { receiver = waiting }
    | waiting ↦ elim event [
      | binary msg ↦ record t { receiver = forwarding msg; arrived = t.arrived ++ msg ∷ [] }
      | other_message ↦ record t { receiver = testing }
      | failed ↦ record t { receiver = testing }
      | ended ↦ finish (set_closed t)
    ]
    | forwarding msg ↦ elim (C.try_send t.shared.recv_chan msg) [
      | none ↦ if (C.view t.shared.recv_chan).closed then finish t else t
      | some chan ↦ record t { receiver = testing; shared = record t.shared { recv_chan = chan } }
    ]
    | gone lost ↦ t
  ]

-- What can happen next: a call of the handle, the last handle going, or a loop resumed.
pub data Event : Type 0 where
  writes : Bytes → Event
  reads : Bytes → Event
  closes drops : Event
  sends : Bool → Event
  receives : Incoming → Event

module _ {C : Channel Bytes} where
  -- Whether `poll_write` puts its message into the channel.
  abbrev pub takes : Shared C → Bool
  takes s = if s.closed then false else accepts (C.view s.send_chan)

  unfoldable pub write_step : Session C → Bytes → Session C
  write_step t msg = record t {
    shared = (poll_write t.shared msg).1;
    accepted = if takes t.shared then t.accepted ++ msg ∷ [] else t.accepted;
  }

  -- The bytes at the front of the caller's buffer that a poll of `p` wrote.
  abbrev pub written_by : ObfsWsPipe → ReadOut C → Bytes
  written_by p out = elim out.poll [
    | ready answer ↦ elim answer [ ok n ↦ take n out.buf | err e ↦ [] ]
    | pending ↦ take (length p.recv_buf) out.buf
  ]

  unfoldable pub read_step : Session C → Bytes → Session C
  read_step t buf = elim (poll_read t.pipe t.shared buf) [
    | done out ↦ record t {
      pipe = out.pipe;
      shared = out.shared;
      written = t.written ++ written_by t.pipe out;
    }
    | panic ↦ t
  ]

  unfoldable pub close_step : Session C → Session C
  close_step t = record t { shared = (poll_close t.shared).1 }

  -- The last handle goes, and with it the handle's ends of both channels.
  unfoldable pub drop_step : Session C → Session C
  drop_step t = record t {
    shared = record t.shared {
      send_chan = C.close t.shared.send_chan;
      recv_chan = C.close t.shared.recv_chan;
    };
  }

  unfoldable pub step : Session C → Event → Session C
  step t (writes msg) = write_step t msg
  step t (reads buf) = read_step t buf
  step t closes = close_step t
  step t drops = drop_step t
  step t (sends sink_ok) = send_step t sink_ok
  step t (receives event) = recv_step t event

  unfoldable pub run : Session C → List Event → Session C
  run t [] = t
  run t (e ∷ es) = run (step t e) es
